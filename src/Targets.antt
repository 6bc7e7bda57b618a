-- ===== src/Targets.antt =====
-- How the scripts of `targets` call the functions of `src/squirrel_funcs.cpp`. The virtual machine
-- makes a frame for a call and takes its result; it is a parameter.
pub mod Functions
pub mod Queueing
pub mod Turn
pub mod One
pub mod Returns
pub mod Connects
pub mod Verify
pub mod Kinetis
pub mod Start
use swagger.Prelude.{ℕ, ◌+◌, ◌-◌, ◌^◌, ◌≡◌, Option, some, List, [], ◌∷◌, length}
use swagger.Firmware.Stuff.{◌>>=◌}
use swagger.Host.Packet.{SerialPort}
use swagger.Host.Script.{
  SquirrelVm, Session, Call, queue_u_int8, queue_u_int32, execute_cmd_queue, pop_u_int8,
  pop_u_int32, clear_cmd_queue,
}

-- What the virtual machine does around a call: in its frame a native function finds the environment
-- and then the arguments, with the last one at the top, and the value it has pushed last is the
-- result.
pub record CallFrames (m : SquirrelVm) : Type 0 where
  pub enter : (args : List ℕ) → m.Vm → m.Vm
  pub result : m.Vm → ℕ
  pub leave : m.Vm → m.Vm
  pub enter_top : (args : List ℕ) (vm : m.Vm) → m.get_top (enter args vm) ≡ 1 + length args
  pub enter_integer : (x : ℕ) (vm : m.Vm) → m.get_integer (enter (x ∷ []) vm) ≡ some x
  pub result_push : (x : ℕ) (vm : m.Vm) → result (m.push_integer x vm) ≡ x

-- -1 as an `SQInteger` of 64 bits.
abbrev pub minus_one : ℕ
minus_one = 2 ^ 64 - 1

module _ (m : SquirrelVm) (f : CallFrames m) (q : SerialPort) where
  -- A call and its result, which means nothing where the function returns no value.
  unfoldable pub call_native :
      (Session m q → Call m q) → (args : List ℕ) → Session m q → ℕ × Session m q
  call_native native args s =
      let (count, s') = native (record s { vm = f.enter args s.vm }) in
      (f.result s'.vm, record s' { vm = f.leave s'.vm })

  unfoldable pub call_clear : Session m q → Session m q
  call_clear s = (call_native (clear_cmd_queue m q) [] s).1

  unfoldable pub call_queue8 : ℕ → Session m q → Session m q
  call_queue8 x s = (call_native (queue_u_int8 m q) (x ∷ []) s).1

  unfoldable pub call_queue32 : ℕ → Session m q → Session m q
  call_queue32 x s = (call_native (queue_u_int32 m q) (x ∷ []) s).1

  unfoldable pub call_pop8 : Session m q → ℕ × Session m q
  call_pop8 s = call_native (pop_u_int8 m q) [] s

  unfoldable pub call_pop32 : Session m q → ℕ × Session m q
  call_pop32 s = call_native (pop_u_int32 m q) [] s

  -- `none` is the loop of `readPacket` that is out of fuel.
  unfoldable pub call_execute : (fuel c : ℕ) → Session m q → Option (ℕ × Session m q)
  call_execute fuel c s = do
    (count, s') ← execute_cmd_queue m q fuel c (record s { vm = f.enter [] s.vm })
    some (f.result s'.vm, record s' { vm = f.leave s'.vm })
