-- ===== src/Host/Script.antt =====
-- `src/squirrel_funcs.cpp`: the functions that a script calls. The Squirrel virtual machine is a
-- parameter, and so is the serial port.
use Prim.Native.Nat.{bit_and}
use swagger.Prelude.{
  ℕ, ◌/◌, ◌%◌, ◌^◌, Bool, Option, none, some, List, [], ◌∷◌, ◌++◌, ltb, ◌*◌, ◌==◌, if◌then◌else◌,
  length,
}
use swagger.Word32.{join}
use swagger.Firmware.Stuff.{◌>>=◌}
use swagger.Host.Packet.{SerialPort, HardwareInterface, LastError, write_packet, read_packet}
pub mod Words
pub mod Exchange

-- What is used of the API of the virtual machine. An integer is the two's complement pattern of
-- an `SQInteger`, which has 32 bits or more; `get_integer` reads the top of the stack, and is `none`
-- where `sq_getinteger` fails.
pub record SquirrelVm : Type 1 where
  pub Vm : Type 0
  pub get_top : Vm → ℕ
  pub get_integer : Vm → Option ℕ
  pub push_integer : ℕ → Vm → Vm

-- What is printed.
pub data Message : Type 0 where
  not_enough_parameters : Message
  not_an_integer : Message
  write_packet_error : LastError → Message
  read_packet_error : LastError → Message
  last_packet_error : LastError → Message
  queue_bytes : (size : ℕ) → List ℕ → Message

module _ (m : SquirrelVm) (q : SerialPort) where
  -- The virtual machine and the globals; `messages` is the output, newest first.
  pub record Session : Type 0 where
    pub vm : m.Vm
    pub interface : HardwareInterface q
    pub cmd_queue : List ℕ
    pub result_queue : List ℕ
    pub messages : List Message

  -- The number of values returned to the script, and the state.
  abbrev pub Call : Type 0
  Call = ℕ × Session

  unfoldable pub push : ℕ → Session → Session
  push x s = record s { vm = m.push_integer x s.vm }

  pub print : Message → Session → Session
  print message s = record s { messages = message ∷ s.messages }

  pub queue_u_int8 : Session → Call
  queue_u_int8 s =
      if m.get_top s.vm == 2
      then (elim (m.get_integer s.vm) [
        | none ↦ (0, print not_an_integer s)
        | some byte ↦ (0, record s { cmd_queue = s.cmd_queue ++ (byte % 256 ∷ []) })
      ])
      else (0, print not_enough_parameters s)

  pub queue_u_int32 : Session → Call
  queue_u_int32 s =
      if m.get_top s.vm == 2
      then (elim (m.get_integer s.vm) [
        | none ↦ (0, print not_an_integer s)
        | some word ↦ (
          0,
          record s {
            cmd_queue =
                (((s.cmd_queue ++ (bit_and word 0xFF ∷ [])) ++ (bit_and (word / 2 ^ 8) 0xFF ∷ []))
                  ++ (bit_and (word / 2 ^ 16) 0xFF ∷ []))
                ++ (bit_and (word / 2 ^ 24) 0xFF ∷ []);
          },
        )
      ])
      else (0, print not_enough_parameters s)

  -- The queue is not cleared, and the result code is pushed whatever happened. `fuel` and `c` are
  -- those of `read_packet`.
  pub execute_cmd_queue : (fuel c : ℕ) → Session → Option Call
  execute_cmd_queue fuel c s = do
    let (transmitted, interface) = write_packet q s.cmd_queue s.interface
    let sent = record s { interface = interface; result_queue = [] }
    let s1 =
        if transmitted then sent else push 1 (print (write_packet_error interface.last_error) sent)
    (received, (result, interface')) ← read_packet q fuel c [] s1.interface
    let replied = record s1 { interface = interface'; result_queue = result }
    let s2 =
        if received
        then replied
        else push 2 (print (read_packet_error interface'.last_error) replied)
    some (1, push 0 s2)

  pub pop_u_int8 : Session → Call
  pop_u_int8 s = elim s.result_queue [
    | [] ↦ (1, push 0 s)
    | byte ∷ rest ↦ (1, push byte (record s { result_queue = rest }))
  ]

  -- Nothing is taken from a queue of less than four bytes.
  unfoldable pub pop_word : List ℕ → ℕ × List ℕ
  pop_word (b0 ∷ b1 ∷ b2 ∷ b3 ∷ rest) = (join b0 b1 b2 b3, rest)
  pop_word few = (0, few)

  pub pop_u_int32 : Session → Call
  pop_u_int32 s =
      let (word, rest) = pop_word s.result_queue in
      (1, push word (record s { result_queue = rest }))

  pub dump_cmd_queue : Session → Call
  dump_cmd_queue s = (0, print (queue_bytes (length s.cmd_queue) s.cmd_queue) s)

  pub dump_result_queue : Session → Call
  dump_result_queue s = (0, print (queue_bytes (length s.result_queue) s.result_queue) s)

  pub print_last_packet_error : Session → Call
  print_last_packet_error s = (0, print (last_packet_error s.interface.last_error) s)

  unfoldable pub clear_cmd_queue : Session → Call
  clear_cmd_queue s = (0, record s { cmd_queue = [] })

  -- The times in `ts`, seconds and nanoseconds, that `nanosleep` is called with; `none` is no call,
  -- or one of a negative time, which it refuses. (An `SQInteger` of 64 bits.)
  pub sleep : Session → Call × Option (ℕ × ℕ)
  sleep s =
      if m.get_top s.vm == 2
      then (elim (m.get_integer s.vm) [
        | none ↦ ((0, print not_an_integer s), none)
        | some word ↦
            ((0, s), if ltb word (2 ^ 63) then some (word / 1000, word % 1000 * 1000000) else none)
      ])
      else ((0, print not_enough_parameters s), none)
