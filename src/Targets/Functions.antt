-- ===== src/Targets/Functions.antt =====
-- `targets/targetfuncs.nut`: the functions of the scripts for any target. What they log is not
-- modelled.
pub mod Scs
pub mod CmdType
pub mod CmdStatus
use Prim.Native.Nat.{bit_and, bit_or}
use swagger.Prelude.{
  ℕ, zero, suc, ◌+◌, Option, some, List, [], ◌∷◌, Bool, true, false, none, ◌==◌, if◌then◌else◌,
}
use swagger.Firmware.Stuff.{◌>>=◌}
use swagger.Host.Packet.{SerialPort}
use swagger.Host.Script.{SquirrelVm, Session}
use swagger.Targets.{
  CallFrames, minus_one, call_clear, call_queue8, call_queue32, call_pop8, call_pop32, call_execute,
}

abbrev pub dp_abort : ℕ
dp_abort = 0x00

abbrev pub dp_ctrl_stat : ℕ
dp_ctrl_stat = 0x04

abbrev pub max_retries : ℕ
max_retries = 100

module _ (m : SquirrelVm) (f : CallFrames m) (q : SerialPort) where
  unfoldable pub queue_read_dp : (address : ℕ) → Session m q → Session m q
  queue_read_dp address s = call_queue8 m f q address (call_queue8 m f q CmdType.read_dp s)

  unfoldable pub queue_write_dp : (address value : ℕ) → Session m q → Session m q
  queue_write_dp address value s =
      call_queue32 m f q value (call_queue8 m f q address (call_queue8 m f q CmdType.write_dp s))

  unfoldable pub queue_read_ap : (address : ℕ) → Session m q → Session m q
  queue_read_ap address s = call_queue32 m f q address (call_queue8 m f q CmdType.read_ap s)

  unfoldable pub queue_write_ap : (address value : ℕ) → Session m q → Session m q
  queue_write_ap address value s =
      call_queue32 m f q value (call_queue32 m f q address (call_queue8 m f q CmdType.write_ap s))

  unfoldable pub queue_read_stat : Session m q → Session m q
  queue_read_stat s = queue_read_dp dp_ctrl_stat s

  unfoldable pub queue_write_stat : (value : ℕ) → Session m q → Session m q
  queue_write_stat value s = queue_write_dp dp_ctrl_stat value s

  unfoldable pub queue_write_memory : (address value : ℕ) → Session m q → Session m q
  queue_write_memory address value s =
      call_queue32 m f q value (call_queue32 m f q address (call_queue8 m f q CmdType.write_mem s))

  unfoldable pub queue_read_memory : (address : ℕ) → Session m q → Session m q
  queue_read_memory address s = call_queue32 m f q address (call_queue8 m f q CmdType.read_mem s)

  unfoldable pub queue_poll_memory : (address mask : ℕ) → Session m q → Session m q
  queue_poll_memory address mask s =
      call_queue32 m f q mask
        (call_queue32 m f q address (call_queue8 m f q CmdType.wait_mem_true s))

  -- The functions that run the queue; `fuel` and `c` are those of `readPacket`.
  module _ (fuel c : ℕ) where
    unfoldable pub set_reset : (state : ℕ) → Session m q → Option (Session m q)
    set_reset state s = do
      let s1 = call_queue8 m f q state (call_queue8 m f q CmdType.reset (call_clear m f q s))
      (r, s2) ← call_execute m f q fuel c s1
      some s2

    -- The end of a round of `connect`.
    unfoldable pub connect_round :
        (again : Session m q → Option (ℕ × Session m q))
        → (result : ℕ) → ℕ × Session m q
        → Option (ℕ × Session m q)
    connect_round again result (idcode, s) = elim (result == CmdStatus.ok) [
      | true ↦ some (idcode, s)
      | false ↦ again s
    ]

    -- `while (retries < 10)`, with the rounds that are left.
    unfoldable pub connect_loop : (left : ℕ) → Session m q → Option (ℕ × Session m q)
    connect_loop zero s = some (minus_one, s)
    connect_loop (suc left) s = do
      (r, s1) ← call_execute m f q fuel c (call_queue8 m f q CmdType.connect (call_clear m f q s))
      let (result, s2) = call_pop8 m f q s1
      connect_round (connect_loop left) result (call_pop32 m f q s2)

    unfoldable pub connect : Session m q → Option (ℕ × Session m q)
    connect s = connect_loop 10 s

    -- What follows the queueing in a function that reads a word.
    unfoldable pub run_read : Session m q → Option (ℕ × Session m q)
    run_read s = do
      (r, s1) ← call_execute m f q fuel c s
      let (status, s2) = call_pop8 m f q s1
      some (if status == CmdStatus.ok then call_pop32 m f q s2 else (0, s2))

    -- What follows the queueing in a function that writes.
    unfoldable pub run_write : Session m q → Option (ℕ × Session m q)
    run_write s = do (r, s1) ← call_execute m f q fuel c s; some (call_pop8 m f q s1)

    unfoldable pub read_stat : Session m q → Option (ℕ × Session m q)
    read_stat s = run_read (queue_read_stat (call_clear m f q s))

    unfoldable pub write_stat : (value : ℕ) → Session m q → Option (ℕ × Session m q)
    write_stat value s = run_write (queue_write_stat value (call_clear m f q s))

    unfoldable pub read_ap : (address : ℕ) → Session m q → Option (ℕ × Session m q)
    read_ap address s = run_read (queue_read_ap address (call_clear m f q s))

    unfoldable pub write_ap : (address value : ℕ) → Session m q → Option (ℕ × Session m q)
    write_ap address value s = run_write (queue_write_ap address value (call_clear m f q s))

    -- The test of the word that a round of `pollAP` or of `pollAP_not` has read.
    unfoldable pub poll_word :
        (again : Session m q → Option (ℕ × Session m q)) (stops : ℕ → Bool)
        → ℕ × Session m q
        → Option (ℕ × Session m q)
    poll_word again stops (v, s) = elim (stops v) [
      | true ↦ some (CmdStatus.ok, s)
      | false ↦ again s
    ]

    -- The end of a round, from the status on.
    unfoldable pub poll_round :
        (again : Session m q → Option (ℕ × Session m q)) (stops : ℕ → Bool)
        → ℕ × Session m q
        → Option (ℕ × Session m q)
    poll_round again stops (status, s) = elim (status == CmdStatus.ok) [
      | false ↦ some (status, s)
      | true ↦ poll_word again stops (call_pop32 m f q s)
    ]

    -- `while(retries < MAX_RETRIES)`, with the rounds that are left.
    unfoldable pub poll_loop :
        (left address : ℕ) (stops : ℕ → Bool) → Session m q → Option (ℕ × Session m q)
    poll_loop zero address stops s = some (CmdStatus.timeout, s)
    poll_loop (suc left) address stops s = do
      (r, s1) ← call_execute m f q fuel c (queue_read_ap address (call_clear m f q s))
      poll_round (poll_loop left address stops) stops (call_pop8 m f q s1)

    unfoldable pub poll_ap : (address mask : ℕ) → Session m q → Option (ℕ × Session m q)
    poll_ap address mask s = poll_loop max_retries address (λ v. bit_and v mask == mask) s

    unfoldable pub poll_ap_not : (address mask : ℕ) → Session m q → Option (ℕ × Session m q)
    poll_ap_not address mask s =
        poll_loop max_retries address (λ v. if bit_and v mask == mask then false else true) s

    unfoldable pub read_memory : (address : ℕ) → Session m q → Option (ℕ × Session m q)
    read_memory address s = run_read (queue_read_memory address (call_clear m f q s))

    unfoldable pub write_memory : (address value : ℕ) → Session m q → Option (ℕ × Session m q)
    write_memory address value s = run_write (queue_write_memory address value (call_clear m f q s))

    unfoldable pub read_core_register : (reg : ℕ) → Session m q → Option (ℕ × Session m q)
    read_core_register reg s = do
      (status, s') ← write_memory Scs.dcrsr reg s
      read_memory Scs.dcrdr s'

    unfoldable pub write_core_register : (reg value : ℕ) → Session m q → Option (ℕ × Session m q)
    write_core_register reg value s = do
      (status, s') ← write_memory Scs.dcrdr value s
      write_memory Scs.dcrsr (bit_or (bit_and reg 0x1F) Scs.write_register) s'

    -- It returns `status`, which is not declared: `none` is the error that the script throws there.
    unfoldable pub clear_sticky_errors : Session m q → Option (Option ℕ × Session m q)
    clear_sticky_errors s = do
      let s0 = call_queue8 m f q CmdType.write_dp (call_clear m f q s)
      let s1 = call_queue32 m f q (1 + 2 + 4 + 8 + 16) (call_queue8 m f q dp_abort s0)
      (r, s2) ← call_execute m f q fuel c s1
      let (result, s3) = call_pop8 m f q s2
      some (
          if r == 0
          then (if result == CmdStatus.ok then (some CmdStatus.ok, s3) else (none, s3))
          else (some CmdStatus.proto_err, s2))
