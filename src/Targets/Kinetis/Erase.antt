-- ===== src/Targets/Kinetis/Erase.antt =====
-- `targets/nxp/kinetis.nut`: halting the core, and erasing the flash. What they log is not modelled,
-- but for the registers that are read for it.
use Prim.Native.Nat.{bit_and, bit_or}
use swagger.Prelude.{ℕ, zero, suc, ◌/◌, ◌^◌, Bool, true, false, Option, some, ◌==◌, if◌then◌else◌}
use swagger.Firmware.Stuff.{◌>>=◌}
use swagger.Host.Packet.{SerialPort}
use swagger.Host.Script.{SquirrelVm, Session}
use swagger.Targets.{CallFrames, minus_one}
use swagger.Targets.Functions
use swagger.Targets.Functions.Scs
use swagger.Targets.Functions.CmdStatus
use swagger.Targets.Kinetis.Registers

-- `MDM_STAT_COREHALTED` and the like: `retval & bit` as a condition.
unfoldable pub has_bit : (retval mask : ℕ) → Bool
has_bit retval mask = if bit_and retval mask == 0 then false else true

-- `psize_tbl` and `secsize_tbl`; the other entries are -1.
unfoldable pub program_size : ℕ → ℕ
program_size n =
    if n == 0
    then 8
    else if n == 1
    then 16
    else if n == 3
    then 32
    else if n == 5
    then 64
    else if n == 7
    then 128
    else if n == 9
    then 256
    else if n == 15
    then 32
    else minus_one

unfoldable pub sector_size : ℕ → ℕ
sector_size n =
    if n == 0
    then 256
    else if n == 1
    then 512
    else if n == 3
    then 1024
    else if n == 5
    then 2048
    else if n == 7
    then 4096
    else if n == 9
    then 4096
    else if n == 15
    then 1024
    else minus_one

-- `(psize == 32) && (secsize == 1024)` for the register that is read.
unfoldable pub is_supported_size : (fcfg1 : ℕ) → Bool
is_supported_size fcfg1 =
    let n = bit_and (fcfg1 / 2 ^ 24) 0x0F in
    if program_size n == 32 then sector_size n == 1024 else false

module _ (m : SquirrelVm) (q : SerialPort) where
  -- A function of a script.
  abbrev pub Script : Type 0
  Script = Session m q → Option (ℕ × Session m q)

  unfoldable pub return : ℕ → Script
  return value s = some (value, s)

  -- A call, and what follows with its result.
  unfoldable pub call_then : Script → (ℕ → Script) → Script
  call_then call next s = do (r, s') ← call s; next r s'

  -- A call whose result is not used.
  unfoldable pub call_and : Script → Script → Script
  call_and call next = call_then call (λ r. next)

module _ (m : SquirrelVm) (f : CallFrames m) (q : SerialPort) (fuel c : ℕ) where
  unfoldable pub call_set_reset : (state : ℕ) → Script m q
  call_set_reset state s = do s' ← Functions.set_reset m f q fuel c state s; some (0, s')

  -- `while((readStat() & 0xF0000000) != 0xF0000000)`, with the time-outs that are left.
  unfoldable pub power_loop : (left : ℕ) → Script m q
  power_loop zero =
      call_then m q (Functions.read_stat m f q fuel c)
        (λ r. return m q (if bit_and r 0xF000_0000 == 0xF000_0000 then 0 else 1))
  power_loop (suc left) =
      call_then m q (Functions.read_stat m f q fuel c)
        (λ r. if bit_and r 0xF000_0000 == 0xF000_0000 then return m q 0 else power_loop left)

  unfoldable pub enable_debug_power : Script m q
  enable_debug_power = call_and m q (Functions.write_stat m f q fuel c 0x5000_0000) (power_loop 100)

  -- From `result = readAP(MDM_AP_STAT)` on.
  unfoldable pub check_halted : Script m q
  check_halted = call_then m q (Functions.read_ap m f q fuel c Registers.mdm_stat) (λ result.
      if has_bit result Registers.stat_core_halted
      then call_and m q (Functions.read_core_register m f q fuel c 15)
          (call_and m q (Functions.read_core_register m f q fuel c 0x11) (return m q 0))
      else return m q minus_one)

  -- What is written to DHCSR is DHCSR_DBGKEY | C_DEBUGEN | C_HALT | C_MASKINTS.
  unfoldable pub mdm_halt : Script m q
  mdm_halt = call_then m q enable_debug_power (λ power.
      if power == 0
      then call_then m q (Functions.write_memory m f q fuel c Scs.dhcsr 0xA05F_000B) (λ result.
        if result == CmdStatus.ok
        then call_then m q
            (Functions.write_ap m f q fuel c Registers.mdm_ctrl Registers.ctrl_debug_req)
            (λ result'. if result' == CmdStatus.ok then check_halted else return m q minus_one)
        else return m q minus_one)
      else return m q minus_one)

  -- From the hardware reset on.
  unfoldable pub erase_end : Script m q
  erase_end = call_and m q (call_set_reset 1) (
      call_and m q (call_set_reset 0)
        (call_and m q (Functions.connect m f q fuel c) (call_and m q mdm_halt (return m q 0))))

  -- The erasing: it is started, and waited for.
  unfoldable pub mass_erase : Script m q
  mass_erase =
      call_then m q
        (Functions.write_ap m f q fuel c Registers.mdm_ctrl
          (bit_or Registers.ctrl_sys_reset_req Registers.ctrl_flash_erase))
        (λ result.
          if result == CmdStatus.ok
          then call_then m q
              (Functions.poll_ap_not m f q fuel c Registers.mdm_ctrl Registers.ctrl_flash_erase)
              (λ result'. if result' == 0 then erase_end else return m q minus_one)
          else return m q minus_one)

  -- The tests of the size of the flash.
  unfoldable pub check_size : Script m q
  check_size = call_then m q (Functions.read_memory m f q fuel c Registers.fcfg1) (λ retval.
      if is_supported_size retval
      then (if bit_and retval 1 == 1 then return m q minus_one else mass_erase)
      else return m q minus_one)

  -- The test of the security of the part.
  unfoldable pub check_security : Script m q
  check_security = call_then m q (Functions.read_ap m f q fuel c Registers.mdm_stat) (λ retval.
      if has_bit retval Registers.stat_sys_security then return m q minus_one else check_size)

  unfoldable pub flash_erase : Script m q
  flash_erase = call_and m q (call_set_reset 0) (
      call_and m q mdm_halt (
        call_then m q (Functions.write_memory m f q fuel c Registers.scgc6 Registers.scgc6_ftf)
          (λ result.
            if result == CmdStatus.ok
            then call_then m q
                (Functions.poll_ap m f q fuel c Registers.mdm_stat Registers.stat_flash_ready)
                (λ result'.
                  if result' == CmdStatus.ok then check_security else return m q minus_one)
            else return m q minus_one)))
