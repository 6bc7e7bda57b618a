-- ===== src/Targets/Kinetis/Steps.antt =====
-- Halting the core and erasing the flash, as steps of the driver.
use Prim.Native.Nat.{bit_and}
use swagger.Prelude.{ℕ, zero, suc, true, false, ◌==◌, if◌then◌else◌}
use swagger.Probe
use swagger.Probe.{Link, Driver}
use swagger.Protocol.Status
use swagger.Targets.{minus_one}
use swagger.Targets.Functions.Scs
use swagger.Targets.Returns.{word_or_zero}
use swagger.Targets.Connects.{tries, reads_until}
use swagger.Targets.Kinetis.Registers
use swagger.Targets.Kinetis.Erase.{has_bit, is_supported_size}

module _ (l : Link) where
  -- Steps of the driver, and a number.
  abbrev pub Steps : Type 0
  Steps = Driver l → ℕ × Driver l

  unfoldable pub stop : ℕ → Steps
  stop value d = (value, d)

  unfoldable pub step_then : Steps → (ℕ → Steps) → Steps
  step_then step next d = let (r, d') = step d in next r d'

  unfoldable pub step_and : Steps → Steps → Steps
  step_and step next = step_then step (λ r. next)

  -- The word that is read, or 0 after an error.
  unfoldable pub reads : (Driver l → (ℕ × ℕ) × Driver l) → Steps
  reads read d = let (r, d') = read d in (word_or_zero r, d')

  unfoldable pub reads_stat : Steps
  reads_stat = reads (Probe.read_dp l 4 0)

  unfoldable pub reads_ap : ℕ → Steps
  reads_ap address = reads (Probe.read_ap l address 0)

  unfoldable pub reads_memory : ℕ → Steps
  reads_memory address = reads (Probe.read_memory l address 0)

  unfoldable pub reads_core : ℕ → Steps
  reads_core reg = step_and (Probe.write_memory l Scs.dcrsr reg) (reads_memory Scs.dcrdr)

  unfoldable pub powers : ℕ → Steps
  powers zero =
      step_then reads_stat (λ r. stop (if bit_and r 0xF000_0000 == 0xF000_0000 then 0 else 1))
  powers (suc left) =
      step_then reads_stat
        (λ r. if bit_and r 0xF000_0000 == 0xF000_0000 then stop 0 else powers left)

  unfoldable pub checks_halted : Steps
  checks_halted = step_then (reads_ap Registers.mdm_stat) (λ r.
      if has_bit r Registers.stat_core_halted
      then step_and (reads_core 15) (step_and (reads_core 0x11) (stop 0))
      else stop minus_one)

  unfoldable pub halts : Steps
  halts = step_then (step_and (Probe.write_dp l 4 0x5000_0000) (powers 100)) (λ power.
      if power == 0
      then step_then (Probe.write_memory l Scs.dhcsr 0xA05F_000B) (λ result.
        if result == Status.ok
        then step_then (Probe.write_ap l Registers.mdm_ctrl Registers.ctrl_debug_req)
            (λ result'. if result' == Status.ok then checks_halted else stop minus_one)
        else stop minus_one)
      else stop minus_one)

  -- The erasing is started and waited for; then the core is connected and halted again.
  unfoldable pub erases_all : Steps
  erases_all = step_then (Probe.write_ap l Registers.mdm_ctrl 9) (λ result.
      if result == Status.ok
      then step_then
          (reads_until l (λ v. if bit_and v 1 == 1 then false else true) 100 Registers.mdm_ctrl)
          (λ result'.
            if result' == 0
            then step_and (tries l 10) (step_and halts (stop 0))
            else stop minus_one)
      else stop minus_one)

  -- The part is erased: it is ready, not secured, of the right size and enabled.
  unfoldable pub erases_ready : Steps
  erases_ready = step_then (reads_ap Registers.mdm_stat) (λ r.
      if has_bit r Registers.stat_sys_security
      then stop minus_one
      else step_then (reads_memory Registers.fcfg1) (λ size.
        if is_supported_size size
        then (if bit_and size 1 == 1 then stop minus_one else erases_all)
        else stop minus_one))

  -- The steps by which the flash is erased.
  unfoldable pub erases : Steps
  erases = step_and halts (
      step_then (Probe.write_memory l Registers.scgc6 Registers.scgc6_ftf) (λ result.
        if result == Status.ok
        then step_then (reads_until l (λ v. bit_and v 2 == 2) 100 Registers.mdm_stat)
            (λ result'. if result' == Status.ok then erases_ready else stop minus_one)
        else stop minus_one))
