-- ===== src/Targets/Kinetis/Erasing.antt =====
-- What the functions that halt the core and erase the flash do.
use swagger.Prelude.{arith}
use swagger.Probe.{Link, Driver}
use swagger.Host.Packet.{SerialPort}
use swagger.Host.Script.{SquirrelVm, Session}
use swagger.Targets.{minus_one}
use swagger.Targets.Functions.Scs
use swagger.Targets.Turn.{Bench, IsAtRest}
use swagger.Targets.Connects.{ReturnsAs}
use swagger.Targets.Kinetis.Registers
use swagger.Targets.Kinetis.Erase.{
  enable_debug_power, check_halted, mdm_halt, erase_end, mass_erase, check_size, check_security,
  flash_erase,
}
use swagger.Targets.Kinetis.Steps.{checks_halted, halts, erases_all, erases_ready, erases}
use swagger.Targets.Kinetis.Simulates.{
  Simulates, return-Simulates, then-Simulates, if-Simulates, and-Simulates, read_ap-Simulates,
  read_memory-Simulates, write_stat-Simulates, write_ap-Simulates, write_memory-Simulates,
  poll_ap-Simulates, poll_ap_not-Simulates, connect-Simulates, reset_and-Simulates,
  read_core-Simulates, power_loop-Simulates,
}

module _ (m : SquirrelVm) (q : SerialPort) (l : Link) (b : Bench m q l) where
  check_halted-Simulates :
      Simulates m q l b (check_halted m b.frames q b.fuel_read b.c) (checks_halted l)
  unfolding check_halted checks_halted
  check_halted-Simulates =
      then-Simulates m q l b (read_ap-Simulates m q l b Registers.mdm_stat (omega arith)) (λ r.
        if-Simulates m q l b _
          (and-Simulates m q l b (read_core-Simulates m q l b 15 (omega arith)) (
            and-Simulates m q l b (read_core-Simulates m q l b 0x11 (omega arith))
              (return-Simulates m q l b 0)))
          (return-Simulates m q l b minus_one))

  mdm_halt-Simulates : Simulates m q l b (mdm_halt m b.frames q b.fuel_read b.c) (halts l)
  unfolding mdm_halt enable_debug_power halts
  mdm_halt-Simulates =
      let stops = return-Simulates m q l b minus_one in
      then-Simulates m q l b
        (and-Simulates m q l b (write_stat-Simulates m q l b 0x5000_0000 (omega arith))
          (power_loop-Simulates m q l b 100))
        (λ power.
          if-Simulates m q l b _
            (then-Simulates m q l b
              (write_memory-Simulates m q l b Scs.dhcsr 0xA05F_000B (omega arith) (omega arith))
              (λ result.
                if-Simulates m q l b _
                  (then-Simulates m q l b
                    (write_ap-Simulates m q l b Registers.mdm_ctrl Registers.ctrl_debug_req
                      (omega arith) (omega arith))
                    (λ result'. if-Simulates m q l b _ check_halted-Simulates stops))
                  stops))
            stops)

  mass_erase-Simulates : Simulates m q l b (mass_erase m b.frames q b.fuel_read b.c) (erases_all l)
  unfolding mass_erase erase_end erases_all
  mass_erase-Simulates =
      let stops = return-Simulates m q l b minus_one in
      then-Simulates m q l b
        (write_ap-Simulates m q l b Registers.mdm_ctrl 9 (omega arith) (omega arith))
        (λ result.
          if-Simulates m q l b _
            (then-Simulates m q l b
              (poll_ap_not-Simulates m q l b Registers.mdm_ctrl 1 (omega arith))
              (λ result'.
                if-Simulates m q l b _
                  (reset_and-Simulates m q l b 1 (omega arith) (
                    reset_and-Simulates m q l b 0 (omega arith) (
                      and-Simulates m q l b (connect-Simulates m q l b)
                        (and-Simulates m q l b mdm_halt-Simulates (return-Simulates m q l b 0)))))
                  stops))
            stops)

  check_security-Simulates :
      Simulates m q l b (check_security m b.frames q b.fuel_read b.c) (erases_ready l)
  unfolding check_security check_size erases_ready
  check_security-Simulates =
      let stops = return-Simulates m q l b minus_one in
      then-Simulates m q l b (read_ap-Simulates m q l b Registers.mdm_stat (omega arith)) (λ r.
        if-Simulates m q l b _ stops (
          then-Simulates m q l b (read_memory-Simulates m q l b Registers.fcfg1 (omega arith))
            (λ size.
              if-Simulates m q l b _ (if-Simulates m q l b _ stops mass_erase-Simulates) stops)))

  flash_erase-Simulates : Simulates m q l b (flash_erase m b.frames q b.fuel_read b.c) (erases l)
  unfolding flash_erase erases
  flash_erase-Simulates =
      let stops = return-Simulates m q l b minus_one in
      reset_and-Simulates m q l b 0 (omega arith) (
        and-Simulates m q l b mdm_halt-Simulates (
          then-Simulates m q l b
            (write_memory-Simulates m q l b Registers.scgc6 Registers.scgc6_ftf (omega arith)
              (omega arith))
            (λ result.
              if-Simulates m q l b _
                (then-Simulates m q l b
                  (poll_ap-Simulates m q l b Registers.mdm_stat 2 (omega arith))
                  (λ result'. if-Simulates m q l b _ check_security-Simulates stops))
                stops)))

  pub flash_erase-erases :
      (s : Session m q) (d : Driver l)
      → IsAtRest m q l b s d
      → ReturnsAs m q l b (flash_erase m b.frames q b.fuel_read b.c s) (erases l d)
  flash_erase-erases s d rest = flash_erase-Simulates.runs s d rest
