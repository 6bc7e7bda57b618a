-- ===== src/Targets/Kinetis/Simulates.antt =====
-- Functions of the scripts, as steps of the driver.
use Prim.Native.Nat.{bit_and}
use swagger.Prelude.{ℕ, zero, suc, ◌^◌, ◌<◌, refl, Bool, true, false, arith, ◌==◌, if◌then◌else◌}
use swagger.Probe
use swagger.Probe.{Link, Driver}
use swagger.Host.Packet.{SerialPort}
use swagger.Host.Script.{SquirrelVm, Session}
use swagger.Targets.Functions
use swagger.Targets.Functions.Scs
use swagger.Targets.Turn.{Bench, IsAtRest}
use swagger.Targets.Returns.{Returns, ReturnsWord, ReturnsStatus, read_memory-returns}
use swagger.Targets.Connects.{ReturnsAs, tries, reads_until, connect-tries}
use swagger.Targets.Kinetis.Program.{set_reset-rest}
use swagger.Targets.Kinetis.Erase.{Script, return, call_then, call_and, call_set_reset, power_loop}
use swagger.Targets.Kinetis.Steps.{
  Steps, stop, step_then, step_and, reads, reads_stat, reads_ap, reads_memory, reads_core, powers,
}

module _ (m : SquirrelVm) (q : SerialPort) (l : Link) (b : Bench m q l) where
  -- With the programmer ready, a script does these steps and returns their number, and the programmer
  -- is ready again.
  pub record Simulates (script : Script m q) (steps : Steps l) : Type 0 where
    pub runs :
        (s : Session m q) (d : Driver l)
        → IsAtRest m q l b s d
        → ReturnsAs m q l b (script s) (steps d)

  pub return-Simulates : (v : ℕ) → Simulates (return m q v) (stop l v)
  unfolding return stop ReturnsAs Returns
  return-Simulates v = record { runs = λ s d rest. (s, refl, rest) }

  pub then-Simulates :
      {script : Script m q} {next : ℕ → Script m q} {steps : Steps l} {later : ℕ → Steps l}
      → Simulates script steps
      → ((v : ℕ) → Simulates (next v) (later v))
      → Simulates (call_then m q script next) (step_then l steps later)
  unfolding call_then step_then ReturnsAs Returns
  then-Simulates {steps} h k = record {
    runs = λ s d rest.
        let (s1, runs, rest1) = h.runs s d rest in
        let (s2, ends, rest2) = (k (steps d).0).runs s1 (steps d).1 rest1 in
        (s2, rw runs ends, rest2);
  }

  pub if-Simulates :
      (t : Bool) {x y : Script m q} {a c : Steps l}
      → Simulates x a
      → Simulates y c
      → Simulates (if t then x else y) (if t then a else c)
  if-Simulates true h k = h
  if-Simulates false h k = k

  pub and-Simulates :
      {script next : Script m q} {steps later : Steps l}
      → Simulates script steps
      → Simulates next later
      → Simulates (call_and m q script next) (step_and l steps later)
  unfolding call_and step_and
  and-Simulates h k = then-Simulates h (λ r. k)

  -- The functions of targetfuncs.nut.
  pub read_stat-Simulates :
      Simulates (Functions.read_stat m b.frames q b.fuel_read b.c) (reads_stat l)
  unfolding reads_stat reads ReturnsAs ReturnsWord
  read_stat-Simulates = record {
    runs = λ s d rest. (read_memory-returns m q l b s d 0 0 rest (omega arith) (omega arith)).0;
  }

  pub read_ap-Simulates :
      (address : ℕ)
      → address < 2 ^ 32
      → Simulates (Functions.read_ap m b.frames q b.fuel_read b.c address) (reads_ap l address)
  unfolding reads_ap reads ReturnsAs ReturnsWord
  read_ap-Simulates address small = record {
    runs = λ s d rest. (read_memory-returns m q l b s d address 0 rest small (omega arith)).1;
  }

  pub read_memory-Simulates :
      (address : ℕ)
      → address < 2 ^ 32
      → Simulates
          (Functions.read_memory m b.frames q b.fuel_read b.c address)
          (reads_memory l address)
  unfolding reads_memory reads ReturnsAs ReturnsWord
  read_memory-Simulates address small = record {
    runs = λ s d rest. (read_memory-returns m q l b s d address 0 rest small (omega arith)).2;
  }

  pub write_stat-Simulates :
      (value : ℕ)
      → value < 2 ^ 32
      → Simulates
          (Functions.write_stat m b.frames q b.fuel_read b.c value)
          (Probe.write_dp l 4 value)
  unfolding ReturnsAs ReturnsStatus
  write_stat-Simulates value small = record {
    runs = λ s d rest. (read_memory-returns m q l b s d 0 value rest (omega arith) small).3;
  }

  pub write_ap-Simulates :
      (address value : ℕ)
      → address < 2 ^ 32
      → value < 2 ^ 32
      → Simulates
          (Functions.write_ap m b.frames q b.fuel_read b.c address value)
          (Probe.write_ap l address value)
  unfolding ReturnsAs ReturnsStatus
  write_ap-Simulates address value small fits = record {
    runs = λ s d rest. (read_memory-returns m q l b s d address value rest small fits).4;
  }

  pub write_memory-Simulates :
      (address value : ℕ)
      → address < 2 ^ 32
      → value < 2 ^ 32
      → Simulates
          (Functions.write_memory m b.frames q b.fuel_read b.c address value)
          (Probe.write_memory l address value)
  unfolding ReturnsAs ReturnsStatus
  write_memory-Simulates address value small fits = record {
    runs = λ s d rest. (read_memory-returns m q l b s d address value rest small fits).5;
  }

  pub poll_ap-Simulates :
      (address mask : ℕ)
      → address < 2 ^ 32
      → Simulates
          (Functions.poll_ap m b.frames q b.fuel_read b.c address mask)
          (reads_until l (λ v. bit_and v mask == mask) 100 address)
  poll_ap-Simulates address mask small = record {
    runs = λ s d rest. (connect-tries m q l b s d address mask rest small).1;
  }

  pub poll_ap_not-Simulates :
      (address mask : ℕ)
      → address < 2 ^ 32
      → Simulates
          (Functions.poll_ap_not m b.frames q b.fuel_read b.c address mask)
          (reads_until l (λ v. if bit_and v mask == mask then false else true) 100 address)
  poll_ap_not-Simulates address mask small = record {
    runs = λ s d rest. (connect-tries m q l b s d address mask rest small).2;
  }

  pub connect-Simulates : Simulates (Functions.connect m b.frames q b.fuel_read b.c) (tries l 10)
  connect-Simulates = record {
    runs = λ s d rest. (connect-tries m q l b s d 0 0 rest (omega arith)).0;
  }

  -- A hardware reset is no step of the driver.
  pub reset_and-Simulates :
      (state : ℕ) {next : Script m q} {later : Steps l}
      → state < 256
      → Simulates next later
      → Simulates (call_and m q (call_set_reset m b.frames q b.fuel_read b.c state) next) later
  unfolding call_and call_then call_set_reset ReturnsAs Returns
  reset_and-Simulates state small k = record {
    runs = λ s d rest.
        let (s1, runs, rest1) = set_reset-rest m q l b state s d small rest in
        let (s2, ends, rest2) = k.runs s1 d rest1 in (s2, rw runs ends, rest2);
  }

  pub read_core-Simulates :
      (reg : ℕ)
      → reg < 2 ^ 32
      → Simulates (Functions.read_core_register m b.frames q b.fuel_read b.c reg) (reads_core l reg)
  unfolding Functions.read_core_register reads_core step_and step_then ReturnsAs Returns
  read_core-Simulates reg small = record {
    runs = λ s d rest.
        let (s1, runs, rest1) =
          (write_memory-Simulates Scs.dcrsr reg (omega arith) small).runs s d rest in
        let (s2, ends, rest2) =
          (read_memory-Simulates Scs.dcrdr (omega arith)).runs s1
            (Probe.write_memory l Scs.dcrsr reg d).1 rest1 in
        (s2, rw runs ends, rest2);
  }

  pub power_loop-Simulates :
      (left : ℕ) → Simulates (power_loop m b.frames q b.fuel_read b.c left) (powers l left)
  unfolding power_loop powers
  power_loop-Simulates zero = then-Simulates read_stat-Simulates (λ r. return-Simulates _)
  power_loop-Simulates (suc left) =
      then-Simulates read_stat-Simulates
        (λ r. if-Simulates _ (return-Simulates 0) (power_loop-Simulates left))
