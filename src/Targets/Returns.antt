-- ===== src/Targets/Returns.antt =====
-- What the functions of the scripts that read and write return.
use swagger.Prelude.{
  ℕ, ◌%◌, ◌^◌, ◌<◌, ◌≡◌, refl, inl, inr, Option, some, [], ◌++◌, arith, ◌==◌, if◌then◌else◌,
  Bool-cases,
}
use swagger.Word32.{le_bytes}
use swagger.Probe
use swagger.Probe.{Link, Driver}
use swagger.Protocol.Status
use swagger.Firmware.Loop.Requests.{
  Request, read_debug, write_debug, read_access, write_access, read_word, write_word, IsRequest,
}
use swagger.Firmware.Loop.Requests.Answers.{answer}
use swagger.Host.Packet.{SerialPort}
use swagger.Host.Script.{SquirrelVm, Session}
use swagger.Targets.{call_clear}
use swagger.Targets.Functions
use swagger.Targets.Functions.{run_read, run_write}
use swagger.Targets.Queueing.{IsScripted, queue_request}
use swagger.Targets.Turn.{Bench, IsAtRest, call_pop32-answers}
use swagger.Targets.One.{turn, answered_bytes}

-- A word that a script pops, or 0 after an error.
unfoldable pub word_or_zero : ℕ × ℕ → ℕ
word_or_zero (status, word) = if status == Status.ok then word % 2 ^ 32 else 0

module _ (m : SquirrelVm) (q : SerialPort) (l : Link) (b : Bench m q l) where
  -- A script returns `value`, and leaves the driver at `d`.
  unfoldable pub Returns : Option (ℕ × Session m q) → (value : ℕ) → Driver l → Type 0
  Returns o value d = (s' : Session m q) × (o ≡ some (value, s')) × IsAtRest m q l b s' d

  -- `o` returns the word that the driver reads, or 0 where it fails.
  unfoldable pub ReturnsWord : Option (ℕ × Session m q) → (ℕ × ℕ) × Driver l → Type 0
  ReturnsWord o (read, d) = Returns o (word_or_zero read) d

  -- `o` returns the status of what the driver writes.
  unfoldable pub ReturnsStatus : Option (ℕ × Session m q) → ℕ × Driver l → Type 0
  ReturnsStatus o (status, d) = Returns o status d

  run_read-ReturnsWord :
      (r : Request) (s : Session m q) (d : Driver l) (read : (ℕ × ℕ) × Driver l)
      → IsScripted r
      → IsRequest r
      → IsAtRest m q l b s d
      → answer l r d ≡ some (read.0.0, (le_bytes read.0.1, read.1))
      → ReturnsWord
          (run_read m b.frames q b.fuel_read b.c
            (queue_request m b.frames q r (call_clear m b.frames q s)))
          read
  unfolding ReturnsWord Returns run_read word_or_zero answered_bytes
  run_read-ReturnsWord r s d ((status, word), d') scripted valid rest e =
      let t = turn m q l b r s d d' status (le_bytes word) scripted valid rest e in
      elim (Bool-cases (status == Status.ok)) [
        | inl good ↦
            let left : answered_bytes l status (le_bytes word) ≡ le_bytes word ++ [] =
              rw good refl in
            let (s3, pops, answered) =
              call_pop32-answers m q l b t.after_pop word [] d' (rw left at t.answered) in
            (s3, rw (t.runs, t.pops, good, pops) refl, answered.rest)
        | inr bad ↦ (t.after_pop, rw (t.runs, t.pops, bad) refl, t.answered.rest)
      ]

  run_write-ReturnsStatus :
      (r : Request) (s : Session m q) (d : Driver l) (write : ℕ × Driver l)
      → IsScripted r
      → IsRequest r
      → IsAtRest m q l b s d
      → answer l r d ≡ some (write.0, ([], write.1))
      → ReturnsStatus
          (run_write m b.frames q b.fuel_read b.c
            (queue_request m b.frames q r (call_clear m b.frames q s)))
          write
  unfolding ReturnsStatus Returns run_write
  run_write-ReturnsStatus r s d (status, d') scripted valid rest e =
      let t = turn m q l b r s d d' status [] scripted valid rest e in
      (t.after_pop, rw (t.runs, t.pops) refl, t.answered.rest)

  -- With the programmer ready, readStat, readAP and readMemory of a script return the word that the
  -- driver of the firmware reads from the control/status register, from the access port register and
  -- from the memory, or 0 where the driver reports an error; and writeStat, writeAP and writeMemory
  -- return the status with which the driver writes there. Each time the programmer is ready again, with
  -- the driver as that access leaves it. (Addresses and values have 32 bits, and the line is as
  -- documented.)
  pub read_memory-returns :
      (s : Session m q) (d : Driver l) (address value : ℕ)
      → IsAtRest m q l b s d
      → address < 2 ^ 32
      → value < 2 ^ 32
      → ReturnsWord (Functions.read_stat m b.frames q b.fuel_read b.c s) (Probe.read_dp l 4 0 d)
        × ReturnsWord
            (Functions.read_ap m b.frames q b.fuel_read b.c address s)
            (Probe.read_ap l address 0 d)
        × ReturnsWord
            (Functions.read_memory m b.frames q b.fuel_read b.c address s)
            (Probe.read_memory l address 0 d)
        × ReturnsStatus
            (Functions.write_stat m b.frames q b.fuel_read b.c value s)
            (Probe.write_dp l 4 value d)
        × ReturnsStatus
            (Functions.write_ap m b.frames q b.fuel_read b.c address value s)
            (Probe.write_ap l address value d)
        × ReturnsStatus
            (Functions.write_memory m b.frames q b.fuel_read b.c address value s)
            (Probe.write_memory l address value d)
  unfolding Functions.read_stat Functions.queue_read_stat Functions.read_ap Functions.read_memory
      Functions.write_stat Functions.queue_write_stat Functions.write_ap Functions.write_memory
      IsScripted IsRequest answer queue_request
  read_memory-returns s d address value rest small fits = (
    run_read-ReturnsWord (read_debug 4) s d (Probe.read_dp l 4 0 d) (omega arith) tt rest refl,
    run_read-ReturnsWord (read_access address) s d (Probe.read_ap l address 0 d) tt small rest refl,
    run_read-ReturnsWord (read_word address) s d (Probe.read_memory l address 0 d) tt small rest
        refl,
    run_write-ReturnsStatus (write_debug 4 value) s d (Probe.write_dp l 4 value d) (omega arith)
        fits rest refl,
    run_write-ReturnsStatus (write_access address value) s d (Probe.write_ap l address value d) tt
        (small, fits) rest refl,
    run_write-ReturnsStatus (write_word address value) s d (Probe.write_memory l address value d) tt
        (small, fits) rest refl,
  )
