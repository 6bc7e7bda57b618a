-- ===== src/Targets/Connects.antt =====
-- `connect` and the polling of an access port register: loops over turns.
use Prim.Native.Nat.{bit_and}
use swagger.Prelude.{
  ℕ, zero, suc, ◌%◌, ◌^◌, ◌<◌, ◌≡◌, refl, inl, inr, Bool, true, false, Option, some, [], ◌++◌, ◌==◌,
  if◌then◌else◌, Bool-cases,
}
use swagger.Word32.{le_bytes}
use swagger.Probe
use swagger.Probe.{Link, Driver, try_connect}
use swagger.Protocol.Status
use swagger.Firmware.Loop.Requests.{connect, read_access, IsRequest}
use swagger.Firmware.Loop.Requests.Answers.{answer}
use swagger.Host.Packet.{SerialPort}
use swagger.Host.Script.{SquirrelVm, Session}
use swagger.Targets.{minus_one, call_execute, call_clear, call_pop8, call_pop32}
use swagger.Targets.Functions
use swagger.Targets.Functions.{
  connect_loop, connect_round, poll_loop, poll_round, poll_word, poll_ap, poll_ap_not, max_retries,
}
use swagger.Targets.Queueing.{IsScripted, queue_request}
use swagger.Targets.Turn.{Bench, IsAtRest, call_pop32-answers, call_pop32-empty}
use swagger.Targets.One.{turn, answered_bytes}
use swagger.Targets.Returns.{Returns}

module _ (l : Link) where
  -- The identification after so many tries to connect at most, or -1.
  unfoldable pub tries : (left : ℕ) → Driver l → ℕ × Driver l
  tries zero d = (minus_one, d)
  tries (suc left) d =
      let ((status, word), d') = try_connect l d in
      let again = tries left d' in if status == Status.ok then (word % 2 ^ 32, d') else again

  -- The register is read until `stops` holds of its word, a reading fails, or there are no tries left.
  unfoldable pub reads_until : (stops : ℕ → Bool) (left address : ℕ) → Driver l → ℕ × Driver l
  reads_until stops zero address d = (Status.timeout, d)
  reads_until stops (suc left) address d =
      let ((status, word), d') = Probe.read_ap l address 0 d in
      let again = reads_until stops left address d' in
      if status == Status.ok
      then (if stops (word % 2 ^ 32) then (Status.ok, d') else again)
      else (status, d')

module _ (m : SquirrelVm) (q : SerialPort) (l : Link) (b : Bench m q l) where
  -- A script returns what `spec` says.
  unfoldable pub ReturnsAs : Option (ℕ × Session m q) → ℕ × Driver l → Type 0
  ReturnsAs o (value, d) = Returns m q l b o value d

  -- The session after a command runs: the results of the calls of a round.
  connect_loop_step :
      (left status : ℕ) (s s1 s2 : Session m q) (p : ℕ × Session m q)
      → call_execute m b.frames q b.fuel_read b.c
          (queue_request m b.frames q connect (call_clear m b.frames q s))
        ≡ some (0, s1)
      → call_pop8 m b.frames q s1 ≡ (status, s2)
      → call_pop32 m b.frames q s2 ≡ p
      → connect_loop m b.frames q b.fuel_read b.c (suc left) s
        ≡ connect_round m b.frames q b.fuel_read b.c
            (connect_loop m b.frames q b.fuel_read b.c left)
            status
            p
  unfolding connect_loop queue_request
  connect_loop_step left status s s1 s2 p runs pops pops_word =
      rw (connect_loop, runs, pops, pops_word) refl

  connect_loop-tries :
      (left : ℕ) (s : Session m q) (d : Driver l)
      → IsAtRest m q l b s d
      → ReturnsAs (connect_loop m b.frames q b.fuel_read b.c left s) (tries l left d)
  unfolding connect_round connect_loop tries ReturnsAs Returns IsScripted IsRequest answer
      answered_bytes
  connect_loop-tries zero s d rest = (s, refl, rest)
  connect_loop-tries (suc left) s d rest =
      let ((status, word), d') = try_connect l d in
      let t = turn m q l b connect s d d' status (le_bytes word) tt tt rest refl in
      elim (Bool-cases (status == Status.ok)) [
        | inl good ↦
            let kept : answered_bytes l status (le_bytes word) ≡ le_bytes word ++ [] =
              rw good refl in
            let (s3, pops, answered) =
              call_pop32-answers m q l b t.after_pop word [] d' (rw kept at t.answered) in
            let step = connect_loop_step left status s _ _ _ t.runs t.pops pops in
            rw good (s3, rw (step, connect_round, good) refl, answered.rest)
        | inr bad ↦
            let none_left : answered_bytes l status (le_bytes word) ≡ [] = rw bad refl in
            let (s3, pops, answered) =
              call_pop32-empty m q l b t.after_pop d' (rw none_left at t.answered) in
            let (s4, later, at_rest) = connect_loop-tries left s3 d' answered.rest in
            let step = connect_loop_step left status s _ _ _ t.runs t.pops pops in
            rw bad (s4, rw (step, connect_round, bad) later, at_rest)
      ]

  poll_loop_step :
      (left address status : ℕ) (stops : ℕ → Bool) (s s1 s2 : Session m q)
      → call_execute m b.frames q b.fuel_read b.c
          (queue_request m b.frames q (read_access address) (call_clear m b.frames q s))
        ≡ some (0, s1)
      → call_pop8 m b.frames q s1 ≡ (status, s2)
      → poll_loop m b.frames q b.fuel_read b.c (suc left) address stops s
        ≡ poll_round m b.frames q b.fuel_read b.c
            (poll_loop m b.frames q b.fuel_read b.c left address stops)
            stops
            (status, s2)
  unfolding poll_loop queue_request
  poll_loop_step left address status stops s s1 s2 runs pops = rw (poll_loop, runs, pops) refl

  poll_round_good :
      (again : Session m q → Option (ℕ × Session m q)) (stops : ℕ → Bool) (status : ℕ)
      (s : Session m q) (p : ℕ × Session m q)
      → (status == Status.ok) ≡ true
      → call_pop32 m b.frames q s ≡ p
      → poll_round m b.frames q b.fuel_read b.c again stops (status, s)
        ≡ poll_word m b.frames q b.fuel_read b.c again stops p
  unfolding poll_round
  poll_round_good again stops status s p good pops = rw (poll_round, good, pops) refl

  poll_word_test :
      (again : Session m q → Option (ℕ × Session m q)) (stops : ℕ → Bool) (v : ℕ) (s : Session m q)
      → poll_word m b.frames q b.fuel_read b.c again stops (v, s)
        ≡ elim (stops v) [ true ↦ some (Status.ok, s) | false ↦ again s ]
  unfolding poll_word
  poll_word_test again stops v s = refl

  poll_loop-reads_until :
      (left address : ℕ) (stops : ℕ → Bool) (s : Session m q) (d : Driver l)
      → IsAtRest m q l b s d
      → address < 2 ^ 32
      → ReturnsAs
          (poll_loop m b.frames q b.fuel_read b.c left address stops s)
          (reads_until l stops left address d)
  unfolding poll_round poll_loop reads_until ReturnsAs Returns IsScripted IsRequest answer
      answered_bytes
  poll_loop-reads_until zero address stops s d rest small = (s, refl, rest)
  poll_loop-reads_until (suc left) address stops s d rest small =
      let ((status, word), d') = Probe.read_ap l address 0 d in
      let t = turn m q l b (read_access address) s d d' status (le_bytes word) tt small rest refl in
      let step = poll_loop_step left address status stops s _ _ t.runs t.pops in
      elim (Bool-cases (status == Status.ok)) [
        | inr bad ↦ rw bad (t.after_pop, rw (step, poll_round, bad) refl, t.answered.rest)
        | inl good ↦
            let kept : answered_bytes l status (le_bytes word) ≡ le_bytes word ++ [] =
              rw good refl in
            let (s3, pops, answered) =
              call_pop32-answers m q l b t.after_pop word [] d' (rw kept at t.answered) in
            rw good (elim (Bool-cases (stops (word % 2 ^ 32))) [
              | inl stop ↦ rw stop (
                s3,
                rw
                    (
                      step,
                      poll_round_good _ stops status t.after_pop _ good pops,
                      poll_word_test,
                      stop,
                    )
                    refl,
                answered.rest,
              )
              | inr go_on ↦
                  let (s4, later, at_rest) =
                    poll_loop-reads_until left address stops s3 d' answered.rest small in
                  rw go_on (
                    s4,
                    rw
                        (
                          step,
                          poll_round_good _ stops status t.after_pop _ good pops,
                          poll_word_test,
                          go_on,
                        )
                        later,
                    at_rest,
                  )
            ])
      ]

  -- With the programmer ready, connect of a script returns what the first of ten tries to connect
  -- that succeeds has read, or -1 where none does; pollAP and pollAP_not read the access port register
  -- up to 100 times, until all bits of the mask are one, or until one is not, and return 0 then, the
  -- status of a reading that fails, or 1 where there is no try left. The programmer is ready again,
  -- with the driver as the last try leaves it. (The address has 32 bits, and the line is as
  -- documented.)
  pub connect-tries :
      (s : Session m q) (d : Driver l) (address mask : ℕ)
      → IsAtRest m q l b s d
      → address < 2 ^ 32
      → ReturnsAs (Functions.connect m b.frames q b.fuel_read b.c s) (tries l 10 d)
        × ReturnsAs
            (poll_ap m b.frames q b.fuel_read b.c address mask s)
            (reads_until l (λ v. bit_and v mask == mask) 100 address d)
        × ReturnsAs
            (poll_ap_not m b.frames q b.fuel_read b.c address mask s)
            (reads_until l (λ v. if bit_and v mask == mask then false else true) 100 address d)
  unfolding Functions.connect poll_ap poll_ap_not
  connect-tries s d address mask rest small = (
    connect_loop-tries 10 s d rest,
    poll_loop-reads_until 100 address _ s d rest small,
    poll_loop-reads_until 100 address _ s d rest small,
  )
