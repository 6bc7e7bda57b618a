-- ===== src/Targets/Turn.antt =====
-- A turn of a script: commands are queued and run, and their answers are popped.
use swagger.Prelude.{
  ℕ, ◌%◌, ◌^◌, ◌≤◌, ◌≡◌, refl, sym, ap, ◌∙◌, some, List, [], ◌∷◌, ◌++◌, arith, length, All,
}
use mathlib.Core.Path.{subst}
use swagger.Word32.{le_bytes}
use swagger.Probe.{Link, Driver}
use swagger.Firmware.Loop.{Stack}
use swagger.Firmware.Loop.Sound.{IsStack}
use swagger.Firmware.Loop.Requests.{Request, stream, IsRequest}
use swagger.Firmware.Loop.Requests.Answers.{spaces, answers}
use swagger.Host.Packet.{SerialPort}
use swagger.Host.Script.{SquirrelVm, Session, pop_word, push, clear_cmd_queue}
use swagger.Host.Script.Words.{
  pop_u_int8-byte, pop_u_int32-bytes, pop_u_int32-empty, pop_u_int32-pop_word,
}
use swagger.System.{Wired, IsReady}
use swagger.System.Exchange.{execute_cmd_queue-answers}
use swagger.Targets.{CallFrames, call_native, call_clear, call_pop8, call_pop32, call_execute}
use swagger.Targets.Queueing.{Queues}

-- The host, the line and the programmer that a script works with: the line is as documented, and the
-- loops have fuel enough for the commands of a packet.
pub record Bench (m : SquirrelVm) (q : SerialPort) (l : Link) : Type 0 where
  pub frames : CallFrames m
  pub stack : Stack
  pub sizes : IsStack stack
  pub fuel : ℕ
  pub wired : Wired q l stack fuel
  pub fuel_read : ℕ
  pub c : ℕ
  pub enough : 8 ≤ fuel
  pub enough_read : 64 ≤ fuel_read

module _ (m : SquirrelVm) (q : SerialPort) (l : Link) (b : Bench m q l) where
  -- Between two turns: the programmer is ready, with its driver at `d`.
  unfoldable pub IsAtRest : Session m q → Driver l → Type 0
  IsAtRest s d = IsReady q l b.stack b.fuel b.wired s.interface.port d

  -- After a turn the result queue is `results`.
  pub record IsAnswered (s : Session m q) (results : List ℕ) (d : Driver l) : Type 0 where
    pub queue : s.result_queue ≡ results
    pub rest : IsAtRest s d

  -- The commands of a turn are queued.
  pub record IsQueued (s : Session m q) (rs : List Request) (d : Driver l) : Type 0 where
    pub queue : s.cmd_queue ≡ stream rs
    pub rest : IsAtRest s d

  pub Queues-IsAtRest :
      (s s' : Session m q) (added : List ℕ) (d : Driver l)
      → Queues m b.frames q s added s'
      → IsAtRest s d
      → IsAtRest s' d
  unfolding IsAtRest
  Queues-IsAtRest s s' added d h rest =
      subst (λ t. IsReady q l b.stack b.fuel b.wired t.port d) (sym h.interface) rest

  pub call_clear-IsQueued :
      (s : Session m q) (d : Driver l) → IsAtRest s d → IsQueued (call_clear m b.frames q s) [] d
  unfolding IsAtRest call_clear call_native clear_cmd_queue stream
  call_clear-IsQueued s d rest = record { queue = refl; rest = rest }

  pub call_execute-answers :
      (rs : List Request) (s : Session m q) (d d' : Driver l) (status : ℕ) (reply : List ℕ)
      → IsQueued s rs d
      → length (stream rs) ≤ 63
      → All IsRequest rs
      → spaces rs ≤ 60
      → length rs ≤ 7
      → answers l rs d ≡ some (status, (reply, d'))
      → (s' : Session m q) × (call_execute m b.frames q b.fuel_read b.c s ≡ some (0, s'))
        × IsAnswered s' (status ∷ reply) d'
  unfolding call_execute IsAtRest
  call_execute-answers rs s d d' status reply queued room valid fits few e =
      let (s', run, vm, results, queue, ready) =
        execute_cmd_queue-answers m q l b.stack b.sizes b.fuel b.wired b.fuel_read b.c rs
          (record s { vm = b.frames.enter [] s.vm }) d d' status reply queued.rest queued.queue room
          valid fits (omega (arith, b.enough)) b.enough_read e in
      let zero : b.frames.result s'.vm ≡ 0 = ap b.frames.result vm ∙ b.frames.result_push 0 _ in
      (
        record s' { vm = b.frames.leave s'.vm },
        rw (run, zero) refl,
        record { queue = results; rest = ready },
      )

  pub call_pop8-answers :
      (s : Session m q) (x : ℕ) (results : List ℕ) (d : Driver l)
      → IsAnswered s (x ∷ results) d
      → (s' : Session m q) × (call_pop8 m b.frames q s ≡ (x, s')) × IsAnswered s' results d
  unfolding call_pop8 call_native push IsAtRest
  call_pop8-answers s x results d h =
      let s0 = record s { vm = b.frames.enter [] s.vm } in
      let s1 = push m q x (record s0 { result_queue = results }) in
      (
        record s1 { vm = b.frames.leave s1.vm },
        rw (pop_u_int8-byte m q s0 x results h.queue, b.frames.result_push x s0.vm) refl,
        record { queue = refl; rest = h.rest },
      )

  pub call_pop32-answers :
      (s : Session m q) (x : ℕ) (results : List ℕ) (d : Driver l)
      → IsAnswered s (le_bytes x ++ results) d
      → (s' : Session m q) × (call_pop32 m b.frames q s ≡ (x % 2 ^ 32, s'))
        × IsAnswered s' results d
  unfolding call_pop32 call_native push IsAtRest
  call_pop32-answers s x results d h =
      let s0 = record s { vm = b.frames.enter [] s.vm } in
      let s1 = push m q (x % 2 ^ 32) (record s0 { result_queue = results }) in
      (
        record s1 { vm = b.frames.leave s1.vm },
        rw (pop_u_int32-bytes m q s0 x results h.queue, b.frames.result_push (x % 2 ^ 32) s0.vm)
            refl,
        record { queue = refl; rest = h.rest },
      )

  pub call_pop32-empty :
      (s : Session m q) (d : Driver l)
      → IsAnswered s [] d
      → (s' : Session m q) × (call_pop32 m b.frames q s ≡ (0, s')) × IsAnswered s' [] d
  unfolding call_pop32 call_native push IsAtRest
  call_pop32-empty s d h =
      let s0 = record s { vm = b.frames.enter [] s.vm } in
      let s1 = push m q 0 (record s0 { result_queue = [] }) in
      (
        record s1 { vm = b.frames.leave s1.vm },
        rw (pop_u_int32-empty m q s0 h.queue, b.frames.result_push 0 s0.vm) refl,
        record { queue = refl; rest = h.rest },
      )

  pub call_pop32-pop_word :
      (s : Session m q) (results : List ℕ) (d : Driver l)
      → IsAnswered s results d
      → (s' : Session m q) × (call_pop32 m b.frames q s ≡ ((pop_word m q results).0, s'))
        × IsAnswered s' (pop_word m q results).1 d
  unfolding call_pop32 call_native push IsAtRest
  call_pop32-pop_word s results d h =
      let s0 = record s { vm = b.frames.enter [] s.vm } in
      let (word, rest) = pop_word m q results in
      let s1 = push m q word (record s0 { result_queue = rest }) in
      (
        record s1 { vm = b.frames.leave s1.vm },
        rw (pop_u_int32-pop_word m q s0 results h.queue, b.frames.result_push word s0.vm) refl,
        record { queue = refl; rest = h.rest },
      )
