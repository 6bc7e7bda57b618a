-- ===== src/Targets/One.antt =====
-- A turn with one command.
use swagger.Prelude.{
  ℕ, ◌≤◌, ◌≡◌, refl, sym, ap, ◌∙◌, inl, inr, some, List, [], ◌∷◌, ◌++◌, append_assoc, append-nil,
  arith, ◌==◌, ==_iff, if◌then◌else◌, Bool-cases, length, length-append,
}
use swagger.Probe.{Link, Driver}
use swagger.Protocol.Status
use swagger.Firmware.Loop.Requests.{
  Request, reset, connect, read_debug, write_debug, read_access, write_access, read_word,
  write_word, wait_true, program_id, stream, bytes, IsRequest,
}
use swagger.Firmware.Loop.Requests.Answers.{space, spaces, answer, answers, go_on_if, prepend}
use swagger.Host.Packet.{SerialPort}
use swagger.Host.Script.{SquirrelVm, Session}
use swagger.Targets.{call_clear, call_pop8, call_execute}
use swagger.Targets.Queueing.{IsScripted, queue_request, queue_request-Queues}
use swagger.Targets.Turn.{
  Bench, IsAtRest, IsAnswered, IsQueued, Queues-IsAtRest, call_clear-IsQueued, call_execute-answers,
  call_pop8-answers,
}

pub stream-append :
    (rs : List Request) (r : Request) → stream (rs ++ (r ∷ [])) ≡ stream rs ++ bytes r
unfolding stream
stream-append [] r = append-nil (bytes r)
stream-append (x ∷ rs) r =
    ap (λ t. bytes x ++ t) (stream-append rs r) ∙ sym (append_assoc (bytes x) (stream rs) (bytes r))

-- A command has nine bytes at most.
pub length-bytes : (r : Request) → length (bytes r) ≤ 9
unfolding bytes
length-bytes (reset state) = omega arith
length-bytes connect = omega arith
length-bytes (read_debug address) = omega arith
length-bytes (write_debug address word) = omega arith
length-bytes (read_access address) = omega arith
length-bytes (write_access address word) = omega arith
length-bytes (read_word address) = omega arith
length-bytes (write_word address word) = omega arith
length-bytes (wait_true address mask) = omega arith
length-bytes program_id = omega arith

space_bound : (r : Request) → space r ≤ 4
unfolding space
space_bound (reset state) = omega arith
space_bound connect = omega arith
space_bound (read_debug address) = omega arith
space_bound (write_debug address word) = omega arith
space_bound (read_access address) = omega arith
space_bound (write_access address word) = omega arith
space_bound (read_word address) = omega arith
space_bound (write_word address word) = omega arith
space_bound (wait_true address mask) = omega arith
space_bound program_id = omega arith

module _ (l : Link) where
  -- What one command leaves of the bytes of its answer.
  unfoldable pub answered_bytes : (status : ℕ) (reply : List ℕ) → List ℕ
  answered_bytes status reply = if status == Status.ok then reply else []

  answers-one :
      (r : Request) (d d' : Driver l) (status : ℕ) (reply : List ℕ)
      → answer l r d ≡ some (status, (reply, d'))
      → answers l (r ∷ []) d ≡ some (status, (answered_bytes status reply, d'))
  unfolding answers go_on_if prepend answered_bytes
  answers-one r d d' status reply e = elim (Bool-cases (status == Status.ok)) [
    | inl good ↦
        let same : status ≡ 0 = (==_iff status 0).0 good in
        rw (e, good, append-nil) (ap (λ t. some (t, (reply, d'))) (sym same))
    | inr bad ↦ rw (e, bad) refl
  ]

module _ (m : SquirrelVm) (q : SerialPort) (l : Link) (b : Bench m q l) where
  pub queue_request-IsQueued :
      (r : Request) (rs : List Request) (s : Session m q) (d : Driver l)
      → IsScripted r
      → IsQueued m q l b s rs d
      → IsQueued m q l b (queue_request m b.frames q r s) (rs ++ (r ∷ [])) d
  queue_request-IsQueued r rs s d scripted h =
      let more = queue_request-Queues m b.frames q r s scripted in
      record {
        queue = more.queue ∙ (ap (λ t. t ++ bytes r) h.queue ∙ sym (stream-append rs r));
        rest = Queues-IsAtRest m q l b s _ (bytes r) d more h.rest;
      }

  -- One command: it is queued after the queue is cleared, run, and its status is popped.
  pub record Turned (r : Request) (s : Session m q) (status : ℕ) (reply : List ℕ) (d : Driver l)
      : Type 0 where
    pub after_run : Session m q
    pub after_pop : Session m q
    pub runs :
        call_execute m b.frames q b.fuel_read b.c
          (queue_request m b.frames q r (call_clear m b.frames q s))
        ≡ some (0, after_run)
    pub pops : call_pop8 m b.frames q after_run ≡ (status, after_pop)
    pub ran : IsAnswered m q l b after_run (status ∷ answered_bytes l status reply) d
    pub answered : IsAnswered m q l b after_pop (answered_bytes l status reply) d

  pub turn :
      (r : Request) (s : Session m q) (d d' : Driver l) (status : ℕ) (reply : List ℕ)
      → IsScripted r
      → IsRequest r
      → IsAtRest m q l b s d
      → answer l r d ≡ some (status, (reply, d'))
      → Turned r s status reply d'
  unfolding spaces stream
  turn r s d d' status reply scripted valid rest e =
      let queued =
        queue_request-IsQueued r [] (call_clear m b.frames q s) d scripted
          (call_clear-IsQueued m q l b s d rest) in
      let (s1, runs, answered) =
        call_execute-answers m q l b (r ∷ []) _ d d' status (answered_bytes l status reply) queued
          (omega (arith, length-append (bytes r) [], length-bytes r)) (valid, tt)
          (omega (arith, space_bound r)) (omega arith) (answers-one l r d d' status reply e) in
      let (s2, pops, left) =
        call_pop8-answers m q l b s1 status (answered_bytes l status reply) d' answered in
      record {
        after_run = s1;
        after_pop = s2;
        runs = runs;
        pops = pops;
        ran = answered;
        answered = left;
      }
