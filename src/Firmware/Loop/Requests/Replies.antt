-- ===== src/Firmware/Loop/Requests/Replies.antt =====
-- The reply that the firmware sends to a list of commands.
use mathlib.Core.Option.{some-injective, none-ne-some}
use mathlib.Core.Path.{subst}
use swagger.Prelude.{
  ℕ, zero, suc, ◌+◌, ◌≤◌, ◌<◌, ◌≡◌, refl, sym, ap, inl, inr, true, false, Option, none, some, List,
  [], ◌∷◌, ◌++◌, append-nil, arith, ◌==◌, Bool-cases, length, length-append,
}
use swagger.Protocol.Status
use swagger.Probe.{Link, Driver}
use swagger.Firmware.Reply.Queue.{queued}
use swagger.Firmware.Loop.{Stack, Firmware, Ended, done}
use swagger.Firmware.Loop.Sound.{IsStack, IsSound}
use swagger.Firmware.Loop.Requests.{Request, perform, after, run_requests}
use swagger.Firmware.Loop.Requests.Refine.{run_requests_step, run_requests_end}
use swagger.Firmware.Loop.Requests.Answers.{
  spaces, Answer, answer, prepend, go_on_if, answers, length-answer,
}
use swagger.Firmware.Loop.Requests.Advancing.{
  Advanced, Replied, reply_with-Replied, Advanced-Replied,
}
use swagger.Firmware.Loop.Requests.Answering.{PerformsAs, Performs, perform-Performs}

module _ (l : Link) where
  module _ (stack : Stack) (sizes : IsStack stack) where
    -- The commands `rs` at `fw` end with the reply of an answer.
    unfoldable pub Finishes : (run : Ended l) → Firmware l → Answer l → Type 0
    Finishes run fw (status, (bytes, d)) =
        (fw' : Firmware l) × (run ≡ done fw')
        × Replied l fw (status ∷ (queued fw.reply ++ bytes)) d fw'

    end-Finishes :
        (fuel : ℕ) (fw : Firmware l) (a : Answer l)
        → IsSound l fw
        → answers l [] fw.interface ≡ some a
        → Finishes (run_requests l stack (suc fuel) [] fw) fw a
    unfolding answers Finishes
    end-Finishes fuel fw a sound e =
        let (fw', sent, replied) =
          reply_with-Replied l stack sizes Status.ok fw.interface fw sound in
        let whole = append-nil (queued fw.reply) in
        subst (λ t. Finishes (run_requests l stack (suc fuel) [] fw) fw t) (some-injective _ _ e)
          (
            fw',
            rw (run_requests_end l stack fuel fw, sent) refl,
            subst (λ t. Replied l fw (Status.ok ∷ t) fw.interface fw') (sym whole) replied,
          )

    module _ (fuel : ℕ) (r : Request) (rs : List Request) (fw : Firmware l) where
      Goal : Answer l → Type 0
      unfolding Finishes
      Goal a = Finishes (run_requests l stack (suc fuel) (r ∷ rs) fw) fw a

      stopped-Goal :
          (status : ℕ) (bytes : List ℕ) (d : Driver l)
          → PerformsAs l stack sizes false fw (status, (bytes, d)) (perform l stack r fw)
          → Goal (status, ([], d))
      unfolding PerformsAs Goal Finishes after
      stopped-Goal status bytes d (fw', stops, replied) =
          let whole = append-nil (queued fw.reply) in
          (
            fw',
            rw (run_requests_step l stack fuel r rs fw, stops) refl,
            subst (λ t. Replied l fw (status ∷ t) d fw') (sym whole) replied,
          )

      performed-Goal :
          (status : ℕ) (bytes : List ℕ) (d : Driver l) (a : Answer l)
          → PerformsAs l stack sizes true fw (status, (bytes, d)) (perform l stack r fw)
          → ((fw1 : Firmware l)
              → Advanced l fw bytes d fw1
              → Finishes (run_requests l stack fuel rs fw1) fw1 a)
          → Goal (a.0, (bytes ++ a.1.0, a.1.1))
      unfolding PerformsAs Goal Finishes after
      performed-Goal status bytes d (status2, (rest, d2)) (fw1, goes, advanced) ih =
          let (fw2, ends, replied) = ih fw1 advanced in
          (
            fw2,
            rw (run_requests_step l stack fuel r rs fw, goes) ends,
            Advanced-Replied l bytes status2 rest d d2 fw fw1 fw2 advanced replied,
          )

      rest-Goal :
          (bytes : List ℕ) (o : Option (Answer l)) (a : Answer l)
          → ((a2 : Answer l) → o ≡ some a2 → Goal (a2.0, (bytes ++ a2.1.0, a2.1.1)))
          → prepend l bytes o ≡ some a
          → Goal a
      unfolding prepend
      rest-Goal bytes none a ih e = absurd (none-ne-some a e)
      rest-Goal bytes (some (status2, (rest, d2))) a ih e =
          subst Goal (some-injective _ _ e) (ih (status2, (rest, d2)) refl)

      first-Goal :
          (o : Option (Answer l)) (a : Answer l)
          → ((a1 : Answer l) → o ≡ some a1 → Performs l stack sizes fw a1 (perform l stack r fw))
          → ((a1 : Answer l)
              → o ≡ some a1
              → PerformsAs l stack sizes true fw a1 (perform l stack r fw)
              → (a2 : Answer l) → answers l rs a1.1.1 ≡ some a2
              → Goal (a2.0, (a1.1.0 ++ a2.1.0, a2.1.1)))
          → go_on_if l (answers l rs) o ≡ some a
          → Goal a
      unfolding go_on_if Performs
      first-Goal none a performs ih e = absurd (none-ne-some a e)
      first-Goal (some (status, (bytes, d))) a performs ih e =
          let p = performs (status, (bytes, d)) refl in
          elim (Bool-cases (status == Status.ok)) [
            | inl ok ↦
                rest-Goal bytes (answers l rs d) a (ih (status, (bytes, d)) refl (rw ok at p))
                  (rw ok at e)
            | inr error ↦
                subst Goal (some-injective _ _ (rw error at e))
                  (stopped-Goal status bytes d (rw error at p))
          ]

    pub run_requests-Finishes :
        (fuel : ℕ) (rs : List Request) (fw : Firmware l) (a : Answer l)
        → IsSound l fw
        → length rs < fuel
        → length (queued fw.reply) + spaces rs ≤ 60
        → answers l rs fw.interface ≡ some a
        → Finishes (run_requests l stack fuel rs fw) fw a
    unfolding answers spaces Goal
    run_requests-Finishes zero rs fw a sound enough room e = absurd (omega arith)
    run_requests-Finishes (suc fuel) [] fw a sound enough room e = end-Finishes fuel fw a sound e
    run_requests-Finishes (suc fuel) (r ∷ rs) fw a sound enough room e =
        first-Goal fuel r rs fw (answer l r fw.interface) a
          (λ a1 e1. perform-Performs l stack sizes r fw a1 sound (omega arith) e1)
          (λ a1 e1 performs a2 e2.
            performed-Goal fuel r rs fw a1.0 a1.1.0 a1.1.1 a2 performs (λ fw1 adv.
              run_requests-Finishes fuel rs fw1 a2 adv.sound (omega arith)
                (omega (
                  arith,
                  ap (λ t. length t) adv.queue,
                  length-append (queued fw.reply) a1.1.0,
                  length-answer l r fw.interface a1 e1,
                ))
                (rw adv.driver e2)))
          e
