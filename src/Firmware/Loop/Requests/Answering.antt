-- ===== src/Firmware/Loop/Requests/Answering.antt =====
-- A command at the firmware does what the answer of the driver says.
use mathlib.Core.Option.{some-injective, none-ne-some}
use mathlib.Core.Path.{subst}
use swagger.Prelude.{
  ℕ, zero, suc, ◌+◌, ◌≤◌, ◌≡◌, refl, inl, inr, Bool, true, false, Option, some, List, [], ◌∷◌, ◌==◌,
  Bool-cases, length,
}
use swagger.Word32.{le_bytes}
use swagger.Protocol.Status
use Prim.Native.Nat.{bit_and}
use swagger.Probe.{Link, Driver, read_memory}
use swagger.Firmware.Stuff.{◌>>=◌}
use swagger.Firmware.Reply.Queue.{queued}
use swagger.Firmware.Loop.{
  Stack, Firmware, reply_with, Poll, met, failed, exhausted, poll, max_polls,
}
use swagger.Firmware.Loop.Sound.{IsStack, IsSound}
use swagger.Firmware.Loop.Requests.{
  Request, reset, connect, read_debug, write_debug, read_access, write_access, read_word,
  write_word, wait_true, program_id, Performed, performed, stopped, status_of, read_of, write_of,
  poll_of, perform,
}
use swagger.Firmware.Loop.Requests.Answers.{
  space, Answer, read_answer, write_answer, poll_answer, answer,
}
use swagger.Firmware.Loop.Requests.Advancing.{
  Advanced, Replied, queue32-Advanced, driver-Advanced, reset-Advanced, program_id-Advanced,
  reply_with-Replied,
}

-- A failed polling has the status of an error.
IsFailure : (l : Link) → Poll l → Type 0
IsFailure l (failed status d) = (status == Status.ok) ≡ false
IsFailure l p = Unit {0}

poll-IsFailure :
    (l : Link) (left address mask : ℕ) (d : Driver l) → IsFailure l (poll l left address mask d)
unfolding IsFailure poll
poll-IsFailure l zero address mask d = tt
poll-IsFailure l (suc left) address mask d =
    let ((stat, word), d') = read_memory l address 0 d in
    elim (Bool-cases (stat == Status.ok)) [
      | inr e ↦ rw e e
      | inl e ↦ rw e (elim (Bool-cases (bit_and word mask == mask)) [
        | inl hit ↦ rw hit tt
        | inr miss ↦ rw miss (poll-IsFailure l left address mask d')
      ])
    ]

module _ (l : Link) where
  module _ (stack : Stack) (sizes : IsStack stack) where
    -- A command with the answer `(status, (bytes, d))` succeeds, or ends the work with a reply.
    unfoldable pub PerformsAs :
        (succeeds : Bool) → Firmware l → Answer l → Option (Performed l stack) → Type 0
    PerformsAs true fw (status, (bytes, d)) o =
        (fw' : Firmware l) × (o ≡ some (performed fw')) × Advanced l fw bytes d fw'
    PerformsAs false fw (status, (bytes, d)) o =
        (fw' : Firmware l) × (o ≡ some (stopped fw'))
        × Replied l fw (status ∷ queued fw.reply) d fw'

    unfoldable pub Performs : Firmware l → Answer l → Option (Performed l stack) → Type 0
    Performs fw a o = PerformsAs (a.0 == Status.ok) fw a o

    performed-Performs :
        {bytes : List ℕ} {d : Driver l} {fw good : Firmware l} (status : ℕ)
        → Advanced l fw bytes d good
        → PerformsAs true fw (status, (bytes, d)) (some (performed good))
    unfolding PerformsAs
    performed-Performs {good} status advanced = (good, refl, advanced)

    stopped-Performs :
        (status : ℕ) (bytes : List ℕ) (d : Driver l) (fw : Firmware l)
        → IsSound l fw
        → PerformsAs false fw
            (status, (bytes, d))
            (reply_with l stack status (record fw { interface = d })
              >>= (λ fw'. some (stopped fw')))
    unfolding PerformsAs
    stopped-Performs status bytes d fw sound =
        let (fw', sent, replied) = reply_with-Replied l stack sizes status d fw sound in
        (fw', rw sent refl, replied)

    status_of-Performs :
        (status : ℕ) (bytes : List ℕ) (d : Driver l) (fw good : Firmware l)
        → IsSound l fw
        → Advanced l fw bytes d good
        → Performs fw
            (status, (bytes, d))
            (status_of l stack status good (record fw { interface = d }))
    unfolding Performs status_of
    status_of-Performs status bytes d fw good sound advanced =
        elim (Bool-cases (status == Status.ok)) [
          | inl e ↦ rw e (performed-Performs status advanced)
          | inr e ↦ rw e (stopped-Performs status bytes d fw sound)
        ]

    read_of-Performs :
        (r : (ℕ × ℕ) × Driver l) (fw : Firmware l) (a : Answer l)
        → IsSound l fw
        → length (queued fw.reply) + 4 ≤ 60
        → read_answer l r ≡ some a
        → Performs fw a (read_of l stack r fw)
    unfolding read_of
    read_of-Performs ((status, word), d) fw a sound room e =
        subst (λ t. Performs fw t (read_of l stack ((status, word), d) fw)) (some-injective _ _ e)
          (status_of-Performs status (le_bytes word) d fw _ sound
            (queue32-Advanced l word d fw sound room))

    write_of-Performs :
        (r : ℕ × Driver l) (fw : Firmware l) (a : Answer l)
        → IsSound l fw
        → write_answer l r ≡ some a
        → Performs fw a (write_of l stack r fw)
    unfolding write_of
    write_of-Performs (status, d) fw a sound e =
        subst (λ t. Performs fw t (write_of l stack (status, d) fw)) (some-injective _ _ e)
          (status_of-Performs status [] d fw _ sound (driver-Advanced l d fw sound))

    poll_of-Performs :
        (p : Poll l) (fw : Firmware l) (a : Answer l)
        → IsFailure l p
        → IsSound l fw
        → poll_answer l p ≡ some a
        → Performs fw a (poll_of l stack p fw)
    unfolding poll_of Performs IsFailure
    poll_of-Performs (met d) fw a fails sound e =
        subst (λ t. Performs fw t (some (performed (record fw { interface = d }))))
          (some-injective _ _ e) (performed-Performs Status.ok (driver-Advanced l d fw sound))
    poll_of-Performs (failed status d) fw a fails sound e =
        subst (λ t. Performs fw t (poll_of l stack (failed status d) fw)) (some-injective _ _ e)
          (rw fails (stopped-Performs status [] d fw sound))
    poll_of-Performs (exhausted d) fw a fails sound e = absurd (none-ne-some a e)

    state_of-Performs :
        (bytes : List ℕ) (d : Driver l) (fw good : Firmware l) (a : Answer l)
        → Advanced l fw bytes d good
        → ◌≡◌ {A = Option (Answer l)} (some (Status.ok, (bytes, d))) (some a)
        → Performs fw a (some (performed good))
    unfolding Performs
    state_of-Performs bytes d fw good a advanced e =
        subst (λ t. Performs fw t (some (performed good))) (some-injective _ _ e)
          (performed-Performs Status.ok advanced)

    pub perform-Performs :
        (r : Request) (fw : Firmware l) (a : Answer l)
        → IsSound l fw
        → length (queued fw.reply) + space r ≤ 60
        → answer l r fw.interface ≡ some a
        → Performs fw a (perform l stack r fw)
    unfolding perform space answer
    perform-Performs (reset state) fw a sound room e =
        state_of-Performs [] fw.interface fw _ a (reset-Advanced l state fw sound) e
    perform-Performs connect fw a sound room e = read_of-Performs _ fw a sound room e
    perform-Performs (read_debug address) fw a sound room e = read_of-Performs _ fw a sound room e
    perform-Performs (write_debug address word) fw a sound room e = write_of-Performs _ fw a sound e
    perform-Performs (read_access address) fw a sound room e = read_of-Performs _ fw a sound room e
    perform-Performs (write_access address word) fw a sound room e =
        write_of-Performs _ fw a sound e
    perform-Performs (read_word address) fw a sound room e = read_of-Performs _ fw a sound room e
    perform-Performs (write_word address word) fw a sound room e = write_of-Performs _ fw a sound e
    perform-Performs (wait_true address mask) fw a sound room e =
        poll_of-Performs _ fw a (poll-IsFailure l max_polls address mask fw.interface) sound e
    perform-Performs program_id fw a sound room e =
        state_of-Performs _ fw.interface fw _ a (program_id-Advanced l fw sound room) e
