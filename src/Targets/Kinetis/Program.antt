-- ===== src/Targets/Kinetis/Program.antt =====
-- `flash_program`: the words of a file one after the other, and a reset.
use swagger.Prelude.{
  ℕ, ◌+◌, ◌%◌, ◌<◌, ◌≡◌, refl, sym, ap, inl, inr, false, Option, none, some, List, [], ◌∷◌, arith,
  ◌==◌, if◌then◌else◌, Bool-cases, length,
}
use mathlib.Core.Option.{some-injective, none-ne-some}
use mathlib.Core.Path.{subst}
use swagger.Word32.{join}
use swagger.Probe.{Link, Driver}
use swagger.Protocol.Status
use swagger.Firmware.Loop.Requests.{reset, IsRequest}
use swagger.Firmware.Loop.Requests.Answers.{Answer, answer, answers}
use swagger.Host.Packet.{SerialPort}
use swagger.Host.Script.{SquirrelVm, Session}
use swagger.Targets.{minus_one}
use swagger.Targets.Functions.{set_reset}
use swagger.Targets.Queueing.{IsScripted, queue_request}
use swagger.Targets.Turn.{Bench, IsAtRest}
use swagger.Targets.One.{turn}
use swagger.Targets.Verify.{sign_extend}
use swagger.Targets.Verify.Matches.{file_words}
use swagger.Targets.Kinetis.{
  flash_longword, program_end, program_word, program_round, program_loop, flash_program,
}
use swagger.Targets.Kinetis.Longword.{longword_requests, longword_verdict, flash_longword-verdict}

module _ (l : Link) where
  -- A verdict, and the driver.
  unfoldable pub longword_result : Option (Answer l) → Option (ℕ × Driver l)
  longword_result none = none
  longword_result (some (status, (reply, d))) = some (longword_verdict status reply, d)

  unfoldable pub continue_if :
      (next : Driver l → Option (ℕ × Driver l)) → Option (ℕ × Driver l) → Option (ℕ × Driver l)
  continue_if next none = none
  continue_if next (some (verdict, d)) = if verdict == 0 then next d else some (minus_one, d)

  -- Every word is programmed at its address, up to the first error. `none` is a polling that is
  -- exhausted.
  unfoldable pub programs : (words : List ℕ) (idx : ℕ) → Driver l → Option (ℕ × Driver l)
  programs [] idx d = some (0, d)
  programs (w ∷ words) idx d =
      continue_if (programs words (idx + 4))
        (longword_result (answers l (longword_requests idx w) d))

module _ (m : SquirrelVm) (q : SerialPort) (l : Link) (b : Bench m q l) where
  pub set_reset-rest :
      (state : ℕ) (s : Session m q) (d : Driver l)
      → state < 256
      → IsAtRest m q l b s d
      → (s' : Session m q) × (set_reset m b.frames q b.fuel_read b.c state s ≡ some s')
        × IsAtRest m q l b s' d
  unfolding set_reset IsScripted IsRequest queue_request answer
  set_reset-rest state s d small rest =
      let t = turn m q l b (reset state) s d d Status.ok [] small tt rest refl in
      (t.after_run, rw t.runs refl, t.ran.rest)

  -- `o` returns the verdict `v` with the programmer ready.
  unfoldable pub Programs : Option (Option ℕ × Session m q) → ℕ → Driver l → Type 0
  Programs o v d = (s' : Session m q) × (o ≡ some (some v, s')) × IsAtRest m q l b s' d

  program_end-Programs :
      (s : Session m q) (d : Driver l)
      → IsAtRest m q l b s d
      → Programs (program_end m b.frames q b.fuel_read b.c s) 0 d
  unfolding Programs program_end
  program_end-Programs s d rest =
      let (s1, held, rest1) = set_reset-rest 1 s d (omega arith) rest in
      let (s2, released, rest2) = set_reset-rest 0 s1 d (omega arith) rest1 in
      (s2, rw (held, released) refl, rest2)

  -- No word of 32 bits is 0xFFFFFFFF once its sign is extended to 64 bits.
  never_skips : (w : ℕ) → (sign_extend w == 0xFFFF_FFFF) ≡ false
  unfolding sign_extend
  never_skips w = ground arith

  program_word-longword :
      (idx w : ℕ) (s : Session m q)
      → program_word m b.frames q b.fuel_read b.c idx (sign_extend w) s
        ≡ flash_longword m b.frames q b.fuel_read b.c idx (sign_extend w) s
  unfolding program_word
  program_word-longword idx w s = rw (never_skips w) refl

  program_loop_step :
      (idx b0 b1 b2 b3 : ℕ) (rest : List ℕ) (s : Session m q) (one : ℕ × Session m q)
      → flash_longword m b.frames q b.fuel_read b.c idx (sign_extend (join b0 b1 b2 b3)) s
        ≡ some one
      → program_loop m b.frames q b.fuel_read b.c idx (b0 ∷ b1 ∷ b2 ∷ b3 ∷ rest) s
        ≡ program_round m b.frames q b.fuel_read b.c
            (program_loop m b.frames q b.fuel_read b.c (idx + 4) rest)
            one
  unfolding program_loop
  program_loop_step idx b0 b1 b2 b3 rest s one e =
      rw (program_loop, program_word-longword idx (join b0 b1 b2 b3) s, e) refl

  round-Programs :
      (next : Session m q → Option (Option ℕ × Session m q))
      (later : Driver l → Option (ℕ × Driver l)) (verdict v : ℕ) (s : Session m q) (d d' : Driver l)
      → IsAtRest m q l b s d
      → (later d ≡ some (v, d') → Programs (next s) v d')
      → continue_if l later (some (verdict, d)) ≡ some (v, d')
      → Programs (program_round m b.frames q b.fuel_read b.c next (verdict, s)) v d'
  unfolding program_round continue_if Programs
  round-Programs next later verdict v s d d' rest ih e = elim (Bool-cases (verdict == 0)) [
    | inl good ↦ rw (program_round, good) (ih (rw good at e))
    | inr bad ↦
        let ends = some-injective _ _ (rw bad at e) in
        let value : minus_one ≡ v = ap (λ t. t.0) ends in
        let driver : d ≡ d' = ap (λ t. t.1) ends in
        (s, rw (program_round, bad, sym value) refl, subst (λ t. IsAtRest m q l b s t) driver rest)
  ]

  word-Programs :
      (idx w v : ℕ) (next : Session m q → Option (Option ℕ × Session m q))
      (later : Driver l → Option (ℕ × Driver l)) (s : Session m q) (d d' : Driver l)
      (o : Option (Answer l))
      → IsAtRest m q l b s d
      → answers l (longword_requests idx w) d ≡ o
      → ((s1 : Session m q) (d1 : Driver l)
          → IsAtRest m q l b s1 d1
          → later d1 ≡ some (v, d')
          → Programs (next s1) v d')
      → continue_if l later (longword_result l o) ≡ some (v, d')
      → (one : ℕ × Session m q) × (flash_longword m b.frames q b.fuel_read b.c idx w s ≡ some one)
        × Programs (program_round m b.frames q b.fuel_read b.c next one) v d'
  unfolding longword_result continue_if
  word-Programs idx w v next later s d d' none rest a ih e = absurd (none-ne-some _ e)
  word-Programs idx w v next later s d d' (some (status, (reply, d1))) rest a ih e =
      let (s1, runs, at_rest) = flash_longword-verdict m q l b idx w s d d1 status reply rest a in
      (
        (longword_verdict status reply, s1),
        runs,
        round-Programs next later (longword_verdict status reply) v s1 d1 d' at_rest
            (ih s1 d1 at_rest) e,
      )

  program_loop-Programs :
      (blob : List ℕ) (idx v : ℕ) (s : Session m q) (d d' : Driver l)
      → IsAtRest m q l b s d
      → length blob % 4 ≡ 0
      → programs l (file_words blob) idx d ≡ some (v, d')
      → Programs (program_loop m b.frames q b.fuel_read b.c idx blob s) v d'
  unfolding file_words programs program_loop
  program_loop-Programs [] idx v s d d' rest whole e =
      subst (λ t. Programs (program_end m b.frames q b.fuel_read b.c s) t.0 t.1)
        (some-injective _ _ e) (program_end-Programs s d rest)
  program_loop-Programs (x ∷ []) idx v s d d' rest whole e = absurd (omega (arith, whole))
  program_loop-Programs (x ∷ y ∷ []) idx v s d d' rest whole e = absurd (omega (arith, whole))
  program_loop-Programs (x ∷ y ∷ z ∷ []) idx v s d d' rest whole e = absurd (omega (arith, whole))
  program_loop-Programs (b0 ∷ b1 ∷ b2 ∷ b3 ∷ blob) idx v s d d' rest whole e =
      let next = program_loop m b.frames q b.fuel_read b.c (idx + 4) blob in
      let later = programs l (file_words blob) (idx + 4) in
      let (one, runs, ends) =
        word-Programs idx (sign_extend (join b0 b1 b2 b3)) v next later s d d' _ rest refl
          (λ s1 d1 rest1 e1.
            program_loop-Programs blob (idx + 4) v s1 d1 d' rest1 (omega (arith, whole)) e1)
          e in
      rw (program_loop_step idx b0 b1 b2 b3 blob s one runs) ends

  -- flash_program of a script, with the programmer ready and a file of whole words, has the firmware
  -- run for every word of the file, from address 0 on and up to the first error, the seven commands
  -- that program it, the word of all ones too. It returns 0 where all of them succeed and the flags
  -- that are read at the end of each word have none of FPVIOL, ACCERR and RDCOLERR (bits 4 to 6), and
  -- else -1; MGSTAT0, a command that failed, does not count. The programmer is ready again, with the
  -- driver as the commands leave it. (No polling is exhausted, and the line is as documented.)
  pub flash_program-programs :
      (blob : List ℕ) (s : Session m q) (d d' : Driver l) (v : ℕ)
      → IsAtRest m q l b s d
      → length blob % 4 ≡ 0
      → programs l (file_words blob) 0 d ≡ some (v, d')
      → Programs (flash_program m b.frames q b.fuel_read b.c (some blob) s) v d'
  unfolding flash_program
  flash_program-programs blob s d d' v rest whole e =
      program_loop-Programs blob 0 v s d d' rest whole e
