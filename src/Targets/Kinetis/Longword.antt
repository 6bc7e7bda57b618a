-- ===== src/Targets/Kinetis/Longword.antt =====
-- `kinetis_flash_longword`: one exchange of seven commands.
use Prim.Native.Nat.{bit_and, bit_or}
use swagger.Prelude.{
  ℕ, ◌+◌, ◌/◌, ◌%◌, ◌^◌, ◌<◌, ◌≡◌, refl, sym, ap, ◌∙◌, Bool, ◌||◌, inl, inr, some, List, [], ◌∷◌,
  ◌++◌, arith, ◌==◌, if◌then◌else◌, Bool-cases, length, All,
}
use swagger.Prelude.Bits.{bit_or_bound, bit_and_mask, bit_and-two_pow}
use swagger.Word32.{le_bytes, join}
use swagger.Probe.{Link, Driver}
use swagger.Protocol.Status
use swagger.Firmware.Loop.Requests.{
  Request, read_word, write_word, wait_true, stream, bytes, IsRequest,
}
use swagger.Firmware.Loop.Requests.Answers.{answers, spaces, space}
use swagger.Host.Packet.{SerialPort}
use swagger.Host.Script.{SquirrelVm, Session, pop_word}
use swagger.Targets.{minus_one, call_pop8}
use swagger.Targets.Queueing.{IsScripted, queue_request, queue_request-Queues}
use swagger.Targets.Turn.{
  Bench, IsAtRest, IsAnswered, IsQueued, Queues-IsAtRest, call_clear-IsQueued, call_execute-answers,
  call_pop8-answers, call_pop32-pop_word,
}
use swagger.Targets.One.{queue_request-IsQueued, stream-append}
use swagger.Targets.Kinetis.Registers
use swagger.Targets.Kinetis.{
  flash_error, queue_longword, longword_flags, longword_status, longword_end, flash_longword,
}

-- Clear the errors, wait, set address and word, start, wait, and read the flags.
unfoldable pub longword_requests : (address word : ℕ) → List Request
longword_requests address word =
    write_word Registers.fstat 0xFFFE_0070
    ∷ wait_true Registers.fstat Registers.fstat_ccif
    ∷ write_word Registers.fccob_base (bit_or 0x0600_0000 (bit_and address 0x00FF_FFFF))
    ∷ write_word (Registers.fccob_base + 4) (word % 2 ^ 32)
    ∷ write_word Registers.fstat 0xFFFE_0080
    ∷ wait_true Registers.fstat Registers.fstat_ccif
    ∷ read_word Registers.fstat
    ∷ []

longword_requests-valid : (address word : ℕ) → All IsRequest (longword_requests address word)
unfolding longword_requests IsRequest
longword_requests-valid address word =
    let low : bit_and address 0x00FF_FFFF ≡ address % 2 ^ 24 = bit_and_mask 24 address in
    let target : bit_or 0x0600_0000 (bit_and address 0x00FF_FFFF) < 2 ^ 32 =
      bit_or_bound 32 _ _ (omega arith) (omega (arith, low)) in
    (
      (omega arith, omega arith),
      (
        (omega arith, omega arith),
        (
          (omega arith, target),
          (
            (omega arith, omega arith),
            ((omega arith, omega arith), ((omega arith, omega arith), (omega arith, tt))),
          ),
        ),
      ),
    )

length-longword : (address word : ℕ) → length (stream (longword_requests address word)) ≡ 59
unfolding longword_requests stream bytes
length-longword address word = refl

spaces-longword : (address word : ℕ) → spaces (longword_requests address word) ≡ 4
unfolding longword_requests spaces space
spaces-longword address word = refl

length-longword_requests : (address word : ℕ) → length (longword_requests address word) ≡ 7
unfolding longword_requests
length-longword_requests address word = refl

le_bytes-low : (w : ℕ) → le_bytes w ≡ le_bytes (w % 2 ^ 32)
le_bytes-low w =
    let e0 : w % 2 ^ 32 % 256 ≡ w % 256 = omega arith in
    let e1 : w % 2 ^ 32 / 2 ^ 8 % 256 ≡ w / 2 ^ 8 % 256 = omega arith in
    let e2 : w % 2 ^ 32 / 2 ^ 16 % 256 ≡ w / 2 ^ 16 % 256 = omega arith in
    let e3 : w % 2 ^ 32 / 2 ^ 24 % 256 ≡ w / 2 ^ 24 % 256 = omega arith in rw (e0, e1, e2, e3) refl

bytes-low : (address w : ℕ) → bytes (write_word address w) ≡ bytes (write_word address (w % 2 ^ 32))
unfolding bytes
bytes-low address w = ap (λ t. 7 ∷ (le_bytes address ++ t)) (le_bytes-low w)

-- The flag at the place `k`, as the reference manual of the controller numbers them.
abbrev is_set : (k flags : ℕ) → Bool
is_set k flags = flags / 2 ^ k % 2 == 1

-- A protection violation, an access error or a read collision. (MGSTAT0, the flag at place 0, is
-- none of them.)
unfoldable pub reports_error : (flags : ℕ) → Bool
reports_error flags = is_set 4 flags || is_set 5 flags || is_set 6 flags

-- The word at the front of a reply, its lowest byte first.
unfoldable pub reply_word : List ℕ → ℕ
reply_word (b0 ∷ b1 ∷ b2 ∷ b3 ∷ rest) = join b0 b1 b2 b3
reply_word few = 0

-- What a long word comes to: -1 after an error of a command, or one of the three in the flags.
unfoldable pub longword_verdict : (status : ℕ) (reply : List ℕ) → ℕ
longword_verdict status reply =
    if status == Status.ok
    then (if reports_error (reply_word reply) then minus_one else 0)
    else minus_one

flash_error-reports_error : (flags : ℕ) → flash_error flags ≡ reports_error flags
unfolding flash_error reports_error
flash_error-reports_error flags =
    ground (arith, bit_and-two_pow 4 flags, bit_and-two_pow 5 flags, bit_and-two_pow 6 flags)

pop_word-reply_word :
    (m : SquirrelVm) (q : SerialPort) (reply : List ℕ) → (pop_word m q reply).0 ≡ reply_word reply
unfolding pop_word reply_word
pop_word-reply_word m q [] = refl
pop_word-reply_word m q (a ∷ []) = refl
pop_word-reply_word m q (a ∷ b ∷ []) = refl
pop_word-reply_word m q (a ∷ b ∷ c ∷ []) = refl
pop_word-reply_word m q (a ∷ b ∷ c ∷ d ∷ rest) = refl

module _ (m : SquirrelVm) (q : SerialPort) (l : Link) (b : Bench m q l) where
  queue_low-IsQueued :
      (address w : ℕ) (rs : List Request) (s : Session m q) (d : Driver l)
      → IsQueued m q l b s rs d
      → IsQueued m q l b
          (queue_request m b.frames q (write_word address w) s)
          (rs ++ (write_word address (w % 2 ^ 32) ∷ []))
          d
  unfolding IsScripted
  queue_low-IsQueued address w rs s d h =
      let more = queue_request-Queues m b.frames q (write_word address w) s tt in
      record {
        queue =
            more.queue
            ∙ (ap (λ t. t ++ bytes (write_word address w)) h.queue
                ∙ (ap (λ t. stream rs ++ t) (bytes-low address w)
                    ∙ sym (stream-append rs (write_word address (w % 2 ^ 32)))));
        rest = Queues-IsAtRest m q l b s _ (bytes (write_word address w)) d more h.rest;
      }

  queue_longword-IsQueued :
      (address word : ℕ) (s : Session m q) (d : Driver l)
      → IsQueued m q l b s [] d
      → IsQueued m q l b
          (queue_longword m b.frames q address word s)
          (longword_requests address word)
          d
  unfolding queue_longword longword_requests IsScripted queue_request
  queue_longword-IsQueued address word s d h =
      let r1 = write_word Registers.fstat 0xFFFE_0070 in
      let r2 = wait_true Registers.fstat Registers.fstat_ccif in
      let r3 = write_word Registers.fccob_base (bit_or 0x0600_0000 (bit_and address 0x00FF_FFFF)) in
      let r4 = write_word (Registers.fccob_base + 4) (word % 2 ^ 32) in
      let r5 = write_word Registers.fstat 0xFFFE_0080 in
      let h1 = queue_request-IsQueued m q l b r1 [] s d tt h in
      let h2 = queue_request-IsQueued m q l b r2 (r1 ∷ []) _ d tt h1 in
      let h3 = queue_request-IsQueued m q l b r3 (r1 ∷ r2 ∷ []) _ d tt h2 in
      let h4 = queue_low-IsQueued (Registers.fccob_base + 4) word (r1 ∷ r2 ∷ r3 ∷ []) _ d h3 in
      let h5 = queue_request-IsQueued m q l b r5 (r1 ∷ r2 ∷ r3 ∷ r4 ∷ []) _ d tt h4 in
      let h6 = queue_request-IsQueued m q l b r2 (r1 ∷ r2 ∷ r3 ∷ r4 ∷ r5 ∷ []) _ d tt h5 in
      queue_request-IsQueued m q l b (read_word Registers.fstat) (r1 ∷ r2 ∷ r3 ∷ r4 ∷ r5 ∷ r2 ∷ [])
        _ d tt h6

  longword_status-verdict :
      (status : ℕ) (reply : List ℕ) (s : Session m q) (d : Driver l)
      → IsAnswered m q l b s reply d
      → (s' : Session m q) × (longword_status m b.frames q (status, s)
          ≡ (longword_verdict status reply, s'))
        × IsAtRest m q l b s' d
  unfolding longword_status longword_flags longword_verdict
  longword_status-verdict status reply s d h = elim (Bool-cases (status == Status.ok)) [
    | inr bad ↦ (s, rw (longword_status, bad) refl, h.rest)
    | inl good ↦
        let (s', pops, left) = call_pop32-pop_word m q l b s reply d h in
        (
          s',
          rw
              (
                longword_status,
                good,
                pops,
                ← pop_word-reply_word m q reply,
                ← flash_error-reports_error (pop_word m q reply).0,
              )
              refl,
          left.rest,
        )
  ]

  longword_end_ok :
      (s : Session m q)
      → longword_end m b.frames q (0, s) ≡ longword_status m b.frames q (call_pop8 m b.frames q s)
  unfolding longword_end
  longword_end_ok s = refl

  -- One long word: 0 where the seven commands succeed and the flags have none of the three errors.
  pub flash_longword-verdict :
      (address word : ℕ) (s : Session m q) (d d' : Driver l) (status : ℕ) (reply : List ℕ)
      → IsAtRest m q l b s d
      → answers l (longword_requests address word) d ≡ some (status, (reply, d'))
      → (s' : Session m q) × (flash_longword m b.frames q b.fuel_read b.c address word s
          ≡ some (longword_verdict status reply, s'))
        × IsAtRest m q l b s' d'
  unfolding flash_longword
  flash_longword-verdict address word s d d' status reply rest e =
      let queued =
        queue_longword-IsQueued address word _ d (call_clear-IsQueued m q l b s d rest) in
      let (s1, runs, answered) =
        call_execute-answers m q l b (longword_requests address word) _ d d' status reply queued
          (omega (arith, length-longword address word)) (longword_requests-valid address word)
          (omega (arith, spaces-longword address word))
          (omega (arith, length-longword_requests address word)) e in
      let (s2, pops, left) = call_pop8-answers m q l b s1 status reply d' answered in
      let (s3, ends, at_rest) = longword_status-verdict status reply s2 d' left in
      (
        s3,
        rw runs
            (ap some (longword_end_ok s1 ∙ (ap (λ t. longword_status m b.frames q t) pops ∙ ends))),
        at_rest,
      )
