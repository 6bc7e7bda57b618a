-- ===== src/Targets/Verify/Words.antt =====
-- What `readMemoryWords` returns.
use swagger.Prelude.{
  ℕ, zero, suc, ◌+◌, ◌*◌, ◌%◌, ◌^◌, ◌≤◌, ◌≡◌, refl, sym, ap, ◌∙◌, inl, inr, true, false, some, List,
  [], ◌∷◌, ◌++◌, append_assoc, append-nil, arith, ◌==◌, ltb, if◌then◌else◌, Bool-cases, length, All,
}
use swagger.Word32.{le_bytes}
use swagger.Probe.{Link, Driver, read_memory}
use swagger.Protocol.Status
use swagger.Firmware.Loop.Requests.{Request, read_word, stream, bytes, IsRequest}
use swagger.Firmware.Loop.Requests.Answers.{answer, answers, go_on_if, prepend, space, spaces}
use swagger.Host.Packet.{SerialPort}
use swagger.Host.Script.{SquirrelVm, Session}
use swagger.Targets.{call_clear, call_pop8}
use swagger.Targets.Queueing.{IsScripted, queue_request}
use swagger.Targets.Turn.{
  Bench, IsAtRest, IsAnswered, IsQueued, call_clear-IsQueued, call_execute-answers,
  call_pop8-answers, call_pop32-answers,
}
use swagger.Targets.One.{queue_request-IsQueued}
use swagger.Targets.Verify.{words, code, queue_words, pop_words, pop_contents, read_memory_words}

-- The commands that read so many words.
pub word_requests : (left address : ℕ) → List Request
word_requests zero address = []
word_requests (suc left) address = read_word address ∷ word_requests left (address + 4)

pub words_bytes : List ℕ → List ℕ
words_bytes [] = []
words_bytes (w ∷ ws) = le_bytes w ++ words_bytes ws

unfoldable pub lows : List ℕ → List ℕ
lows [] = []
lows (w ∷ ws) = w % 2 ^ 32 ∷ lows ws

module _ (l : Link) where
  -- The driver reads words one after the other, up to an error.
  unfoldable pub read_words : (left address : ℕ) → Driver l → ℕ × (List ℕ × Driver l)
  read_words zero address d = (Status.ok, ([], d))
  read_words (suc left) address d =
      let ((status, word), d') = read_memory l address 0 d in
      let (status', (rest, d'')) = read_words left (address + 4) d' in
      if status == Status.ok then (status', (word ∷ rest, d'')) else (status, ([], d'))

  answers-words :
      (left address : ℕ) (d : Driver l)
      → answers l (word_requests left address) d ≡ (
          let (status, (ws, d')) = read_words left address d in some (status, (words_bytes ws, d')))
  unfolding answers word_requests read_words words_bytes answer go_on_if prepend
  answers-words zero address d = refl
  answers-words (suc left) address d =
      let ((status, word), d') = read_memory l address 0 d in
      elim (Bool-cases (status == Status.ok)) [
        | inl good ↦ rw (good, answers-words left (address + 4) d') refl
        | inr bad ↦ rw bad refl
      ]

  pub length-read_words :
      (left address : ℕ) (d : Driver l)
      → ((read_words left address d).0 == Status.ok) ≡ true
      → length (read_words left address d).1.0 ≡ left
  unfolding read_words
  length-read_words zero address d e = refl
  length-read_words (suc left) address d e =
      let ((status, word), d') = read_memory l address 0 d in
      elim (Bool-cases (status == Status.ok)) [
        | inl good ↦ rw good (ap suc (length-read_words left (address + 4) d' (rw good at e)))
        | inr bad ↦ absurd (ground (arith, bad, rw bad at e))
      ]

word_requests-valid :
    (left address : ℕ) → address + left * 4 ≤ 2 ^ 32 → All IsRequest (word_requests left address)
unfolding word_requests IsRequest
word_requests-valid zero address small = tt
word_requests-valid (suc left) address small =
    (omega arith, word_requests-valid left (address + 4) (omega arith))

length-stream : (left address : ℕ) → length (stream (word_requests left address)) ≡ left * 5
unfolding word_requests stream bytes
length-stream zero address = refl
length-stream (suc left) address = omega (arith, length-stream left (address + 4))

spaces-words : (left address : ℕ) → spaces (word_requests left address) ≡ left * 4
unfolding word_requests spaces space
spaces-words zero address = refl
spaces-words (suc left) address = omega (arith, spaces-words left (address + 4))

length-word_requests : (left address : ℕ) → length (word_requests left address) ≡ left
unfolding word_requests
length-word_requests zero address = refl
length-word_requests (suc left) address = ap suc (length-word_requests left (address + 4))

module _ (m : SquirrelVm) (q : SerialPort) (l : Link) (b : Bench m q l) where
  queue_words-IsQueued :
      (left address : ℕ) (rs : List Request) (s : Session m q) (d : Driver l)
      → IsQueued m q l b s rs d
      → IsQueued m q l b
          (queue_words m b.frames q left address s)
          (rs ++ word_requests left address)
          d
  unfolding queue_words word_requests IsScripted queue_request
  queue_words-IsQueued zero address rs s d h = rw (append-nil rs) h
  queue_words-IsQueued (suc left) address rs s d h =
      let one = queue_request-IsQueued m q l b (read_word address) rs s d tt h in
      rw (append_assoc rs (read_word address ∷ []) (word_requests left (address + 4))) at
        (queue_words-IsQueued left (address + 4) (rs ++ (read_word address ∷ [])) _ d one)

  pop_words-answers :
      (ws : List ℕ) (s : Session m q) (d : Driver l)
      → IsAnswered m q l b s (words_bytes ws) d
      → (s' : Session m q) × (pop_words m b.frames q (length ws) s ≡ (lows ws, s'))
        × IsAnswered m q l b s' [] d
  unfolding words_bytes lows pop_words
  pop_words-answers [] s d h = (s, refl, h)
  pop_words-answers (w ∷ ws) s d h =
      let (s1, pops, left) = call_pop32-answers m q l b s w (words_bytes ws) d h in
      let (s2, rest, emptied) = pop_words-answers ws s1 d left in
      (s2, rw (pops, rest) refl, emptied)

  pop_contents_good :
      (count status : ℕ) (ws : List ℕ) (s s' : Session m q)
      → (status == Status.ok) ≡ true
      → pop_words m b.frames q count s ≡ (ws, s')
      → pop_contents m b.frames q count (status, s) ≡ (words ws, s')
  unfolding pop_contents
  pop_contents_good count status ws s s' good e = rw (pop_contents, good, e) refl

  pop_contents_bad :
      (count status : ℕ) (s : Session m q)
      → (status == Status.ok) ≡ false
      → pop_contents m b.frames q count (status, s) ≡ (code status, s)
  unfolding pop_contents
  pop_contents_bad count status s bad = rw (pop_contents, bad) refl

  pop_contents-answers :
      (count status : ℕ) (ws : List ℕ) (s : Session m q) (d : Driver l)
      → ((status == Status.ok) ≡ true → length ws ≡ count)
      → IsAnswered m q l b s (status ∷ words_bytes ws) d
      → (s' : Session m q) × (pop_contents m b.frames q count (call_pop8 m b.frames q s)
          ≡ (if status == Status.ok then words (lows ws) else code status, s'))
        × IsAtRest m q l b s' d
  pop_contents-answers count status ws s d whole h =
      let (s1, pops, left) = call_pop8-answers m q l b s status (words_bytes ws) d h in
      elim (Bool-cases (status == Status.ok)) [
        | inr bad ↦ rw bad (
          s1,
          ap (λ t. pop_contents m b.frames q count t) pops ∙ pop_contents_bad count status s1 bad,
          left.rest,
        )
        | inl good ↦
            let (s2, all, emptied) = pop_words-answers ws s1 d left in
            let counted = ap (λ n. pop_words m b.frames q n s1) (sym (whole good)) ∙ all in
            rw good (
              s2,
              ap (λ t. pop_contents m b.frames q count t) pops
                  ∙ pop_contents_good count status (lows ws) s1 s2 good counted,
              emptied.rest,
            )
      ]

  -- readMemoryWords of six words at most returns the array of the words that the driver reads, or the
  -- status of the first reading that fails.
  pub read_memory_words-read_words :
      (count address : ℕ) (s : Session m q) (d : Driver l)
      → IsAtRest m q l b s d
      → count ≤ 6
      → address + count * 4 ≤ 2 ^ 32
      → (s' : Session m q) × (read_memory_words m b.frames q b.fuel_read b.c address count s
          ≡ some (
            if (read_words l count address d).0 == Status.ok
                then words (lows (read_words l count address d).1.0)
                else code (read_words l count address d).0,
            s',
          ))
        × IsAtRest m q l b s' (read_words l count address d).1.1
  unfolding read_memory_words
  read_memory_words-read_words count address s d rest few small =
      let (status, (ws, d')) = read_words l count address d in
      let rs = word_requests count address in
      let s0 = call_clear m b.frames q s in
      let queued =
        queue_words-IsQueued count address [] s0 d (call_clear-IsQueued m q l b s d rest) in
      let (s1, runs, answered) =
        call_execute-answers m q l b rs _ d d' status (words_bytes ws) queued
          (omega (arith, length-stream count address)) (word_requests-valid count address small)
          (omega (arith, spaces-words count address))
          (omega (arith, length-word_requests count address)) (answers-words l count address d) in
      let (s2, pops, at_rest) =
        pop_contents-answers count status ws s1 d' (length-read_words l count address d) answered in
      let within : ltb 6 count ≡ false = ground (arith, few) in
      (s2, rw (within, runs, pops) refl, at_rest)
