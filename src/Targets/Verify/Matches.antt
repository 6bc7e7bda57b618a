-- ===== src/Targets/Verify/Matches.antt =====
-- `verifyFlash` compares the memory with the file, word by word.
use swagger.Prelude.{
  ℕ, zero, suc, ◌+◌, ◌*◌, ◌/◌, ◌%◌, ◌^◌, ◌≤◌, ◌≡◌, refl, ap, ◌∙◌, inl, inr, Bool, true, false,
  Option, none, some, List, [], ◌∷◌, arith, ◌==◌, if◌then◌else◌, Bool-cases, length,
}
use swagger.Word32.{join}
use swagger.Probe.{Link, Driver, read_memory}
use swagger.Protocol.Status
use swagger.Targets.Verify.{sign_extend, readn, compare_words}
use swagger.Targets.Verify.Words.{lows, read_words}

-- The words of a file, as the script reads them; bytes that make no whole word are not read.
unfoldable pub file_words : List ℕ → List ℕ
file_words (b0 ∷ b1 ∷ b2 ∷ b3 ∷ rest) = sign_extend (join b0 b1 b2 b3) ∷ file_words rest
file_words few = []

pub length-file_words : (blob : List ℕ) → length (file_words blob) ≡ length blob / 4
unfolding file_words
length-file_words [] = omega arith
length-file_words (a ∷ []) = omega arith
length-file_words (a ∷ b ∷ []) = omega arith
length-file_words (a ∷ b ∷ c ∷ []) = omega arith
length-file_words (a ∷ b ∷ c ∷ d ∷ rest) = omega (arith, length-file_words rest)

readn-file_words :
    (blob : List ℕ)
    → 1 ≤ length (file_words blob)
    → (x : ℕ) × (rest : List ℕ) × (readn blob ≡ some (x, rest))
      × (file_words blob ≡ x ∷ file_words rest)
unfolding file_words readn
readn-file_words [] h = absurd (omega arith)
readn-file_words (a ∷ []) h = absurd (omega arith)
readn-file_words (a ∷ b ∷ []) h = absurd (omega arith)
readn-file_words (a ∷ b ∷ c ∷ []) h = absurd (omega arith)
readn-file_words (a ∷ b ∷ c ∷ d ∷ rest) h = (sign_extend (join a b c d), rest, refl, refl)

unfoldable pub binary_size : Option (List ℕ) → ℕ
binary_size none = 0
binary_size (some blob) = length blob

module _ (l : Link) where
  -- The driver reads every word without an error, and finds the one that is expected.
  unfoldable pub matches : (expected : List ℕ) (address : ℕ) → Driver l → Bool
  matches [] address d = true
  matches (x ∷ expected) address d =
      let ((status, word), d') = read_memory l address 0 d in
      let rest = matches expected (address + 4) d' in
      if status == Status.ok then (if x == word % 2 ^ 32 then rest else false) else false

  -- A file that cannot be opened matches nothing.
  unfoldable pub binary_matches : Option (List ℕ) → Driver l → Bool
  binary_matches none d = false
  binary_matches (some blob) d = matches (file_words blob) 0 d

  -- What a comparison of `count` words says of the words of the blob.
  unfoldable pub Says :
      (count address : ℕ) (blob : List ℕ) (d : Driver l) → Bool → Option (List ℕ) → Type 0
  Says count address blob d matched none = matched ≡ false
  Says count address blob d matched (some blob') =
      (matched ≡ matches (file_words blob') (address + count * 4) d)
      × (length (file_words blob) ≡ count + length (file_words blob'))

  compare_words_step :
      (count x y : ℕ) (blob blob' contents : List ℕ)
      → readn blob ≡ some (x, blob')
      → compare_words (suc count) blob (y ∷ contents)
        ≡ (if x == y then compare_words count blob' contents else none)
  unfolding compare_words
  compare_words_step count x y blob blob' contents e = rw (compare_words, e) refl

  pub matches_empty :
      (expected : List ℕ) (address : ℕ) (d : Driver l)
      → length expected ≡ 0
      → matches expected address d ≡ true
  unfolding matches
  matches_empty [] address d e = refl
  matches_empty (x ∷ expected) address d e = absurd (omega arith)

  compare_words_none : (blob contents : List ℕ) → compare_words 0 blob contents ≡ some blob
  unfolding compare_words
  compare_words_none blob contents = refl

  matches_step :
      (x address : ℕ) (expected : List ℕ) (d : Driver l)
      → matches (x ∷ expected) address d ≡ (
          let ((status, word), d') = read_memory l address 0 d in
          if status == Status.ok
          then (if x == word % 2 ^ 32 then matches expected (address + 4) d' else false)
          else false)
  unfolding matches
  matches_step x address expected d = refl

  Says-shift :
      (count address : ℕ) (blob blob' : List ℕ) (d : Driver l) (matched : Bool)
      (o : Option (List ℕ))
      → length (file_words blob) ≡ suc (length (file_words blob'))
      → Says count (address + 4) blob' d matched o
      → Says (suc count) address blob d matched o
  unfolding Says
  Says-shift count address blob blob' d matched none one h = h
  Says-shift count address blob blob' d matched (some rest) one (same, counted) =
      let shifted : address + 4 + count * 4 ≡ address + suc count * 4 = omega arith in
      (same ∙ ap (λ a. matches (file_words rest) a d) shifted, omega (arith, one, counted))

  pub compare_words-Says :
      (count address : ℕ) (blob : List ℕ) (d : Driver l)
      → count ≤ length (file_words blob)
      → ((read_words l count address d).0 == Status.ok) ≡ true
      → Says count address blob
          (read_words l count address d).1.1
          (matches (file_words blob) address d)
          (compare_words count blob (lows (read_words l count address d).1.0))
  unfolding Says read_words lows
  compare_words-Says zero address blob d within good =
      rw (compare_words_none blob [])
        (ap (λ a. matches (file_words blob) a d) (omega arith), omega arith)
  compare_words-Says (suc count) address blob d within good =
      let ((status, word), d') = read_memory l address 0 d in
      let (x, blob', reads, cut) = readn-file_words blob (omega arith) in
      let one : length (file_words blob) ≡ suc (length (file_words blob')) =
        ap (λ t. length t) cut in
      elim (Bool-cases (status == Status.ok)) [
        | inr bad ↦ absurd (ground (arith, bad, rw bad at good))
        | inl first ↦
            let ih =
              compare_words-Says count (address + 4) blob' d' (omega arith) (rw first at good) in
            let step : matches (file_words blob) address d ≡ (
                if x == word % 2 ^ 32 then matches (file_words blob') (address + 4) d' else false) =
              ap (λ t. matches t address d) cut
              ∙ (matches_step x address (file_words blob') d ∙ rw first refl) in
            rw
              (
                first,
                step,
                compare_words_step count x (word % 2 ^ 32) blob blob'
                    (lows (read_words l count (address + 4) d').1.0) reads,
              )
              (elim (Bool-cases (x == word % 2 ^ 32)) [
                | inl same ↦ rw same (Says-shift count address blob blob' _ _ _ one ih)
                | inr differs ↦ rw differs refl
              ])
      ]

  pub failed-matches :
      (count address : ℕ) (blob : List ℕ) (d : Driver l)
      → count ≤ length (file_words blob)
      → ((read_words l count address d).0 == Status.ok) ≡ false
      → matches (file_words blob) address d ≡ false
  unfolding read_words
  failed-matches zero address blob d within bad = absurd (ground (arith, bad))
  failed-matches (suc count) address blob d within bad =
      let ((status, word), d') = read_memory l address 0 d in
      let (x, blob', reads, cut) = readn-file_words blob (omega arith) in
      let one : length (file_words blob) ≡ suc (length (file_words blob')) =
        ap (λ t. length t) cut in
      ap (λ t. matches t address d) cut
      ∙ (matches_step x address (file_words blob') d ∙ elim (Bool-cases (status == Status.ok)) [
        | inr e ↦ rw e refl
        | inl e ↦
            let rest = failed-matches count (address + 4) blob' d' (omega arith) (rw e at bad) in
            rw e (elim (Bool-cases (x == word % 2 ^ 32)) [
              | inl same ↦ rw same rest
              | inr differs ↦ rw differs refl
            ])
      ])
