-- ===== src/Firmware/Loop/Requests/Reading.antt =====
-- Bytes and words in an array, at a place behind a list of bytes.
use native.Mathlib.Nat.{zero-add, suc-add}
use swagger.Prelude.{
  ℕ, ◌+◌, ◌^◌, ◌<◌, ◌≡◌, refl, ap, ◌∙◌, some, List, [], ◌∷◌, ◌++◌, arith, length, get_elem?,
}
use swagger.Word32.{le_bytes, join-le_bytes}
use swagger.Firmware.Loop.{get_uint32}

pub get_elem?-append :
    (xs ys : List ℕ) (i : ℕ) → get_elem? (xs ++ ys) (length xs + i) ≡ get_elem? ys i
get_elem?-append [] ys i = rw zero-add refl
get_elem?-append (x ∷ xs) ys i = rw suc-add (get_elem?-append xs ys i)

pub get_elem?-first : (xs ys : List ℕ) (b : ℕ) → get_elem? (xs ++ (b ∷ ys)) (length xs) ≡ some b
get_elem?-first [] ys b = refl
get_elem?-first (x ∷ xs) ys b = get_elem?-first xs ys b

get_uint32-append :
    (xs ys : List ℕ) (i : ℕ) → get_uint32 (xs ++ ys) (length xs + i) ≡ get_uint32 ys i
unfolding get_uint32
get_uint32-append xs ys i =
    let e1 : length xs + i + 1 ≡ length xs + (i + 1) = omega arith in
    let e2 : length xs + i + 2 ≡ length xs + (i + 2) = omega arith in
    let e3 : length xs + i + 3 ≡ length xs + (i + 3) = omega arith in
    rw (e1, e2, e3, get_elem?-append, get_elem?-append, get_elem?-append, get_elem?-append) refl

get_uint32-word : (w : ℕ) (rest : List ℕ) → w < 2 ^ 32 → get_uint32 (le_bytes w ++ rest) 0 ≡ some w
unfolding get_uint32
get_uint32-word w rest h = ap some (join-le_bytes w h)

-- The word after the bytes `before`, in an array where they stand after `xs`.
word_at :
    (xs before rest : List ℕ) (w : ℕ)
    → w < 2 ^ 32
    → get_uint32 (xs ++ (before ++ (le_bytes w ++ rest))) (length xs + length before) ≡ some w
word_at xs before rest w h =
    let start : length before + 0 ≡ length before = omega arith in
    get_uint32-append xs (before ++ (le_bytes w ++ rest)) (length before)
    ∙ (rw start at (get_uint32-append before (le_bytes w ++ rest) 0))
    ∙ get_uint32-word w rest h

module _ (xs rest : List ℕ) (cmd : ℕ) where
  pub only_word :
      (w : ℕ)
      → w < 2 ^ 32
      → get_uint32 (xs ++ (cmd ∷ (le_bytes w ++ rest))) (length xs + 1) ≡ some w
  only_word w h = word_at xs (cmd ∷ []) rest w h

  pub word_after :
      (b w : ℕ)
      → w < 2 ^ 32
      → get_uint32 (xs ++ (cmd ∷ b ∷ (le_bytes w ++ rest))) (length xs + 2) ≡ some w
  word_after b w h = word_at xs (cmd ∷ b ∷ []) rest w h

  pub first_word :
      (w v : ℕ)
      → w < 2 ^ 32
      → get_uint32 (xs ++ (cmd ∷ (le_bytes w ++ (le_bytes v ++ rest)))) (length xs + 1) ≡ some w
  first_word w v h = word_at xs (cmd ∷ []) (le_bytes v ++ rest) w h

  pub second_word :
      (w v : ℕ)
      → v < 2 ^ 32
      → get_uint32 (xs ++ (cmd ∷ (le_bytes w ++ (le_bytes v ++ rest)))) (length xs + 5) ≡ some v
  second_word w v h = word_at xs (cmd ∷ le_bytes w) rest v h
