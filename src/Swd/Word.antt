-- ===== src/Swd/Word.antt =====
-- Words on the wire, lowest bit first.
use swagger.Prelude.{
  ℕ, zero, suc, ◌+◌, ◌*◌, ◌/◌, ◌%◌, ◌^◌, ◌<◌, ◌≡◌, refl, ◌∙◌, ap, Bool, true, false, List, [], ◌∷◌,
  ◌++◌, arith, ltb, ◌==◌, if◌then◌else◌, length, get_or,
}
use Prim.Native.Nat.{bit_and, bit_or}
use native.Mathlib.Nat.{pow-suc, one-le-pow, div-add-mod}
use swagger.Prelude.Bits.{bit_and-one, bit_or-two_pow, two_pow-add}
use swagger.Swd.{Wire, write_bit, write_bits, read_bit, read_bits}
use swagger.Swd.View.{
  view, Clocks, Clocks-refl, Clocks-trans, Clocks-recount, write_bit-Clocks, read_bit-Clocks,
}

-- The lowest `n` bits of a number.
unfoldable pub word_bits : ℕ → ℕ → List Bool
word_bits zero v = []
word_bits (suc n) v = (v % 2 == 1) ∷ word_bits n (v / 2)

low_bit : (v : ℕ) → ltb 0 (bit_and v 1) ≡ (v % 2 == 1)
low_bit v = ground (arith, bit_and-one v)

-- A loop of `writeBit` sends the lowest bits of the word, the lowest first.
pub write_bits-Clocks :
    (n v : ℕ) (w : Wire)
    → (view w).driven ≡ true
    → Clocks w (write_bits n v w).1 true (word_bits n v) 0
unfolding write_bits word_bits
write_bits-Clocks zero v w h = Clocks-refl w true h
write_bits-Clocks (suc n) v w h = rw low_bit (
    let p = write_bit-Clocks w (v % 2 == 1) h in
    Clocks-trans p (write_bits-Clocks n (v / 2) (write_bit (v % 2 == 1) w).1 p.driven))

-- The target's `k`-th answer from the `n`-th sample on is the `k`-th of the list.
abbrev pub Serves : (Wire → Bool) → ℕ → List Bool → Type 0
Serves target n answers =
    (w : Wire) (k : ℕ)
    → (view w).samples ≡ n + k
    → k < length answers
    → target w ≡ get_or answers k false

-- The word that the read loop makes of the bits it gets.
shift_in : List Bool → ℕ → ℕ
shift_in [] word = word
shift_in (b ∷ bs) word = shift_in bs (if b then bit_or (word / 2) 0x8000_0000 else word / 2)

module _ (target : Wire → Bool) where
  pub Serves-tail :
      (n : ℕ) (b : Bool) (bs : List Bool) → Serves target n (b ∷ bs) → Serves target (n + 1) bs
  Serves-tail n b bs serves w k at_k short = serves w (suc k) (omega arith) (omega arith)

  -- What `readBit` returns is the target's answer.
  pub read_bit-Serves :
      (w : Wire) (n : ℕ) (b : Bool) (bs : List Bool)
      → Serves target n (b ∷ bs)
      → (view w).samples ≡ n
      → (read_bit target w).0 ≡ b
  unfolding read_bit view
  read_bit-Serves w n b bs serves here = serves _ 0 (omega arith) (omega arith)

  read_bits_step :
      (rounds word : ℕ) (w : Wire)
      → read_bits target (suc rounds) word w ≡ (
          let r = read_bit target w in
          read_bits target rounds (if r.0 then bit_or (word / 2) 0x8000_0000 else word / 2) r.1)
  unfolding read_bits
  read_bits_step rounds word w = refl

  read_bits_end : (word : ℕ) (w : Wire) → read_bits target 0 word w ≡ (word, w)
  unfolding read_bits
  read_bits_end word w = refl

  -- The read loop takes the answers in, and the target goes on with the rest of them.
  read_bits-shift_in :
      (bs back : List Bool) (word n : ℕ) (w : Wire)
      → Serves target n (bs ++ back)
      → (view w).samples ≡ n
      → (view w).driven ≡ false
      → ((read_bits target (length bs) word w).0 ≡ shift_in bs word)
        × Clocks w (read_bits target (length bs) word w).1 false [] (length bs)
        × Serves target (n + length bs) back
  unfolding shift_in
  read_bits-shift_in [] back word n w serves here listens =
      rw read_bits_end
        (refl, Clocks-refl w false listens, λ w k at_k short. serves w k (omega arith) short)
  read_bits-shift_in (b ∷ bs) back word n w serves here listens =
      let p = read_bit-Clocks w target listens in
      let next = if b then bit_or (word / 2) 0x8000_0000 else word / 2 in
      let (value, q, left) =
        read_bits-shift_in bs back next (n + 1) (read_bit target w).1
          (Serves-tail n b (bs ++ back) serves) (omega (arith, p.samples)) p.driven in
      rw (read_bits_step, read_bit-Serves w n b (bs ++ back) serves here)
        (value, later p q, λ w k at_k short. left w k (omega arith) short)
    where
      later :
          {w' w'' : Wire}
          → Clocks w w' false [] 1
          → Clocks w' w'' false [] (length bs)
          → Clocks w w'' false [] (suc (length bs))
      later p q = let both = Clocks-trans p q in Clocks-recount both (omega arith)

-- One round, where `held` is what came before, above `suc n` bits that are still to come.
next_word :
    (n m held : ℕ) (b : Bool)
    → suc n + m ≡ 32
    → held < 2 ^ m
    → (let word = held * 2 ^ suc n in if b then bit_or (word / 2) 0x8000_0000 else word / 2)
      ≡ (held + (if b then 1 else 0) * 2 ^ m) * 2 ^ n
next_word n m held b e h =
    let half : held * 2 ^ suc n / 2 ≡ held * 2 ^ n =
      omega (arith, ap (λ (t : ℕ). held * t) (pow-suc 2 n)) in
    let places : 31 ≡ n + m = omega arith in
    let top : 2 ^ 31 ≡ 2 ^ n * 2 ^ m = rw (← two_pow-add n m) (ap (λ t. 2 ^ t) places) in
    let below : held * 2 ^ n < 2 ^ 31 = grind (arith, one-le-pow n 2) in rw half (go b top below)
  where
    go :
        (b : Bool)
        → 2 ^ 31 ≡ 2 ^ n * 2 ^ m
        → held * 2 ^ n < 2 ^ 31
        → (if b then bit_or (held * 2 ^ n) 0x8000_0000 else held * 2 ^ n)
          ≡ (held + (if b then 1 else 0) * 2 ^ m) * 2 ^ n
    go true top below = omega (arith, bit_or-two_pow 31 (held * 2 ^ n) below)
    go false top below = omega arith

-- Shifting in the bits of an `n`-bit `v` below `m` bits that are there.
shift_in-word_bits :
    (n m held v : ℕ)
    → n + m ≡ 32
    → held < 2 ^ m
    → v < 2 ^ n
    → shift_in (word_bits n v) (held * 2 ^ n) ≡ held + v * 2 ^ m
unfolding shift_in word_bits
shift_in-word_bits zero m held v e h k =
    let none_left : v ≡ 0 = omega arith in rw none_left (omega arith)
shift_in-word_bits (suc n) m held v e h k =
    let held' = held + (if v % 2 == 1 then 1 else 0) * 2 ^ m in
    ap (shift_in (word_bits n (v / 2))) (next_word n m held (v % 2 == 1) e h)
    ∙ shift_in-word_bits n (suc m) held' (v / 2) (omega arith) (ground (arith, pow-suc 2 m))
        (omega (arith, pow-suc 2 n))
    ∙ ground (
      arith,
      ap (λ (t : ℕ). v / 2 * t) (pow-suc 2 m),
      ap (λ (t : ℕ). t * 2 ^ m) (div-add-mod v 2),
    )

length-word_bits : (n v : ℕ) → length (word_bits n v) ≡ n
unfolding word_bits
length-word_bits zero v = refl
length-word_bits (suc n) v = ap suc (length-word_bits n (v / 2))

-- The read loop gets a 32-bit word back from its bits, lowest first.
pub read_bits-word :
    (target : Wire → Bool) (v n : ℕ) (back : List Bool) (w : Wire)
    → v < 2 ^ 32
    → Serves target n (word_bits 32 v ++ back)
    → (view w).samples ≡ n
    → (view w).driven ≡ false
    → ((read_bits target 32 0 w).0 ≡ v)
      × Clocks w (read_bits target 32 0 w).1 false [] 32
      × Serves target (n + 32) back
read_bits-word target v n back w small serves here listens =
    let (value, clocks, left) =
      rw (length-word_bits 32 v) at
        (read_bits-shift_in target (word_bits 32 v) back 0 n w serves here listens) in
    (
      value ∙ shift_in-word_bits 32 0 0 v (omega arith) (omega arith) small ∙ omega arith,
      clocks,
      left,
    )
