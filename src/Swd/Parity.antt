-- ===== src/Swd/Parity.antt =====
-- `calcParity` counts the ones of a 32-bit word modulo 2.
use swagger.Prelude.{ℕ, zero, suc, ◌+◌, ◌/◌, ◌%◌, ◌^◌, ◌≡◌, ap, arith, ltb}
use Prim.Native.Nat.{bit_and, bit_xor}
use native.Mathlib.Nat.{add_comm, zero-add, suc-add, div-one}
use swagger.Prelude.Bits.{bit_xor_step, bit_and-one, shift-bit_xor, div-two_pow-add, half_pow}
use swagger.Swd.{to_int, calc_parity}

-- How many of the lowest `n` bits of `v` are 1.
unfoldable pub ones : ℕ → ℕ → ℕ
ones zero v = 0
ones (suc n) v = v % 2 + ones n (v / 2)

ones-add : (n m v : ℕ) → ones (n + m) v ≡ ones n v + ones m (v / 2 ^ n)
unfolding ones
ones-add zero m v = rw (zero-add, div-one, zero-add)
ones-add (suc n) m v = rw (suc-add, half_pow) (omega (arith, ones-add n m (v / 2)))

-- Each bit of `y` is the parity of `n` bits of `x` from that bit on.
abbrev Folds : ℕ → ℕ → ℕ → Type 0
Folds n x y = (i : ℕ) → y / 2 ^ i % 2 ≡ ones n (x / 2 ^ i) % 2

Folds-double : (n x y : ℕ) → Folds n x y → Folds (n + n) x (bit_xor y (y / 2 ^ n))
Folds-double n x y folds i =
    let low = folds i in
    let high = folds (n + i) in
    rw (shift-bit_xor, div-two_pow-add)
      (omega (
        arith,
        bit_xor_step (y / 2 ^ i) (y / 2 ^ (n + i)),
        ones-add n n (x / 2 ^ i),
        ap (λ t. ones n (x / 2 ^ t)) (add_comm i n),
        ap (ones n) (div-two_pow-add i n x),
        low,
        high,
      ))

Folds-self : (x : ℕ) → Folds 1 x x
unfolding ones
Folds-self x i = omega arith

lowest_of_Folds : (x y : ℕ) → Folds 32 x y → to_int (ltb 0 (bit_and y 1)) ≡ ones 32 x % 2
lowest_of_Folds x y folds =
    ground (arith, bit_and-one y, folds 0, div-one y, ap (λ t. ones 32 t) (div-one x))

-- `calcParity` of a word is the number of its ones modulo 2.
pub calc_parity-ones : (x : ℕ) → calc_parity x ≡ ones 32 x % 2
unfolding calc_parity
calc_parity-ones x = lowest_of_Folds x _ (
    Folds-double 16 x _ (
      Folds-double 8 x _
        (Folds-double 4 x _ (Folds-double 2 x _ (Folds-double 1 x x (Folds-self x))))))
