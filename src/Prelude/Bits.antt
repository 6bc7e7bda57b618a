-- ===== src/Prelude/Bits.antt =====
-- `&`, `|` and `^` of C at variables: the equation for the lowest digit, from the recursion on
-- binary digits that the native operations stand for, and what follows from it.
use Prim.Native.Nat.{ℕ, zero, suc, ◌-◌, ◌+◌, ◌*◌, ◌/◌, ◌%◌, ◌^◌, ◌≤◌, ◌<◌, min, max}
use Prim.Native.Nat.{bit_and, bit_or, bit_xor, digits, bitwise, differ}
use Prim.Native.Nat.{bit_and-bitwise, bit_or-bitwise, bit_xor-bitwise}
use mathlib.Core.Path.{◌≡◌, refl, ap}
use native.Mathlib.Nat.{
  le_refl, pow-suc, pow-succ', one-le-pow, zero-add, suc-add, div-one, div-div-eq-div-mul,
}
use native.Mathlib.Omega.{arith}
use native.Mathlib.Numerals.{unary_clauses}

module _ (z : ℕ → ℕ) (f : ℕ → ℕ → ℕ) where
  -- Rounds past the last digit of the first number change nothing.
  spare_rounds : (spare n x y : ℕ) → x ≤ n → digits z f (spare + n) x y ≡ digits z f n x y
  spare_rounds spare (suc n) (suc x) y h =
      simp unary_clauses (rw (spare_rounds spare n (suc x / 2) (y / 2) (omega arith)))
  spare_rounds spare (suc n) zero y h = simp unary_clauses refl
  spare_rounds spare zero (suc x) y h = absurd (omega arith)
  spare_rounds (suc spare) zero zero y h = simp unary_clauses refl
  spare_rounds zero zero zero y h = refl

  -- The equation for the lowest digit, where the answer at zero obeys it.
  lowest_digit :
      ((y : ℕ) → z y ≡ z (y / 2) * 2 + f 0 (y % 2))
      → (x y : ℕ) → bitwise z f x y ≡ bitwise z f (x / 2) (y / 2) * 2 + f (x % 2) (y % 2)
  lowest_digit at_zero zero y = at_zero y
  lowest_digit at_zero (suc x) y =
      let half = suc x / 2 in
      let total : x - half + half ≡ x = omega arith in
      omega (arith, rw total at (spare_rounds (x - half) half half (y / 2) (omega arith)))

pub bit_or_step : (x y : ℕ) → bit_or x y ≡ bit_or (x / 2) (y / 2) * 2 + max (x % 2) (y % 2)
bit_or_step x y = simp bit_or-bitwise (lowest_digit (λ d. d) max (λ d. omega arith) x y)

pub bit_and_step : (x y : ℕ) → bit_and x y ≡ bit_and (x / 2) (y / 2) * 2 + min (x % 2) (y % 2)
bit_and_step x y = simp bit_and-bitwise (lowest_digit (λ d. 0) min (λ d. omega arith) x y)

differ_parity : (a b : ℕ) → a < 2 → b < 2 → differ a b ≡ (a + b) % 2
differ_parity zero zero h k = refl
differ_parity zero (suc zero) h k = refl
differ_parity (suc zero) zero h k = refl
differ_parity (suc zero) (suc zero) h k = refl
differ_parity a b h k = absurd (omega arith)

pub bit_xor_step : (x y : ℕ) → bit_xor x y ≡ bit_xor (x / 2) (y / 2) * 2 + (x + y) % 2
bit_xor_step x y = simp bit_xor-bitwise (
    omega (
      arith,
      lowest_digit (λ d. d) differ
          (λ d. omega (arith, differ_parity 0 (d % 2) (omega arith) (omega arith))) x y,
      differ_parity (x % 2) (y % 2) (omega arith) (omega arith),
    ))

-- Induction by halving.
module _ {ℓ} (P : ℕ → Type ℓ) (at_zero : P 0) (at_half : (x : ℕ) → P (suc x / 2) → P (suc x)) where
  halving_below : (bound x : ℕ) → x ≤ bound → P x
  halving_below bound zero h = at_zero
  halving_below (suc bound) (suc x) h = at_half x (halving_below bound (suc x / 2) (omega arith))
  halving_below zero (suc x) h = absurd (omega arith)

  halving : (x : ℕ) → P x
  halving x = halving_below x x (le_refl _)

pub bit_and-zero : (x : ℕ) → bit_and x 0 ≡ 0
bit_and-zero = halving (λ x. bit_and x 0 ≡ 0) refl (λ x half. omega (arith, bit_and_step (suc x) 0))

pub bit_or-zero : (x : ℕ) → bit_or x 0 ≡ x
bit_or-zero = halving (λ x. bit_or x 0 ≡ x) refl (λ x half. omega (arith, bit_or_step (suc x) 0))

pub bit_and-one : (a : ℕ) → bit_and a 1 ≡ a % 2
bit_and-one a = omega (arith, bit_and_step a 1, bit_and-zero (a / 2))

-- `a | b << k` is a sum where `a` fits in `k` bits.
pub bit_or_disjoint : (k a b : ℕ) → a < 2 ^ k → bit_or a (b * 2 ^ k) ≡ a + b * 2 ^ k
bit_or_disjoint zero a b h = ground (arith, bit_or-bitwise 0 b)
bit_or_disjoint (suc k) a b h = ground (
  arith,
  bit_or_step a (b * 2 ^ suc k),
  ap (λ (t : ℕ). b * t) (pow-suc 2 k),
  pow-suc 2 k,
  bit_or_disjoint k (a / 2) b (omega (arith, pow-suc 2 k)),
)

pub bit_or-two_pow : (k a : ℕ) → a < 2 ^ k → bit_or a (2 ^ k) ≡ a + 2 ^ k
bit_or-two_pow k a h =
    let one : 1 * 2 ^ k ≡ 2 ^ k = omega arith in rw one at (bit_or_disjoint k a 1 h)

-- A mask of `k` low bits is the remainder by `2 ^ k`, digit by digit.
pub bit_and_mask : (k a : ℕ) → bit_and a (2 ^ k - 1) ≡ a % 2 ^ k
bit_and_mask zero a = omega (arith, bit_and-zero a)
bit_and_mask (suc k) a =
    let rest : bit_and (a / 2) (2 ^ k - 1) ≡ a / 2 % 2 ^ k = bit_and_mask k (a / 2) in
    let halves = pow-succ' 2 k in
    let quotient = div-div-eq-div-mul a 2 (2 ^ k) in
    ground (
      arith,
      rest,
      halves,
      bit_and_step a (2 ^ suc k - 1),
      one-le-pow k 2,
      ap (λ (t : ℕ). a / t) halves,
      quotient,
      ap (λ (t : ℕ). a / 2 / 2 ^ k * t) halves,
    )

pub two_pow-add : (k m : ℕ) → 2 ^ (k + m) ≡ 2 ^ k * 2 ^ m
two_pow-add zero m = rw zero-add (omega arith)
two_pow-add (suc k) m = rw suc-add (
    omega (
      arith,
      pow-suc 2 (k + m),
      pow-suc 2 k,
      two_pow-add k m,
      ap (λ (t : ℕ). t * 2 ^ m) (pow-suc 2 k),
    ))

pub half_pow : (i v : ℕ) → v / 2 ^ suc i ≡ v / 2 / 2 ^ i
half_pow i v = rw (pow-succ' 2 i, ← div-div-eq-div-mul v 2 (2 ^ i))

pub div-two_pow-add : (i j v : ℕ) → v / 2 ^ i / 2 ^ j ≡ v / 2 ^ (i + j)
div-two_pow-add i j v = rw (div-div-eq-div-mul, two_pow-add)

half-bit_xor : (a b : ℕ) → bit_xor a b / 2 ≡ bit_xor (a / 2) (b / 2)
half-bit_xor a b = omega (arith, bit_xor_step a b)

-- A shift of `a ^ b` is the shifts' `^`.
pub shift-bit_xor : (i a b : ℕ) → bit_xor a b / 2 ^ i ≡ bit_xor (a / 2 ^ i) (b / 2 ^ i)
shift-bit_xor zero a b = rw (div-one, div-one, div-one)
shift-bit_xor (suc i) a b =
    rw (half_pow, half_pow, half_pow, half-bit_xor) (shift-bit_xor i (a / 2) (b / 2))

pub bit_or_bound : (k a b : ℕ) → a < 2 ^ k → b < 2 ^ k → bit_or a b < 2 ^ k
bit_or_bound zero zero zero h h' = omega arith
bit_or_bound zero zero (suc b) h h' = absurd (omega arith)
bit_or_bound zero (suc a) b h h' = absurd (omega arith)
bit_or_bound (suc k) a b h h' = omega (
  arith,
  bit_or_step a b,
  pow-suc 2 k,
  bit_or_bound k (a / 2) (b / 2) (omega (arith, pow-suc 2 k)) (omega (arith, pow-suc 2 k)),
)

-- A mask of one bit.
pub bit_and-two_pow : (k a : ℕ) → bit_and a (2 ^ k) ≡ a / 2 ^ k % 2 * 2 ^ k
bit_and-two_pow zero a = rw div-one (omega (arith, bit_and-one a))
bit_and-two_pow (suc k) a =
    let double = pow-suc 2 k in
    let half : 2 ^ suc k / 2 ≡ 2 ^ k = omega (arith, double) in
    let step = rw half at (bit_and_step a (2 ^ suc k)) in
    rw half_pow (
      omega (
        arith,
        step,
        bit_and-two_pow k (a / 2),
        double,
        ap (λ (t : ℕ). a / 2 / 2 ^ k % 2 * t) double,
      ))
