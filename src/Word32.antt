-- ===== src/Word32.antt =====
-- A 32-bit word as four bytes, the lowest first, as `protocol.md` has it. The host and the
-- programmer each split words and put them together by masks and shifts; here is what those mean.
use Prim.Native.Nat.{bit_and, bit_or}
use swagger.Prelude.{ℕ, ◌+◌, ◌*◌, ◌/◌, ◌%◌, ◌^◌, ◌<◌, ◌≡◌, List, [], ◌∷◌, arith}
use swagger.Prelude.Bits.{bit_and_mask, bit_or_disjoint}

abbrev pub le_bytes : ℕ → List ℕ
le_bytes w = w % 256 ∷ w / 2 ^ 8 % 256 ∷ w / 2 ^ 16 % 256 ∷ w / 2 ^ 24 % 256 ∷ []

-- `w & 0xFF` after a shift.
pub byte_mask : (w : ℕ) → bit_and w 0xFF ≡ w % 256
byte_mask w = bit_and_mask 8 w

-- `b0 | (uint32_t)b1 << 8 | (uint32_t)b2 << 16 | (uint32_t)b3 << 24`
unfoldable pub join : (b0 b1 b2 b3 : ℕ) → ℕ
join b0 b1 b2 b3 =
    bit_or (bit_or (bit_or b0 (b1 * 2 ^ 8 % 2 ^ 32)) (b2 * 2 ^ 16 % 2 ^ 32)) (b3 * 2 ^ 24 % 2 ^ 32)

pub join-sum :
    (b0 b1 b2 b3 : ℕ)
    → b0 < 256
    → b1 < 256
    → b2 < 256
    → b3 < 256
    → join b0 b1 b2 b3 ≡ b0 + b1 * 2 ^ 8 + b2 * 2 ^ 16 + b3 * 2 ^ 24
unfolding join
join-sum b0 b1 b2 b3 h0 h1 h2 h3 =
    let e1 : b1 * 2 ^ 8 % 2 ^ 32 ≡ b1 * 2 ^ 8 = omega arith in
    let e2 : b2 * 2 ^ 16 % 2 ^ 32 ≡ b2 * 2 ^ 16 = omega arith in
    let e3 : b3 * 2 ^ 24 % 2 ^ 32 ≡ b3 * 2 ^ 24 = omega arith in
    rw (
      e1,
      e2,
      e3,
      bit_or_disjoint 8 b0 b1 (omega arith),
      bit_or_disjoint 16 (b0 + b1 * 2 ^ 8) b2 (omega arith),
      bit_or_disjoint 24 (b0 + b1 * 2 ^ 8 + b2 * 2 ^ 16) b3 (omega arith),
    )

-- A word is put together again from its bytes.
pub join-le_bytes :
    (w : ℕ)
    → w < 2 ^ 32
    → join (w % 256) (w / 2 ^ 8 % 256) (w / 2 ^ 16 % 256) (w / 2 ^ 24 % 256) ≡ w
join-le_bytes w h = omega (
  arith,
  join-sum (w % 256) (w / 2 ^ 8 % 256) (w / 2 ^ 16 % 256) (w / 2 ^ 24 % 256) (omega arith)
      (omega arith) (omega arith) (omega arith),
)
