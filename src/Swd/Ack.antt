-- ===== src/Swd/Ack.antt =====
-- The ACK of a transaction, and the bits that the target answers for it.
use swagger.Prelude.{
  ℕ, ◌+◌, ◌*◌, ◌≡◌, refl, ◌∙◌, ap, Bool, true, false, List, [], ◌∷◌, ◌++◌, append_four,
  append_assoc, append-nil, arith, if◌then◌else◌, length, length-append,
}
use Prim.Native.Nat.{bit_or}
use swagger.Swd.{Wire, to_int, turn_and_ack, read_ack, read_bit, sample}
use swagger.Swd.View.{heard, Hears}

-- The number of three bits, the lowest first.
unfoldable pub ack_number : (b0 b1 b2 : Bool) → ℕ
ack_number b0 b1 b2 = to_int b0 + to_int b1 * 2 + to_int b2 * 4

pub ack_code :
    (b0 b1 b2 : Bool)
    → (let c0 = if b0 then bit_or 0 1 else 0 in
        let c1 = if b1 then bit_or c0 2 else c0 in if b2 then bit_or c1 4 else c1)
      ≡ ack_number b0 b1 b2
unfolding ack_number
ack_code true true true = refl
ack_code true true false = refl
ack_code true false true = refl
ack_code true false false = refl
ack_code false true true = refl
ack_code false true false = refl
ack_code false false true = refl
ack_code false false false = refl

-- Between two wires the target answers `n` times: a bit for the turn-around, the three bits of
-- `code`, the lowest first, and the rest.
unfoldable pub Acknowledges : (target : Wire → Bool) (w w' : Wire) (code n : ℕ) → Type 0
Acknowledges target w w' code n =
    (turn : Bool) × (b0 : Bool) × (b1 : Bool) × (b2 : Bool) × (rest : List Bool) × (heard target w'
      ≡ heard target w ++ (turn ∷ b0 ∷ b1 ∷ b2 ∷ rest))
    × (code ≡ ack_number b0 b1 b2)
    × (4 + length rest ≡ n)

module _ (target : Wire → Bool) where
  turn_and_ack-Acknowledges :
      (w : Wire) → Acknowledges target w (turn_and_ack target w).1 (turn_and_ack target w).0 4
  unfolding turn_and_ack read_ack read_bit sample heard Acknowledges
  turn_and_ack-Acknowledges w =
      (_, _, _, _, [], append_four (heard target w) _ _ _ _, ack_code _ _ _, refl)

  Hears-none : (w w' : Wire) → Hears target w w' 0 → heard target w' ≡ heard target w
  unfolding Hears
  Hears-none w w' ([], none, same) = same ∙ append-nil (heard target w)
  Hears-none w w' (b ∷ bs, none, same) = absurd (omega arith)

  -- Calls before the ACK that read nothing, and calls after it.
  pub Acknowledges-before :
      (w0 w1 w2 : Wire) (code n : ℕ)
      → Hears target w0 w1 0
      → Acknowledges target w1 w2 code n
      → Acknowledges target w0 w2 code n
  unfolding Acknowledges
  Acknowledges-before w0 w1 w2 code n before (turn, b0, b1, b2, rest, now, number, count) =
      let same = ap (λ t. t ++ (turn ∷ b0 ∷ b1 ∷ b2 ∷ rest)) (Hears-none w0 w1 before) in
      (turn, b0, b1, b2, rest, now ∙ same, number, count)

  pub Acknowledges-after :
      (w0 w1 w2 : Wire) (code n m : ℕ)
      → Acknowledges target w0 w1 code n
      → Hears target w1 w2 m
      → Acknowledges target w0 w2 code (n + m)
  unfolding Acknowledges Hears
  Acknowledges-after w0 w1 w2 code n m (turn, b0, b1, b2, rest, now, number, count)
        (answers, many, after) =
      let all = append_assoc (heard target w0) (turn ∷ b0 ∷ b1 ∷ b2 ∷ rest) answers in
      (
        turn,
        b0,
        b1,
        b2,
        rest ++ answers,
        after ∙ (ap (λ t. t ++ answers) now ∙ all),
        number,
        omega (arith, length-append rest answers, count, many),
      )

  -- After a request, the ACK is taken and `m` more bits are read.
  pub Acknowledges-around :
      (w0 w1 w3 : Wire) (m : ℕ)
      → Hears target w0 w1 0
      → Hears target (turn_and_ack target w1).1 w3 m
      → Acknowledges target w0 w3 (turn_and_ack target w1).0 (4 + m)
  Acknowledges-around w0 w1 w3 m before after =
      let (code, w2) = turn_and_ack target w1 in
      Acknowledges-before w0 w1 w3 code (4 + m) before
        (Acknowledges-after w1 w2 w3 code 4 m (turn_and_ack-Acknowledges w1) after)
