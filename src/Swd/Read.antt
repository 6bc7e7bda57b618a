-- ===== src/Swd/Read.antt =====
-- The read transaction: what it sends, and the word that it gets from a target that answers.
use swagger.Prelude.{
  ℕ, suc, ◌+◌, ◌*◌, ◌^◌, ◌<◌, ◌≡◌, Bool, true, false, List, ◌∷◌, ◌++◌, arith, ◌==◌, if◌then◌else◌,
}
use swagger.Swd.{
  Wire, config_data_pin, swd_ok, write_request, turn_and_ack, read_ack, read_phase, calc_parity,
  to_int, do_read_transaction, finish_read, read_bit, read_bits,
}
use swagger.Swd.Word.{word_bits, Serves, Serves-tail, read_bit-Serves, read_bits-word}
use swagger.Swd.Ack.{ack_number, ack_code}
use swagger.Swd.Write.{write_request-Clocks, turn_and_ack-Clocks}
use swagger.Swd.View.{view, Clocks-trans, read_bit-Clocks, config_data_pin-Clocks}

module _ (target : Wire → Bool) where
  -- The code is the number of the three bits after the turn-around, the lowest first.
  turn_and_ack-Serves :
      (w : Wire) (n : ℕ) (turn b0 b1 b2 : Bool) (back : List Bool)
      → Serves target n (turn ∷ b0 ∷ b1 ∷ b2 ∷ back)
      → (view w).samples ≡ n
      → (turn_and_ack target w).0 ≡ to_int b0 + to_int b1 * 2 + to_int b2 * 4
  unfolding turn_and_ack read_ack ack_number
  turn_and_ack-Serves w n turn b0 b1 b2 back serves here =
      let w1 = config_data_pin false ∷ w in
      let p1 = config_data_pin-Clocks w false in
      let w2 = (read_bit target w1).1 in
      let p2 = Clocks-trans p1 (read_bit-Clocks w1 target p1.driven) in
      let w3 = config_data_pin false ∷ w2 in
      let p3 = Clocks-trans p2 (config_data_pin-Clocks w2 false) in
      let w4 = (read_bit target w3).1 in
      let p4 = Clocks-trans p3 (read_bit-Clocks w3 target p3.driven) in
      let w5 = (read_bit target w4).1 in
      let p5 = Clocks-trans p4 (read_bit-Clocks w4 target p4.driven) in
      let s1 = Serves-tail target n turn (b0 ∷ b1 ∷ b2 ∷ back) serves in
      let s2 = Serves-tail target (n + 1) b0 (b1 ∷ b2 ∷ back) s1 in
      let s3 = Serves-tail target (n + 1 + 1) b1 (b2 ∷ back) s2 in
      let e0 =
        read_bit-Serves target w3 (n + 1) b0 (b1 ∷ b2 ∷ back) s1 (omega (arith, p3.samples)) in
      let e1 =
        read_bit-Serves target w4 (n + 1 + 1) b1 (b2 ∷ back) s2 (omega (arith, p4.samples)) in
      let e2 = read_bit-Serves target w5 (n + 1 + 1 + 1) b2 back s3 (omega (arith, p5.samples)) in
      rw (e0, e1, e2) (ack_code b0 b1 b2)

  read_phase-Serves :
      (w : Wire) (n v : ℕ) (parity : Bool) (back : List Bool)
      → v < 2 ^ 32
      → Serves target n (word_bits 32 v ++ (parity ∷ back))
      → (view w).samples ≡ n
      → (view w).driven ≡ false
      → (read_phase target w).0 ≡ ((if calc_parity v == to_int parity then swd_ok else 4), v)
  unfolding read_phase
  read_phase-Serves w n v parity back small serves here listens =
      let (value, clocks, left) =
        read_bits-word target v n (parity ∷ back) w small serves here listens in
      let at_parity =
        read_bit-Serves target (read_bits target 32 0 w).1 (n + 32) parity back left
          (omega (arith, clocks.samples)) in
      rw (value, at_parity)

  -- From a target that answers a turn-around bit, the ACK `SWD_OK`, the bits of a 32-bit word,
  -- lowest first, and a parity bit, `doReadTransaction` gets that word. It reports `SWD_OK` if the
  -- parity bit is the word's parity, and 4 if it is not.
  pub do_read_transaction-word :
      (APnDP : Bool) (address old v : ℕ) (turn parity : Bool) (back : List Bool) (w : Wire)
      → v < 2 ^ 32
      → Serves target
          (view w).samples
          (turn ∷ true ∷ false ∷ false ∷ (word_bits 32 v ++ (parity ∷ back)))
      → (do_read_transaction target APnDP address old w).0
        ≡ ((if calc_parity v == to_int parity then swd_ok else 4), v)
  unfolding do_read_transaction finish_read
  do_read_transaction-word APnDP address old v turn parity back w small serves =
      let w1 = (write_request true true APnDP address w).1 in
      let p = write_request-Clocks true true APnDP address w in
      let q = turn_and_ack-Clocks target w1 in
      let n = (view w).samples in
      let code =
        turn_and_ack-Serves w1 n turn true false false (word_bits 32 v ++ (parity ∷ back)) serves
          (omega (arith, p.samples)) in
      let left : Serves target (n + 4) (word_bits 32 v ++ (parity ∷ back)) =
        λ w k at_k short. serves w (suc (suc (suc (suc k)))) (omega arith) (omega arith) in
      rw code (
        read_phase-Serves (turn_and_ack target w1).1 (n + 4) v parity back small left
          (omega (arith, p.samples, q.samples)) q.driven)
