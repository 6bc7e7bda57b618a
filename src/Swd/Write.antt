-- ===== src/Swd/Write.antt =====
-- The write transaction on the wire, on every branch.
use mathlib.Core.Bool.{xor}
use swagger.Prelude.{
  ℕ, ◌+◌, ◌≡◌, refl, Bool, true, false, ◌||◌, inl, inr, List, [], ◌∷◌, ◌++◌, arith, ltb, ◌==◌,
  if◌then◌else◌, Bool-cases, replicate,
}
use Prim.Native.Nat.{bit_and}
use swagger.Swd.{
  Wire, config_data_pin, swd_ok, swd_wait, swd_fail, write_request, turn_and_ack, read_ack,
  release_line, protocol_error, write_phase, finish_write, calc_parity, do_write_transaction,
  write_bit, read_bit, write_word32, write_bits, line_idle, skip_bits,
}
use swagger.Swd.Ack.{Acknowledges, Acknowledges-around}
use swagger.Swd.Word.{word_bits, write_bits-Clocks}
use swagger.Swd.View.{
  view, Clocks, Clocks-refl, Clocks-trans, Clocks-recount, write_bit-Clocks, read_bit-Clocks,
  config_data_pin-Clocks, set_data_pin-Clocks, line_idle-Clocks, skip_bits-Clocks,
}

-- The bits of a request: a zero, start, port, direction, address, parity, stop, park.
unfoldable pub request : (seed read APnDP : Bool) → (address : ℕ) → List Bool
request seed read APnDP address =
    let a0 = ltb 0 (bit_and address 0x01) in
    let a1 = ltb 0 (bit_and address 0x02) in
    false ∷ true ∷ APnDP ∷ read ∷ a0 ∷ a1 ∷ xor (xor (xor seed APnDP) a0) a1 ∷ false ∷ true ∷ []

write_all : List Bool → Wire → Wire
write_all [] w = w
write_all (b ∷ bs) w = write_all bs (write_bit b w).1

write_all-Clocks :
    (bs : List Bool) (w : Wire) → (view w).driven ≡ true → Clocks w (write_all bs w) true bs 0
unfolding write_all
write_all-Clocks [] w h = Clocks-refl w true h
write_all-Clocks (b ∷ bs) w h =
    let p = write_bit-Clocks w b h in
    Clocks-trans p (write_all-Clocks bs (write_bit b w).1 p.driven)

pub write_request-Clocks :
    (seed read APnDP : Bool) (address : ℕ) (w : Wire)
    → Clocks w (write_request seed read APnDP address w).1 true (request seed read APnDP address) 0
unfolding write_request request write_all
write_request-Clocks seed read APnDP address w =
    let p = config_data_pin-Clocks w true in
    Clocks-trans p
      (write_all-Clocks (request seed read APnDP address) (config_data_pin true ∷ w) p.driven)

-- After the ACK `code`: the word, its parity and eight idle bits; or nothing; or the idle bits.
unfoldable pub write_payload : (code word : ℕ) → List Bool
write_payload code word =
    if code == swd_ok
    then word_bits 32 word ++ (ltb 0 (calc_parity word) ∷ replicate 8 false)
    else if (code == swd_fail) || (code == swd_wait)
    then []
    else replicate 8 false

unfoldable pub write_samples : ℕ → ℕ
write_samples code =
    if code == swd_ok then 1 else if (code == swd_fail) || (code == swd_wait) then 1 else 33

module _ (target : Wire → Bool) where
  pub turn_and_ack-Clocks : (w : Wire) → Clocks w (turn_and_ack target w).1 false [] 4
  unfolding turn_and_ack read_ack
  turn_and_ack-Clocks w =
      let w1 = config_data_pin false ∷ w in
      let p1 = config_data_pin-Clocks w false in
      let w2 = (read_bit target w1).1 in
      let p2 = Clocks-trans p1 (read_bit-Clocks w1 target p1.driven) in
      let w3 = config_data_pin false ∷ w2 in
      let p3 = Clocks-trans p2 (config_data_pin-Clocks w2 false) in
      let w4 = (read_bit target w3).1 in
      let p4 = Clocks-trans p3 (read_bit-Clocks w3 target p3.driven) in
      let w5 = (read_bit target w4).1 in
      let p5 = Clocks-trans p4 (read_bit-Clocks w4 target p4.driven) in
      Clocks-trans p5 (read_bit-Clocks w5 target p5.driven)

  pub release_line-Clocks :
      (w : Wire) → (view w).driven ≡ false → Clocks w (release_line target w).1 true [] 1
  unfolding release_line
  release_line-Clocks w h =
      let p = read_bit-Clocks w target h in
      let w1 = (read_bit target w).1 in
      let q = Clocks-trans p (config_data_pin-Clocks w1 true) in
      Clocks-trans q (set_data_pin-Clocks (config_data_pin true ∷ w1) true true q.driven)

  pub protocol_error-Clocks :
      (w : Wire)
      → (view w).driven ≡ false
      → Clocks w (protocol_error target w).1 true (replicate 8 false) 33
  unfolding protocol_error
  protocol_error-Clocks w h =
      let p = skip_bits-Clocks target 33 w h in
      let w1 = (skip_bits target 33 w).1 in
      let q = line_idle-Clocks w1 in
      Clocks-trans p (Clocks-trans q (set_data_pin-Clocks (line_idle w1).1 true true q.driven))

  write_phase-Clocks :
      (word : ℕ) (w : Wire)
      → (view w).driven ≡ false
      → Clocks w
          (write_phase target word w).1
          true
          (word_bits 32 word ++ (ltb 0 (calc_parity word) ∷ replicate 8 false))
          1
  unfolding write_phase write_word32
  write_phase-Clocks word w h =
      let w1 = (read_bit target w).1 in
      let w2 = config_data_pin true ∷ w1 in
      let w3 = (write_bits 32 word w2).1 in
      let w4 = (write_bit (ltb 0 (calc_parity word)) w3).1 in
      let p1 = read_bit-Clocks w target h in
      let p2 = config_data_pin-Clocks w1 true in
      let p3 = write_bits-Clocks 32 word w2 p2.driven in
      let p4 = write_bit-Clocks w3 (ltb 0 (calc_parity word)) p3.driven in
      let p5 = line_idle-Clocks w4 in
      let p6 = set_data_pin-Clocks (line_idle w4).1 true true p5.driven in
      Clocks-trans p1 (Clocks-trans p2 (Clocks-trans p3 (Clocks-trans p4 (Clocks-trans p5 p6))))

  finish_write-Clocks :
      (code word : ℕ) (w : Wire)
      → (view w).driven ≡ false
      → ((finish_write target code word w).0 ≡ code)
        × Clocks w
            (finish_write target code word w).1
            true
            (write_payload code word)
            (write_samples code)
        × ((view (finish_write target code word w).1).level ≡ true)
  unfolding finish_write write_payload write_samples
  finish_write-Clocks code word w h = elim (Bool-cases (code == swd_ok)) [
    | inl accepted ↦
        rw accepted (refl, write_phase-Clocks word w h, unfold write_phase view in refl)
    | inr other ↦ elim (Bool-cases ((code == swd_fail) || (code == swd_wait))) [
      | inl refused ↦
          rw (other, refused) (refl, release_line-Clocks w h, unfold release_line view in refl)
      | inr broken ↦
          rw (other, broken) (refl, protocol_error-Clocks w h, unfold protocol_error view in refl)
    ]
  ]

  -- Whatever the target answers, `doWriteTransaction` sends the request, and returns the ACK, the
  -- number of the three bits that the target answers after one for the turn-around, the lowest
  -- first. After it the word, its parity bit and eight idle bits are sent (`SWD_OK`), or nothing
  -- (`SWD_FAIL`, `SWD_WAIT`), or eight idle bits, and the target answers once more (33 times for
  -- another ACK). The data pin is left an output, at 1.
  pub do_write_transaction-Clocks :
      (APnDP : Bool) (address word : ℕ) (w : Wire)
      → let r = do_write_transaction target APnDP address word w in
        Acknowledges target w r.1 r.0 (4 + write_samples r.0)
        × Clocks w r.1 true
            (request false false APnDP address ++ write_payload r.0 word)
            (4 + write_samples r.0)
        × ((view r.1).level ≡ true)
  unfolding do_write_transaction
  do_write_transaction-Clocks APnDP address word w =
      let w1 = (write_request false false APnDP address w).1 in
      let p = write_request-Clocks false false APnDP address w in
      let q = turn_and_ack-Clocks w1 in
      let (code, r, level) =
        finish_write-Clocks (turn_and_ack target w1).0 word (turn_and_ack target w1).1 q.driven in
      (
        rw (do_write_transaction, code)
            (Acknowledges-around target w w1 _ (write_samples (turn_and_ack target w1).0)
              (p.hears target) (r.hears target)),
        rw (do_write_transaction, code)
            (Clocks-recount (Clocks-trans p (Clocks-trans q r)) (omega arith)),
        level,
      )
