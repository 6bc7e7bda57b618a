-- ===== src/Swd/Connect.antt =====
-- What a read transaction and `doConnect` send, whatever the target answers.
use swagger.Prelude.{
  ℕ, zero, suc, ◌+◌, ◌≡◌, refl, Bool, true, false, ◌||◌, ◌⊎◌, inl, inr, List, [], ◌∷◌, ◌++◌, arith,
  ◌==◌, if◌then◌else◌, Bool-cases, replicate,
}
use swagger.Swd.{
  Wire, config_data_pin, set_data_pin, swd_ok, swd_wait, swd_fail, write_request, turn_and_ack,
  release_line, protocol_error, read_phase, do_read_transaction, write_bit, finish_read, read_bit,
  read_bits, line_idle, line_reset, write_word32, write_bits, do_connect,
}
use swagger.Swd.Ack.{Acknowledges, Acknowledges-around, Acknowledges-before}
use swagger.Swd.Word.{word_bits, write_bits-Clocks}
use swagger.Swd.Write.{
  request, write_request-Clocks, turn_and_ack-Clocks, release_line-Clocks, protocol_error-Clocks,
}
use swagger.Swd.View.{
  view, Clocks, Clocks-refl, Clocks-trans, Clocks-recount, write_bit-Clocks, read_bit-Clocks,
  config_data_pin-Clocks, set_data_pin-Clocks, line_idle-Clocks, line_reset-Clocks,
}

-- After the ACK `code`, and how many bits are read.
unfoldable pub read_payload : ℕ → List Bool
read_payload code =
    if code == swd_ok
    then false ∷ replicate 8 false
    else if (code == swd_fail) || (code == swd_wait)
    then []
    else replicate 8 false

unfoldable pub read_samples : ℕ → ℕ
read_samples code =
    if code == swd_ok then 33 else if (code == swd_fail) || (code == swd_wait) then 1 else 33

-- The code and `data` that are returned after the ACK `code`: only `SWD_OK` can become 4, and only
-- then is `data` written.
unfoldable pub ReadResult : (code old : ℕ) → ℕ × ℕ → Type 0
ReadResult code old (result, word) =
    if code == swd_ok
    then (result ≡ swd_ok) ⊎ (result ≡ swd_fail)
    else (result ≡ code) × (word ≡ old)

module _ (target : Wire → Bool) where
  read_bits-Clocks :
      (n word : ℕ) (w : Wire)
      → (view w).driven ≡ false
      → Clocks w (read_bits target n word w).1 false [] n
  unfolding read_bits
  read_bits-Clocks zero word w h = Clocks-refl w false h
  read_bits-Clocks (suc n) word w h =
      let p = read_bit-Clocks w target h in
      let q = read_bits-Clocks n _ (read_bit target w).1 p.driven in
      Clocks-recount (Clocks-trans p q) (omega arith)

  -- A zero bit for the turn-around, and eight idle bits.
  read_phase-Clocks :
      (w : Wire)
      → (view w).driven ≡ false
      → Clocks w (read_phase target w).1 true (false ∷ replicate 8 false) 33
  unfolding read_phase
  read_phase-Clocks w h =
      let w1 = (read_bits target 32 0 w).1 in
      let w2 = (read_bit target w1).1 in
      let w3 = config_data_pin true ∷ w2 in
      let w4 = (write_bit false w3).1 in
      let p1 = read_bits-Clocks 32 0 w h in
      let p2 = read_bit-Clocks w1 target p1.driven in
      let p3 = config_data_pin-Clocks w2 true in
      let p4 = write_bit-Clocks w3 false p3.driven in
      let p5 = line_idle-Clocks w4 in
      let p6 = set_data_pin-Clocks (line_idle w4).1 true true p5.driven in
      Clocks-trans p1 (Clocks-trans p2 (Clocks-trans p3 (Clocks-trans p4 (Clocks-trans p5 p6))))

  read_phase_code :
      (w : Wire) → ((read_phase target w).0.0 ≡ swd_ok) ⊎ ((read_phase target w).0.0 ≡ swd_fail)
  unfolding read_phase
  read_phase_code w = ground arith

  finish_read-Clocks :
      (code old : ℕ) (w : Wire)
      → (view w).driven ≡ false
      → ReadResult code old (finish_read target code old w).0
        × Clocks w (finish_read target code old w).1 true (read_payload code) (read_samples code)
        × ((view (finish_read target code old w).1).level ≡ true)
  unfolding finish_read read_payload read_samples ReadResult
  finish_read-Clocks code old w h = elim (Bool-cases (code == swd_ok)) [
    | inl accepted ↦
        rw accepted (read_phase_code w, read_phase-Clocks w h, unfold read_phase view in refl)
    | inr other ↦ elim (Bool-cases ((code == swd_fail) || (code == swd_wait))) [
      | inl refused ↦
          rw (other, refused)
            ((refl, refl), release_line-Clocks target w h, unfold release_line view in refl)
      | inr broken ↦
          rw (other, broken)
            ((refl, refl), protocol_error-Clocks target w h, unfold protocol_error view in refl)
    ]
  ]

  -- Whatever the target answers, `doReadTransaction` sends the request, and takes as the ACK the
  -- number of the three bits that the target answers after one for the turn-around, the lowest
  -- first. After the ACK the target answers 33 times and a turn-around zero and eight idle bits are
  -- sent (`SWD_OK`), or it answers once and nothing is sent (`SWD_FAIL`, `SWD_WAIT`), or 33 times and
  -- eight idle bits are sent. It returns the ACK and leaves `data` alone, except that after `SWD_OK`
  -- it writes `data` and may return `SWD_FAIL`. It leaves the data pin an output, at 1.
  pub do_read_transaction-Clocks :
      (APnDP : Bool) (address old : ℕ) (w : Wire)
      → let r = do_read_transaction target APnDP address old w in
        (code : ℕ) × Acknowledges target w r.1 code (4 + read_samples code)
        × ReadResult code old r.0
        × Clocks w r.1 true
            (request true true APnDP address ++ read_payload code)
            (4 + read_samples code)
        × ((view r.1).level ≡ true)
  unfolding do_read_transaction
  do_read_transaction-Clocks APnDP address old w =
      let w1 = (write_request true true APnDP address w).1 in
      let p = write_request-Clocks true true APnDP address w in
      let q = turn_and_ack-Clocks target w1 in
      let (result, r, level) =
        finish_read-Clocks (turn_and_ack target w1).0 old (turn_and_ack target w1).1 q.driven in
      (
        (turn_and_ack target w1).0,
        Acknowledges-around target w w1 _ (read_samples (turn_and_ack target w1).0) (p.hears target)
            (r.hears target),
        result,
        Clocks-recount (Clocks-trans p (Clocks-trans q r)) (omega arith),
        level,
      )

  -- Whatever the target answers, `doConnect` sends a line reset, the 32 bits of 0x0000E79E, a line
  -- reset, eight idle bits, and the request to read `IDCODE`; then it goes on as a read does, with
  -- the ACK that the target answers. `idcode` stays 0 unless the ACK is `SWD_OK`.
  pub do_connect-Clocks :
      (w : Wire)
      → let r = do_connect target w in
        (code : ℕ) × Acknowledges target w r.1 code (4 + read_samples code)
        × ReadResult code 0 r.0
        × Clocks w r.1 true
            (replicate 64 true
              ++ (word_bits 32 0xE79E
                  ++ (replicate 64 true
                      ++ (replicate 8 false ++ (request true true false 0 ++ read_payload code)))))
            (4 + read_samples code)
        × ((view r.1).level ≡ true)
  unfolding do_connect write_word32
  do_connect-Clocks w =
      let w1 = config_data_pin true ∷ w in
      let w2 = (line_reset w1).1 in
      let w3 = (write_bits 32 0xE79E w2).1 in
      let w4 = (line_reset w3).1 in
      let w5 = (line_idle w4).1 in
      let w6 = set_data_pin true ∷ w5 in
      let p1 = config_data_pin-Clocks w true in
      let p2 = line_reset-Clocks w1 in
      let p3 = write_bits-Clocks 32 0xE79E w2 p2.driven in
      let p4 = line_reset-Clocks w3 in
      let p5 = line_idle-Clocks w4 in
      let p6 = set_data_pin-Clocks w5 true true p5.driven in
      let before =
        Clocks-trans p1
          (Clocks-trans p2 (Clocks-trans p3 (Clocks-trans p4 (Clocks-trans p5 p6)))) in
      let (code, acknowledged, result, p7, level) = do_read_transaction-Clocks false 0 0 w6 in
      (
        code,
        Acknowledges-before target w w6 _ code (4 + read_samples code) (before.hears target)
            acknowledged,
        result,
        Clocks-recount
            (Clocks-trans p1 (
              Clocks-trans p2
                (Clocks-trans p3 (Clocks-trans p4 (Clocks-trans p5 (Clocks-trans p6 p7))))))
            (omega arith),
        level,
      )
