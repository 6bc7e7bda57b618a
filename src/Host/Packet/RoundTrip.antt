-- ===== src/Host/Packet/RoundTrip.antt =====
-- `writePacket` and `readPacket` between two ends of a line: what one sends the other reads back.
use swagger.Prelude.{
  ℕ, zero, suc, ◌≤◌, ◌<◌, ◌≡◌, refl, ap, ◌∙◌, inl, inr, true, false, some, List, [], ◌∷◌, ◌++◌,
  append_assoc, arith, ◌==◌, Bool-cases, if◌then◌else◌, length, init, All, length-append, init-snoc,
}
use swagger.Cobs.{encode}
use swagger.Cobs.Encode.{IsNonzero, encode_frame}
use swagger.Cobs.RoundTrip.{decode-encode}
use swagger.Host.Packet.{
  SerialPort, HardwareInterface, Received, Printed, next_byte, receive_loop, receive_round,
  print_packet, decode_packet, read_packet,
}

-- What Qt documents of reading a byte: `arrived p` are the bytes that have arrived at the port and
-- are not read yet, `bytesAvailable` is their number, and `read` takes the first of them.
pub record Delivers (q : SerialPort) (arrived : q.Port → List ℕ) : Type 0 where
  pub available : (p : q.Port) → q.bytes_available p ≡ length (arrived p)
  pub takes_first :
      (p : q.Port) (b : ℕ) (rest : List ℕ)
      → arrived p ≡ b ∷ rest
      → (p' : q.Port) × (q.read p ≡ (some b, p')) × (arrived p' ≡ rest)

module _ (q : SerialPort) where
  pub print_packet-port :
      (p : Printed) (h : HardwareInterface q) → (print_packet q p h).port ≡ h.port
  unfolding print_packet
  print_packet-port p h = elim (Bool-cases h.debug) [ inl e ↦ rw e refl | inr e ↦ rw e refl ]

  print_packet-last_error :
      (p : Printed) (h : HardwareInterface q) → (print_packet q p h).last_error ≡ h.last_error
  unfolding print_packet
  print_packet-last_error p h = elim (Bool-cases h.debug) [ inl e ↦ rw e refl | inr e ↦ rw e refl ]

module _ (q : SerialPort) (arrived : q.Port → List ℕ) (line : Delivers q arrived) where
  next_byte-arrived :
      (timeout c : ℕ) (p : q.Port) (b : ℕ) (rest : List ℕ)
      → arrived p ≡ b ∷ rest
      → (p' : q.Port) × (next_byte q timeout c p ≡ (some b, p')) × (arrived p' ≡ rest)
  unfolding next_byte
  next_byte-arrived timeout c p b rest e =
      let (p', read, left) = line.takes_first p b rest e in
      let count : (q.bytes_available p == 0) ≡ false =
        ground (arith, line.available p, ap (λ t. length t) e) in
      (p', rw (count, read) refl, left)

  receive_loop_step :
      (fuel timeout c : ℕ) (rxbuffer : List ℕ) (p p' : q.Port) (b : ℕ)
      → next_byte q timeout c p ≡ (some b, p')
      → receive_loop q (suc fuel) timeout c rxbuffer p ≡ (
          if b == 0
          then Received.up_to_zero (rxbuffer ++ (b ∷ [])) p'
          else receive_loop q fuel timeout b (rxbuffer ++ (b ∷ [])) p')
  unfolding receive_loop receive_round
  receive_loop_step fuel timeout c rxbuffer p p' b e = rw (receive_loop, e) refl

  receive_loop-frame :
      (fuel timeout c : ℕ) (rxbuffer body rest : List ℕ) (p : q.Port)
      → All IsNonzero body
      → arrived p ≡ body ++ (0 ∷ rest)
      → length body < fuel
      → (p' : q.Port) × (receive_loop q fuel timeout c rxbuffer p
          ≡ Received.up_to_zero (rxbuffer ++ (body ++ (0 ∷ []))) p')
        × (arrived p' ≡ rest)
  receive_loop-frame zero timeout c rxbuffer body rest p nz e enough = absurd (omega arith)
  receive_loop-frame (suc fuel) timeout c rxbuffer [] rest p nz e enough =
      let (p', read, left) = next_byte-arrived timeout c p 0 rest e in
      (p', receive_loop_step fuel timeout c rxbuffer p p' 0 read, left)
  receive_loop-frame (suc fuel) timeout c rxbuffer (b ∷ body) rest p (nonzero, nz) e enough =
      let (p', read, left) = next_byte-arrived timeout c p b (body ++ (0 ∷ rest)) e in
      let (p'', loop, left') =
        receive_loop-frame fuel timeout b (rxbuffer ++ (b ∷ [])) body rest p' nz left
          (omega arith) in
      let go_on : (b == 0) ≡ false = ground (arith, nonzero) in
      (
        p'',
        rw (receive_loop_step fuel timeout c rxbuffer p p' b read, go_on, loop, append_assoc) refl,
        left',
      )

  decode_packet-encode :
      (message : List ℕ) (h : HardwareInterface q)
      → decode_packet q (init (encode message).1) h
        ≡ some (true, (message, print_packet q (Printed.rx_decoded (message ++ (0 ∷ []))) h))
  unfolding decode_packet
  decode_packet-encode message h =
      let some_bytes : (length (message ++ (0 ∷ [])) == 0) ≡ false =
        ground (arith, length-append message (0 ∷ [])) in
      rw (decode-encode message, some_bytes, init-snoc message 0) refl

  -- Where a packet that COBS::encode wrote has arrived, and anything after it, readPacket returns
  -- true and the bytes that were encoded, takes no byte after the packet, and leaves the last error
  -- as it was. (The port is open and has documented behaviour; fuel for the packet is given.)
  pub read_packet-encode :
      (h : HardwareInterface q) (message rest old : List ℕ) (fuel c : ℕ)
      → q.is_open h.port ≡ true
      → arrived h.port ≡ (encode message).1 ++ rest
      → length (encode message).1 ≤ fuel
      → (h' : HardwareInterface q) × (read_packet q fuel c old h ≡ some (true, (message, h')))
        × (arrived h'.port ≡ rest)
        × (h'.last_error ≡ h.last_error)
  unfolding read_packet
  read_packet-encode h message rest old fuel c is_up e enough =
      let (body, framed, nz, lo, hi) = encode_frame message in
      let written : (encode message).1 ≡ body ++ (0 ∷ []) = ap (λ t. t.1) framed in
      let on_line : arrived h.port ≡ body ++ (0 ∷ rest) = e ∙ rw (written, append_assoc) refl in
      let room : length body < fuel =
        omega (arith, enough, ap (λ t. length t) written, length-append body (0 ∷ [])) in
      let (p', loop, left) =
        receive_loop-frame fuel h.timeout c [] body rest h.port nz on_line room in
      let h1 = print_packet q (Printed.rx_cobs (body ++ (0 ∷ []))) (record h { port = p' }) in
      (
        print_packet q (Printed.rx_decoded (message ++ (0 ∷ []))) h1,
        rw (is_up, loop) (rw written at (decode_packet-encode message h1)),
        rw (print_packet-port q, print_packet-port q) left,
        rw (print_packet-last_error q, print_packet-last_error q) refl,
      )
