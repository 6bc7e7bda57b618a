-- ===== src/Host/Packet/Write.antt =====
-- What `writePacket` hands to the port, and what it reports.
use swagger.Prelude.{
  ℕ, ◌≡◌, refl, ap, ◌∙◌, ◌≢◌, inl, inr, Bool, true, false, Option, none, some, List, ◌++◌, arith,
  Bool-cases, ==_iff, length,
}
use swagger.Cobs.{encode}
use swagger.Cobs.Encode.{encode_frame}
use swagger.Host.Packet.{
  SerialPort, HardwareInterface, LastError, empty, port_not_open, unexpected_fragmentation,
  timed_out_on_write, tx, tx_cobs, print_packet, fail, is_whole, write_packet, write_encoded,
}
use swagger.Host.Packet.RoundTrip.{print_packet-port}

-- What Qt documents of writing: `sent p` are the bytes handed to the port so far. A write that
-- returns the number of its bytes has taken them all; waiting hands over none.
pub record Sends (q : SerialPort) (sent : q.Port → List ℕ) : Type 0 where
  pub takes_all :
      (bytes : List ℕ) (p : q.Port)
      → (q.write bytes p).0 ≡ some (length bytes)
      → sent (q.write bytes p).1 ≡ sent p ++ bytes
  pub waits : (msecs : ℕ) (p : q.Port) → sent (q.wait_for_bytes_written msecs p).1 ≡ sent p

module _ (q : SerialPort) (sent : q.Port → List ℕ) (line : Sends q sent) where
  -- A result is honest where success means that `bytes` were sent, and failure leaves an error.
  pub IsHonest : (bytes : List ℕ) (before : q.Port) → Bool × HardwareInterface q → Type 0
  IsHonest bytes before (true, h) = sent h.port ≡ sent before ++ bytes
  IsHonest bytes before (false, h) = h.last_error ≢ empty

  fail-IsHonest :
      (bytes : List ℕ) (before : q.Port) (e : LastError) (h : HardwareInterface q)
      → e ≢ empty
      → IsHonest bytes before (fail q e h)
  unfolding IsHonest fail
  fail-IsHonest bytes before e h error = error

  sent-IsHonest :
      (bytes : List ℕ) (before : q.Port) (h : HardwareInterface q)
      → sent h.port ≡ sent before ++ bytes
      → IsHonest bytes before (true, h)
  unfolding IsHonest
  sent-IsHonest bytes before h e = e

  is_whole-some :
      (bytes : List ℕ) (written : Option ℕ)
      → is_whole bytes written ≡ true
      → written ≡ some (length bytes)
  unfolding is_whole
  is_whole-some bytes none e = ground arith
  is_whole-some bytes (some n) e = ap some ((==_iff n (length bytes)).0 e)

  write_encoded-IsHonest :
      (bytes : List ℕ) (before : q.Port) (h : HardwareInterface q)
      → h.port ≡ before
      → IsHonest bytes before (write_encoded q bytes h)
  unfolding write_encoded
  write_encoded-IsHonest bytes before h same =
      let (written, port) = q.write bytes h.port in
      elim (Bool-cases (is_whole bytes written)) [
        | inr e ↦
            rw e (fail-IsHonest bytes before unexpected_fragmentation _ (λ eq. ground (arith, eq)))
        | inl e ↦ rw e (elim (Bool-cases (q.wait_for_bytes_written h.timeout port).0) [
          | inr late ↦
              rw late (fail-IsHonest bytes before timed_out_on_write _ (λ eq. ground (arith, eq)))
          | inl flushed ↦ rw flushed (
              sent-IsHonest bytes before _ (
                line.waits h.timeout port
                ∙ (line.takes_all bytes h.port (is_whole-some bytes written e)
                    ∙ ap (λ p. sent p ++ bytes) same)))
        ])
      ]

  encode-succeeds : (message : List ℕ) → (encode message).0 ≡ true
  encode-succeeds message =
      let (body, framed, nz, lo, hi) = encode_frame message in ap (λ t. t.0) framed

  -- Where writePacket returns true, the bytes that it handed to the port are the COBS encoding of
  -- the packet, all of it; where it returns false, a last error is set. (The port has documented
  -- behaviour.)
  pub write_packet-IsHonest :
      (message : List ℕ) (h : HardwareInterface q)
      → IsHonest (encode message).1 h.port (write_packet q message h)
  unfolding write_packet
  write_packet-IsHonest message h = elim (Bool-cases (q.is_open h.port)) [
    | inr e ↦ rw e (fail-IsHonest _ h.port port_not_open _ (λ eq. ground (arith, eq)))
    | inl e ↦
        rw (e, encode-succeeds message)
          (let h1 = print_packet q (tx message) h in
            let h2 = print_packet q (tx_cobs (encode message).1) h1 in
            let same : h2.port ≡ h.port = rw (print_packet-port q, print_packet-port q) refl in
            write_encoded-IsHonest (encode message).1 h.port h2 same)
  ]
