-- ===== src/Host/Packet/Keeping.antt =====
-- What `readPacket` leaves alone: whatever of the port no reading and no waiting changes.
use swagger.Prelude.{
  ℕ, zero, suc, ◌≡◌, refl, ap, ◌∙◌, inl, inr, Bool, true, false, Option, none, some, List, [], ◌==◌,
  Bool-cases, init, length,
}
use swagger.Cobs.{decode}
use swagger.Host.Packet.{
  SerialPort, HardwareInterface, Received, Printed, up_to_zero, timed_out, out_of_fuel, next_byte,
  receive_loop, receive_round, print_packet, decode_packet, read_packet,
}
use swagger.Host.Packet.RoundTrip.{print_packet-port}

-- No reading and no waiting changes `view`.
pub record Keeps (q : SerialPort) {A : Type 0} (view : q.Port → A) : Type 0 where
  pub reads : (p : q.Port) → view (q.read p).1 ≡ view p
  pub waits : (msecs : ℕ) (p : q.Port) → view (q.wait_for_ready_read msecs p).1 ≡ view p

module _ {A : Type 0} (q : SerialPort) (view : q.Port → A) (keeps : Keeps q view) where
  -- The port at the end of the loop looks as `p` does.
  Kept : Received q → A → Type 0
  Kept (up_to_zero rxbuffer p') a = view p' ≡ a
  Kept (timed_out p') a = view p' ≡ a
  Kept out_of_fuel a = Unit {0}

  next_byte-keeps : (timeout c : ℕ) (p : q.Port) → view (next_byte q timeout c p).1 ≡ view p
  unfolding next_byte
  next_byte-keeps timeout c p = elim (Bool-cases (q.bytes_available p == 0)) [
    | inr e ↦ rw e (keeps.reads p)
    | inl e ↦ rw e (elim (Bool-cases (q.wait_for_ready_read timeout p).0) [
      | inl e' ↦ rw e' (keeps.reads _ ∙ keeps.waits timeout p)
      | inr e' ↦ rw e' (keeps.waits timeout p)
    ])
  ]

  receive_round-Kept :
      (next : ℕ → List ℕ → q.Port → Received q) (rxbuffer : List ℕ) (r : Option ℕ × q.Port)
      → ((c : ℕ) (rxbuffer' : List ℕ) (p' : q.Port) → Kept (next c rxbuffer' p') (view p'))
      → Kept (receive_round q next rxbuffer r) (view r.1)
  unfolding receive_round Kept
  receive_round-Kept next rxbuffer (none, p') ih = refl
  receive_round-Kept next rxbuffer (some c, p') ih = elim (Bool-cases (c == 0)) [
    | inl e ↦ rw e refl
    | inr e ↦ rw e (ih c _ p')
  ]

  receive_loop-Kept :
      (fuel timeout c : ℕ) (rxbuffer : List ℕ) (p : q.Port)
      → Kept (receive_loop q fuel timeout c rxbuffer p) (view p)
  unfolding receive_loop Kept
  receive_loop-Kept zero timeout c rxbuffer p = tt
  receive_loop-Kept (suc fuel) timeout c rxbuffer p = rw (next_byte-keeps timeout c p) at (
      receive_round-Kept (receive_loop q fuel timeout) rxbuffer (next_byte q timeout c p)
        (receive_loop-Kept fuel timeout))

  -- The result of a reading has the port of `a`, where there is one.
  ResultKept : Option (Bool × (List ℕ × HardwareInterface q)) → A → Type 0
  ResultKept none a = Unit {0}
  ResultKept (some (ok, (message, h))) a = view h.port ≡ a

  decoded-Kept :
      (o : Option (Bool × List ℕ)) (rxbuffer : List ℕ) (h : HardwareInterface q)
      → decode rxbuffer ≡ o
      → ResultKept (decode_packet q rxbuffer h) (view h.port)
  unfolding decode_packet ResultKept
  decoded-Kept none rxbuffer h e = rw e tt
  decoded-Kept (some (false, message)) rxbuffer h e = rw e refl
  decoded-Kept (some (true, message)) rxbuffer h e = rw e (elim (Bool-cases (length message == 0)) [
    | inl no_zero ↦ rw no_zero refl
    | inr zero_last ↦ rw zero_last (ap view (print_packet-port q (Printed.rx_decoded message) h))
  ])

  ended-Kept :
      (r : Received q) (fuel c : ℕ) (message : List ℕ) (h : HardwareInterface q)
      → q.is_open h.port ≡ true
      → receive_loop q fuel h.timeout c [] h.port ≡ r
      → Kept r (view h.port)
      → ResultKept (read_packet q fuel c message h) (view h.port)
  unfolding read_packet ResultKept Kept
  ended-Kept out_of_fuel fuel c message h is_up e kept = rw (is_up, e) tt
  ended-Kept (timed_out p) fuel c message h is_up e kept = rw (is_up, e) kept
  ended-Kept (up_to_zero rxbuffer p) fuel c message h is_up e kept =
      let h1 = print_packet q (Printed.rx_cobs rxbuffer) (record h { port = p }) in
      let same : view h1.port ≡ view h.port = ap view (print_packet-port q _ _) ∙ kept in
      rw (is_up, e) (rw same at (decoded-Kept (decode (init rxbuffer)) (init rxbuffer) h1 refl))

  -- Where readPacket gives a result, what it does not touch is as before.
  pub read_packet-keeps :
      (fuel c : ℕ) (old message : List ℕ) (ok : Bool) (h h' : HardwareInterface q)
      → q.is_open h.port ≡ true
      → read_packet q fuel c old h ≡ some (ok, (message, h'))
      → view h'.port ≡ view h.port
  unfolding ResultKept
  read_packet-keeps fuel c old message ok h h' is_up e =
      rw e at (ended-Kept _ fuel c old h is_up refl (receive_loop-Kept fuel h.timeout c [] h.port))
