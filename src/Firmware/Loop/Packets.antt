-- ===== src/Firmware/Loop/Packets.antt =====
-- A packet of the host, byte by byte, as the firmware takes it.
use swagger.Prelude.{
  ℕ, ◌+◌, ◌-◌, ◌%◌, ◌≤◌, ◌<◌, ◌≡◌, ◌≢◌, refl, sym, ap, ◌∙◌, true, false, some, List, [], ◌∷◌, ◌++◌,
  append_assoc, append-nil, arith, leb, ◌==◌, length, take, drop, set-append, length-append,
  length-drop, init, init-snoc, All,
}
use swagger.Arduino.{digital_write, high, led_pin}
use swagger.Cobs.{encode, decode}
use swagger.Cobs.Encode.{IsNonzero, encode_frame}
use swagger.Cobs.RoundTrip.{decode-encode}
use swagger.Probe.{Link}
use swagger.Firmware.Stuff.Decode.{overlay, unstuff_data-decode}
use swagger.Firmware.Loop.{
  Stack, Firmware, Ended, done, fault, out_of_fuel, packet, receive, after_byte, receive_all,
  rx_size,
}
use swagger.Firmware.Loop.Requests.{Request, stream, IsRequest, run_requests}
use swagger.Firmware.Loop.Requests.Refine.{run_commands-requests}

take-length : (xs ys : List ℕ) → take (length xs) (xs ++ ys) ≡ xs
take-length [] ys = refl
take-length (x ∷ xs) ys = ap (λ t. x ∷ t) (take-length xs ys)

module _ (l : Link) (fuel : ℕ) (stack : Stack) where
  -- Some bytes of a packet have arrived.
  abbrev holding : (kept tail : List ℕ) → Firmware l → Firmware l
  holding kept tail fw = record fw { rxbuffer = kept ++ tail; rxidx = length kept }

  receive-nonzero :
      (kept tail : List ℕ) (old b : ℕ) (fw : Firmware l)
      → b ≢ 0
      → length kept < 64
      → receive l fuel stack b (holding kept (old ∷ tail) fw)
        ≡ done (holding (kept ++ (b ∷ [])) tail fw)
  unfolding receive
  receive-nonzero kept tail old b fw nonzero room =
      let inside : (b == 0) ≡ false = ground (arith, nonzero) in
      let fits : leb 64 (length kept) ≡ false = ground (arith, room) in
      let next : (length kept + 1) % 256 ≡ length (kept ++ (b ∷ [])) =
        omega (arith, length-append kept (b ∷ [])) in
      rw (inside, fits, next, set-append kept tail old b, append_assoc) refl

  receive_all_step :
      (b : ℕ) (rest : List ℕ) (fw : Firmware l)
      → receive_all l fuel stack (b ∷ rest) fw
        ≡ after_byte l (receive_all l fuel stack rest) (receive l fuel stack b fw)
  unfolding receive_all
  receive_all_step b rest fw = refl

  receive_all-body :
      (body kept tail rest : List ℕ) (fw : Firmware l)
      → All IsNonzero body
      → length kept + length body ≤ 64
      → length body ≤ length tail
      → receive_all l fuel stack (body ++ rest) (holding kept tail fw)
        ≡ receive_all l fuel stack rest (holding (kept ++ body) (drop (length body) tail) fw)
  unfolding after_byte
  receive_all-body [] kept tail rest fw nz room fits = rw append-nil refl
  receive_all-body (b ∷ body) kept [] rest fw nz room fits = absurd (omega arith)
  receive_all-body (b ∷ body) kept (old ∷ tail) rest fw (nonzero, nz) room fits =
      let kept' = kept ++ (b ∷ []) in
      rw
        (
          receive_all_step b (body ++ rest) (holding kept (old ∷ tail) fw),
          receive-nonzero kept tail old b fw nonzero (omega arith),
        )
        (rw (append_assoc kept (b ∷ []) body) at (
          receive_all-body body kept' tail rest fw nz (omega (arith, length-append kept (b ∷ [])))
            (omega arith)))

  packet-encode :
      (rs : List Request) (body tail : List ℕ) (fw : Firmware l)
      → (encode (stream rs)).1 ≡ body ++ (0 ∷ [])
      → length stack.decodebuffer ≡ 64
      → length body ≤ 64
      → All IsRequest rs
      → packet l fuel stack (holding body tail fw)
        ≡ run_requests l stack fuel rs (record fw {
          rxbuffer = body ++ tail;
          rxidx = 0;
          calls = digital_write led_pin high ∷ fw.calls;
        })
  unfolding packet
  packet-encode rs body tail fw framed size room valid =
      let (outdata, decodes, unstuffs, bound) =
        unstuff_data-decode body stack.decodebuffer (omega (arith, size)) in
      let stripped : init (encode (stream rs)).1 ≡ body =
        ap (λ t. init t) framed ∙ init-snoc body 0 in
      let original : decode body ≡ some (true, stream rs ++ (0 ∷ [])) =
        rw stripped at (decode-encode (stream rs)) in
      let same : outdata ≡ stream rs ++ (0 ∷ []) = ground (arith, sym decodes ∙ original) in
      let count : length outdata - 1 ≡ 0 + length (stream rs) =
        omega (arith, ap (λ t. length t) same, length-append (stream rs) (0 ∷ [])) in
      let laid : overlay outdata stack.decodebuffer
          ≡ stream rs ++ (0 ∷ drop (length outdata) stack.decodebuffer) =
        ap (λ t. t ++ drop (length outdata) stack.decodebuffer) same
        ∙ append_assoc (stream rs) (0 ∷ []) (drop (length outdata) stack.decodebuffer) in
      rw (packet, take-length body tail, unstuffs, count, laid)
        (run_commands-requests l stack fuel rs [] (0 ∷ drop (length outdata) stack.decodebuffer) _
          valid)

  receive-zero : (fw : Firmware l) → receive l fuel stack 0 fw ≡ packet l fuel stack fw
  unfolding receive
  receive-zero fw = refl

  done-after : (r : Ended l) → after_byte l (receive_all l fuel stack []) r ≡ r
  unfolding after_byte receive_all
  done-after (done fw) = refl
  done-after fault = refl
  done-after out_of_fuel = refl

-- With the size that the receive buffer keeps.
pub receive_all_kept :
    (l : Link) (fuel : ℕ) (stack : Stack) (rs : List Request) (fw : Firmware l)
    → length stack.decodebuffer ≡ 64
    → length fw.rxbuffer ≡ 64
    → length (encode (stream rs)).1 ≤ 65
    → All IsRequest rs
    → (rxbuffer : List ℕ) × (length rxbuffer ≡ 64)
      × (receive_all l fuel stack (encode (stream rs)).1 (record fw { rxidx = 0 })
          ≡ run_requests l stack fuel rs (record fw {
            rxbuffer = rxbuffer;
            rxidx = 0;
            calls = digital_write led_pin high ∷ fw.calls;
          }))
receive_all_kept l fuel stack rs fw size rx_size room valid =
    let (body, framed, nz, lo, hi) = encode_frame (stream rs) in
    let written : (encode (stream rs)).1 ≡ body ++ (0 ∷ []) = ap (λ t. t.1) framed in
    let short : length body ≤ 64 =
      omega (arith, room, ap (λ t. length t) written, length-append body (0 ∷ [])) in
    let tail = drop (length body) fw.rxbuffer in
    (
      body ++ tail,
      omega (arith, rx_size, length-append body tail, length-drop (length body) fw.rxbuffer),
      rw written (
          receive_all-body l fuel stack body [] fw.rxbuffer (0 ∷ []) fw nz (omega arith)
            (omega (arith, rx_size))
          ∙ receive_all_step l fuel stack 0 [] (holding l fuel stack body tail fw)
          ∙ done-after l fuel stack _
          ∙ receive-zero l fuel stack (holding l fuel stack body tail fw)
          ∙ packet-encode l fuel stack rs body tail fw written size short valid),
    )

-- The packet that the host's COBS::encode makes of a list of commands, received byte by byte by a
-- firmware whose receive buffer is empty, makes it do what the commands are to do one after the
-- other, with the receive buffer empty again and the LED switched on. (The packet has 65 bytes at
-- most, and its commands have words of 32 bits; the arrays have the sizes of the source.)
pub receive_all-encode :
    (l : Link) (fuel : ℕ) (stack : Stack) (rs : List Request) (fw : Firmware l)
    → length stack.decodebuffer ≡ 64
    → length fw.rxbuffer ≡ 64
    → length (encode (stream rs)).1 ≤ 65
    → All IsRequest rs
    → (rxbuffer : List ℕ) × (receive_all l fuel stack
          (encode (stream rs)).1
          (record fw { rxidx = 0 })
        ≡ run_requests l stack fuel rs (record fw {
          rxbuffer = rxbuffer;
          rxidx = 0;
          calls = digital_write led_pin high ∷ fw.calls;
        }))
receive_all-encode l fuel stack rs fw size rx_size room valid =
    let (rxbuffer, kept, e) = receive_all_kept l fuel stack rs fw size rx_size room valid in
    (rxbuffer, e)
