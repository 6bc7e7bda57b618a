-- ===== src/Firmware/Reply/Send.antt =====
-- What `sendReply` sends.
use swagger.Prelude.{
  ℕ, zero, suc, ◌+◌, ◌≤◌, ◌≡◌, refl, ◌∙◌, ap, true, false, some, List, [], ◌∷◌, ◌++◌, append_assoc,
  arith, ◌==◌, length, set, take, length-set, drop, length-take, length-drop, length-append, All,
  take-append-drop,
}
use swagger.Cobs.{encode}
use swagger.Cobs.Encode.{encode_frame, IsNonzero}
use swagger.Firmware.Stuff.{stuff_data}
use swagger.Firmware.Stuff.Encode.{stuff_data-encode}
use swagger.Firmware.Reply.{Reply, c_string, send_reply}
use swagger.Firmware.Reply.Queue.{IsReply, queued}

-- A C string of nonzero bytes ends at its zero.
c_string-append :
    (body rest : List ℕ)
    → All IsNonzero body
    → c_string (body ++ (0 ∷ rest)) ≡ some (body ++ (0 ∷ []))
unfolding c_string
c_string-append [] rest h = refl
c_string-append (b ∷ body) rest (nz, h) =
    let nonzero : (b == 0) ≡ false = ground arith in rw (nonzero, c_string-append body rest h)

take-set_status :
    (n : ℕ) (xs : List ℕ) (v : ℕ)
    → 1 ≤ n
    → 1 ≤ length xs
    → take n (set xs 0 v) ≡ v ∷ drop 1 (take n xs)
take-set_status zero xs v h k = absurd (omega arith)
take-set_status (suc n) [] v h k = absurd (omega arith)
take-set_status (suc n) (x ∷ xs) v h k = refl

stuff_data-frame :
    (input stack body : List ℕ)
    → encode input ≡ (true, body ++ (0 ∷ []))
    → length body + 1 ≤ length stack
    → (rest : List ℕ) × (stuff_data input stack ≡ some (body ++ (0 ∷ rest)))
stuff_data-frame input stack body framed room =
    let written : (encode input).1 ≡ body ++ (0 ∷ []) = ap (λ t. t.1) framed in
    let n = length body + 1 in
    let fits : length (take n stack) ≡ length (encode input).1 =
      omega (arith, length-take n stack, ap (λ t. length t) written, length-append body (0 ∷ [])) in
    (
      drop n stack,
      rw (take-append-drop n stack, written, append_assoc) at
          (stuff_data-encode input (take n stack) (drop n stack) fits),
    )

drop_one-take_one : (xs : List ℕ) → drop 1 (take 1 xs) ≡ []
drop_one-take_one [] = refl
drop_one-take_one (x ∷ xs) = refl

-- `sendReply` sends the COBS encoding of the status and what is queued, and empties the queue. It
-- never writes or reads past the end of `encodebuffer`, of 66 bytes.
pub send_reply-encode :
    (stack : List ℕ) (reply_status : ℕ) (q : Reply)
    → length stack ≡ 66
    → IsReply q
    → (q' : Reply) × (send_reply stack reply_status q
        ≡ some ((encode (reply_status ∷ queued q)).1, q'))
      × IsReply q'
      × (queued q' ≡ [])
unfolding send_reply
send_reply-encode stack reply_status q room h =
    let input = reply_status ∷ queued q in
    let packet : take q.txidx (set q.txbuffer 0 reply_status) ≡ input =
      take-set_status q.txidx q.txbuffer reply_status h.status (omega (arith, h.size)) in
    let count : length input ≤ 64 = omega (
      arith,
      length-drop 1 (take q.txidx q.txbuffer),
      length-take q.txidx q.txbuffer,
      h.fits,
      h.size,
      h.status,
    ) in
    let (body, framed, nonzero, lo, hi) = encode_frame input in
    let written : (encode input).1 ≡ body ++ (0 ∷ []) = ap (λ t. t.1) framed in
    let (rest, stuffed) = stuff_data-frame input stack body framed (omega arith) in
    (
      record { txbuffer = set q.txbuffer 0 reply_status; txidx = 1 },
      rw (packet, stuffed, c_string-append body rest nonzero, written),
      record {
        size = length-set q.txbuffer 0 reply_status ∙ h.size;
        status = omega arith;
        fits = omega arith;
      },
      drop_one-take_one (set q.txbuffer 0 reply_status),
    )
