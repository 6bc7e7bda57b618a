-- ===== src/Firmware/Reply/Queue.antt =====
-- What is queued: the bytes below the index, but the first, which is for the status.
use swagger.Prelude.{
  ℕ, suc, ◌+◌, ◌/◌, ◌%◌, ◌^◌, ◌≤◌, ◌<◌, ◌≡◌, refl, ◌∙◌, ap, inl, inr, true, false, List, [], ◌∷◌,
  ◌++◌, append_assoc, arith, ltb, leb, if◌then◌else◌, Bool-cases, length, set, take, take-set,
  length-set, drop, length-take,
}
use swagger.Word32.{le_bytes, byte_mask}
use swagger.Firmware.Reply.{Reply, put, queue_uint8, queue_uint32}

pub record IsReply (q : Reply) : Type 0 where
  pub size : length q.txbuffer ≡ 64
  pub status : 1 ≤ q.txidx
  pub fits : q.txidx ≤ 64

abbrev pub queued : Reply → List ℕ
queued q = drop 1 (take q.txidx q.txbuffer)

put-IsReply : (b : ℕ) (q : Reply) → IsReply q → q.txidx < 64 → IsReply (put b q)
put-IsReply b q h room = record {
  size = length-set q.txbuffer q.txidx b ∙ h.size;
  status = omega arith;
  fits = omega arith;
}

drop_one-append : (xs ys : List ℕ) → 1 ≤ length xs → drop 1 (xs ++ ys) ≡ drop 1 xs ++ ys
drop_one-append [] ys h = absurd (omega arith)
drop_one-append (x ∷ xs) ys h = refl

queued-put :
    (b : ℕ) (q : Reply) → IsReply q → q.txidx < 64 → queued (put b q) ≡ queued q ++ (b ∷ [])
queued-put b q h room =
    let next : (q.txidx + 1) % 256 ≡ suc q.txidx = omega arith in
    let some_status : 1 ≤ length (take q.txidx q.txbuffer) =
      omega (arith, length-take q.txidx q.txbuffer, h.size, h.status) in
    ap (λ n. drop 1 (take n (set q.txbuffer q.txidx b))) next
    ∙ ap (drop 1) (take-set q.txidx q.txbuffer b (omega (arith, h.size)))
    ∙ drop_one-append (take q.txidx q.txbuffer) (b ∷ []) some_status

-- `queueReplyUInt8` queues the byte if there is room, and else leaves the queue and returns false.
pub queue_uint8_lem :
    (b : ℕ) (q : Reply)
    → IsReply q
    → let (done, q') = queue_uint8 b q in
      IsReply q'
      × (done ≡ ltb q.txidx 64)
      × (queued q' ≡ (if ltb q.txidx 64 then queued q ++ (b ∷ []) else queued q))
unfolding queue_uint8
queue_uint8_lem b q h = elim (Bool-cases (ltb q.txidx 64)) [
  | inl room ↦
      let below : leb 64 q.txidx ≡ false = ground arith in
      rw (room, below) (put-IsReply b q h (ground arith), refl, queued-put b q h (ground arith))
  | inr full ↦ let above : leb 64 q.txidx ≡ true = ground arith in rw (full, above) (h, refl, refl)
]

put_four :
    (b0 b1 b2 b3 : ℕ) (q : Reply)
    → IsReply q
    → q.txidx + 4 ≤ 64
    → let q' = put b3 (put b2 (put b1 (put b0 q))) in
      IsReply q' × (queued q' ≡ queued q ++ (b0 ∷ b1 ∷ b2 ∷ b3 ∷ []))
put_four b0 b1 b2 b3 q h room =
    let q1 = put b0 q in
    let h1 = put-IsReply b0 q h (omega arith) in
    let q2 = put b1 q1 in
    let h2 = put-IsReply b1 q1 h1 (omega arith) in
    let q3 = put b2 q2 in
    let h3 = put-IsReply b2 q2 h2 (omega arith) in
    (
      put-IsReply b3 q3 h3 (omega arith),
      queued-put b3 q3 h3 (omega arith)
          ∙ ap (λ t. t ++ (b3 ∷ [])) (queued-put b2 q2 h2 (omega arith))
          ∙ ap (λ t. (t ++ (b2 ∷ [])) ++ (b3 ∷ [])) (queued-put b1 q1 h1 (omega arith))
          ∙ ap (λ t. ((t ++ (b1 ∷ [])) ++ (b2 ∷ [])) ++ (b3 ∷ [])) (queued-put b0 q h (omega arith))
          ∙ simp append_assoc,
    )

-- `queueReplyUInt32` queues the four bytes of the word, lowest first, if the index is below 60, and
-- else leaves the queue and returns false.
pub queue_uint32_lem :
    (w : ℕ) (q : Reply)
    → IsReply q
    → let (done, q') = queue_uint32 w q in
      IsReply q'
      × (done ≡ ltb q.txidx 60)
      × (queued q' ≡ (if ltb q.txidx 60 then queued q ++ le_bytes w else queued q))
unfolding queue_uint32
queue_uint32_lem w q h = elim (Bool-cases (ltb q.txidx 60)) [
  | inl room ↦
      let below : leb 64 (q.txidx + 4) ≡ false = ground arith in
      let (valid, bytes) =
        put_four (w % 256) (w / 2 ^ 8 % 256) (w / 2 ^ 16 % 256) (w / 2 ^ 24 % 256) q h
          (ground arith) in
      rw
        (
          room,
          below,
          byte_mask w,
          byte_mask (w / 2 ^ 8),
          byte_mask (w / 2 ^ 16),
          byte_mask (w / 2 ^ 24),
        )
        (valid, refl, bytes)
  | inr full ↦
      let above : leb 64 (q.txidx + 4) ≡ true = ground arith in rw (full, above) (h, refl, refl)
]

-- On a valid queue queueReplyUInt8 queues the byte if the index is below 64, and queueReplyUInt32
-- the four bytes of the word, lowest first, if the index is below 60, and they return true; else they
-- leave the queue and return false. The queue stays valid.
pub queue_uint_lem :
    (b w : ℕ) (q : Reply)
    → IsReply q
    → (let (done, q') = queue_uint8 b q in
        IsReply q'
        × (done ≡ ltb q.txidx 64)
        × (queued q' ≡ (if ltb q.txidx 64 then queued q ++ (b ∷ []) else queued q)))
      × (let (done, q') = queue_uint32 w q in
          IsReply q'
          × (done ≡ ltb q.txidx 60)
          × (queued q' ≡ (if ltb q.txidx 60 then queued q ++ le_bytes w else queued q)))
queue_uint_lem b w q h = (queue_uint8_lem b q h, queue_uint32_lem w q h)
