-- ===== src/Firmware/Reply.antt =====
-- `g_txbuffer` and its index, and the functions of `swdinterface.ino` that queue a reply and send it.
pub mod Queue
pub mod Send
use Prim.Native.Nat.{bit_and}
use swagger.Prelude.{
  ℕ, zero, suc, ◌+◌, ◌/◌, ◌%◌, ◌^◌, Bool, true, false, Option, none, some, List, [], ◌∷◌, ltb, leb,
  ◌==◌, if◌then◌else◌, length, set, take,
}
use swagger.Firmware.Stuff.{stuff_data, ◌>>=◌}

pub record Reply : Type 0 where
  pub txbuffer : List ℕ
  pub txidx : ℕ

-- `sizeof(g_txbuffer)`
abbrev pub tx_size : ℕ
tx_size = 64

-- `g_txbuffer[g_txidx++] = b`, with a `uint8_t` index.
abbrev pub put : ℕ → Reply → Reply
put b q = record { txbuffer = set q.txbuffer q.txidx b; txidx = (q.txidx + 1) % 256 }

-- Each returns `false` if the queue overflows.
pub queue_uint8 : ℕ → Reply → Bool × Reply
queue_uint8 b q = if leb tx_size q.txidx then (false, q) else (true, put b q)

pub queue_uint32 : ℕ → Reply → Bool × Reply
queue_uint32 w q =
    if leb tx_size (q.txidx + 4)
    then (false, q)
    else let q1 = put (bit_and w 0xFF) q in
      let q2 = put (bit_and (w / 2 ^ 8) 0xFF) q1 in
      let q3 = put (bit_and (w / 2 ^ 16) 0xFF) q2 in (true, put (bit_and (w / 2 ^ 24) 0xFF) q3)

-- The bytes of an array up to its first zero and with it; `none` if it has no zero.
pub c_string : List ℕ → Option (List ℕ)
c_string [] = none
c_string (b ∷ bs) = if b == 0 then some (0 ∷ []) else do rest ← c_string bs; some (b ∷ rest)

-- `sendReply`. `stack` is what `encodebuffer`, of `sizeof(g_txbuffer) + 2` bytes, holds at first.
-- The bytes that `Serial.write` gets, and the queue after it; `none` if memory is written or read
-- past the end of `encodebuffer`.
pub send_reply : (stack : List ℕ) (reply_status : ℕ) → Reply → Option (List ℕ × Reply)
send_reply stack reply_status q = do
  let txbuffer = set q.txbuffer 0 reply_status
  encodebuffer ← stuff_data (take q.txidx txbuffer) stack
  written ← c_string encodebuffer
  some (written, record { txbuffer = txbuffer; txidx = 1 })
