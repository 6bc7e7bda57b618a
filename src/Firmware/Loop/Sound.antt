-- ===== src/Firmware/Loop/Sound.antt =====
-- What the firmware keeps true from byte to byte, and how a reply is sent from there.
use swagger.Prelude.{ℕ, ◌≤◌, ◌≡◌, refl, some, [], ◌∷◌, length}
use swagger.Arduino.{serial_write, serial_flush}
use swagger.Cobs.{encode}
use swagger.Probe.{Link, Driver}
use swagger.Firmware.Reply.Queue.{IsReply, queued, queue_uint8_lem, queue_uint32_lem}
use swagger.Firmware.Reply.Send.{send_reply-encode}
use swagger.Firmware.Loop.{Stack, Firmware, reply_with, queue8, queue32}

-- The arrays on the stack have the sizes that the source gives them.
pub record IsStack (stack : Stack) : Type 0 where
  pub decode_size : length stack.decodebuffer ≡ 64
  pub encode_size : length stack.encodebuffer ≡ 66

module _ (l : Link) where
  pub record IsSound (fw : Firmware l) : Type 0 where
    pub rx_size : length fw.rxbuffer ≡ 64
    pub rx_fits : fw.rxidx ≤ 64
    pub reply : IsReply fw.reply

  -- `sendReply` sends the COBS encoding of the status and what is queued, and touches nothing else.
  pub reply_with-sends :
      (stack : Stack) (status : ℕ) (fw : Firmware l)
      → IsStack stack
      → IsSound fw
      → (fw' : Firmware l) × (reply_with l stack status fw ≡ some fw')
        × IsSound fw'
        × (fw'.calls ≡ serial_flush ∷ serial_write (encode (status ∷ queued fw.reply)).1 ∷ fw.calls)
        × (fw'.rxidx ≡ fw.rxidx)
        × (fw'.interface ≡ fw.interface)
        × (queued fw'.reply ≡ [])
  unfolding reply_with
  reply_with-sends stack status fw sizes sound =
      let (reply', sent, valid, emptied) =
        send_reply-encode stack.encodebuffer status fw.reply sizes.encode_size sound.reply in
      let written = serial_write (encode (status ∷ queued fw.reply)).1 in
      (
        record fw { reply = reply'; calls = serial_flush ∷ written ∷ fw.calls },
        rw sent refl,
        record { rx_size = sound.rx_size; rx_fits = sound.rx_fits; reply = valid },
        refl,
        refl,
        refl,
        emptied,
      )

  pub queue8-IsSound : (b : ℕ) (fw : Firmware l) → IsSound fw → IsSound (queue8 l b fw)
  unfolding queue8
  queue8-IsSound b fw sound =
      let (valid, done, bytes) = queue_uint8_lem b fw.reply sound.reply in
      record { rx_size = sound.rx_size; rx_fits = sound.rx_fits; reply = valid }

  pub queue32-IsSound : (w : ℕ) (fw : Firmware l) → IsSound fw → IsSound (queue32 l w fw)
  unfolding queue32
  queue32-IsSound w fw sound =
      let (valid, done, bytes) = queue_uint32_lem w fw.reply sound.reply in
      record { rx_size = sound.rx_size; rx_fits = sound.rx_fits; reply = valid }

  pub interface-IsSound :
      (d : Driver l) (fw : Firmware l) → IsSound fw → IsSound (record fw { interface = d })
  interface-IsSound d fw sound = record {
    rx_size = sound.rx_size;
    rx_fits = sound.rx_fits;
    reply = sound.reply;
  }
