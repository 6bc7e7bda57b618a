-- ===== src/Firmware/Loop/Replying.antt =====
-- The reply that the firmware sends to a packet of the host.
use swagger.Prelude.{ℕ, ◌≤◌, ◌<◌, ◌≡◌, ap, ◌∙◌, some, List, [], ◌∷◌, ◌++◌, arith, length, All}
use swagger.Arduino.{digital_write, high, led_pin}
use swagger.Cobs.{encode}
use swagger.Probe.{Link, Driver}
use swagger.Firmware.Reply.Queue.{queued}
use swagger.Firmware.Loop.{Stack, Firmware, done, receive_all}
use swagger.Firmware.Loop.Sound.{IsStack, IsSound}
use swagger.Firmware.Loop.Packets.{receive_all_kept}
use swagger.Firmware.Loop.Requests.{Request, stream, IsRequest}
use swagger.Firmware.Loop.Requests.Answers.{wire, spaces, answers}
use swagger.Firmware.Loop.Requests.Replies.{Finishes, run_requests-Finishes}

-- Between two packets: no byte is received, and none is queued for a reply.
pub record IsIdle (l : Link) (fw : Firmware l) : Type 0 where
  pub sound : IsSound l fw
  pub start : fw.rxidx ≡ 0
  pub empty : queued fw.reply ≡ []

module _ (l : Link) (stack : Stack) (sizes : IsStack stack) where
  -- A firmware between two packets that receives the packet of a list of commands sends one reply:
  -- the packet of the status and of the bytes with which the driver answers the commands, one after
  -- the other and up to the first error. Then it is between two packets again, with the driver as
  -- the commands leave it. (No polling of the commands is exhausted; packet and reply fit into the
  -- arrays, which have the sizes of the source; the fuel is more than the number of commands.)
  pub receive_all-answers :
      (fuel : ℕ) (rs : List Request) (fw : Firmware l) (status : ℕ) (reply : List ℕ) (d : Driver l)
      → IsIdle l fw
      → length (encode (stream rs)).1 ≤ 65
      → All IsRequest rs
      → length rs < fuel
      → spaces rs ≤ 60
      → answers l rs fw.interface ≡ some (status, (reply, d))
      → (fw' : Firmware l) × (receive_all l fuel stack (encode (stream rs)).1 fw ≡ done fw')
        × IsIdle l fw'
        × (wire fw'.calls ≡ wire fw.calls ++ (encode (status ∷ reply)).1)
        × (fw'.interface ≡ d)
  unfolding Finishes wire
  receive_all-answers fuel rs fw status reply d idle room valid enough fits e =
      let (rxbuffer, kept, received) =
        receive_all_kept l fuel stack rs fw sizes.decode_size idle.sound.rx_size room valid in
      let fw1 = record fw {
        rxbuffer = rxbuffer;
        rxidx = 0;
        calls = digital_write led_pin high ∷ fw.calls;
      } in
      let sound : IsSound l fw1 = record {
        rx_size = kept;
        rx_fits = omega arith;
        reply = idle.sound.reply;
      } in
      let (fw', ends, replied) =
        run_requests-Finishes l stack sizes fuel rs fw1 (status, (reply, d)) sound enough
          (omega (arith, ap (λ t. length t) idle.empty)) e in
      let same : fw ≡ record fw { rxidx = 0 } = ap (λ i. record fw { rxidx = i }) idle.start in
      (
        fw',
        ap (λ t. receive_all l fuel stack (encode (stream rs)).1 t) same ∙ (received ∙ ends),
        record { sound = replied.sound; start = replied.idx; empty = replied.queue },
        replied.line ∙ ap (λ t. wire fw.calls ++ (encode (status ∷ (t ++ reply))).1) idle.empty,
        replied.driver,
      )
