-- ===== src/Firmware/Loop/Requests/Advancing.antt =====
-- What commands do to the reply in the work: bytes are added to it, or it is sent.
use swagger.Prelude.{
  ℕ, ◌+◌, ◌≤◌, ◌<◌, ◌≡◌, refl, sym, ap, ◌∙◌, inl, inr, true, some, List, [], ◌∷◌, ◌++◌,
  append_assoc, append-nil, arith, ltb, Bool-cases, length, take, length-append, length-drop,
  length-take,
}
use swagger.Word32.{le_bytes}
use swagger.Arduino.{set_reset}
use swagger.Cobs.{encode}
use swagger.Probe.{Link, Driver}
use swagger.Firmware.Reply.{Reply}
use swagger.Firmware.Reply.Queue.{IsReply, queued, queue_uint8_lem, queue_uint32_lem}
use swagger.Firmware.Loop.{Stack, Firmware, queue8, queue32, reply_with, rx_size}
use swagger.Firmware.Loop.Sound.{IsStack, IsSound, reply_with-sends, interface-IsSound}
use swagger.Firmware.Loop.Requests.Answers.{wire}

pub length-queued : (q : Reply) → IsReply q → length (queued q) + 1 ≡ q.txidx
length-queued q h = omega (
  arith,
  length-drop 1 (take q.txidx q.txbuffer),
  length-take q.txidx q.txbuffer,
  h.size,
  h.status,
  h.fits,
)

module _ (l : Link) where
  -- `fw'` is `fw` after commands that succeeded: they added `bytes` to the reply and left the driver
  -- at `d`.
  pub record Advanced (fw : Firmware l) (bytes : List ℕ) (d : Driver l) (fw' : Firmware l)
      : Type 0 where
    pub sound : IsSound l fw'
    pub queue : queued fw'.reply ≡ queued fw.reply ++ bytes
    pub line : wire fw'.calls ≡ wire fw.calls
    pub driver : fw'.interface ≡ d
    pub idx : fw'.rxidx ≡ fw.rxidx

  -- `fw'` is `fw` after commands that ended in a reply of these bytes.
  pub record Replied (fw : Firmware l) (reply : List ℕ) (d : Driver l) (fw' : Firmware l)
      : Type 0 where
    pub sound : IsSound l fw'
    pub queue : queued fw'.reply ≡ []
    pub line : wire fw'.calls ≡ wire fw.calls ++ (encode reply).1
    pub driver : fw'.interface ≡ d
    pub idx : fw'.rxidx ≡ fw.rxidx

  pub queue32-Advanced :
      (w : ℕ) (d : Driver l) (fw : Firmware l)
      → IsSound l fw
      → length (queued fw.reply) + 4 ≤ 60
      → Advanced fw (le_bytes w) d (queue32 l w (record fw { interface = d }))
  unfolding queue32
  queue32-Advanced w d fw sound room =
      let (valid, queues, bytes) = queue_uint32_lem w fw.reply sound.reply in
      let fits : ltb fw.reply.txidx 60 ≡ true =
        ground (arith, length-queued fw.reply sound.reply) in
      record {
        sound = record { rx_size = sound.rx_size; rx_fits = sound.rx_fits; reply = valid };
        queue = rw fits at bytes;
        line = refl;
        driver = refl;
        idx = refl;
      }

  pub queue8-Advanced :
      (b : ℕ) (d : Driver l) (fw : Firmware l)
      → fw.interface ≡ d
      → IsSound l fw
      → length (queued fw.reply) < 60
      → Advanced fw (b ∷ []) d (queue8 l b fw)
  unfolding queue8
  queue8-Advanced b d fw same sound room =
      let (valid, queues, bytes) = queue_uint8_lem b fw.reply sound.reply in
      let fits : ltb fw.reply.txidx 64 ≡ true =
        ground (arith, length-queued fw.reply sound.reply) in
      record {
        sound = record { rx_size = sound.rx_size; rx_fits = sound.rx_fits; reply = valid };
        queue = rw fits at bytes;
        line = refl;
        driver = same;
        idx = refl;
      }

  pub Advanced-trans :
      (xs ys : List ℕ) (d d' : Driver l) (fw fw1 fw2 : Firmware l)
      → Advanced fw xs d fw1
      → Advanced fw1 ys d' fw2
      → Advanced fw (xs ++ ys) d' fw2
  Advanced-trans xs ys d d' fw fw1 fw2 h k = record {
    sound = k.sound;
    queue = k.queue ∙ ap (λ t. t ++ ys) h.queue ∙ append_assoc (queued fw.reply) xs ys;
    line = k.line ∙ h.line;
    driver = k.driver;
    idx = k.idx ∙ h.idx;
  }

  pub Advanced-Replied :
      (xs : List ℕ) (status : ℕ) (rest : List ℕ) (d d' : Driver l) (fw fw1 fw2 : Firmware l)
      → Advanced fw xs d fw1
      → Replied fw1 (status ∷ (queued fw1.reply ++ rest)) d' fw2
      → Replied fw (status ∷ (queued fw.reply ++ (xs ++ rest))) d' fw2
  Advanced-Replied xs status rest d d' fw fw1 fw2 h k =
      let same : queued fw1.reply ++ rest ≡ queued fw.reply ++ (xs ++ rest) =
        ap (λ t. t ++ rest) h.queue ∙ append_assoc (queued fw.reply) xs rest in
      record {
        sound = k.sound;
        queue = k.queue;
        line =
            k.line
            ∙ ap (λ t. t ++ (encode (status ∷ (queued fw1.reply ++ rest))).1) h.line
            ∙ ap (λ t. wire fw.calls ++ (encode (status ∷ t)).1) same;
        driver = k.driver;
        idx = k.idx ∙ h.idx;
      }

  pub driver-Advanced :
      (d : Driver l) (fw : Firmware l)
      → IsSound l fw
      → Advanced fw [] d (record fw { interface = d })
  driver-Advanced d fw sound = record {
    sound = interface-IsSound l d fw sound;
    queue = sym (append-nil (queued fw.reply));
    line = refl;
    driver = refl;
    idx = refl;
  }

  pub reset-Advanced :
      (state : ℕ) (fw : Firmware l)
      → IsSound l fw
      → Advanced fw [] fw.interface (record fw { calls = set_reset (ltb 0 state) ∷ fw.calls })
  unfolding wire set_reset
  reset-Advanced state fw sound = record {
    sound = record { rx_size = sound.rx_size; rx_fits = sound.rx_fits; reply = sound.reply };
    queue = sym (append-nil (queued fw.reply));
    line = elim (Bool-cases (ltb 0 state)) [ inl e ↦ rw e refl | inr e ↦ rw e refl ];
    driver = refl;
    idx = refl;
  }

  pub program_id-Advanced :
      (fw : Firmware l)
      → IsSound l fw
      → length (queued fw.reply) + 3 ≤ 60
      → Advanced fw
          (0x01 ∷ 64 ∷ 0 ∷ [])
          fw.interface
          (queue8 l 0 (queue8 l rx_size (queue8 l 0x01 fw)))
  program_id-Advanced fw sound room =
      let d = fw.interface in
      let fw1 = queue8 l 0x01 fw in
      let fw2 = queue8 l rx_size fw1 in
      let h1 = queue8-Advanced 0x01 d fw refl sound (omega arith) in
      let h2 =
        queue8-Advanced rx_size d fw1 h1.driver h1.sound (
          omega
            (arith, ap (λ t. length t) h1.queue, length-append (queued fw.reply) (0x01 ∷ []))) in
      let h12 = Advanced-trans (0x01 ∷ []) (64 ∷ []) d d fw fw1 fw2 h1 h2 in
      let h3 = queue8-Advanced 0 d fw2 h2.driver h2.sound (
        omega (
          arith,
          ap (λ t. length t) h12.queue,
          length-append (queued fw.reply) (0x01 ∷ 64 ∷ []),
        )) in
      Advanced-trans (0x01 ∷ 64 ∷ []) (0 ∷ []) d d fw fw2 _ h12 h3

  module _ (stack : Stack) (sizes : IsStack stack) where
    pub reply_with-Replied :
        (status : ℕ) (d : Driver l) (fw : Firmware l)
        → IsSound l fw
        → (fw' : Firmware l) × (reply_with l stack status (record fw { interface = d }) ≡ some fw')
          × Replied fw (status ∷ queued fw.reply) d fw'
    unfolding wire
    reply_with-Replied status d fw sound =
        let (fw', sent, sound', calls, idx, interface, emptied) =
          reply_with-sends l stack status (record fw { interface = d }) sizes
            (interface-IsSound l d fw sound) in
        (
          fw',
          sent,
          record {
            sound = sound';
            queue = emptied;
            line = ap wire calls;
            driver = interface;
            idx = idx;
          },
        )
