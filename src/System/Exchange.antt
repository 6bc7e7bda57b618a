-- ===== src/System/Exchange.antt =====
-- `executeCmdQueue` with the programmer at the other end of the line.
use swagger.Prelude.{
  ℕ, ◌+◌, ◌≤◌, ◌<◌, ◌≡◌, refl, sym, ap, ◌∙◌, true, some, List, [], ◌∷◌, ◌++◌, append-nil, arith,
  ==_iff, length, length-append, All,
}
use mathlib.Core.Path.{subst}
use swagger.Cobs.{encode}
use swagger.Cobs.Encode.{encode_frame}
use swagger.Probe.{Link, Driver}
use swagger.Firmware.Loop.{Stack, Firmware, done, receive_all}
use swagger.Firmware.Loop.Sound.{IsStack}
use swagger.Firmware.Loop.Requests.{Request, stream, IsRequest}
use swagger.Firmware.Loop.Requests.Answers.{wire, spaces, answers, length-answers}
use swagger.Firmware.Loop.Replying.{IsIdle, receive_all-answers}
use swagger.Host.Packet.{
  SerialPort, HardwareInterface, tx, tx_cobs, print_packet, is_whole, write_packet, write_encoded,
}
use swagger.Host.Packet.RoundTrip.{print_packet-port, read_packet-encode}
use swagger.Host.Packet.Keeping.{read_packet-keeps}
use swagger.Host.Script.{SquirrelVm, Session, execute_cmd_queue, push}
use swagger.Host.Script.Exchange.{execute_cmd_queue-read}
use swagger.System.{Wired, IsReady}

-- A message of up to 253 bytes takes two bytes more in a packet.
length-encode : (xs : List ℕ) → length xs < 254 → length (encode xs).1 ≤ length xs + 2
length-encode xs short =
    let (body, framed, nz, lo, hi) = encode_frame xs in
    omega (arith, ap (λ t. length t.1) framed, length-append body (0 ∷ []))

module _ (q : SerialPort) (l : Link) (stack : Stack) (fuel : ℕ) (w : Wired q l stack fuel) where
  -- A packet is written, and the firmware has received it.
  record Written (h : HardwareInterface q) (fw : Firmware l) (new : List ℕ)
      (h' : HardwareInterface q) : Type 0 where
    pub is_up : q.is_open h'.port ≡ true
    pub board : w.board h'.port ≡ fw
    pub arrived : w.arrived h'.port ≡ w.arrived h.port ++ new

  is_whole-length : (bytes : List ℕ) → is_whole bytes (some (length bytes)) ≡ true
  unfolding is_whole
  is_whole-length bytes = ground (arith, ==_iff (length bytes) (length bytes))

  write_encoded-Written :
      (bytes new : List ℕ) (h : HardwareInterface q) (fw : Firmware l)
      → q.is_open h.port ≡ true
      → receive_all l fuel stack bytes (w.board h.port) ≡ done fw
      → wire fw.calls ≡ wire (w.board h.port).calls ++ new
      → (h' : HardwareInterface q) × (write_encoded q bytes h ≡ (true, h')) × Written h fw new h'
  unfolding write_encoded
  write_encoded-Written bytes new h fw is_up received sent =
      let (p1, written, up1, board1, arrived1) =
        w.carries bytes new h.port fw is_up received sent in
      let (p2, flushed, up2, board2, arrived2) = w.flushes h.timeout p1 up1 in
      (
        record h { port = p2 },
        rw (written, flushed, is_whole-length bytes) refl,
        record { is_up = up2; board = board2 ∙ board1; arrived = arrived2 ∙ arrived1 },
      )

  write_packet-Written :
      (message new : List ℕ) (h : HardwareInterface q) (fw : Firmware l)
      → q.is_open h.port ≡ true
      → receive_all l fuel stack (encode message).1 (w.board h.port) ≡ done fw
      → wire fw.calls ≡ wire (w.board h.port).calls ++ new
      → (h' : HardwareInterface q) × (write_packet q message h ≡ (true, h')) × Written h fw new h'
  unfolding write_packet
  write_packet-Written message new h fw is_up received sent =
      let (body, framed, nz, lo, hi) = encode_frame message in
      let h1 = print_packet q (tx message) h in
      let h2 = print_packet q (tx_cobs (encode message).1) h1 in
      let same : h2.port ≡ h.port = print_packet-port q _ h1 ∙ print_packet-port q _ h in
      let (h', written, whole) =
        write_encoded-Written (encode message).1 new h2 fw (ap q.is_open same ∙ is_up)
          (ap (λ p. receive_all l fuel stack (encode message).1 (w.board p)) same ∙ received)
          (sent ∙ ap (λ p. wire (w.board p).calls ++ new) (sym same)) in
      (
        h',
        rw (is_up, ap (λ t. t.0) framed) written,
        record {
          is_up = whole.is_up;
          board = whole.board;
          arrived = whole.arrived ∙ ap (λ p. w.arrived p ++ new) same;
        },
      )

module _ (m : SquirrelVm) (q : SerialPort) (l : Link) (stack : Stack) (sizes : IsStack stack) where
  -- With the programmer ready and a list of commands in the command queue, of 63 bytes at most, with
  -- arguments of their widths, and such that the answers take 60 bytes at most where every command
  -- succeeds, executeCmdQueue returns the result code 0, and the result queue is the status and the
  -- bytes with which the driver answers the commands, up to the first error. The command queue stays,
  -- and the programmer is ready again, with its driver as the commands leave it. (The line is as
  -- documented; no polling is exhausted; the fuel of the firmware is more than the number of
  -- commands, and that of the host is 64 or more.)
  pub execute_cmd_queue-answers :
      (fuel : ℕ) (w : Wired q l stack fuel) (fuel_read c : ℕ) (rs : List Request) (s : Session m q)
      (d d' : Driver l) (status : ℕ) (reply : List ℕ)
      → IsReady q l stack fuel w s.interface.port d
      → s.cmd_queue ≡ stream rs
      → length (stream rs) ≤ 63
      → All IsRequest rs
      → spaces rs ≤ 60
      → length rs < fuel
      → 64 ≤ fuel_read
      → answers l rs d ≡ some (status, (reply, d'))
      → (s' : Session m q) × (execute_cmd_queue m q fuel_read c s ≡ some (1, s'))
        × (s'.vm ≡ m.push_integer 0 s.vm)
        × (s'.result_queue ≡ status ∷ reply)
        × (s'.cmd_queue ≡ s.cmd_queue)
        × IsReady q l stack fuel w s'.interface.port d'
  unfolding push
  execute_cmd_queue-answers fuel w fuel_read c rs s d d' status reply ready queue room valid fits
        enough enough_read e =
      let p = s.interface.port in
      let (fw, received, idle, sent, driver) =
        receive_all-answers l stack sizes fuel rs (w.board p) status reply d' ready.idle
          (omega (arith, length-encode (stream rs) (omega arith))) valid enough fits
          (ap (λ t. answers l rs t) ready.driver ∙ e) in
      let new = (encode (status ∷ reply)).1 in
      let (h, written, whole) =
        write_packet-Written q l stack fuel w (stream rs) new s.interface fw ready.is_up received
          sent in
      let arrived : w.arrived h.port ≡ new ++ [] =
        whole.arrived ∙ (ap (λ t. t ++ new) ready.empty ∙ sym (append-nil new)) in
      let short : length reply ≤ 60 =
        omega (arith, length-answers l rs d (status, (reply, d')) e) in
      let (h', read, left, error) =
        read_packet-encode q w.arrived w.delivers h (status ∷ reply) [] [] fuel_read c whole.is_up
          arrived (omega (arith, length-encode (status ∷ reply) (omega (arith, short)), short)) in
      let board : w.board h'.port ≡ fw =
        read_packet-keeps q w.board w.keeps_board fuel_read c [] (status ∷ reply) true h h'
          whole.is_up read
        ∙ whole.board in
      (
        _,
        execute_cmd_queue-read m q fuel_read c s h h' (status ∷ reply)
            (ap (λ t. write_packet q t s.interface) queue ∙ written) read,
        refl,
        refl,
        refl,
        record {
          is_up =
              read_packet-keeps q q.is_open w.keeps_open fuel_read c [] (status ∷ reply) true h h'
                whole.is_up read
              ∙ whole.is_up;
          idle = subst (λ t. IsIdle l t) (sym board) idle;
          driver = ap (λ t. t.interface) board ∙ driver;
          empty = left;
        },
      )
