-- ===== src/Host/Script/Exchange.antt =====
-- `executeCmdQueue`: an exchange of packets with the programmer, and what the script hears of it.
use swagger.Prelude.{ℕ, ◌≤◌, ◌≡◌, refl, true, false, some, List, [], ◌++◌, length}
use swagger.Cobs.{encode}
use swagger.Host.Packet.{SerialPort, HardwareInterface, port_not_open, write_packet, read_packet}
use swagger.Host.Packet.Closed.{write_packet_closed, read_packet_closed}
use swagger.Host.Packet.RoundTrip.{Delivers, read_packet-encode}
use swagger.Host.Script.{SquirrelVm, Session, Message, push, print, execute_cmd_queue}

module _ (m : SquirrelVm) (q : SerialPort) where
  -- With a port that is not open executeCmdQueue sends nothing and receives nothing, and pushes the
  -- error codes 1 and 2; then it pushes 0 and returns one value, so the script gets the result code
  -- of a success. The command queue stays, and the result queue is empty.
  pub execute_cmd_queue_closed :
      (fuel c : ℕ) (s : Session m q)
      → q.is_open s.interface.port ≡ false
      → (s' : Session m q) × (execute_cmd_queue m q fuel c s ≡ some (1, s'))
        × (s'.vm ≡ m.push_integer 0 (m.push_integer 2 (m.push_integer 1 s.vm)))
        × (s'.interface ≡ record s.interface { last_error = port_not_open })
        × (s'.cmd_queue ≡ s.cmd_queue)
        × (s'.result_queue ≡ [])
  unfolding execute_cmd_queue push print
  execute_cmd_queue_closed fuel c s closed =
      let unopened = record s.interface { last_error = port_not_open } in
      let errors = push m q 2 (
        print m q (Message.read_packet_error port_not_open) (
          push m q 1 (
            print m q (Message.write_packet_error port_not_open)
              (record s { interface = unopened; result_queue = [] })))) in
      (
        push m q 0 errors,
        rw
            (
              write_packet_closed q s.interface closed s.cmd_queue,
              read_packet_closed q unopened closed fuel c [],
            )
            refl,
        refl,
        refl,
        refl,
        refl,
      )

  pub execute_cmd_queue-read :
      (fuel c : ℕ) (s : Session m q) (h h' : HardwareInterface q) (reply : List ℕ)
      → write_packet q s.cmd_queue s.interface ≡ (true, h)
      → read_packet q fuel c [] h ≡ some (true, (reply, h'))
      → execute_cmd_queue m q fuel c s
        ≡ some (1, push m q 0 (record s { interface = h'; result_queue = reply }))
  unfolding execute_cmd_queue
  execute_cmd_queue-read fuel c s h h' reply sent received = rw (sent, received) refl

  -- Where writePacket succeeds, and the packet of `reply` and then `rest` have arrived at the port,
  -- executeCmdQueue returns the result code 0, with `reply` in the result queue and `rest` still to
  -- be read; the command queue is not cleared. (The port has documented behaviour; fuel for the
  -- packet is given.)
  pub execute_cmd_queue_reply :
      (arrived : q.Port → List ℕ) (line : Delivers q arrived) (fuel c : ℕ) (s : Session m q)
      (h : HardwareInterface q) (reply rest : List ℕ)
      → write_packet q s.cmd_queue s.interface ≡ (true, h)
      → q.is_open h.port ≡ true
      → arrived h.port ≡ (encode reply).1 ++ rest
      → length (encode reply).1 ≤ fuel
      → (s' : Session m q) × (execute_cmd_queue m q fuel c s ≡ some (1, s'))
        × (s'.vm ≡ m.push_integer 0 s.vm)
        × (s'.result_queue ≡ reply)
        × (s'.cmd_queue ≡ s.cmd_queue)
        × (arrived s'.interface.port ≡ rest)
  unfolding push
  execute_cmd_queue_reply arrived line fuel c s h reply rest sent is_up e enough =
      let (h', received, left, error) =
        read_packet-encode q arrived line h reply rest [] fuel c is_up e enough in
      let s' = record s { interface = h'; result_queue = reply } in
      (
        push m q 0 s',
        execute_cmd_queue-read fuel c s h h' reply sent received,
        refl,
        refl,
        refl,
        left,
      )
