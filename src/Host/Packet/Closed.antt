-- ===== src/Host/Packet/Closed.antt =====
-- Both operations on a port that is not open.
use swagger.Prelude.{ℕ, ◌≡◌, refl, false, some, List}
use swagger.Host.Packet.{
  SerialPort, HardwareInterface, fail, port_not_open, write_packet, read_packet,
}

module _ (q : SerialPort) (h : HardwareInterface q) (closed : q.is_open h.port ≡ false) where
  pub write_packet_closed :
      (message : List ℕ)
      → write_packet q message h ≡ (false, record h { last_error = port_not_open })
  unfolding write_packet fail
  write_packet_closed message = rw closed refl

  pub read_packet_closed :
      (fuel c : ℕ) (old : List ℕ)
      → read_packet q fuel c old h ≡ some (false, (old, record h { last_error = port_not_open }))
  unfolding read_packet
  read_packet_closed fuel c old = rw closed refl
