-- ===== src/Host/Packet/Opening.antt =====
-- What is known of an object that `open` returns, and of one that is closed.
use swagger.Prelude.{ℕ, ◌≡◌, inl, inr, true, false, List, Bool-cases, arith}
use swagger.Host.Packet.{SerialPort, HardwareInterface, opened, open_interface, is_supported, close}

module _ (q : SerialPort) where
  pub close-closes :
      ((p : q.Port) → q.is_open (q.close_port p) ≡ false)
      → (h : HardwareInterface q) → q.is_open (close q h).port ≡ false
  unfolding close
  close-closes closes h = elim (Bool-cases (q.is_open h.port)) [
    | inl e ↦ rw e (closes h.port)
    | inr e ↦ rw e e
  ]

  pub open_interface-opened :
      (fresh : q.Port) (comport : List ℕ) (baudrate : ℕ) (h : HardwareInterface q)
      → open_interface q fresh comport baudrate ≡ opened h
      → is_supported baudrate ≡ true
  unfolding open_interface
  open_interface-opened fresh comport baudrate h e = elim (Bool-cases (is_supported baudrate)) [
    | inl supported ↦ supported
    | inr unsupported ↦ ground (arith, rw unsupported at e)
  ]
