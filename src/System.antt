-- ===== src/System.antt =====
-- The host and the programmer together. `Wired` is a serial port of the host whose other end is
-- the firmware: the bytes written are received, and the bytes that the firmware writes arrive.
pub mod Exchange
pub mod Board
use swagger.Prelude.{ℕ, ◌≡◌, true, Option, some, List, [], ◌++◌, length}
use swagger.Probe.{Link, Driver}
use swagger.Firmware.Loop.{Stack, Firmware, done, receive_all}
use swagger.Firmware.Loop.Requests.Answers.{wire}
use swagger.Firmware.Loop.Replying.{IsIdle}
use swagger.Host.Packet.{SerialPort}
use swagger.Host.Packet.RoundTrip.{Delivers}
use swagger.Host.Packet.Keeping.{Keeps}

module _ (q : SerialPort) (l : Link) (stack : Stack) (fuel : ℕ) where
  -- `board p` is the firmware at the other end of the line, and `arrived p` are the bytes that have
  -- come from it and are not read yet. The line loses nothing, and the firmware is fast enough for
  -- the host not to time out. Where the firmware does not come to an end nothing is said.
  pub record Wired : Type 0 where
    pub board : q.Port → Firmware l
    pub arrived : q.Port → List ℕ
    pub delivers : Delivers q arrived
    pub keeps_board : Keeps q board
    pub keeps_open : Keeps q q.is_open
    pub carries :
        (bytes new : List ℕ) (p : q.Port) (fw : Firmware l)
        → q.is_open p ≡ true
        → receive_all l fuel stack bytes (board p) ≡ done fw
        → wire fw.calls ≡ wire (board p).calls ++ new
        → (p' : q.Port) × (q.write bytes p ≡ (some (length bytes), p'))
          × (q.is_open p' ≡ true)
          × (board p' ≡ fw)
          × (arrived p' ≡ arrived p ++ new)
    pub flushes :
        (msecs : ℕ) (p : q.Port)
        → q.is_open p ≡ true
        → (p' : q.Port) × (q.wait_for_bytes_written msecs p ≡ (true, p'))
          × (q.is_open p' ≡ true)
          × (board p' ≡ board p)
          × (arrived p' ≡ arrived p)

  -- The port is open, nothing is on its way, and the firmware is between two packets, with its driver
  -- at `d`.
  pub record IsReady (w : Wired) (p : q.Port) (d : Driver l) : Type 0 where
    pub is_up : q.is_open p ≡ true
    pub idle : IsIdle l (w.board p)
    pub driver : (w.board p).interface ≡ d
    pub empty : w.arrived p ≡ []
