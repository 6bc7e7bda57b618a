-- ===== src/System/Board.antt =====
-- A serial port that has the firmware at its other end: an instance of `Wired`.
use swagger.Prelude.{
  ℕ, ◌≡◌, refl, ap, Bool, true, false, Option, some, none, List, [], ◌∷◌, ◌++◌, length, drop,
}
use swagger.Probe.{Link}
use swagger.Firmware.Loop.{Stack, Firmware, Ended, done, receive_all}
use swagger.Firmware.Loop.Requests.Answers.{wire}
use swagger.Host.Packet.{SerialPort}
use swagger.System.{Wired, IsReady}
use swagger.Firmware.Loop.Replying.{IsIdle}

module _ (l : Link) where
  pub record Board : Type 0 where
    pub firmware : Firmware l
    pub waiting : List ℕ
    pub is_up : Bool

  -- The bytes on the line after the firmware has run; a firmware that does not come to an end leaves
  -- the line closed.
  pub run_board : Board → Ended l → Board
  run_board p (done fw) = record {
    firmware = fw;
    waiting = p.waiting ++ drop (length (wire p.firmware.calls)) (wire fw.calls);
    is_up = p.is_up;
  }
  run_board p e = record p { is_up = false }

  pub read_board : Board → Option ℕ × Board
  read_board p = elim p.waiting [ [] ↦ (none, p) | x ∷ xs ↦ (some x, record p { waiting = xs }) ]

  module _ (stack : Stack) (fuel : ℕ) where
    abbrev pub board_port : SerialPort
    board_port = record {
      Port = Board;
      set_up = λ setting p. p;
      open_port = λ p. (true, record p { is_up = true });
      close_port = λ p. record p { is_up = false };
      is_open = λ p. p.is_up;
      write =
          λ bytes p. (some (length bytes), run_board p (receive_all l fuel stack bytes p.firmware));
      wait_for_bytes_written = λ msecs p. (true, p);
      bytes_available = λ p. length p.waiting;
      wait_for_ready_read = λ msecs p. (false, p);
      read = read_board;
    }

    drop-length : (xs ys : List ℕ) → drop (length xs) (xs ++ ys) ≡ ys
    drop-length [] ys = refl
    drop-length (x ∷ xs) ys = drop-length xs ys

    read_board-firmware : (p : Board) → (read_board p).1.firmware ≡ p.firmware
    unfolding read_board
    read_board-firmware p = go p.waiting refl
      where
        go : (xs : List ℕ) → p.waiting ≡ xs → (read_board p).1.firmware ≡ p.firmware
        go [] e = rw e refl
        go (x ∷ xs) e = rw e refl

    read_board-is_up : (p : Board) → (read_board p).1.is_up ≡ p.is_up
    unfolding read_board
    read_board-is_up p = go p.waiting refl
      where
        go : (xs : List ℕ) → p.waiting ≡ xs → (read_board p).1.is_up ≡ p.is_up
        go [] e = rw e refl
        go (x ∷ xs) e = rw e refl

    pub wired : Wired board_port l stack fuel
    unfolding read_board run_board
    wired = record {
      board = λ p. p.firmware;
      arrived = λ p. p.waiting;
      delivers = record {
        available = λ p. refl;
        takes_first = λ p x rest e. (record p { waiting = rest }, rw e refl, refl);
      };
      keeps_board = record { reads = read_board-firmware; waits = λ msecs p. refl };
      keeps_open = record { reads = read_board-is_up; waits = λ msecs p. refl };
      carries = λ bytes new p fw is_up received sent. (
        run_board p (done fw),
        rw received refl,
        is_up,
        refl,
        ap (λ t. p.waiting ++ t) (rw sent (drop-length (wire p.firmware.calls) new)),
      );
      flushes = λ msecs p is_up. (p, refl, is_up, refl, refl);
    }

    pub wired-IsReady :
        (p : Board)
        → p.is_up ≡ true
        → IsIdle l p.firmware
        → p.waiting ≡ []
        → IsReady board_port l stack fuel wired p p.firmware.interface
    unfolding wired
    wired-IsReady p is_up idle empty = record {
      is_up = is_up;
      idle = idle;
      driver = refl;
      empty = empty;
    }
