-- ===== src/Examples/FlashRuns.antt =====
-- The programming of the flash at a concrete target.
use swagger.Prelude.{
  ℕ, ◌≡◌, refl, true, false, some, List, [], ◌∷◌, arith, ◌==◌, if◌then◌else◌, replicate,
}
use swagger.Swd.{swd_ok}
use swagger.Protocol.Status
use swagger.Word32.{join}
use swagger.Probe.{
  Link, Driver, try_connect, write_dp, status, retry, retry_write, retry_read, read_dp, select_ap,
  write_ap, read_ap, wait_round, wait_loop, wait_for_memory, aim, read_memory, write_memory,
  register, bank,
}
use swagger.Firmware.Loop.{Firmware, poll}
use swagger.Firmware.Loop.Requests.Answers.{answer, answers, go_on_if, prepend}
use swagger.Firmware.Loop.Sound.{IsSound}
use swagger.Firmware.Loop.Replying.{IsIdle}
use swagger.Host.Packet.{SerialPort, LastError}
use swagger.Host.Script.{Session}
use swagger.System.Board.{board_port, wired, wired-IsReady}
use swagger.Targets.Turn.{Bench, IsAtRest}
use swagger.Targets.Verify.{sign_extend}
use swagger.Targets.Verify.Matches.{file_words}
use swagger.Targets.Kinetis.{flash_program}
use swagger.Targets.Kinetis.Longword.{
  longword_requests, longword_verdict, reports_error, reply_word,
}
use swagger.Targets.Kinetis.Program.{
  Programs, programs, longword_result, continue_if, flash_program-programs,
}
use swagger.Targets.Kinetis.Erase.{has_bit, is_supported_size, program_size, sector_size}
use swagger.Targets.Kinetis.Steps.{
  erases, halts, powers, step_then, step_and, stop, reads, reads_stat, reads_ap, reads_memory,
  reads_core, checks_halted, erases_all, erases_ready,
}
use swagger.Targets.Connects.{tries, reads_until}
use swagger.Targets.Returns.{word_or_zero}
use swagger.Targets.Verify.Matches.{binary_matches, matches}
use swagger.Targets.Start.{init_system, ended}
use swagger.Targets.Start.Verified.{Ends, ending, init_system-ending}
use swagger.Examples.LoopRuns.{stack, stack-IsStack}
use swagger.Examples.ScriptRuns.{stack_vm, stack_frames}

-- A target that is powered and halted, and whose memory reads as 0x03000080 everywhere: its flash
-- has the size that is supported, and the flash controller is ready and has no error. The state is
-- the register of the access port that was read last.
abbrev port_register : ℕ → ℕ
port_register n = if n == 0 then 0x0001_0002 else if n == 3 then 0x0300_0080 else 0

abbrev flash_link : Link
flash_link = record {
  State = ℕ;
  write_transaction = λ p a w s. (swd_ok, s);
  read_transaction = λ p a old s. elim p [
    | true ↦ ((swd_ok, 0), a)
    | false ↦ ((swd_ok, if a == 1 then 0xF000_0000 else port_register s), s)
  ];
  connect = λ s. ((swd_ok, 0x0BC1_1477), s);
}

abbrev driver : Driver flash_link
driver = record { line = 3; ap_cache = 0 }

abbrev firmware : Firmware flash_link
firmware = record {
  rxbuffer = replicate 64 0;
  rxidx = 0;
  reply = record { txbuffer = replicate 64 0; txidx = 1 };
  interface = driver;
  calls = [];
}

firmware-IsSound : IsSound flash_link firmware
firmware-IsSound = record {
  rx_size = refl;
  rx_fits = omega arith;
  reply = record { size = refl; status = omega arith; fits = omega arith };
}

firmware-IsIdle : IsIdle flash_link firmware
firmware-IsIdle = record { sound = firmware-IsSound; start = refl; empty = refl }

abbrev port : SerialPort
port = board_port flash_link stack 64

abbrev bench : Bench stack_vm port flash_link
bench = record {
  frames = stack_frames;
  stack = stack;
  sizes = stack-IsStack;
  fuel = 64;
  wired = wired flash_link stack 64;
  fuel_read = 64;
  c = 7;
  enough = omega arith;
  enough_read = omega arith;
}

abbrev session : Session stack_vm port
session = record {
  vm = [];
  interface = record {
    debug = false;
    timeout = 1000;
    port = record { firmware = firmware; waiting = []; is_up = true };
    last_error = LastError.empty;
    printed = [];
  };
  cmd_queue = [];
  result_queue = [];
  messages = [];
}

session-IsAtRest : IsAtRest stack_vm port flash_link bench session driver
unfolding IsAtRest
session-IsAtRest =
    wired-IsReady flash_link stack 64 session.interface.port refl firmware-IsIdle refl

abbrev blob : List ℕ
blob = 0x80 ∷ 0 ∷ 0 ∷ 0x03 ∷ []

blob-programs : programs flash_link (file_words blob) 0 driver ≡ some (0, driver)
unfolding programs file_words continue_if longword_result longword_verdict longword_requests
    reports_error reply_word sign_extend join answers answer go_on_if prepend poll read_memory
    write_memory aim wait_for_memory wait_loop wait_round read_ap write_ap retry_read retry_write
    retry status select_ap register bank read_dp
blob-programs = refl

-- A long word whose command failed, with MGSTAT0 set and no other flag, comes to 0.
failed_command : longword_verdict Status.ok (0x81 ∷ 0 ∷ 0 ∷ 0 ∷ []) ≡ 0
unfolding longword_verdict reports_error reply_word join
failed_command = refl

flash_program-programs_example :
    Programs stack_vm port flash_link bench
      (flash_program stack_vm stack_frames port 64 7 (some blob) session)
      0
      driver
flash_program-programs_example =
    flash_program-programs stack_vm port flash_link bench blob session driver driver 0
      session-IsAtRest refl blob-programs

erased : erases flash_link (tries flash_link 10 driver).1 ≡ (0, driver)
unfolding erases halts powers tries step_then step_and stop reads reads_stat reads_ap reads_memory
    reads_core checks_halted erases_all erases_ready reads_until word_or_zero has_bit
    is_supported_size program_size sector_size try_connect write_dp read_memory write_memory aim
    wait_for_memory wait_loop wait_round read_ap write_ap retry_read retry_write retry status
    select_ap register bank read_dp
erased = refl

init_system-ending_example :
    Ends stack_vm port flash_link bench
      (init_system stack_vm stack_frames port 64 7 (some blob) false session)
      (ending
        (erases flash_link (tries flash_link 10 driver).1).0
        0
        (binary_matches flash_link (some blob) driver))
init_system-ending_example =
    init_system-ending stack_vm port flash_link bench blob session driver driver 0 session-IsAtRest
      refl (omega arith) (rw erased blob-programs)

blob-matches : binary_matches flash_link (some blob) driver ≡ true
unfolding binary_matches file_words matches sign_extend join read_memory aim wait_for_memory
    wait_loop wait_round read_ap write_ap retry_read retry_write retry status select_ap register
    bank read_dp
blob-matches = refl

-- The start of this run ends well.
ends_well :
    ending
      (erases flash_link (tries flash_link 10 driver).1).0
      0
      (binary_matches flash_link (some blob) driver)
    ≡ ended
unfolding ending
ends_well = rw (erased, blob-matches) refl
