-- ===== src/Examples/ScriptRuns.antt =====
-- The properties of the system and of the scripts at concrete inputs.
use swagger.Prelude.{
  ℕ, ◌^◌, ◌≤◌, ◌<◌, ◌≡◌, refl, true, false, Option, none, some, List, [], ◌∷◌, ◌++◌, arith, ◌==◌,
  if◌then◌else◌, length, length-append, All,
}
use Prim.Native.Nat.{bit_and}
use swagger.Protocol.Status
use swagger.Cobs.{encode}
use swagger.Probe
use swagger.Probe.{
  Link, Driver, status, retry, retry_write, retry_read, read_dp, select_ap, write_ap, read_ap,
  wait_round, wait_loop, wait_for_memory, aim, read_memory, register, bank,
}
use swagger.Firmware.Loop.{Firmware, done, receive_all}
use swagger.Firmware.Loop.Requests.{Request, stream, bytes, IsRequest}
use swagger.Firmware.Loop.Requests.Answers.{wire, space, spaces, answer, answers, go_on_if, prepend}
use swagger.Firmware.Loop.Replying.{IsIdle, receive_all-answers}
use swagger.Host.Packet.{SerialPort, LastError}
use swagger.Host.Script.{SquirrelVm, Session, execute_cmd_queue}
use swagger.System.{IsReady}
use swagger.System.Board.{board_port, wired, wired-IsReady}
use swagger.System.Exchange.{execute_cmd_queue-answers}
use swagger.Targets.{CallFrames}
use swagger.Targets.Functions
use swagger.Targets.Queueing.{Queues, IsScripted, queue_request, queue_request-Queues}
use swagger.Targets.Turn.{Bench, IsAtRest}
use swagger.Targets.Returns.{ReturnsWord, ReturnsStatus, read_memory-returns}
use swagger.Targets.Connects.{ReturnsAs, tries, reads_until, connect-tries}
use swagger.Targets.Verify.{verify_flash}
use swagger.Targets.Verify.Matches.{binary_matches, binary_size}
use swagger.Targets.Verify.Flash.{Judges, verify_flash-matches}
use swagger.Examples.LoopRuns.{
  zero_link, quiet, stack, stack-IsStack, idle, idle-IsSound, read_memory-zero,
}

idle-IsIdle : IsIdle zero_link idle
idle-IsIdle = record { sound = idle-IsSound; start = refl; empty = refl }

abbrev two_requests : List Request
two_requests = Request.program_id ∷ Request.read_word 0x10 ∷ []

two_requests-valid : All IsRequest two_requests
unfolding IsRequest
two_requests-valid = (tt, (omega arith, tt))

abbrev two_answers : List ℕ
two_answers = 0x01 ∷ 64 ∷ 0 ∷ 0 ∷ 0 ∷ 0 ∷ 0 ∷ []

two_requests-answers : answers zero_link two_requests quiet ≡ some (Status.ok, (two_answers, quiet))
unfolding answers answer go_on_if prepend
two_requests-answers = rw read_memory-zero refl

two_requests-spaces : spaces two_requests ≤ 60
unfolding spaces space
two_requests-spaces = omega arith

two_requests-room : length (encode (stream two_requests)).1 ≤ 65
unfolding encode stream bytes
two_requests-room = omega arith

receive_all-answers_example :
    (fw' : Firmware zero_link) × (receive_all zero_link 64 stack
        (encode (stream two_requests)).1
        idle
      ≡ done fw')
    × IsIdle zero_link fw'
    × (wire fw'.calls ≡ wire idle.calls ++ (encode (Status.ok ∷ two_answers)).1)
    × (fw'.interface ≡ quiet)
receive_all-answers_example =
    receive_all-answers zero_link stack stack-IsStack 64 two_requests idle Status.ok two_answers
      quiet idle-IsIdle two_requests-room two_requests-valid (omega arith) two_requests-spaces
      two_requests-answers

-- A virtual machine that keeps the stack of the call it is in, the top first.
abbrev pub stack_vm : SquirrelVm
stack_vm = record {
  Vm = List ℕ;
  get_top = λ vm. length vm;
  get_integer = λ vm. elim vm [ [] ↦ none | x ∷ rest ↦ some x ];
  push_integer = λ x vm. x ∷ vm;
}

abbrev pub stack_frames : CallFrames stack_vm
stack_frames = record {
  enter = λ args vm. args ++ (0 ∷ []);
  result = λ vm. elim vm [ [] ↦ 0 | x ∷ rest ↦ x ];
  leave = λ vm. [];
  enter_top = λ args vm. omega (arith, length-append args (0 ∷ []));
  enter_integer = λ x vm. refl;
  result_push = λ x vm. refl;
}

abbrev port : SerialPort
port = board_port zero_link stack 64

abbrev bench : Bench stack_vm port zero_link
bench = record {
  frames = stack_frames;
  stack = stack;
  sizes = stack-IsStack;
  fuel = 64;
  wired = wired zero_link stack 64;
  fuel_read = 64;
  c = 7;
  enough = omega arith;
  enough_read = omega arith;
}

abbrev session : Session stack_vm port
session = record {
  vm = [];
  interface = record {
    debug = false;
    timeout = 1000;
    port = record { firmware = idle; waiting = []; is_up = true };
    last_error = LastError.empty;
    printed = [];
  };
  cmd_queue = stream two_requests;
  result_queue = [];
  messages = [];
}

session-IsReady :
    IsReady port zero_link stack 64 (wired zero_link stack 64) session.interface.port quiet
session-IsReady = wired-IsReady zero_link stack 64 session.interface.port refl idle-IsIdle refl

session-IsAtRest : IsAtRest stack_vm port zero_link bench session quiet
unfolding IsAtRest
session-IsAtRest = session-IsReady

two_requests-short : length (stream two_requests) ≤ 63
unfolding stream bytes
two_requests-short = omega arith

execute_cmd_queue-answers_example :
    (s' : Session stack_vm port) × (execute_cmd_queue stack_vm port 64 7 session ≡ some (1, s'))
    × (s'.vm ≡ 0 ∷ [])
    × (s'.result_queue ≡ Status.ok ∷ two_answers)
    × (s'.cmd_queue ≡ stream two_requests)
    × IsReady port zero_link stack 64 (wired zero_link stack 64) s'.interface.port quiet
execute_cmd_queue-answers_example =
    execute_cmd_queue-answers stack_vm port zero_link stack stack-IsStack 64
      (wired zero_link stack 64) 64 7 two_requests session quiet quiet Status.ok two_answers
      session-IsReady refl two_requests-short two_requests-valid two_requests-spaces (omega arith)
      (omega arith) two_requests-answers

scripted : IsScripted (Request.read_word 0x10)
unfolding IsScripted
scripted = tt

queue_request-Queues_example :
    Queues stack_vm stack_frames port session
      (bytes (Request.read_word 0x10))
      (queue_request stack_vm stack_frames port (Request.read_word 0x10) session)
queue_request-Queues_example =
    queue_request-Queues stack_vm stack_frames port (Request.read_word 0x10) session scripted

read_memory-returns_example :
    ReturnsWord stack_vm port zero_link bench
      (Functions.read_stat stack_vm stack_frames port 64 7 session)
      (read_dp zero_link 4 0 quiet)
    × ReturnsWord stack_vm port zero_link bench
        (Functions.read_ap stack_vm stack_frames port 64 7 0x10 session)
        (read_ap zero_link 0x10 0 quiet)
    × ReturnsWord stack_vm port zero_link bench
        (Functions.read_memory stack_vm stack_frames port 64 7 0x10 session)
        (read_memory zero_link 0x10 0 quiet)
    × ReturnsStatus stack_vm port zero_link bench
        (Functions.write_stat stack_vm stack_frames port 64 7 0x50 session)
        (Probe.write_dp zero_link 4 0x50 quiet)
    × ReturnsStatus stack_vm port zero_link bench
        (Functions.write_ap stack_vm stack_frames port 64 7 0x10 0x50 session)
        (write_ap zero_link 0x10 0x50 quiet)
    × ReturnsStatus stack_vm port zero_link bench
        (Functions.write_memory stack_vm stack_frames port 64 7 0x10 0x50 session)
        (Probe.write_memory zero_link 0x10 0x50 quiet)
read_memory-returns_example =
    read_memory-returns stack_vm port zero_link bench session quiet 0x10 0x50 session-IsAtRest
      (omega arith) (omega arith)

connect-tries_example :
    ReturnsAs stack_vm port zero_link bench
      (Functions.connect stack_vm stack_frames port 64 7 session)
      (tries zero_link 10 quiet)
    × ReturnsAs stack_vm port zero_link bench
        (Functions.poll_ap stack_vm stack_frames port 64 7 0x10 1 session)
        (reads_until zero_link (λ v. bit_and v 1 == 1) 100 0x10 quiet)
    × ReturnsAs stack_vm port zero_link bench
        (Functions.poll_ap_not stack_vm stack_frames port 64 7 0x10 1 session)
        (reads_until zero_link (λ v. if bit_and v 1 == 1 then false else true) 100 0x10 quiet)
connect-tries_example =
    connect-tries stack_vm port zero_link bench session quiet 0x10 1 session-IsAtRest (omega arith)

abbrev binary : Option (List ℕ)
binary = some (0 ∷ 0 ∷ 0 ∷ 0 ∷ 1 ∷ 2 ∷ 3 ∷ 4 ∷ 5 ∷ [])

binary_fits : binary_size binary < 2 ^ 32
unfolding binary_size
binary_fits = omega arith

verify_flash-matches_example :
    Judges stack_vm port zero_link bench
      (verify_flash stack_vm stack_frames port 64 7 binary session)
      (binary_matches zero_link binary quiet)
verify_flash-matches_example =
    verify_flash-matches stack_vm port zero_link bench binary session quiet session-IsAtRest
      binary_fits
