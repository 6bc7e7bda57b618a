-- ===== src/Examples/HostRuns.antt =====
-- The properties of the host at concrete inputs, and a run of `COBS::test`.
use swagger.Prelude.{
  ℕ, ◌≤◌, ◌≡◌, refl, ap, Bool, true, false, Option, none, some, List, [], ◌∷◌, ◌++◌, arith, length,
}
use swagger.Cobs.{encode, decode}
use swagger.Cobs.SelfTest.{test}
use swagger.Host.Packet.{
  SerialPort, HardwareInterface, Printed, empty, port_not_open, print_packet, is_whole,
  write_encoded, write_packet, read_packet,
}
use swagger.Host.Packet.RoundTrip.{Delivers, read_packet-encode}
use swagger.Host.Packet.Write.{Sends, IsHonest, write_packet-IsHonest}
use swagger.Host.Start.{Options, Engine, main_program}
use swagger.Host.Start.Exit.{IsComplete, main_program-IsComplete}
use swagger.Host.Script.{SquirrelVm, Session, push, queue_u_int32, pop_u_int32, execute_cmd_queue}
use swagger.Host.Script.Words.{pop_u_int32-queue_u_int32}
use swagger.Host.Script.Exchange.{execute_cmd_queue_closed, execute_cmd_queue_reply}

test_succeeds : test ≡ true
unfolding test encode decode
test_succeeds = refl

-- A line that echoes.
abbrev head_byte : List ℕ → Option ℕ × List ℕ
head_byte [] = (none, [])
head_byte (b ∷ rest) = (some b, rest)

abbrev echo_line : Bool → SerialPort
echo_line up = record {
  Port = List ℕ;
  set_up = λ s p. p;
  open_port = λ p. (up, p);
  close_port = λ p. p;
  is_open = λ p. up;
  write = λ bytes p. (some (length bytes), p ++ bytes);
  wait_for_bytes_written = λ t p. (true, p);
  bytes_available = λ p. length p;
  wait_for_ready_read = λ t p. (false, p);
  read = head_byte;
}

echo_line-Delivers : Delivers (echo_line true) (λ p. p)
echo_line-Delivers = record {
  available = λ p. refl;
  takes_first = λ p b rest e. (rest, ap head_byte e, refl);
}

echo_line-Sends : Sends (echo_line true) (λ p. p)
echo_line-Sends = record { takes_all = λ bytes p e. refl; waits = λ t p. refl }

abbrev host : (up : Bool) → List ℕ → HardwareInterface (echo_line up)
host up bytes = record {
  debug = true;
  timeout = 1000;
  port = bytes;
  last_error = empty;
  printed = [];
}

abbrev ping : List ℕ
ping = 0x00 ∷ 0x01 ∷ 0x40 ∷ 0x00 ∷ []

ping_fits : length (encode ping).1 ≤ 9
unfolding encode
ping_fits = omega arith

read_packet-encode_example :
    (h' : HardwareInterface (echo_line true)) × (read_packet
        (echo_line true)
        9
        7
        []
        (host true ((encode ping).1 ++ (5 ∷ [])))
      ≡ some (true, (ping, h')))
    × (h'.port ≡ 5 ∷ [])
    × (h'.last_error ≡ empty)
read_packet-encode_example =
    read_packet-encode (echo_line true) (λ p. p) echo_line-Delivers
      (host true ((encode ping).1 ++ (5 ∷ []))) ping (5 ∷ []) [] 9 7 refl refl ping_fits

write_packet-IsHonest_example :
    IsHonest
      (echo_line true)
      (λ p. p)
      echo_line-Sends
      (encode ping).1
      []
      (write_packet (echo_line true) ping (host true []))
write_packet-IsHonest_example =
    write_packet-IsHonest (echo_line true) (λ p. p) echo_line-Sends ping (host true [])

-- A virtual machine that is its stack.
abbrev top_integer : List ℕ → Option ℕ
top_integer [] = none
top_integer (x ∷ stack) = some x

abbrev stack_vm : SquirrelVm
stack_vm = record {
  Vm = List ℕ;
  get_top = λ stack. length stack;
  get_integer = top_integer;
  push_integer = λ x stack. x ∷ stack;
}

abbrev session : (up : Bool) → Session stack_vm (echo_line up)
session up = record {
  vm = 0xFFFF_FFFF_1234_5678 ∷ 0 ∷ [];
  interface = host up [];
  cmd_queue = 0x03 ∷ [];
  result_queue = [];
  messages = [];
}

pop_u_int32-queue_u_int32_example :
    (bytes : List ℕ) × (length bytes ≡ 4)
    × (queue_u_int32 stack_vm (echo_line true) (session true)
        ≡ (0, record (session true) { cmd_queue = 0x03 ∷ bytes }))
    × (pop_u_int32 stack_vm
          (echo_line true)
          (record (session true) { result_queue = bytes ++ (1 ∷ []) })
        ≡ (
          1,
          push stack_vm
              (echo_line true)
              0x1234_5678
              (record (session true) { result_queue = 1 ∷ [] }),
        ))
pop_u_int32-queue_u_int32_example =
    pop_u_int32-queue_u_int32 stack_vm (echo_line true) (session true) (session true)
      0xFFFF_FFFF_1234_5678 (1 ∷ []) refl refl

execute_cmd_queue_closed_example :
    (s' : Session stack_vm (echo_line false)) × (execute_cmd_queue stack_vm
        (echo_line false)
        5
        0
        (session false)
      ≡ some (1, s'))
    × (s'.vm ≡ 0 ∷ 2 ∷ 1 ∷ (session false).vm)
    × (s'.interface ≡ record (host false []) { last_error = port_not_open })
    × (s'.cmd_queue ≡ 0x03 ∷ [])
    × (s'.result_queue ≡ [])
execute_cmd_queue_closed_example =
    execute_cmd_queue_closed stack_vm (echo_line false) 5 0 (session false) refl

abbrev after_write : HardwareInterface (echo_line true)
after_write = record (host true (0x02 ∷ 0x03 ∷ 0x00 ∷ [])) {
  printed = Printed.tx_cobs (0x02 ∷ 0x03 ∷ 0x00 ∷ []) ∷ Printed.tx (0x03 ∷ []) ∷ [];
}

host-writes : write_packet (echo_line true) (0x03 ∷ []) (host true []) ≡ (true, after_write)
unfolding write_packet write_encoded is_whole print_packet encode
host-writes = refl

encode-three : (encode (0x03 ∷ [])).1 ≡ 0x02 ∷ 0x03 ∷ 0x00 ∷ []
unfolding encode
encode-three = refl

three_arrives : after_write.port ≡ (encode (0x03 ∷ [])).1 ++ []
three_arrives = rw encode-three refl

three_fits : length (encode (0x03 ∷ [])).1 ≤ 3
three_fits = rw encode-three (omega arith)

execute_cmd_queue_reply_example :
    (s' : Session stack_vm (echo_line true)) × (execute_cmd_queue stack_vm
        (echo_line true)
        3
        0
        (session true)
      ≡ some (1, s'))
    × (s'.vm ≡ 0 ∷ (session true).vm)
    × (s'.result_queue ≡ 0x03 ∷ [])
    × (s'.cmd_queue ≡ 0x03 ∷ [])
    × (s'.interface.port ≡ [])
execute_cmd_queue_reply_example =
    execute_cmd_queue_reply stack_vm (echo_line true) (λ p. p) echo_line-Delivers 3 0 (session true)
      after_write (0x03 ∷ []) [] host-writes refl three_arrives three_fits

-- A line that is open until it is closed.
abbrev switch_line : SerialPort
switch_line = record {
  Port = Bool;
  set_up = λ s p. p;
  open_port = λ p. (true, true);
  close_port = λ p. false;
  is_open = λ p. p;
  write = λ bytes p. (none, p);
  wait_for_bytes_written = λ t p. (false, p);
  bytes_available = λ p. 0;
  wait_for_ready_read = λ t p. (false, p);
  read = λ p. (none, p);
}

abbrev engine : Engine stack_vm switch_line
engine = record { new_vm = λ o. []; do_script = λ s. (true, s); interactive = λ s. s }

abbrev options : Options
options = record {
  has_file = true;
  com_port = some (49 ∷ []);
  baudrate = some 57600;
  is_interactive = true;
}

main_program-IsComplete_example :
    IsComplete stack_vm switch_line options (main_program stack_vm switch_line engine options false)
main_program-IsComplete_example =
    main_program-IsComplete stack_vm switch_line engine options (λ p. refl) false
