-- ===== src/Examples/LoopRuns.antt =====
-- The properties of the command loop and of `waitMemoryTrue` at concrete inputs.
use swagger.Prelude.{
  inr, inl, if◌then◌else◌, ◌==◌, ℕ, zero, suc, ◌+◌, ◌-◌, ◌∙◌, ◌≤◌, ◌≡◌, refl, some, List, [], ◌∷◌,
  ◌++◌, arith, length, replicate, take, All,
}
use swagger.Protocol.Status
use swagger.Word32.{join}
use swagger.Arduino.{digital_write, high, led_pin}
use swagger.Cobs.{encode}
use swagger.Firmware.Loop.Packets.{receive_all-encode}
use swagger.Probe.Waiting.{Misses, wait_memory_true_lem}
use swagger.Swd.{swd_ok}
use swagger.Probe.{
  wait_memory_true, Link, Driver, status, retry, retry_write, retry_read, read_dp, select_ap,
  write_ap, read_ap, wait_round, wait_loop, wait_for_memory, aim, read_memory, register, bank,
}
use swagger.Firmware.Loop.{
  receive_all, Stack, Firmware, get_uint32, poll, exhausted, max_polls, run_commands, out_of_fuel,
  receive, packet,
}
use swagger.Firmware.Loop.Sound.{IsStack, IsSound}
use swagger.Firmware.Stuff.{unstuff_data, unstuff_loop, close_block, copy_bytes}
use swagger.Firmware.Loop.TimeOut.{Hangs}
use swagger.Firmware.Loop.Ends.{Ends, receive-Ends}
use swagger.Firmware.Loop.Spin.{Polls, run_commands_spin}
use swagger.Firmware.Loop.Requests.{Request, bytes, stream, IsRequest, run_requests}
use swagger.Firmware.Loop.Requests.Refine.{run_commands-requests}

-- A target whose registers and memory are all zero.
abbrev pub zero_link : Link
zero_link = record {
  State = Unit;
  write_transaction = λ p a w s. (swd_ok, s);
  read_transaction = λ p a old s. ((swd_ok, 0), s);
  connect = λ s. ((swd_ok, 0x0BC1_1477), s);
}

abbrev pub quiet : Driver zero_link
quiet = record { line = tt; ap_cache = 0 }

abbrev pub stack : Stack
stack = record { decodebuffer = replicate 64 7; encodebuffer = replicate 66 9 }

pub stack-IsStack : IsStack stack
stack-IsStack = record { decode_size = refl; encode_size = refl }

abbrev pub idle : Firmware zero_link
idle = record {
  rxbuffer = replicate 64 0;
  rxidx = 0;
  reply = record { txbuffer = replicate 64 0; txidx = 1 };
  interface = quiet;
  calls = [];
}

pub idle-IsSound : IsSound zero_link idle
idle-IsSound = record {
  rx_size = refl;
  rx_fits = omega arith;
  reply = record { size = refl; status = omega arith; fits = omega arith };
}

-- A packet is complete but for its zero: the encoding of WAITMEMTRUE at 0x10 with the mask 1, which
-- no word of this target meets.
abbrev holding : Firmware zero_link
holding = record idle {
  rxbuffer = 3 ∷ 8 ∷ 0x10 ∷ 1 ∷ 1 ∷ 2 ∷ 1 ∷ 1 ∷ 1 ∷ 1 ∷ replicate 54 0;
  rxidx = 10;
}

holding-IsSound : IsSound zero_link holding
holding-IsSound = record {
  rx_size = refl;
  rx_fits = omega arith;
  reply = record { size = refl; status = omega arith; fits = omega arith };
}

receive-Ends_example :
    Ends zero_link stack stack-IsStack 57 10
      (Hangs zero_link stack 0 holding)
      (receive zero_link 64 stack 0 holding)
receive-Ends_example =
    receive-Ends zero_link stack stack-IsStack 64 0 holding holding-IsSound (omega arith)

abbrev requests : List Request
requests =
    Request.connect
    ∷ Request.write_debug 4 0x5000_0000
    ∷ Request.wait_true 0x4000_0000 1
    ∷ Request.read_word 0x1000_0000
    ∷ []

requests-valid : All IsRequest requests
unfolding IsRequest
requests-valid = (tt, (omega arith, ((omega arith, omega arith), (omega arith, tt))))

run_commands-requests_example :
    run_commands zero_link 9 stack
      ((7 ∷ 7 ∷ []) ++ (stream requests ++ (7 ∷ [])))
      (2 + length (stream requests))
      2
      idle
    ≡ run_requests zero_link stack 9 requests idle
run_commands-requests_example =
    run_commands-requests zero_link stack 9 requests (7 ∷ 7 ∷ []) (7 ∷ []) idle requests-valid

pub read_memory-zero : read_memory zero_link 0x10 0 quiet ≡ ((Status.ok, 0), quiet)
unfolding read_memory aim wait_for_memory wait_loop wait_round read_ap write_ap retry_read
    retry_write retry status read_dp select_ap register bank
read_memory-zero = refl

poll-zero : (left : ℕ) → poll zero_link left 0x10 1 quiet ≡ exhausted quiet
unfolding poll
poll-zero zero = refl
poll-zero (suc left) = rw (read_memory-zero, poll-zero left) refl

abbrev waiting : List ℕ
waiting = 0x08 ∷ 0x10 ∷ 0 ∷ 0 ∷ 0 ∷ 1 ∷ 0 ∷ 0 ∷ 0 ∷ 0 ∷ replicate 54 7

reads_address : get_uint32 waiting 1 ≡ some 0x10
unfolding get_uint32 join
reads_address = refl

reads_mask : get_uint32 waiting 5 ≡ some 1
unfolding get_uint32 join
reads_mask = refl

waiting-Polls : Polls zero_link stack stack-IsStack waiting 9 0 0x10 1 (λ d. d ≡ quiet)
waiting-Polls = record {
  inside = omega arith;
  cmd = refl;
  address_read = reads_address;
  mask_read = reads_mask;
  polling = λ d e. (quiet, rw e (poll-zero max_polls), refl);
}

run_commands_spin_example : run_commands zero_link 1000 stack waiting 9 0 idle ≡ out_of_fuel
run_commands_spin_example =
    run_commands_spin zero_link stack stack-IsStack waiting 9 0 0x10 1 (λ d. d ≡ quiet)
      waiting-Polls 1000 idle idle-IsSound refl

holding-decoded : unstuff_data (take 10 holding.rxbuffer) stack.decodebuffer ≡ some (waiting, 10)
unfolding unstuff_data unstuff_loop close_block copy_bytes
holding-decoded = refl

receive_packet :
    (fw : Firmware zero_link) (decoded : List ℕ) (count : ℕ)
    → unstuff_data (take fw.rxidx fw.rxbuffer) stack.decodebuffer ≡ some (decoded, count)
    → receive zero_link 64 stack 0 fw
      ≡ run_commands zero_link 64 stack decoded
          (count - 1)
          0
          (record fw { rxidx = 0; calls = digital_write led_pin high ∷ fw.calls })
unfolding receive packet
receive_packet fw decoded count e = rw (receive, packet, e) refl

-- The zero is received, and the command loop does not come to an end.
holding_hangs : receive zero_link 64 stack 0 holding ≡ out_of_fuel
holding_hangs =
    receive_packet holding waiting 10 holding-decoded
    ∙ run_commands_spin zero_link stack stack-IsStack waiting 9 0 0x10 1 (λ d. d ≡ quiet)
        waiting-Polls 64 _
        (record { rx_size = refl; rx_fits = omega arith; reply = holding-IsSound.reply }) refl

packet_fits : length (encode (stream requests)).1 ≤ 65
unfolding encode stream bytes
packet_fits = omega arith

receive_all-encode_example :
    (rxbuffer : List ℕ) × (receive_all zero_link 9 stack (encode (stream requests)).1 idle
      ≡ run_requests zero_link stack 9 requests
          (record idle { rxbuffer = rxbuffer; calls = digital_write led_pin high ∷ [] }))
receive_all-encode_example =
    receive_all-encode zero_link 9 stack requests idle refl refl packet_fits requests-valid

quiet-Misses : (n : ℕ) → Misses zero_link 0x10 1 1 n 0 quiet (0, quiet)
unfolding Misses
quiet-Misses zero = refl
quiet-Misses (suc n) = rw read_memory-zero (refl, refl, quiet-Misses n)

wait_memory_true_example : wait_memory_true zero_link 0x10 1 1 quiet ≡ (
    let ((stat, memory), d') = read_memory zero_link 0x10 0 quiet in
    (if stat == Status.ok then (if 9 == 9 then Status.timeout else Status.ok) else stat, d'))
wait_memory_true_example =
    wait_memory_true_lem zero_link 0x10 1 1 9 quiet (0, quiet) (omega arith) (quiet-Misses 9)
      (inr (inl refl))
