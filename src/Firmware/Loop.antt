-- ===== src/Firmware/Loop.antt =====
-- `setup` and `loop` of `swdinterface.ino`: the receive buffer and the command interpreter.
pub mod Sound
pub mod TimeOut
pub mod Progress
pub mod Ends
pub mod Spin
pub mod Requests
pub mod Packets
pub mod Replying
use Prim.Native.Nat.{bit_and}
use swagger.Prelude.{
  ℕ, zero, suc, ◌+◌, ◌-◌, ◌%◌, true, false, Option, none, some, List, [], ◌∷◌, ltb, leb, ◌==◌,
  if◌then◌else◌, set, take, get_elem?,
}
use swagger.Arduino.{
  ArduinoCall, pin_mode, digital_write, serial_begin, serial_write, serial_flush, set_reset, high,
  low, output, led_pin, swddat_pin, swdclk_pin, reset_pin, gnd_pin,
}
use swagger.Protocol.Command
use swagger.Protocol.Status
use swagger.Word32.{join}
use swagger.Probe.{
  Link, Driver, try_connect, read_dp, write_dp, read_ap, write_ap, read_memory, write_memory,
}
use swagger.Firmware.Stuff.{unstuff_data, ◌>>=◌}
use swagger.Firmware.Reply.{Reply, queue_uint8, queue_uint32, send_reply}

-- `MAX_RETRIES` of the command loop.
abbrev pub max_polls : ℕ
max_polls = 100

-- `sizeof(g_rxbuffer)`
abbrev pub rx_size : ℕ
rx_size = 64

-- What the arrays on the stack hold before they are written: `decodebuffer` and `encodebuffer`.
pub record Stack : Type 0 where
  pub decodebuffer : List ℕ
  pub encodebuffer : List ℕ

-- `getUInt32(ptr + i)` of an array; `none` past its end.
unfoldable pub get_uint32 : List ℕ → ℕ → Option ℕ
get_uint32 array i = do
  b0 ← get_elem? array i
  b1 ← get_elem? array (i + 1)
  b2 ← get_elem? array (i + 2)
  b3 ← get_elem? array (i + 3)
  some (join b0 b1 b2 b3)

module _ (l : Link) where
  -- The globals; `calls` are the calls of the Arduino library, newest first, but for those that the
  -- driver of the wires makes.
  pub record Firmware : Type 0 where
    pub rxbuffer : List ℕ
    pub rxidx : ℕ
    pub reply : Reply
    pub interface : Driver l
    pub calls : List ArduinoCall

  -- How a command ends: with a `break` out of the switch, or with a `return` from `loop`.
  pub data Next : Type 0 where
    go_on : (ptr : ℕ) → Firmware → Next
    returned : Firmware → Next

  -- `sendReply`; `none` is a write or read past the end of `encodebuffer`.
  pub reply_with : Stack → ℕ → Firmware → Option Firmware
  reply_with stack status fw = do
    (written, reply) ← send_reply stack.encodebuffer status fw.reply
    some (record fw { reply = reply; calls = serial_flush ∷ serial_write written ∷ fw.calls })

  -- `sendReply(stat); return;`
  pub fail_with : Stack → ℕ → Firmware → Option Next
  fail_with stack status fw = do fw' ← reply_with stack status fw; some (returned fw')

  -- The result of `queueReply…` is not used.
  pub queue8 : ℕ → Firmware → Firmware
  queue8 b fw = record fw { reply = (queue_uint8 b fw.reply).1 }

  pub queue32 : ℕ → Firmware → Firmware
  queue32 w fw = record fw { reply = (queue_uint32 w fw.reply).1 }

  -- After a method of `g_interface`: on success the word is queued and `ptr` moves to `next`.
  pub finish_read : Stack → (next : ℕ) → (ℕ × ℕ) × Driver l → Firmware → Option Next
  finish_read stack next ((stat, word), d) fw =
      let fw' = record fw { interface = d } in
      if stat == Status.ok then some (go_on next (queue32 word fw')) else fail_with stack stat fw'

  pub finish_write : Stack → (next : ℕ) → ℕ × Driver l → Firmware → Option Next
  finish_write stack next (stat, d) fw =
      let fw' = record fw { interface = d } in
      if stat == Status.ok then some (go_on next fw') else fail_with stack stat fw'

  -- The end of the polling loop: the mask was met, a read failed, or `retries` ran out.
  pub data Poll : Type 0 where
    met : Driver l → Poll
    failed : ℕ → Driver l → Poll
    exhausted : Driver l → Poll

  -- `while (retries < MAX_RETRIES)`, with the rounds that are left.
  unfoldable pub poll : ℕ → (address mask : ℕ) → Driver l → Poll
  poll zero address mask d = exhausted d
  poll (suc left) address mask d =
      let ((stat, word), d') = read_memory l address 0 d in
      let again = poll left address mask d' in
      if stat == Status.ok
      then (if bit_and word mask == mask then met d' else again)
      else failed stat d'

  -- A time-out sends a reply, and then goes on at the same `ptr`.
  pub finish_poll : Stack → (ptr : ℕ) → Poll → Firmware → Option Next
  finish_poll stack ptr (met d) fw = some (go_on (ptr + 9) (record fw { interface = d }))
  finish_poll stack ptr (failed stat d) fw = fail_with stack stat (record fw { interface = d })
  finish_poll stack ptr (exhausted d) fw = do
    fw' ← reply_with stack Status.timeout (record fw { interface = d })
    some (go_on ptr fw')

  -- The switch, on the command at `ptr` in `decodebuffer`.
  pub dispatch : Stack → (decoded : List ℕ) (ptr cmd : ℕ) → Firmware → Option Next
  dispatch stack decoded ptr cmd fw =
      if cmd == Command.reset
      then (do
        state ← get_elem? decoded (ptr + 1)
        some (go_on (ptr + 2) (record fw { calls = set_reset (ltb 0 state) ∷ fw.calls })))
      else if cmd == Command.connect
      then finish_read stack (ptr + 1) (try_connect l fw.interface) fw
      else if cmd == Command.read_dp
      then (do
        address ← get_elem? decoded (ptr + 1)
        finish_read stack (ptr + 2) (read_dp l address 0 fw.interface) fw)
      else if cmd == Command.write_dp
      then (do
        address ← get_elem? decoded (ptr + 1)
        word ← get_uint32 decoded (ptr + 2)
        finish_write stack (ptr + 6) (write_dp l address word fw.interface) fw)
      else if cmd == Command.read_ap
      then (do
        address ← get_uint32 decoded (ptr + 1)
        finish_read stack (ptr + 5) (read_ap l address 0 fw.interface) fw)
      else if cmd == Command.write_ap
      then (do
        address ← get_uint32 decoded (ptr + 1)
        word ← get_uint32 decoded (ptr + 5)
        finish_write stack (ptr + 9) (write_ap l address word fw.interface) fw)
      else if cmd == Command.read_mem
      then (do
        address ← get_uint32 decoded (ptr + 1)
        finish_read stack (ptr + 5) (read_memory l address 0 fw.interface) fw)
      else if cmd == Command.wait_mem_true
      then (do
        address ← get_uint32 decoded (ptr + 1)
        mask ← get_uint32 decoded (ptr + 5)
        finish_poll stack ptr (poll max_polls address mask fw.interface) fw)
      else if cmd == Command.write_mem
      then (do
        address ← get_uint32 decoded (ptr + 1)
        word ← get_uint32 decoded (ptr + 5)
        finish_write stack (ptr + 9) (write_memory l address word fw.interface) fw)
      else if cmd == Command.get_prog_id
      then some (go_on (ptr + 1) (queue8 0 (queue8 rx_size (queue8 0x01 fw))))
      else fail_with stack Status.unknown_cmd (queue32 0xDEAD_BEEF fw)

  -- A round of `while (ptr < endptr)`.
  pub command : Stack → (decoded : List ℕ) (ptr : ℕ) → Firmware → Option Next
  command stack decoded ptr fw = do cmd ← get_elem? decoded ptr; dispatch stack decoded ptr cmd fw

  -- How `loop` ends: it returns or runs on to the next byte, an access past the end of an array is
  -- made, or the fuel runs out.
  pub data Ended : Type 0 where
    done : Firmware → Ended
    fault : Ended
    out_of_fuel : Ended

  pub continue : (ℕ → Firmware → Ended) → Option Next → Ended
  continue next none = fault
  continue next (some (returned fw)) = done fw
  continue next (some (go_on ptr fw)) = next ptr fw

  -- `while (ptr < endptr)`, and the reply at the end of it.
  pub run_commands : (fuel : ℕ) → Stack → (decoded : List ℕ) (end_ptr ptr : ℕ) → Firmware → Ended
  run_commands zero stack decoded end_ptr ptr fw = out_of_fuel
  run_commands (suc fuel) stack decoded end_ptr ptr fw =
      if ltb ptr end_ptr
      then continue (run_commands fuel stack decoded end_ptr) (command stack decoded ptr fw)
      else (elim (reply_with stack Status.ok fw) [ none ↦ fault | some fw' ↦ done fw' ])

  -- A packet is complete. The array of 64 bytes is decoded into; `bytes--` drops the zero that the
  -- decoder adds. (For an empty packet the source's `bytes` wraps to 0xFFFFFFFF, and a 16-bit
  -- pointer ends before `decodebuffer`: no command is read, as here.)
  unfoldable pub packet : (fuel : ℕ) → Stack → Firmware → Ended
  packet fuel stack fw =
      let lit = record fw { calls = digital_write led_pin high ∷ fw.calls } in
      elim (unstuff_data (take fw.rxidx fw.rxbuffer) stack.decodebuffer) [
        | none ↦ fault
        | some (decoded, bytes) ↦
            run_commands fuel stack decoded (bytes - 1) 0 (record lit { rxidx = 0 })
      ]

  -- A round of `while (Serial.available())`: a byte is stored, or is refused with a reply, or ends
  -- a packet.
  unfoldable pub receive : (fuel : ℕ) → Stack → (byte_read : ℕ) → Firmware → Ended
  receive fuel stack byte_read fw =
      if byte_read == 0
      then packet fuel stack fw
      else if leb rx_size fw.rxidx
      then (elim (reply_with stack Status.rx_overflow
          (record fw { reply = record { txbuffer = fw.reply.txbuffer; txidx = 1 }; rxidx = 0 })) [
            | none ↦ fault
            | some fw' ↦ done fw'
          ])
      else done (record fw {
        rxbuffer = set fw.rxbuffer fw.rxidx byte_read;
        rxidx = (fw.rxidx + 1) % 256;
      })

  -- The bytes that arrive one after the other; a `return` from `loop`, which is called again, keeps
  -- the globals.
  pub after_byte : (Firmware → Ended) → Ended → Ended
  after_byte next (done fw) = next fw
  after_byte next e = e

  pub receive_all : (fuel : ℕ) → Stack → List ℕ → Firmware → Ended
  receive_all fuel stack [] fw = done fw
  receive_all fuel stack (byte_read ∷ rest) fw =
      after_byte (receive_all fuel stack rest) (receive fuel stack byte_read fw)

  -- `setup`, newest call first; the object `g_interface` is made between the calls.
  pub setup : List ArduinoCall → List ArduinoCall
  setup calls =
      digital_write gnd_pin low
      ∷ pin_mode gnd_pin output
      ∷ pin_mode reset_pin output
      ∷ pin_mode swddat_pin output
      ∷ pin_mode swdclk_pin output
      ∷ digital_write gnd_pin low
      ∷ digital_write reset_pin high
      ∷ digital_write swddat_pin high
      ∷ digital_write led_pin low
      ∷ pin_mode led_pin output
      ∷ serial_begin 57600
      ∷ calls
