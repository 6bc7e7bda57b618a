-- ===== src/Firmware/Loop/Requests.antt =====
-- The commands of `doc/protocol.md` as data, their bytes, and what a list of them is to do.
pub mod Reading
pub mod Performing
pub mod Refine
pub mod Answers
pub mod Advancing
pub mod Answering
pub mod Replies
use swagger.Prelude.{
  ℕ, zero, suc, ◌+◌, ◌/◌, ◌%◌, ◌^◌, ◌<◌, ◌≡◌, refl, sym, ap, ◌∙◌, inl, inr, Bool, true, false,
  Option, none, some, List, [], ◌∷◌, ◌++◌, append_assoc, arith, ltb, ◌==◌, Bool-cases,
  if◌then◌else◌, length, get_elem?, length-append, All,
}
use swagger.Arduino.{set_reset}
use swagger.Word32.{le_bytes, join, join-le_bytes}
use swagger.Protocol.Command
use swagger.Protocol.Status
use swagger.Probe.{
  Link, Driver, try_connect, read_dp, write_dp, read_ap, write_ap, read_memory, write_memory,
}
use swagger.Firmware.Stuff.{◌>>=◌}
use swagger.Firmware.Loop.{
  Stack, Firmware, Next, go_on, returned, Ended, done, fault, out_of_fuel, continue, run_commands,
  get_uint32, reply_with, fail_with, queue8, queue32, finish_read, finish_write, Poll, met, failed,
  exhausted, poll, max_polls, finish_poll, dispatch, command, rx_size,
}
use swagger.Firmware.Loop.Ends.{run_commands_empty, run_commands_step}

-- A command of the protocol.
pub data Request : Type 0 where
  reset : (state : ℕ) → Request
  connect : Request
  read_debug : (address : ℕ) → Request
  write_debug : (address word : ℕ) → Request
  read_access : (address : ℕ) → Request
  write_access : (address word : ℕ) → Request
  read_word : (address : ℕ) → Request
  write_word : (address word : ℕ) → Request
  wait_true : (address mask : ℕ) → Request
  program_id : Request

-- Its bytes.
unfoldable pub bytes : Request → List ℕ
bytes (reset state) = Command.reset ∷ state ∷ []
bytes connect = Command.connect ∷ []
bytes (read_debug address) = Command.read_dp ∷ address ∷ []
bytes (write_debug address word) = Command.write_dp ∷ address ∷ le_bytes word
bytes (read_access address) = Command.read_ap ∷ le_bytes address
bytes (write_access address word) = Command.write_ap ∷ (le_bytes address ++ le_bytes word)
bytes (read_word address) = Command.read_mem ∷ le_bytes address
bytes (write_word address word) = Command.write_mem ∷ (le_bytes address ++ le_bytes word)
bytes (wait_true address mask) = Command.wait_mem_true ∷ (le_bytes address ++ le_bytes mask)
bytes program_id = Command.get_prog_id ∷ []

unfoldable pub stream : List Request → List ℕ
stream [] = []
stream (r ∷ rs) = bytes r ++ stream rs

-- Its words have 32 bits.
unfoldable pub IsRequest : Request → Type 0
IsRequest (write_debug address word) = word < 2 ^ 32
IsRequest (read_access address) = address < 2 ^ 32
IsRequest (write_access address word) = (address < 2 ^ 32) × (word < 2 ^ 32)
IsRequest (read_word address) = address < 2 ^ 32
IsRequest (write_word address word) = (address < 2 ^ 32) × (word < 2 ^ 32)
IsRequest (wait_true address mask) = (address < 2 ^ 32) × (mask < 2 ^ 32)
IsRequest r = Unit

module _ (l : Link) (stack : Stack) where
  -- A command is performed, is to be repeated after a time-out, or is the last.
  pub data Performed : Type 0 where
    performed : Firmware l → Performed
    repeated : Firmware l → Performed
    stopped : Firmware l → Performed

  pub status_of : (status : ℕ) (good bad : Firmware l) → Option Performed
  status_of status good bad =
      if status == Status.ok
      then some (performed good)
      else (do fw ← reply_with l stack status bad; some (stopped fw))

  pub read_of : (ℕ × ℕ) × Driver l → Firmware l → Option Performed
  read_of ((status, word), d) fw =
      let fw' = record fw { interface = d } in status_of status (queue32 l word fw') fw'

  pub write_of : ℕ × Driver l → Firmware l → Option Performed
  write_of (status, d) fw = let fw' = record fw { interface = d } in status_of status fw' fw'

  pub poll_of : Poll l → Firmware l → Option Performed
  poll_of (met d) fw = some (performed (record fw { interface = d }))
  poll_of (failed status d) fw = do
    fw' ← reply_with l stack status (record fw { interface = d })
    some (stopped fw')
  poll_of (exhausted d) fw = do
    fw' ← reply_with l stack Status.timeout (record fw { interface = d })
    some (repeated fw')

  pub perform : Request → Firmware l → Option Performed
  perform (reset state) fw =
      some (performed (record fw { calls = set_reset (ltb 0 state) ∷ fw.calls }))
  perform connect fw = read_of (try_connect l fw.interface) fw
  perform (read_debug address) fw = read_of (read_dp l address 0 fw.interface) fw
  perform (write_debug address word) fw = write_of (write_dp l address word fw.interface) fw
  perform (read_access address) fw = read_of (read_ap l address 0 fw.interface) fw
  perform (write_access address word) fw = write_of (write_ap l address word fw.interface) fw
  perform (read_word address) fw = read_of (read_memory l address 0 fw.interface) fw
  perform (write_word address word) fw = write_of (write_memory l address word fw.interface) fw
  perform (wait_true address mask) fw = poll_of (poll l max_polls address mask fw.interface) fw
  perform program_id fw = some (performed (queue8 l 0 (queue8 l rx_size (queue8 l 0x01 fw))))

  pub after : (again next : Firmware l → Ended l) → Option Performed → Ended l
  after again next none = fault
  after again next (some (performed fw)) = next fw
  after again next (some (repeated fw)) = again fw
  after again next (some (stopped fw)) = done fw

  -- The commands one after the other, and a reply.
  pub run_requests : (fuel : ℕ) → List Request → Firmware l → Ended l
  run_requests zero rs fw = out_of_fuel
  run_requests (suc fuel) [] fw = elim (reply_with l stack Status.ok fw) [
    | none ↦ fault
    | some fw' ↦ done fw'
  ]
  run_requests (suc fuel) (r ∷ rs) fw =
      after (run_requests fuel (r ∷ rs)) (run_requests fuel rs) (perform r fw)
