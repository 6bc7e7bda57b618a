-- ===== src/Targets/Queueing.antt =====
-- What the scripts queue, and the queues around a call.
use swagger.Prelude.{ℕ, ◌%◌, ◌<◌, ◌≡◌, refl, ap, ◌∙◌, List, [], ◌∷◌, ◌++◌, append_assoc, arith}
use swagger.Word32.{le_bytes}
use swagger.Firmware.Loop.Requests.{
  Request, reset, connect, read_debug, write_debug, read_access, write_access, read_word,
  write_word, wait_true, program_id, bytes,
}
use swagger.Host.Packet.{SerialPort}
use swagger.Host.Script.{SquirrelVm, Session}
use swagger.Host.Script.Words.{queue_u_int8-byte, queue_u_int32-bytes}
use swagger.Targets.{CallFrames, call_native, call_queue8, call_queue32}
use swagger.Targets.Functions.{
  queue_read_dp, queue_write_dp, queue_read_ap, queue_write_ap, queue_write_memory,
  queue_read_memory, queue_poll_memory,
}
use swagger.Targets.Functions.CmdType

-- The arguments that a script can queue for a command: an address of a debug register, and the state
-- of the reset, are bytes. No script asks for the identification of the programmer.
unfoldable pub IsScripted : Request → Type 0
IsScripted (reset state) = state < 256
IsScripted (read_debug address) = address < 256
IsScripted (write_debug address word) = address < 256
IsScripted program_id = ⊥
IsScripted r = Unit {0}

module _ (m : SquirrelVm) (f : CallFrames m) (q : SerialPort) where
  -- `s'` is `s` with more in the command queue, and nothing else of the host has changed.
  pub record Queues (s : Session m q) (added : List ℕ) (s' : Session m q) : Type 0 where
    pub queue : s'.cmd_queue ≡ s.cmd_queue ++ added
    pub results : s'.result_queue ≡ s.result_queue
    pub interface : s'.interface ≡ s.interface
    pub messages : s'.messages ≡ s.messages

  call_queue8-Queues : (x : ℕ) (s : Session m q) → Queues s (x % 256 ∷ []) (call_queue8 m f q x s)
  unfolding call_queue8 call_native
  call_queue8-Queues x s =
      rw
        (queue_u_int8-byte m q (record s { vm = f.enter (x ∷ []) s.vm }) x
          (f.enter_top (x ∷ []) s.vm) (f.enter_integer x s.vm))
        (record { queue = refl; results = refl; interface = refl; messages = refl })

  call_queue32-Queues : (x : ℕ) (s : Session m q) → Queues s (le_bytes x) (call_queue32 m f q x s)
  unfolding call_queue32 call_native
  call_queue32-Queues x s =
      rw
        (queue_u_int32-bytes m q (record s { vm = f.enter (x ∷ []) s.vm }) x
          (f.enter_top (x ∷ []) s.vm) (f.enter_integer x s.vm))
        (record { queue = refl; results = refl; interface = refl; messages = refl })

  pub Queues-trans :
      (xs ys : List ℕ) (s s1 s2 : Session m q)
      → Queues s xs s1
      → Queues s1 ys s2
      → Queues s (xs ++ ys) s2
  Queues-trans xs ys s s1 s2 h k = record {
    queue = k.queue ∙ (ap (λ t. t ++ ys) h.queue ∙ append_assoc s.cmd_queue xs ys);
    results = k.results ∙ h.results;
    interface = k.interface ∙ h.interface;
    messages = k.messages ∙ h.messages;
  }

  -- The calls of a script that queue a command: those of its functions, or of `setReset` or `connect`.
  unfoldable pub queue_request : Request → Session m q → Session m q
  queue_request (reset state) s = call_queue8 m f q state (call_queue8 m f q CmdType.reset s)
  queue_request connect s = call_queue8 m f q CmdType.connect s
  queue_request (read_debug address) s = queue_read_dp m f q address s
  queue_request (write_debug address word) s = queue_write_dp m f q address word s
  queue_request (read_access address) s = queue_read_ap m f q address s
  queue_request (write_access address word) s = queue_write_ap m f q address word s
  queue_request (read_word address) s = queue_read_memory m f q address s
  queue_request (write_word address word) s = queue_write_memory m f q address word s
  queue_request (wait_true address mask) s = queue_poll_memory m f q address mask s
  queue_request program_id s = s

  byte-Queues : (x : ℕ) (s : Session m q) → x < 256 → Queues s (x ∷ []) (call_queue8 m f q x s)
  byte-Queues x s small =
      let same : x % 256 ≡ x = omega arith in rw same at (call_queue8-Queues x s)

  word-Queues :
      (code x : ℕ) (s : Session m q)
      → code < 256
      → Queues s (code ∷ le_bytes x) (call_queue32 m f q x (call_queue8 m f q code s))
  word-Queues code x s small =
      let s1 = call_queue8 m f q code s in
      Queues-trans (code ∷ []) (le_bytes x) s s1 _ (byte-Queues code s small)
        (call_queue32-Queues x s1)

  words-Queues :
      (code x y : ℕ) (s : Session m q)
      → code < 256
      → Queues s
          (code ∷ (le_bytes x ++ le_bytes y))
          (call_queue32 m f q y (call_queue32 m f q x (call_queue8 m f q code s)))
  words-Queues code x y s small =
      let s1 = call_queue32 m f q x (call_queue8 m f q code s) in
      Queues-trans (code ∷ le_bytes x) (le_bytes y) s s1 _ (word-Queues code x s small)
        (call_queue32-Queues y s1)

  -- The calls by which the scripts queue a command add to the command queue just the bytes of this
  -- command in the layout of doc/protocol.md, and change no other queue and no state of the interface,
  -- and print nothing. (For the addresses of debug registers and the states of the reset that are
  -- bytes.)
  pub queue_request-Queues :
      (r : Request) (s : Session m q) → IsScripted r → Queues s (bytes r) (queue_request r s)
  unfolding queue_request bytes IsScripted queue_read_dp queue_write_dp queue_read_ap queue_write_ap
      queue_write_memory queue_read_memory queue_poll_memory
  queue_request-Queues (reset state) s small =
      let s1 = call_queue8 m f q CmdType.reset s in
      Queues-trans (1 ∷ []) (state ∷ []) s s1 _ (byte-Queues 1 s (omega arith))
        (byte-Queues state s1 small)
  queue_request-Queues connect s h = byte-Queues 0 s (omega arith)
  queue_request-Queues (read_debug address) s small =
      let s1 = call_queue8 m f q CmdType.read_dp s in
      Queues-trans (4 ∷ []) (address ∷ []) s s1 _ (byte-Queues 4 s (omega arith))
        (byte-Queues address s1 small)
  queue_request-Queues (write_debug address word) s small =
      let s1 = call_queue8 m f q CmdType.write_dp s in
      let s2 = call_queue8 m f q address s1 in
      Queues-trans (5 ∷ address ∷ []) (le_bytes word) s s2 _
        (Queues-trans (5 ∷ []) (address ∷ []) s s1 s2 (byte-Queues 5 s (omega arith))
          (byte-Queues address s1 small))
        (call_queue32-Queues word s2)
  queue_request-Queues (read_access address) s h = word-Queues 2 address s (omega arith)
  queue_request-Queues (write_access address word) s h = words-Queues 3 address word s (omega arith)
  queue_request-Queues (read_word address) s h = word-Queues 6 address s (omega arith)
  queue_request-Queues (write_word address word) s h = words-Queues 7 address word s (omega arith)
  queue_request-Queues (wait_true address mask) s h = words-Queues 8 address mask s (omega arith)
  queue_request-Queues program_id s small = elim small [ ]
