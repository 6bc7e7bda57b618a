-- ===== src/Firmware/Loop/Requests/Performing.antt =====
-- The command loop on the bytes of one command.
use swagger.Prelude.{
  ℕ, ◌+◌, ◌≡◌, refl, inl, inr, Option, none, some, List, ◌∷◌, ◌++◌, ◌==◌, Bool-cases, length,
}
use swagger.Word32.{le_bytes}
use swagger.Protocol.Command
use swagger.Protocol.Status
use swagger.Probe.{Link, Driver}
use swagger.Firmware.Stuff.{◌>>=◌}
use swagger.Firmware.Loop.{
  Stack, Firmware, Next, go_on, returned, reply_with, fail_with, finish_read, finish_write, Poll,
  met, failed, exhausted, finish_poll, dispatch, command,
}
use swagger.Firmware.Loop.Requests.{
  Request, reset, connect, read_debug, write_debug, read_access, write_access, read_word,
  write_word, wait_true, program_id, bytes, IsRequest, Performed, performed, repeated, stopped,
  status_of, read_of, write_of, poll_of, perform,
}
use swagger.Firmware.Loop.Requests.Reading.{
  get_elem?-append, get_elem?-first, only_word, word_after, first_word, second_word,
}

module _ (l : Link) (stack : Stack) where
  -- The next step of the loop at `ptr`, where the command ends at `next`.
  unfoldable pub to_next : (ptr next : ℕ) → Option (Performed l stack) → Option (Next l)
  to_next ptr next none = none
  to_next ptr next (some (performed fw)) = some (go_on next fw)
  to_next ptr next (some (repeated fw)) = some (go_on ptr fw)
  to_next ptr next (some (stopped fw)) = some (returned fw)

  module _ (ptr next : ℕ) where
    stopped-to_next :
        (status : ℕ) (fw : Firmware l)
        → fail_with l stack status fw
          ≡ to_next ptr next (reply_with l stack status fw >>= (λ fw'. some (stopped fw')))
    unfolding fail_with to_next
    stopped-to_next status fw = go (reply_with l stack status fw)
      where
        go :
            (o : Option (Firmware l))
            → (o >>= (λ fw'. some (returned fw')))
              ≡ to_next ptr next (o >>= (λ fw'. some (stopped fw')))
        go none = refl
        go (some fw') = refl

    finish_read-read_of :
        (r : (ℕ × ℕ) × Driver l) (fw : Firmware l)
        → finish_read l stack next r fw ≡ to_next ptr next (read_of l stack r fw)
    unfolding finish_read read_of status_of to_next
    finish_read-read_of ((status, word), d) fw = elim (Bool-cases (status == Status.ok)) [
      | inl e ↦ rw e refl
      | inr e ↦ rw e (stopped-to_next status (record fw { interface = d }))
    ]

    finish_write-write_of :
        (r : ℕ × Driver l) (fw : Firmware l)
        → finish_write l stack next r fw ≡ to_next ptr next (write_of l stack r fw)
    unfolding finish_write write_of status_of to_next
    finish_write-write_of (status, d) fw = elim (Bool-cases (status == Status.ok)) [
      | inl e ↦ rw e refl
      | inr e ↦ rw e (stopped-to_next status (record fw { interface = d }))
    ]

  repeated-to_next :
      (ptr next : ℕ) (o : Option (Firmware l))
      → (o >>= (λ fw'. some (go_on ptr fw')))
        ≡ to_next ptr next (o >>= (λ fw'. some (repeated fw')))
  unfolding to_next
  repeated-to_next ptr next none = refl
  repeated-to_next ptr next (some fw) = refl

  finish_poll-poll_of :
      (ptr : ℕ) (r : Poll l) (fw : Firmware l)
      → finish_poll l stack ptr r fw ≡ to_next ptr (ptr + 9) (poll_of l stack r fw)
  unfolding finish_poll poll_of to_next
  finish_poll-poll_of ptr (met d) fw = refl
  finish_poll-poll_of ptr (failed status d) fw =
      stopped-to_next ptr (ptr + 9) status (record fw { interface = d })
  finish_poll-poll_of ptr (exhausted d) fw = repeated-to_next ptr (ptr + 9) _

  -- The loop runs the command whose bytes stand at the pointer, with its own arguments, and moves the
  -- pointer by their number.
  pub command-perform :
      (xs rest : List ℕ) (r : Request) (fw : Firmware l)
      → IsRequest r
      → command l stack (xs ++ (bytes r ++ rest)) (length xs) fw
        ≡ to_next (length xs) (length xs + length (bytes r)) (perform l stack r fw)
  unfolding command dispatch bytes perform IsRequest to_next
  command-perform xs rest (reset address) fw h =
      rw
        (
          get_elem?-first xs (address ∷ rest) Command.reset,
          get_elem?-append xs (Command.reset ∷ address ∷ rest) 1,
        )
        refl
  command-perform xs rest connect fw h =
      rw (get_elem?-first xs rest Command.connect) (finish_read-read_of _ _ _ fw)
  command-perform xs rest (read_debug address) fw h =
      rw
        (
          get_elem?-first xs (address ∷ rest) Command.read_dp,
          get_elem?-append xs (Command.read_dp ∷ address ∷ rest) 1,
        )
        (finish_read-read_of _ _ _ fw)
  command-perform xs rest (write_debug address word) fw h =
      rw
        (
          get_elem?-first xs (address ∷ (le_bytes word ++ rest)) Command.write_dp,
          get_elem?-append xs (Command.write_dp ∷ address ∷ (le_bytes word ++ rest)) 1,
          word_after xs rest Command.write_dp address word h,
        )
        (finish_write-write_of _ _ _ fw)
  command-perform xs rest (read_access address) fw h =
      rw
        (
          get_elem?-first xs (le_bytes address ++ rest) Command.read_ap,
          only_word xs rest Command.read_ap address h,
        )
        (finish_read-read_of _ _ _ fw)
  command-perform xs rest (write_access address word) fw (ha, hw) =
      rw
        (
          get_elem?-first xs (le_bytes address ++ (le_bytes word ++ rest)) Command.write_ap,
          first_word xs rest Command.write_ap address word ha,
          second_word xs rest Command.write_ap address word hw,
        )
        (finish_write-write_of _ _ _ fw)
  command-perform xs rest (read_word address) fw h =
      rw
        (
          get_elem?-first xs (le_bytes address ++ rest) Command.read_mem,
          only_word xs rest Command.read_mem address h,
        )
        (finish_read-read_of _ _ _ fw)
  command-perform xs rest (write_word address word) fw (ha, hw) =
      rw
        (
          get_elem?-first xs (le_bytes address ++ (le_bytes word ++ rest)) Command.write_mem,
          first_word xs rest Command.write_mem address word ha,
          second_word xs rest Command.write_mem address word hw,
        )
        (finish_write-write_of _ _ _ fw)
  command-perform xs rest (wait_true address word) fw (ha, hw) =
      rw
        (
          get_elem?-first xs (le_bytes address ++ (le_bytes word ++ rest)) Command.wait_mem_true,
          first_word xs rest Command.wait_mem_true address word ha,
          second_word xs rest Command.wait_mem_true address word hw,
        )
        (finish_poll-poll_of _ _ fw)
  command-perform xs rest program_id fw h = rw (get_elem?-first xs rest Command.get_prog_id) refl
