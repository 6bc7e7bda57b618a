-- ===== src/Firmware/Loop/Requests/Refine.antt =====
-- The command loop on the bytes of a list of commands.
use swagger.Prelude.{
  ℕ, zero, suc, ◌+◌, ◌≤◌, ◌≡◌, refl, sym, ap, ◌∙◌, true, false, Option, none, some, List, [], ◌∷◌,
  ◌++◌, append_assoc, arith, ltb, length, length-append, All,
}
use swagger.Protocol.Status
use swagger.Probe.{Link}
use swagger.Firmware.Loop.{
  Stack, Firmware, Ended, done, fault, out_of_fuel, continue, run_commands, reply_with,
}
use swagger.Firmware.Loop.Ends.{run_commands_empty, run_commands_step}
use swagger.Firmware.Loop.Requests.{
  Request, reset, connect, read_debug, write_debug, read_access, write_access, read_word,
  write_word, wait_true, program_id, bytes, stream, IsRequest, Performed, performed, repeated,
  stopped, perform, after, run_requests,
}
use swagger.Firmware.Loop.Requests.Performing.{to_next, command-perform}

module _ (l : Link) (stack : Stack) where
  continue-after :
      (ptr next : ℕ) (loop : ℕ → Firmware l → Ended l) (again later : Firmware l → Ended l)
      (o : Option (Performed l stack))
      → ((fw : Firmware l) → loop ptr fw ≡ again fw)
      → ((fw : Firmware l) → loop next fw ≡ later fw)
      → continue l loop (to_next l stack ptr next o) ≡ after l stack again later o
  unfolding continue to_next after
  continue-after ptr next loop again later none h k = refl
  continue-after ptr next loop again later (some (performed fw)) h k = k fw
  continue-after ptr next loop again later (some (repeated fw)) h k = h fw
  continue-after ptr next loop again later (some (stopped fw)) h k = refl

some_bytes : (r : Request) → 1 ≤ length (bytes r)
unfolding bytes
some_bytes (reset state) = omega arith
some_bytes connect = omega arith
some_bytes (read_debug address) = omega arith
some_bytes (write_debug address word) = omega arith
some_bytes (read_access address) = omega arith
some_bytes (write_access address word) = omega arith
some_bytes (read_word address) = omega arith
some_bytes (write_word address word) = omega arith
some_bytes (wait_true address mask) = omega arith
some_bytes program_id = omega arith

stream_cons : (r : Request) (rs : List Request) → stream (r ∷ rs) ≡ bytes r ++ stream rs
unfolding stream
stream_cons r rs = refl

stream_nil : length (stream []) ≡ 0
unfolding stream
stream_nil = refl

module _ (l : Link) (stack : Stack) where
  pub run_requests_step :
      (fuel : ℕ) (r : Request) (rs : List Request) (fw : Firmware l)
      → run_requests l stack (suc fuel) (r ∷ rs) fw
        ≡ after l stack
            (run_requests l stack fuel (r ∷ rs))
            (run_requests l stack fuel rs)
            (perform l stack r fw)
  unfolding run_requests
  run_requests_step fuel r rs fw = refl

  run_requests_empty :
      (rs : List Request) (fw : Firmware l) → run_requests l stack 0 rs fw ≡ out_of_fuel
  unfolding run_requests
  run_requests_empty rs fw = refl

  pub run_requests_end :
      (fuel : ℕ) (fw : Firmware l)
      → run_requests l stack (suc fuel) [] fw
        ≡ elim (reply_with l stack Status.ok fw) [ none ↦ fault | some fw' ↦ done fw' ]
  unfolding run_requests
  run_requests_end fuel fw = refl

  -- On the bytes of a list of commands, wherever they stand in the array, the command loop does what
  -- the commands are to do one after the other: each is run once with its own arguments, but one that
  -- times out is run again; an error ends the work, and else the reply OK is sent.
  pub run_commands-requests :
      (fuel : ℕ) (rs : List Request) (xs rest : List ℕ) (fw : Firmware l)
      → All IsRequest rs
      → run_commands l fuel stack
          (xs ++ (stream rs ++ rest))
          (length xs + length (stream rs))
          (length xs)
          fw
        ≡ run_requests l stack fuel rs fw
  run_commands-requests zero rs xs rest fw h =
      run_commands_empty l stack _ _ _ fw ∙ sym (run_requests_empty rs fw)
  run_commands-requests (suc fuel) [] xs rest fw h =
      let over : ltb (length xs) (length xs + length (stream [])) ≡ false =
        ground (arith, stream_nil) in
      rw (run_commands_step l fuel stack _ _ (length xs) fw, over, run_requests_end fuel fw) refl
  run_commands-requests (suc fuel) (r ∷ rs) xs rest fw (h, hs) =
      let cut = stream_cons r rs in
      let below : ltb (length xs) (length xs + length (stream (r ∷ rs))) ≡ true =
        ground (arith, ap (λ t. length t) cut, length-append (bytes r) (stream rs), some_bytes r) in
      let here : xs ++ (bytes r ++ (stream rs ++ rest)) ≡ xs ++ (stream (r ∷ rs) ++ rest) =
        rw (cut, append_assoc) refl in
      let there : (xs ++ bytes r) ++ (stream rs ++ rest) ≡ xs ++ (stream (r ∷ rs) ++ rest) =
        append_assoc xs (bytes r) (stream rs ++ rest) ∙ here in
      let end_ptr : length (xs ++ bytes r) + length (stream rs)
          ≡ length xs + length (stream (r ∷ rs)) =
        omega (
          arith,
          ap (λ t. length t) cut,
          length-append (bytes r) (stream rs),
          length-append xs (bytes r),
        ) in
      rw
        (
          run_commands_step l fuel stack _ _ (length xs) fw,
          below,
          run_requests_step fuel r rs fw,
          rw here at (command-perform l stack xs (stream rs ++ rest) r fw h),
        )
        (continue-after l stack (length xs) (length xs + length (bytes r)) _ _ _
          (perform l stack r fw) (λ fw'. run_commands-requests fuel (r ∷ rs) xs rest fw' (h, hs))
          (λ fw'.
            rw (there, end_ptr, length-append xs (bytes r)) at
              (run_commands-requests fuel rs (xs ++ bytes r) rest fw' hs)))
