-- ===== src/Firmware/Loop/Requests/Answers.antt =====
-- What a list of commands is to answer, by what the driver answers to each of them.
use mathlib.Core.Option.{some-injective, none-ne-some}
use swagger.Prelude.{
  refl, inl, inr, Bool-cases, length-append, arith, ap, ◌≤◌, ◌≡◌, length, ℕ, ◌+◌, Option, none,
  some, List, [], ◌∷◌, ◌++◌, ◌==◌, if◌then◌else◌,
}
use swagger.Word32.{le_bytes}
use swagger.Protocol.Status
use swagger.Arduino.{ArduinoCall, serial_write}
use swagger.Probe.{
  Link, Driver, try_connect, read_dp, write_dp, read_ap, write_ap, read_memory, write_memory,
}
use swagger.Firmware.Loop.{Poll, met, failed, exhausted, poll, max_polls}
use swagger.Firmware.Loop.Requests.{
  Request, reset, connect, read_debug, write_debug, read_access, write_access, read_word,
  write_word, wait_true, program_id,
}

-- The bytes that the calls wrote to the serial line, in the order of time.
unfoldable pub wire : List ArduinoCall → List ℕ
wire [] = []
wire (serial_write bytes ∷ calls) = wire calls ++ bytes
wire (c ∷ calls) = wire calls

-- How many bytes a command that succeeds adds to the reply.
unfoldable pub space : Request → ℕ
space connect = 4
space (read_debug address) = 4
space (read_access address) = 4
space (read_word address) = 4
space program_id = 3
space r = 0

unfoldable pub spaces : List Request → ℕ
spaces [] = 0
spaces (r ∷ rs) = space r + spaces rs

module _ (l : Link) where
  -- A status, the bytes for the reply if it is OK, and the driver.
  abbrev pub Answer : Type 0
  Answer = ℕ × (List ℕ × Driver l)

  abbrev pub read_answer : (ℕ × ℕ) × Driver l → Option Answer
  read_answer ((status, word), d) = some (status, (le_bytes word, d))

  abbrev pub write_answer : ℕ × Driver l → Option Answer
  write_answer (status, d) = some (status, ([], d))

  -- A polling that runs out of rounds has no answer: its command is run again.
  abbrev pub poll_answer : Poll l → Option Answer
  poll_answer (met d) = some (Status.ok, ([], d))
  poll_answer (failed status d) = some (status, ([], d))
  poll_answer (exhausted d) = none

  unfoldable pub answer : Request → Driver l → Option Answer
  answer (reset state) d = some (Status.ok, ([], d))
  answer connect d = read_answer (try_connect l d)
  answer (read_debug address) d = read_answer (read_dp l address 0 d)
  answer (write_debug address word) d = write_answer (write_dp l address word d)
  answer (read_access address) d = read_answer (read_ap l address 0 d)
  answer (write_access address word) d = write_answer (write_ap l address word d)
  answer (read_word address) d = read_answer (read_memory l address 0 d)
  answer (write_word address word) d = write_answer (write_memory l address word d)
  answer (wait_true address mask) d = poll_answer (poll l max_polls address mask d)
  answer program_id d = some (Status.ok, (0x01 ∷ 64 ∷ 0 ∷ [], d))

  unfoldable pub prepend : List ℕ → Option Answer → Option Answer
  prepend bytes none = none
  prepend bytes (some (status, (rest, d))) = some (status, (bytes ++ rest, d))

  unfoldable pub go_on_if : (rest : Driver l → Option Answer) → Option Answer → Option Answer
  go_on_if rest none = none
  go_on_if rest (some (status, (bytes, d))) =
      if status == Status.ok then prepend bytes (rest d) else some (status, ([], d))

  -- The first error ends the commands; the bytes before it are answered.
  unfoldable pub answers : List Request → Driver l → Option Answer
  answers [] d = some (Status.ok, ([], d))
  answers (r ∷ rs) d = go_on_if (answers rs) (answer r d)

  bytes_of : Answer → ℕ
  bytes_of (status, (bytes, d)) = length bytes

  poll_answer_bytes : (p : Poll l) (a : Answer) → poll_answer p ≡ some a → bytes_of a ≤ 0
  unfolding bytes_of
  poll_answer_bytes (met d) a e = omega (arith, ap bytes_of (some-injective _ _ e))
  poll_answer_bytes (failed status d) a e = omega (arith, ap bytes_of (some-injective _ _ e))
  poll_answer_bytes (exhausted d) a e = absurd (none-ne-some a e)

  -- An answer to a command has at most the bytes that the command has space for.
  pub length-answer :
      (r : Request) (d : Driver l) (a : Answer) → answer r d ≡ some a → length a.1.0 ≤ space r
  unfolding answer space bytes_of
  length-answer (reset state) d a e = omega (arith, ap bytes_of (some-injective _ _ e))
  length-answer connect d a e = omega (arith, ap bytes_of (some-injective _ _ e))
  length-answer (read_debug address) d a e = omega (arith, ap bytes_of (some-injective _ _ e))
  length-answer (write_debug address word) d a e = omega (arith, ap bytes_of (some-injective _ _ e))
  length-answer (read_access address) d a e = omega (arith, ap bytes_of (some-injective _ _ e))
  length-answer (write_access address word) d a e =
      omega (arith, ap bytes_of (some-injective _ _ e))
  length-answer (read_word address) d a e = omega (arith, ap bytes_of (some-injective _ _ e))
  length-answer (write_word address word) d a e = omega (arith, ap bytes_of (some-injective _ _ e))
  length-answer (wait_true address mask) d a e =
      poll_answer_bytes (poll l max_polls address mask d) a e
  length-answer program_id d a e = omega (arith, ap bytes_of (some-injective _ _ e))

  prepend_bytes :
      (bytes : List ℕ) (o : Option Answer) (a : Answer) (n : ℕ)
      → ((a2 : Answer) → o ≡ some a2 → length a2.1.0 ≤ n)
      → prepend bytes o ≡ some a
      → length a.1.0 ≤ length bytes + n
  unfolding prepend bytes_of
  prepend_bytes bytes none a n ih e = absurd (none-ne-some a e)
  prepend_bytes bytes (some (status, (rest, d))) a n ih e =
      omega (arith, ap bytes_of (some-injective _ _ e), length-append bytes rest, ih _ refl)

  go_on_if_bytes :
      (rest : Driver l → Option Answer) (o : Option Answer) (a : Answer) (n m : ℕ)
      → ((a1 : Answer) → o ≡ some a1 → length a1.1.0 ≤ n)
      → ((a1 a2 : Answer) → rest a1.1.1 ≡ some a2 → length a2.1.0 ≤ m)
      → go_on_if rest o ≡ some a
      → length a.1.0 ≤ n + m
  unfolding go_on_if bytes_of
  go_on_if_bytes rest none a n m first later e = absurd (none-ne-some a e)
  go_on_if_bytes rest (some (status, (bytes, d))) a n m first later e =
      elim (Bool-cases (status == Status.ok)) [
        | inl good ↦ omega (
          arith,
          prepend_bytes bytes (rest d) a m (λ a2. later (status, (bytes, d)) a2) (rw good at e),
          first (status, (bytes, d)) refl,
        )
        | inr bad ↦ omega (arith, ap bytes_of (some-injective _ _ (rw bad at e)))
      ]

  -- An answer to commands has at most the bytes that the commands have space for.
  pub length-answers :
      (rs : List Request) (d : Driver l) (a : Answer)
      → answers rs d ≡ some a
      → length a.1.0 ≤ spaces rs
  unfolding answers spaces bytes_of
  length-answers [] d a e = omega (arith, ap bytes_of (some-injective _ _ e))
  length-answers (r ∷ rs) d a e =
      go_on_if_bytes (answers rs) (answer r d) a (space r) (spaces rs) (length-answer r d)
        (λ a1 a2. length-answers rs a1.1.1 a2) e
