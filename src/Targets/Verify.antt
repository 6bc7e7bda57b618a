-- ===== src/Targets/Verify.antt =====
-- `readMemoryWords` and `verifyFlash` of `targets/targetfuncs.nut`. What they log is not modelled.
pub mod Words
pub mod Matches
pub mod Flash
use swagger.Prelude.{
  ℕ, zero, suc, ◌+◌, ◌-◌, ◌*◌, ◌/◌, ◌^◌, Bool, true, false, Option, none, some, List, [], ◌∷◌, ltb,
  leb, ◌==◌, if◌then◌else◌, length,
}
use swagger.Word32.{join}
use swagger.Firmware.Stuff.{◌>>=◌}
use swagger.Host.Packet.{SerialPort}
use swagger.Host.Script.{SquirrelVm, Session}
use swagger.Targets.{CallFrames, minus_one, call_clear, call_pop8, call_pop32, call_execute}
use swagger.Targets.Functions.{queue_read_memory}
use swagger.Targets.Functions.CmdStatus

-- What `readMemoryWords` returns: an array, or a number.
pub data Contents : Type 0 where
  words : List ℕ → Contents
  code : ℕ → Contents

-- An `int` of 32 bits as an `SQInteger` of 64 bits.
unfoldable pub sign_extend : ℕ → ℕ
sign_extend w = if ltb w (2 ^ 31) then w else w + (2 ^ 64 - 2 ^ 32)

-- `myblob.readn('i')` for the words that are compared, and what is left of the blob; `none` is the
-- end of the blob, where it throws.
unfoldable pub readn : List ℕ → Option (ℕ × List ℕ)
readn (b0 ∷ b1 ∷ b2 ∷ b3 ∷ rest) = some (sign_extend (join b0 b1 b2 b3), rest)
readn few = none

-- The loop that compares `count` words of the blob with the array, and what is left of the blob.
-- `none` is a word that differs; or an index past the end of the array, or the end of the blob,
-- where the script throws.
unfoldable pub compare_words : (count : ℕ) → (blob contents : List ℕ) → Option (List ℕ)
compare_words zero blob contents = some blob
compare_words (suc count) blob [] = none
compare_words (suc count) blob (x ∷ contents) = do
  (word, blob') ← readn blob
  let rest = compare_words count blob' contents
  if word == x then rest else none

-- `wordCount`
unfoldable pub word_count : (words_left : ℕ) → ℕ
word_count words_left = if ltb 6 words_left then 6 else words_left

module _ (m : SquirrelVm) (f : CallFrames m) (q : SerialPort) where
  -- `for(local i=0; i<words; i++)`, with the rounds that are left.
  unfoldable pub queue_words : (left address : ℕ) → Session m q → Session m q
  queue_words zero address s = s
  queue_words (suc left) address s =
      queue_words left (address + 4) (queue_read_memory m f q address s)

  unfoldable pub pop_words : (left : ℕ) → Session m q → List ℕ × Session m q
  pop_words zero s = ([], s)
  pop_words (suc left) s =
      let (word, s1) = call_pop32 m f q s in let (rest, s2) = pop_words left s1 in (word ∷ rest, s2)

  -- After the commands have run.
  unfoldable pub pop_contents : (count : ℕ) → ℕ × Session m q → Contents × Session m q
  pop_contents count (status, s) = elim (status == CmdStatus.ok) [
    | false ↦ (code status, s)
    | true ↦ let (contents, s') = pop_words count s in (words contents, s')
  ]

  module _ (fuel c : ℕ) where
    unfoldable pub read_memory_words :
        (address count : ℕ) → Session m q → Option (Contents × Session m q)
    read_memory_words address count s =
        if ltb 6 count then some (code minus_one, call_clear m f q s) else (do
          (r, s1) ← call_execute m f q fuel c (queue_words count address (call_clear m f q s))
          some (pop_contents count (call_pop8 m f q s1)))

    -- The end of a round: the comparison, and `next`, the loop from there.
    unfoldable pub verify_round :
        (next : (blob : List ℕ) → Session m q → Option (ℕ × Session m q)) (count : ℕ)
        (blob : List ℕ)
        → Contents × Session m q
        → Option (ℕ × Session m q)
    verify_round next count blob (code x, s) = some (minus_one, s)
    verify_round next count blob (words contents, s) = elim (compare_words count blob contents) [
      | none ↦ some (minus_one, s)
      | some blob' ↦ next blob' s
    ]

    -- `while(wordsLeft > 0)`; a round takes a word at least.
    unfoldable pub verify_loop :
        (rounds words_left address : ℕ) (blob : List ℕ) → Session m q → Option (ℕ × Session m q)
    verify_loop zero words_left address blob s = if ltb 0 words_left then none else some (0, s)
    verify_loop (suc rounds) words_left address blob s =
        let count = word_count words_left in
        if ltb 0 words_left
        then (do
          read ← read_memory_words address count s
          verify_round (verify_loop rounds (words_left - count) (address + count * 4)) count blob
              read)
        else some (0, s)

    -- `binary` is what the file holds, where it can be opened. A word of the file is a round at most.
    unfoldable pub verify_flash :
        (binary : Option (List ℕ)) → Session m q → Option (ℕ × Session m q)
    verify_flash none s = some (minus_one, s)
    verify_flash (some blob) s = verify_loop (length blob / 4) (length blob / 4) 0 blob s
