-- ===== src/Host/Console.antt =====
-- The line reader of `Interactive` in `src/main.cpp`.
use swagger.Prelude.{
  ℕ, zero, suc, ◌+◌, ◌-◌, Bool, true, false, Option, none, some, List, [], ◌∷◌, ltb, leb, ◌==◌,
  ◌&&◌, ◌||◌, if◌then◌else◌, get_or,
}
use swagger.Firmware.Stuff.{store, ◌>>=◌}
pub mod Run
pub mod Plain
pub mod Overflow
pub mod Lines

-- `SQInteger blocks`, which a closing brace can make negative.
pub data ℤ : Type 0 where
  pos : ℕ → ℤ
  negsuc : ℕ → ℤ

pub increment : ℤ → ℤ
increment (pos n) = pos (suc n)
increment (negsuc zero) = pos 0
increment (negsuc (suc n)) = negsuc n

pub decrement : ℤ → ℤ
decrement (pos zero) = negsuc 0
decrement (pos (suc n)) = pos n
decrement (negsuc n) = negsuc (suc n)

unfoldable pub is_zero : ℤ → Bool
is_zero (pos n) = n == 0
is_zero (negsuc n) = false

pub negate : Bool → Bool
negate true = false
negate false = true

-- `MAXINPUT`, the size of `buffer`.
abbrev pub max_input : ℕ
max_input = 1024

-- The local variables; `blocks` and `string` keep their values from line to line.
pub record Reader : Type 0 where
  pub buffer : List ℕ
  pub i : ℕ
  pub blocks : ℤ
  pub string : Bool

-- The loop over characters goes on, or is left by `break`.
pub data Step : Type 0 where
  going : Reader → Step
  left : Reader → Step

-- `buffer[i++] = c`; `none` is a write past the end of the buffer.
pub put_char : ℕ → Reader → Option Step
put_char c r = do
  buffer ← store r.buffer r.i c
  some (going (record r { buffer = buffer; i = r.i + 1 }))

-- The branch for a newline. A backslash before it is replaced, and the line goes on.
pub newline : Reader → Option Step
newline r =
    if ltb 0 r.i && (get_or r.buffer (r.i - 1) 0 == 92)
    then (do buffer ← store r.buffer (r.i - 1) 10; put_char 10 (record r { buffer = buffer }))
    else if is_zero r.blocks
    then some (left r)
    else put_char 10 r

-- A character: a newline, a brace, a quote, or another; only the last tests for room. (The end of
-- the file is -1, which is kept as the character 255.)
pub read_char : ℕ → Reader → Option Step
read_char c r =
    if c == 10
    then newline r
    else if c == 125
    then put_char c (record r { blocks = decrement r.blocks })
    else if (c == 123) && negate r.string
    then put_char c (record r { blocks = increment r.blocks })
    else if (c == 34) || (c == 39)
    then put_char c (record r { string = negate r.string })
    else if leb (max_input - 1) r.i
    then some (left r)
    else put_char c r

-- A line was read and characters are left, the input is used up within a line, or a write was made
-- past the end of the buffer.
pub data Line : Type 0 where
  line : Reader → List ℕ → Line
  waiting : Reader → Line
  fault : Line

-- `buffer[i] = 0`
pub terminate : Reader → List ℕ → Line
terminate r rest = elim (store r.buffer r.i 0) [
  | none ↦ fault
  | some buffer ↦ line (record r { buffer = buffer }) rest
]

pub continue_line : (Reader → Line) → List ℕ → Option Step → Line
continue_line next rest none = fault
continue_line next rest (some (going r)) = next r
continue_line next rest (some (left r)) = terminate r rest

pub read_chars : List ℕ → Reader → Line
read_chars [] r = waiting r
read_chars (c ∷ rest) r = continue_line (read_chars rest) rest (read_char c r)

pub read_line : List ℕ → Reader → Line
read_line input r = read_chars input (record r { i = 0 })
