-- ===== src/Firmware/Stuff.antt =====
-- `StuffData` and `UnStuffData` of `swdinterface.ino`: Consistent Overhead Byte Stuffing between
-- arrays. An array is a list, a pointer into it an index; a write past its end is `none`.
pub mod Encode
pub mod Decode
use swagger.Prelude.{ℕ, zero, suc, ◌+◌, ◌-◌, ◌%◌, Option, none, some, List, [], ◌∷◌}
use swagger.Prelude.{ltb, ◌==◌, if◌then◌else◌, length, set}

infixl 5 ◌>>=◌
abbrev pub ◌>>=◌ {ℓ κ} : {A : Type ℓ} {B : Type κ} → Option A → (A → Option B) → Option B
none >>= f = none
some a >>= f = f a

-- `array[i] = v`
abbrev pub store : List ℕ → ℕ → ℕ → Option (List ℕ)
store array i v = if ltb i (length array) then some (set array i v) else none

-- The variables of `StuffData`.
pub record Stuffer : Type 0 where
  pub array : List ℕ
  pub dst : ℕ
  pub code_ptr : ℕ
  pub code : ℕ

-- `#define FinishBlock(X) (*code_ptr = (X), code_ptr = dst++, code = 0x01)`
pub finish_block : Stuffer → Option Stuffer
finish_block s = do
  array ← store s.array s.code_ptr s.code
  some (record { array = array; dst = s.dst + 1; code_ptr = s.dst; code = 1 })

-- A round of the loop.
pub stuff_byte : Stuffer → ℕ → Option Stuffer
stuff_byte s byte = if byte == 0 then finish_block s else do
  array ← store s.array s.dst byte
  let s' = record s { array = array; dst = s.dst + 1; code = (s.code + 1) % 256 }
  if s'.code == 0xFF then finish_block s' else some s'

pub stuff_loop : List ℕ → Stuffer → Option Stuffer
stuff_loop [] s = some s
stuff_loop (byte ∷ rest) s = stuff_byte s byte >>= stuff_loop rest

-- `*dst = 0; FinishBlock(code);`
pub stuff_end : Stuffer → Option (List ℕ)
stuff_end s = do
  array ← store s.array s.dst 0
  s' ← finish_block (record s { array = array })
  some s'.array

-- The bytes at `ptr` are `data'`, and the array at `dst` is `array`.
pub stuff_data : (data' array : List ℕ) → Option (List ℕ)
stuff_data data' array =
    stuff_loop data' (record { array = array; dst = 1; code_ptr = 0; code = 1 }) >>= stuff_end

-- The inner loop of `UnStuffData`, with the rounds that `i < code` leaves: the array, the count of
-- bytes written, and what is left of the input.
unfoldable pub copy_bytes : ℕ → List ℕ → List ℕ × ℕ → Option (List ℕ × (List ℕ × ℕ))
copy_bytes zero input (array, bytes) = some (input, (array, bytes))
copy_bytes (suc rounds) [] (array, bytes) = some ([], (array, bytes))
copy_bytes (suc rounds) (byte ∷ rest) (array, bytes) = do
  array' ← store array bytes byte
  copy_bytes rounds rest (array', bytes + 1)

-- `if (code < 0xFF) { *dst++ = 0; bytes++; }`
unfoldable pub close_block : ℕ → List ℕ × ℕ → Option (List ℕ × ℕ)
close_block code (array, bytes) =
    if ltb code 0xFF
    then (do array' ← store array bytes 0; some (array', bytes + 1))
    else some (array, bytes)

-- The outer loop, on fuel; `none` also when that runs out.
unfoldable pub unstuff_loop : ℕ → List ℕ → List ℕ × ℕ → Option (List ℕ × ℕ)
unstuff_loop fuel [] out = some out
unstuff_loop zero (code ∷ rest) out = none
unstuff_loop (suc fuel) (code ∷ rest) out = do
  (input, out') ← copy_bytes (code - 1) rest out
  out'' ← close_block code out'
  unstuff_loop fuel input out''

-- The array and the number of bytes decoded. Each round takes a byte at least.
unfoldable pub unstuff_data : (input array : List ℕ) → Option (List ℕ × ℕ)
unstuff_data input array = unstuff_loop (length input) input (array, 0)
