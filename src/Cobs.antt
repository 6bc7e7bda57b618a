-- ===== src/Cobs.antt =====
-- `src/cobs.cpp`: Consistent Overhead Byte Stuffing. A `std::vector<uint8_t>` is a list of numbers;
-- `outdata` is emptied first, so what a call leaves in it is the result.
pub mod Encode
pub mod RoundTrip
pub mod SelfTest
use swagger.Prelude.{ℕ, zero, suc, ◌+◌, ◌-◌, ◌%◌, Bool, true, Option, none, some}
use swagger.Prelude.{List, [], ◌∷◌, ◌++◌, ltb, ◌==◌, if◌then◌else◌, length, set}

-- The variables of the loop of `encode`.
pub record Encoder : Type 0 where
  pub outdata : List ℕ
  pub code_idx : ℕ
  pub code : ℕ

-- `outdata[code_idx] = code; code_idx = outdata.size(); outdata.push_back(0); code = 1;`
pub finish_block : Encoder → Encoder
finish_block s = record {
  outdata = set s.outdata s.code_idx s.code ++ (0 ∷ []);
  code_idx = length s.outdata;
  code = 1;
}

-- One round of the loop. `code` is a `uint8_t`, so `code++` wraps.
pub encode_byte : Encoder → ℕ → Encoder
unfolding finish_block
encode_byte s byte =
    if byte == 0
    then finish_block s
    else let s' = record s { outdata = s.outdata ++ (byte ∷ []); code = (s.code + 1) % 256 } in
      if s'.code == 0xFF then finish_block s' else s'

pub encode_loop : Encoder → List ℕ → Encoder
encode_loop s [] = s
encode_loop s (byte ∷ rest) = encode_loop (encode_byte s byte) rest

-- `outdata[code_idx] = code; outdata.push_back(0);`
pub last_block : Encoder → List ℕ
last_block s = set s.outdata s.code_idx s.code ++ (0 ∷ [])

abbrev pub first_block : Encoder
first_block = record { outdata = 0 ∷ []; code_idx = 0; code = 1 }

-- The return value and `outdata`.
unfoldable pub encode : List ℕ → Bool × List ℕ
unfolding encode_loop encode_byte last_block
encode indata = (true, last_block (encode_loop first_block indata))

-- The inner loop of `decode`, with the rounds that `i < code` leaves: `outdata` and what is left
-- of the input.
unfoldable pub copy_run : ℕ → List ℕ → List ℕ → List ℕ × List ℕ
copy_run zero indata outdata = (outdata, indata)
copy_run (suc rounds) [] outdata = (outdata, [])
copy_run (suc rounds) (byte ∷ rest) outdata = copy_run rounds rest (outdata ++ (byte ∷ []))

-- The outer loop, on fuel. `i` counts from 1 up to `code`, so there are `code - 1` rounds, and
-- none for the code 0.
unfoldable pub decode_loop : ℕ → List ℕ → List ℕ → Option (List ℕ)
unfolding copy_run
decode_loop fuel [] outdata = some outdata
decode_loop zero (code ∷ rest) outdata = none
decode_loop (suc fuel) (code ∷ rest) outdata =
    let (copied, left) = copy_run (code - 1) rest outdata in
    decode_loop fuel left (if ltb code 0xFF then copied ++ (0 ∷ []) else copied)

-- The return value and `outdata`. Each round takes a byte at least.
unfoldable pub decode : List ℕ → Option (Bool × List ℕ)
unfolding decode_loop
decode indata = elim (decode_loop (length indata) indata []) [
  | none ↦ none
  | some outdata ↦ some (true, outdata)
]
