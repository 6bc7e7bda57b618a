-- ===== src/Cobs/Encode.antt =====
-- What `COBS::encode` writes, as a recursion on its input that goes back to no earlier byte.
use swagger.Prelude.{
  ℕ, ◌+◌, ◌/◌, ◌≤◌, ◌<◌, ◌≡◌, refl, ◌∙◌, ap, ◌≢◌, inl, inr, true, false, List, [], ◌∷◌, ◌++◌,
  append_assoc, arith, ◌==◌, Bool-cases, if◌then◌else◌, length, All, length-append, set-append,
  All-append,
}
use swagger.Cobs.{Encoder, finish_block, encode_byte, encode_loop, last_block, encode}

abbrev pub IsByte : ℕ → Type 0
IsByte b = b < 256

abbrev pub IsNonzero : ℕ → Type 0
IsNonzero b = b ≢ 0

-- The encoding of `data`, where `block` holds the bytes since the last code.
unfoldable pub encoding : List ℕ → List ℕ → List ℕ
encoding block [] = (length block + 1) ∷ block
encoding block (byte ∷ rest) =
    let closed = encoding [] rest in
    let longer = encoding (block ++ (byte ∷ [])) rest in
    if byte == 0
    then (length block + 1) ∷ (block ++ closed)
    else if length block == 253
    then 0xFF ∷ ((block ++ (byte ∷ [])) ++ closed)
    else longer

pub encoding-nil : (block : List ℕ) → encoding block [] ≡ (length block + 1) ∷ block
unfolding encoding
encoding-nil block = refl

module _ (block : List ℕ) (byte : ℕ) (rest : List ℕ) where
  pub encoding-zero :
      (byte == 0) ≡ true
      → encoding block (byte ∷ rest) ≡ (length block + 1) ∷ (block ++ encoding [] rest)
  unfolding encoding
  encoding-zero e = rw e

  pub encoding-full :
      (byte == 0) ≡ false
      → (length block == 253) ≡ true
      → encoding block (byte ∷ rest) ≡ 0xFF ∷ ((block ++ (byte ∷ [])) ++ encoding [] rest)
  unfolding encoding
  encoding-full e full = rw (e, full)

  pub encoding-short :
      (byte == 0) ≡ false
      → (length block == 253) ≡ false
      → encoding block (byte ∷ rest) ≡ encoding (block ++ (byte ∷ [])) rest
  unfolding encoding
  encoding-short e short = rw (e, short)

-- The state of the loop after the blocks `done`, inside of `block`.
abbrev pub inside : List ℕ → List ℕ → Encoder
inside done block = record {
  outdata = done ++ (0 ∷ block);
  code_idx = length done;
  code = length block + 1;
}

finish_block-inside :
    (done block : List ℕ) (code : ℕ)
    → finish_block (record { outdata = done ++ (0 ∷ block); code_idx = length done; code = code })
      ≡ inside (done ++ (code ∷ block)) []
unfolding finish_block
finish_block-inside done block code = ground (
  arith,
  set-append done block 0 code,
  length-append done (0 ∷ block),
  length-append done (code ∷ block),
)

encode_byte-inside :
    (done block : List ℕ) (byte : ℕ)
    → length block ≤ 253
    → encode_byte (inside done block) byte ≡ (
        if byte == 0
        then inside (done ++ ((length block + 1) ∷ block)) []
        else if length block == 253
        then inside (done ++ (0xFF ∷ (block ++ (byte ∷ [])))) []
        else inside done (block ++ (byte ∷ [])))
unfolding encode_byte
encode_byte-inside done block byte h = ground (
  arith,
  finish_block-inside done block (length block + 1),
  finish_block-inside done (block ++ (byte ∷ [])) 0xFF,
  length-append block (byte ∷ []),
  append_assoc done (0 ∷ block) (byte ∷ []),
)

encode_loop_end :
    (done block : List ℕ)
    → last_block (encode_loop (inside done block) [])
      ≡ (done ++ ((length block + 1) ∷ block)) ++ (0 ∷ [])
unfolding encode_loop last_block
encode_loop_end done block = ap (λ t. t ++ (0 ∷ [])) (set-append done block 0 (length block + 1))

encode_loop_step :
    (s : Encoder) (byte : ℕ) (rest : List ℕ)
    → encode_loop s (byte ∷ rest) ≡ encode_loop (encode_byte s byte) rest
unfolding encode_loop
encode_loop_step s byte rest = refl

-- The loop, and the last block.
encode_loop-encoding :
    (done block indata : List ℕ)
    → length block ≤ 253
    → last_block (encode_loop (inside done block) indata)
      ≡ (done ++ encoding block indata) ++ (0 ∷ [])
unfolding encoding
encode_loop-encoding done block [] h = encode_loop_end done block
encode_loop-encoding done block (byte ∷ rest) h = elim (Bool-cases (byte == 0)) [
  | inl zero_byte ↦
      rw (encode_loop_step, encode_byte-inside done block byte h, zero_byte)
        (encode_loop-encoding (done ++ ((length block + 1) ∷ block)) [] rest (omega arith)
          ∙ ap (λ t. t ++ (0 ∷ []))
              (append_assoc done ((length block + 1) ∷ block) (encoding [] rest)))
  | inr data_byte ↦
      rw (encode_loop_step, encode_byte-inside done block byte h, data_byte)
        (elim (Bool-cases (length block == 253)) [
          | inl full ↦ rw full (
              encode_loop-encoding (done ++ (0xFF ∷ (block ++ (byte ∷ [])))) [] rest (omega arith)
              ∙ ap (λ t. t ++ (0 ∷ []))
                  (append_assoc done (0xFF ∷ (block ++ (byte ∷ []))) (encoding [] rest)))
          | inr short ↦ rw short (
              encode_loop-encoding done (block ++ (byte ∷ [])) rest
                (ground (arith, length-append block (byte ∷ []))))
        ])
]

-- `COBS::encode` reports success, and writes the encoding and a zero.
pub encode-encoding : (indata : List ℕ) → encode indata ≡ (true, encoding [] indata ++ (0 ∷ []))
unfolding encode
encode-encoding indata = ap (λ t. (true, t)) (encode_loop-encoding [] [] indata (omega arith))

pub encoding-IsNonzero :
    (block indata : List ℕ)
    → length block ≤ 253
    → All IsNonzero block
    → All IsNonzero (encoding block indata)
unfolding encoding
encoding-IsNonzero block [] h nz = (omega arith, nz)
encoding-IsNonzero block (byte ∷ rest) h nz = elim (Bool-cases (byte == 0)) [
  | inl zero_byte ↦
      rw zero_byte
        (omega arith, All-append IsNonzero block _ nz (encoding-IsNonzero [] rest (omega arith) tt))
  | inr data_byte ↦ rw data_byte (elim (Bool-cases (length block == 253)) [
    | inl full ↦ rw full (
      omega arith,
      All-append IsNonzero _ _ (longer data_byte) (encoding-IsNonzero [] rest (omega arith) tt),
    )
    | inr short ↦ rw short (
        encoding-IsNonzero (block ++ (byte ∷ [])) rest
          (ground (arith, length-append block (byte ∷ []))) (longer data_byte))
  ])
]
  where
    longer : (byte == 0) ≡ false → All IsNonzero (block ++ (byte ∷ []))
    longer e = All-append IsNonzero block _ nz (ground arith, tt)

-- A code for each block of at most 254 bytes.
pub length-encoding :
    (block indata : List ℕ)
    → length block ≤ 253
    → (length block + length indata + 1 ≤ length (encoding block indata))
      × (length (encoding block indata)
          ≤ length block + length indata + 1 + (length block + length indata) / 254)
unfolding encoding
length-encoding block [] h = omega arith
length-encoding block (byte ∷ rest) h = ground (
  arith,
  length-encoding [] rest (omega arith),
  length-encoding (block ++ (byte ∷ [])) rest,
  length-append block (encoding [] rest),
  length-append (block ++ (byte ∷ [])) (encoding [] rest),
  length-append block (byte ∷ []),
)

encoding-IsByte :
    (block indata : List ℕ)
    → length block ≤ 253
    → All IsByte block
    → All IsByte indata
    → All IsByte (encoding block indata)
unfolding encoding
encoding-IsByte block [] h bs is = (omega arith, bs)
encoding-IsByte block (byte ∷ rest) h bs (b, is) = elim (Bool-cases (byte == 0)) [
  | inl zero_byte ↦
      rw zero_byte
        (omega arith, All-append IsByte block _ bs (encoding-IsByte [] rest (omega arith) tt is))
  | inr data_byte ↦ rw data_byte (elim (Bool-cases (length block == 253)) [
    | inl full ↦
        rw full
          (omega arith, All-append IsByte _ _ longer (encoding-IsByte [] rest (omega arith) tt is))
    | inr short ↦ rw short (
        encoding-IsByte (block ++ (byte ∷ [])) rest
          (ground (arith, length-append block (byte ∷ []))) longer is)
  ])
]
  where
    longer : All IsByte (block ++ (byte ∷ []))
    longer = All-append IsByte block _ bs (b, tt)

-- `COBS::encode` reports success on every input. What it writes ends in the zero that delimits a
-- packet and has no other zero, and takes one code byte for each 254 bytes begun.
pub encode_frame :
    (indata : List ℕ)
    → (body : List ℕ) × (encode indata ≡ (true, body ++ (0 ∷ [])))
      × All IsNonzero body
      × (length indata + 1 ≤ length body)
      × (length body ≤ length indata + 1 + length indata / 254)
encode_frame indata =
    let (lo, hi) = length-encoding [] indata (omega arith) in
    (
      encoding [] indata,
      encode-encoding indata,
      encoding-IsNonzero [] indata (omega arith) tt,
      omega arith,
      omega arith,
    )
