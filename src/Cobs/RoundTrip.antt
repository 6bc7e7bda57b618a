-- ===== src/Cobs/RoundTrip.antt =====
-- `COBS::decode` reads back what `COBS::encode` wrote.
use swagger.Prelude.{
  ℕ, zero, suc, ◌+◌, ◌-◌, ◌≤◌, ◌<◌, ◌≡◌, refl, ◌∙◌, ap, inl, inr, true, List, [], ◌∷◌, ◌++◌,
  append_assoc, append-nil, arith, ◌==◌, Bool-cases, ==_iff, if◌then◌else◌, length, init, some, ltb,
  length-append, init-snoc,
}
use swagger.Cobs.{copy_run, decode_loop, encode, decode}
use swagger.Cobs.Encode.{encoding, encode-encoding, length-encoding}

copy_run-append :
    (block rest outdata : List ℕ)
    → copy_run (length block) (block ++ rest) outdata ≡ (outdata ++ block, rest)
unfolding copy_run
copy_run-append [] rest outdata = rw append-nil
copy_run-append (byte ∷ block) rest outdata =
    rw (copy_run-append block rest (outdata ++ (byte ∷ [])), append_assoc)

copy_run-all :
    (block outdata : List ℕ) → copy_run (length block) block outdata ≡ (outdata ++ block, [])
copy_run-all block outdata = rw append-nil at (copy_run-append block [] outdata)

pub decode_loop_step :
    (fuel code : ℕ) (rest outdata : List ℕ)
    → decode_loop (suc fuel) (code ∷ rest) outdata ≡ (
        let r = copy_run (code - 1) rest outdata in
        decode_loop fuel r.1 (if ltb code 0xFF then r.0 ++ (0 ∷ []) else r.0))
unfolding decode_loop
decode_loop_step fuel code rest outdata = refl

-- One round of the decoder over a whole block.
decode_loop_round :
    (fuel code : ℕ) (block rest outdata : List ℕ)
    → code ≡ length block + 1
    → decode_loop (suc fuel) (code ∷ (block ++ rest)) outdata
      ≡ decode_loop fuel rest
          (if ltb code 0xFF then (outdata ++ block) ++ (0 ∷ []) else outdata ++ block)
decode_loop_round fuel code block rest outdata e =
    let rounds : code - 1 ≡ length block = omega arith in
    rw (decode_loop_step, rounds, copy_run-append block rest outdata)

decode_loop_short :
    (fuel : ℕ) (block rest outdata : List ℕ)
    → length block ≤ 253
    → decode_loop (suc fuel) ((length block + 1) ∷ (block ++ rest)) outdata
      ≡ decode_loop fuel rest (outdata ++ (block ++ (0 ∷ [])))
decode_loop_short fuel block rest outdata h =
    let short : ltb (length block + 1) 0xFF ≡ true = ground arith in
    decode_loop_round fuel _ block rest outdata refl ∙ rw (short, append_assoc)

decode_loop_full :
    (fuel : ℕ) (block rest outdata : List ℕ)
    → length block ≡ 254
    → decode_loop (suc fuel) (0xFF ∷ (block ++ rest)) outdata
      ≡ decode_loop fuel rest (outdata ++ block)
decode_loop_full fuel block rest outdata h =
    decode_loop_round fuel 0xFF block rest outdata (omega arith)

pub decode_loop_end : (fuel : ℕ) (outdata : List ℕ) → decode_loop fuel [] outdata ≡ some outdata
unfolding decode_loop
decode_loop_end zero outdata = refl
decode_loop_end (suc fuel) outdata = refl

-- The decoder undoes the encoding of a block and what follows it.
decode_loop-encoding :
    (fuel : ℕ) (block indata outdata : List ℕ)
    → length block ≤ 253
    → length indata < fuel
    → decode_loop fuel (encoding block indata) outdata
      ≡ some (outdata ++ (block ++ (indata ++ (0 ∷ []))))
unfolding encoding
decode_loop-encoding zero block indata outdata h enough = absurd (omega arith)
decode_loop-encoding (suc fuel) block [] outdata h enough =
    (rw append-nil at (decode_loop_short fuel block [] outdata h)) ∙ decode_loop_end fuel _
decode_loop-encoding (suc fuel) block (byte ∷ rest) outdata h enough =
    elim (Bool-cases (byte == 0)) [
      | inl zero_byte ↦
          rw (zero_byte, (==_iff byte 0).0 zero_byte)
            (decode_loop_short fuel block (encoding [] rest) outdata h
              ∙ decode_loop-encoding fuel [] rest (outdata ++ (block ++ (0 ∷ []))) (omega arith)
                  (omega arith)
              ∙ ap some (rw (append_assoc, append_assoc)))
      | inr data_byte ↦ rw data_byte (elim (Bool-cases (length block == 253)) [
        | inl full ↦ rw full (
            decode_loop_full fuel (block ++ (byte ∷ [])) (encoding [] rest) outdata
              (ground (arith, length-append block (byte ∷ [])))
            ∙ decode_loop-encoding fuel [] rest (outdata ++ (block ++ (byte ∷ []))) (omega arith)
                (omega arith)
            ∙ ap some (rw (append_assoc, append_assoc)))
        | inr short ↦ rw short (
            decode_loop-encoding (suc fuel) (block ++ (byte ∷ [])) rest outdata
              (ground (arith, length-append block (byte ∷ []))) (omega arith)
            ∙ ap some (rw append_assoc))
      ])
    ]

pub decode_of_loop :
    (indata : List ℕ) {outdata : List ℕ}
    → decode_loop (length indata) indata [] ≡ some outdata
    → decode indata ≡ some (true, outdata)
unfolding decode
decode_of_loop indata h = rw (decode, h)

-- Decoding what `COBS::encode` wrote, less its last zero, gives the input and a zero byte.
pub decode-encode :
    (indata : List ℕ) → decode (init (encode indata).1) ≡ some (true, indata ++ (0 ∷ []))
decode-encode indata =
    rw (encode-encoding indata, init-snoc)
      (decode_of_loop (encoding [] indata) (
        decode_loop-encoding (length (encoding [] indata)) [] indata [] (omega arith)
          (omega (arith, length-encoding [] indata))))

pub length-copy_run :
    (rounds : ℕ) (indata outdata : List ℕ)
    → let r = copy_run rounds indata outdata in
      (length r.0 + length r.1 ≡ length outdata + length indata)
      × (length outdata ≤ length r.0)
      × (length r.0 ≤ length outdata + rounds)
unfolding copy_run
length-copy_run zero indata outdata = omega arith
length-copy_run (suc rounds) [] outdata = omega arith
length-copy_run (suc rounds) (byte ∷ rest) outdata =
    omega (
      arith,
      length-copy_run rounds rest (outdata ++ (byte ∷ [])),
      length-append outdata (byte ∷ []),
    )

-- With a round for each byte the loop ends, and adds at most as many bytes as it reads.
pub decode_loop_total :
    (fuel : ℕ) (indata outdata : List ℕ)
    → length indata ≤ fuel
    → (result : List ℕ) × (decode_loop fuel indata outdata ≡ some result)
      × (length result ≤ length outdata + length indata)
decode_loop_total fuel [] outdata h = (outdata, decode_loop_end fuel outdata, omega arith)
decode_loop_total zero (code ∷ rest) outdata h = absurd (omega arith)
decode_loop_total (suc fuel) (code ∷ rest) outdata h =
    let r = copy_run (code - 1) rest outdata in
    let counts = length-copy_run (code - 1) rest outdata in
    let next = if ltb code 0xFF then r.0 ++ (0 ∷ []) else r.0 in
    let grows : length next ≤ length r.0 + 1 = ground (arith, length-append r.0 (0 ∷ [])) in
    let (result, e, bound) = decode_loop_total fuel r.1 next (omega arith) in
    (result, decode_loop_step fuel code rest outdata ∙ e, omega arith)

-- `COBS::decode` ends on every input, reports success, and writes no more bytes than it read.
pub decode_total :
    (indata : List ℕ)
    → (outdata : List ℕ) × (decode indata ≡ some (true, outdata)) × (length outdata ≤ length indata)
decode_total indata =
    let (outdata, e, bound) = decode_loop_total (length indata) indata [] (omega arith) in
    (outdata, decode_of_loop indata e, omega arith)
