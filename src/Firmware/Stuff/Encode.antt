-- ===== src/Firmware/Stuff/Encode.antt =====
-- `StuffData` writes what `COBS::encode` writes.
use swagger.Prelude.{
  ℕ, ◌+◌, ◌%◌, ◌≤◌, ◌<◌, ◌≡◌, ◌∙◌, ap, inl, inr, true, false, Option, some, List, [], ◌∷◌, ◌++◌,
  append_assoc, arith, ltb, ◌==◌, Bool-cases, ==_iff, length, length-append, set-append,
}
use swagger.Cobs.{encode}
use swagger.Cobs.Encode.{
  encoding, encode-encoding, length-encoding, encoding-nil, encoding-zero, encoding-full,
  encoding-short,
}
use swagger.Firmware.Stuff.{
  store, Stuffer, finish_block, stuff_byte, stuff_loop, stuff_end, stuff_data, ◌>>=◌,
}

-- A write at the first cell of the part of an array behind `front`.
pub store-append :
    (front back : List ℕ) (old v : ℕ)
    → store (front ++ (old ∷ back)) (length front) v ≡ some (front ++ (v ∷ back))
store-append front back old v =
    let fits : ltb (length front) (length (front ++ (old ∷ back))) ≡ true =
      ground (arith, length-append front (old ∷ back)) in
    rw fits (ap some (set-append front back old v))

-- Inside of a block: the cell `old` waits for the code, and `back` is not written yet.
abbrev inside : (done : List ℕ) (old : ℕ) (block back : List ℕ) → ℕ → Stuffer
inside done old block back code = record {
  array = done ++ (old ∷ (block ++ back));
  dst = length done + 1 + length block;
  code_ptr = length done;
  code = code;
}

finish_block-inside :
    (done : List ℕ) (old : ℕ) (block : List ℕ) (next : ℕ) (back : List ℕ) (code : ℕ)
    → finish_block (inside done old block (next ∷ back) code)
      ≡ some (inside (done ++ (code ∷ block)) next [] back 1)
unfolding finish_block
finish_block-inside done old block next back code =
    rw (store-append done (block ++ (next ∷ back)) old code) (
      ap some (
        ground (
          arith,
          append_assoc done (code ∷ block) (next ∷ back),
          length-append done (code ∷ block),
        )))

store-inside :
    (done : List ℕ) (old : ℕ) (block : List ℕ) (next : ℕ) (back : List ℕ) (v : ℕ)
    → store (done ++ (old ∷ (block ++ (next ∷ back)))) (length done + 1 + length block) v
      ≡ some (done ++ (old ∷ (block ++ (v ∷ back))))
store-inside done old block next back v =
    let len : length (done ++ (old ∷ block)) ≡ length done + 1 + length block =
      omega (arith, length-append done (old ∷ block)) in
    rw (len, append_assoc, append_assoc) at (store-append (done ++ (old ∷ block)) back next v)

stuff_byte-zero :
    (done : List ℕ) (old : ℕ) (block : List ℕ) (next : ℕ) (back : List ℕ) (code : ℕ)
    → stuff_byte (inside done old block (next ∷ back) code) 0
      ≡ some (inside (done ++ (code ∷ block)) next [] back 1)
unfolding stuff_byte
stuff_byte-zero = finish_block-inside

-- A byte that is not 0 goes behind the block.
inside-snoc :
    (done : List ℕ) (old : ℕ) (block : List ℕ) (byte : ℕ) (back : List ℕ) (code : ℕ)
    → record {
      array = done ++ (old ∷ (block ++ (byte ∷ back)));
      dst = length done + 1 + length block + 1;
      code_ptr = length done;
      code = code;
    }
      ≡ inside done old (block ++ (byte ∷ [])) back code
inside-snoc done old block byte back code =
    ground (arith, append_assoc block (byte ∷ []) back, length-append block (byte ∷ []))

stuff_byte-short :
    (done : List ℕ) (old : ℕ) (block : List ℕ) (next : ℕ) (back : List ℕ) (byte : ℕ)
    → (byte == 0) ≡ false
    → length block < 253
    → stuff_byte (inside done old block (next ∷ back) (length block + 1)) byte
      ≡ some (inside done old (block ++ (byte ∷ [])) back (length (block ++ (byte ∷ [])) + 1))
unfolding stuff_byte
stuff_byte-short done old block next back byte nonzero short =
    let code : (length block + 1 + 1) % 256 ≡ length (block ++ (byte ∷ [])) + 1 =
      omega (arith, length-append block (byte ∷ [])) in
    let open_block : (length (block ++ (byte ∷ [])) + 1 == 0xFF) ≡ false =
      ground (arith, length-append block (byte ∷ [])) in
    rw (nonzero, store-inside done old block next back byte, code, open_block)
      (ap some (inside-snoc done old block byte back _))

stuff_byte-full :
    (done : List ℕ) (old : ℕ) (block : List ℕ) (next next' : ℕ) (back : List ℕ) (byte : ℕ)
    → (byte == 0) ≡ false
    → length block ≡ 253
    → stuff_byte (inside done old block (next ∷ next' ∷ back) (length block + 1)) byte
      ≡ some (inside (done ++ (0xFF ∷ (block ++ (byte ∷ [])))) next' [] back 1)
unfolding stuff_byte
stuff_byte-full done old block next next' back byte nonzero full =
    let code : (length block + 1 + 1) % 256 ≡ 0xFF = omega arith in
    rw (nonzero, store-inside done old block next (next' ∷ back) byte, code, inside-snoc)
      (finish_block-inside done old (block ++ (byte ∷ [])) next' back 0xFF)

stuff_loop_step :
    (s : Stuffer) (byte : ℕ) (rest : List ℕ) {s' : Stuffer} {result : Option (List ℕ)}
    → stuff_byte s byte ≡ some s'
    → (stuff_loop rest s' >>= stuff_end) ≡ result
    → (stuff_loop (byte ∷ rest) s >>= stuff_end) ≡ result
unfolding stuff_loop
stuff_loop_step s byte rest e h = rw e h

stuff_loop_end :
    (done : List ℕ) (old : ℕ) (block : List ℕ) (next : ℕ) (back : List ℕ) (code : ℕ)
    → (stuff_loop [] (inside done old block (next ∷ back) code) >>= stuff_end)
      ≡ some (done ++ (code ∷ (block ++ (0 ∷ back))))
unfolding stuff_loop stuff_end finish_block
stuff_loop_end done old block next back code =
    rw (store-inside done old block next back 0, store-append done (block ++ (0 ∷ back)) old code)

-- The loop and the end, where `used` are the cells that are still to be written.
stuff_loop-encoding :
    (input done : List ℕ) (old : ℕ) (block used back : List ℕ)
    → length block ≤ 253
    → length used + length block ≡ length (encoding block input)
    → (stuff_loop input (inside done old block (used ++ back) (length block + 1)) >>= stuff_end)
      ≡ some (done ++ (encoding block input ++ (0 ∷ back)))
stuff_loop-encoding [] done old block [] back h room =
    absurd (omega (arith, length-encoding block [] h))
stuff_loop-encoding [] done old block (u ∷ []) back h room =
    rw encoding-nil (stuff_loop_end done old block u back (length block + 1))
stuff_loop-encoding [] done old block (u ∷ u' ∷ us) back h room =
    absurd (omega (arith, ap (λ t. length t) (encoding-nil block)))
stuff_loop-encoding (byte ∷ rest) done old block [] back h room =
    absurd (omega (arith, length-encoding block (byte ∷ rest) h))
stuff_loop-encoding (byte ∷ rest) done old block (u ∷ []) back h room =
    absurd (omega (arith, length-encoding block (byte ∷ rest) h))
stuff_loop-encoding (byte ∷ rest) done old block (u ∷ u' ∷ us) back h room =
    elim (Bool-cases (byte == 0)) [
      | inl zero_byte ↦
          let e = encoding-zero block byte rest zero_byte in
          let done' = done ++ ((length block + 1) ∷ block) in
          stuff_loop_step _ byte rest
            (rw ((==_iff byte 0).0 zero_byte)
              (stuff_byte-zero done old block u ((u' ∷ us) ++ back) (length block + 1)))
            (stuff_loop-encoding rest done' u [] (u' ∷ us) back (omega arith)
                (ground (arith, e, length-append block (encoding [] rest)))
              ∙ ap some
                  (rw e (regroup done ((length block + 1) ∷ block) (encoding [] rest) (0 ∷ back))))
      | inr data_byte ↦ elim (Bool-cases (length block == 253)) [
        | inl full ↦
            let e = encoding-full block byte rest data_byte full in
            let whole = block ++ (byte ∷ []) in
            stuff_loop_step _ byte rest
              (stuff_byte-full done old block u u' (us ++ back) byte data_byte
                ((==_iff _ 253).0 full))
              (stuff_loop-encoding rest (done ++ (0xFF ∷ whole)) u' [] us back (omega arith) (
                  ground (
                    arith,
                    e,
                    length-append whole (encoding [] rest),
                    length-append block (byte ∷ []),
                  ))
                ∙ ap some (rw e (regroup done (0xFF ∷ whole) (encoding [] rest) (0 ∷ back))))
        | inr short ↦
            let e = encoding-short block byte rest data_byte short in
            let whole = block ++ (byte ∷ []) in
            stuff_loop_step _ byte rest
              (stuff_byte-short done old block u ((u' ∷ us) ++ back) byte data_byte (ground arith))
              (rw e (
                stuff_loop-encoding rest done old whole (u' ∷ us) back
                  (ground (arith, length-append block (byte ∷ [])))
                  (ground (arith, e, length-append block (byte ∷ [])))))
      ]
    ]
  where
    regroup : (a b c d : List ℕ) → (a ++ b) ++ (c ++ d) ≡ a ++ ((b ++ c) ++ d)
    regroup a b c d = simp append_assoc

-- `StuffData` writes into the array what `COBS::encode` writes, and leaves the rest of it alone.
-- No write goes past the end of an array that has room for the encoding and its zero.
pub stuff_data-encode :
    (input used back : List ℕ)
    → length used ≡ length (encode input).1
    → stuff_data input (used ++ back) ≡ some ((encode input).1 ++ back)
unfolding stuff_data
stuff_data-encode input [] back room = absurd (
    omega (
      arith,
      length-append (encoding [] input) (0 ∷ []),
      ap (λ t. length t.1) (encode-encoding input),
    ))
stuff_data-encode input (u ∷ us) back room =
    let written = ap (λ t. t.1) (encode-encoding input) in
    stuff_loop-encoding input [] u [] us back (omega arith)
      (omega (arith, length-append (encoding [] input) (0 ∷ []), ap (λ t. length t) written))
    ∙ ap some (rw (written, append_assoc))
