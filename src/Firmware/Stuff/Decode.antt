-- ===== src/Firmware/Stuff/Decode.antt =====
-- `UnStuffData` decodes as `COBS::decode` does.
use swagger.Prelude.{
  ℕ, zero, suc, ◌+◌, ◌-◌, ◌≤◌, ◌<◌, ◌≡◌, refl, ◌∙◌, inl, inr, true, Option, some, List, [], ◌∷◌,
  ◌++◌, append_assoc, arith, ltb, if◌then◌else◌, Bool-cases, length, length-append, drop, drop-suc,
}
use swagger.Cobs.{decode, decode_loop, copy_run}
use swagger.Cobs.RoundTrip.{length-copy_run, decode_loop_step, decode_loop_end, decode_of_loop}
use swagger.Firmware.Stuff.{store, copy_bytes, close_block, unstuff_loop, unstuff_data}
use swagger.Firmware.Stuff.Encode.{store-append}

-- An array whose first cells were overwritten by `out`.
abbrev pub overlay : (out array : List ℕ) → List ℕ
overlay out array = out ++ drop (length out) array

unstuff_loop_end : (fuel : ℕ) (out : List ℕ × ℕ) → unstuff_loop fuel [] out ≡ some out
unfolding unstuff_loop
unstuff_loop_end zero out = refl
unstuff_loop_end (suc fuel) out = refl

unstuff_loop_step :
    (fuel code : ℕ) (rest : List ℕ) (out : List ℕ × ℕ) {left : List ℕ} {out' out'' : List ℕ × ℕ}
    {result : Option (List ℕ × ℕ)}
    → copy_bytes (code - 1) rest out ≡ some (left, out')
    → close_block code out' ≡ some out''
    → unstuff_loop fuel left out'' ≡ result
    → unstuff_loop (suc fuel) (code ∷ rest) out ≡ result
unfolding unstuff_loop
unstuff_loop_step fuel code rest out copies closes h = rw (copies, closes) h

module _ (array : List ℕ) where
  store-overlay :
      (out : List ℕ) (v : ℕ)
      → length out < length array
      → store (overlay out array) (length out) v ≡ some (overlay (out ++ (v ∷ [])) array)
  store-overlay out v h =
      let (x, e) = drop-suc (length out) array h in
      let len : length (out ++ (v ∷ [])) ≡ suc (length out) =
        omega (arith, length-append out (v ∷ [])) in
      rw (len, e, append_assoc) (store-append out (drop (suc (length out)) array) x v)

  copy_bytes-copy_run :
      (rounds : ℕ) (input out : List ℕ)
      → length (copy_run rounds input out).0 ≤ length array
      → let r = copy_run rounds input out in
        copy_bytes rounds input (overlay out array, length out)
        ≡ some (r.1, (overlay r.0 array, length r.0))
  unfolding copy_bytes copy_run
  copy_bytes-copy_run zero input out h = refl
  copy_bytes-copy_run (suc rounds) [] out h = refl
  copy_bytes-copy_run (suc rounds) (byte ∷ rest) out h =
      let out' = out ++ (byte ∷ []) in
      let room : length out < length array =
        omega (arith, length-copy_run rounds rest out', length-append out (byte ∷ [])) in
      let count : length out + 1 ≡ length out' = omega (arith, length-append out (byte ∷ [])) in
      rw (store-overlay out byte room, count) (copy_bytes-copy_run rounds rest out' h)

  close_block-overlay :
      (code : ℕ) (out : List ℕ)
      → let out' = if ltb code 0xFF then out ++ (0 ∷ []) else out in
        length out' ≤ length array
        → close_block code (overlay out array, length out) ≡ some (overlay out' array, length out')
  unfolding close_block
  close_block-overlay code out h = elim (Bool-cases (ltb code 0xFF)) [
    | inl short ↦
        let h' = rw short at h in
        let count = length-append out (0 ∷ []) in
        rw (short, store-overlay out 0 (omega (arith, count, h')), count) refl
    | inr full ↦ rw full
  ]

  unstuff_loop-decode_loop :
      (fuel : ℕ) (input out : List ℕ)
      → length input ≤ fuel
      → length out + length input ≤ length array
      → (result : List ℕ) × (decode_loop fuel input out ≡ some result)
        × (unstuff_loop fuel input (overlay out array, length out)
            ≡ some (overlay result array, length result))
        × (length result ≤ length out + length input)
  unstuff_loop-decode_loop fuel [] out enough room =
      (out, decode_loop_end fuel out, unstuff_loop_end fuel _, omega arith)
  unstuff_loop-decode_loop zero (code ∷ rest) out enough room = absurd (omega arith)
  unstuff_loop-decode_loop (suc fuel) (code ∷ rest) out enough room =
      let r = copy_run (code - 1) rest out in
      let counts = length-copy_run (code - 1) rest out in
      let out' = if ltb code 0xFF then r.0 ++ (0 ∷ []) else r.0 in
      let grows : length out' ≤ length r.0 + 1 = ground (arith, length-append r.0 (0 ∷ [])) in
      let (result, decodes, unstuffs, bound) =
        unstuff_loop-decode_loop fuel r.1 out' (omega arith) (omega arith) in
      (
        result,
        decode_loop_step fuel code rest out ∙ decodes,
        unstuff_loop_step fuel code rest _ (copy_bytes-copy_run (code - 1) rest out (omega arith))
            (close_block-overlay code r.0 (omega arith)) unstuffs,
        omega arith,
      )

-- `UnStuffData` ends on every input. Into an array that is as long as its input it writes the bytes
-- that `COBS::decode` gives, which are no more than it read; it returns their number, leaves the
-- rest of the array alone and never writes past its end.
pub unstuff_data-decode :
    (input array : List ℕ)
    → length input ≤ length array
    → (outdata : List ℕ) × (decode input ≡ some (true, outdata))
      × (unstuff_data input array ≡ some (overlay outdata array, length outdata))
      × (length outdata ≤ length input)
unfolding unstuff_data
unstuff_data-decode input array room =
    let (outdata, decodes, unstuffs, bound) =
      unstuff_loop-decode_loop array (length input) input [] (omega arith) (omega arith) in
    (outdata, decode_of_loop input decodes, unstuffs, omega arith)
