-- ===== src/Cobs/SelfTest.antt =====
-- `COBS::test` of `src/cobs.cpp`.
use swagger.Prelude.{ℕ, Bool, true, false, none, some, List, [], ◌∷◌, ◌++◌, ◌&&◌, ◌==◌, init}
use swagger.Prelude.{if◌then◌else◌}
use swagger.Cobs.{encode, decode}

-- `==` of vectors.
pub same_bytes : List ℕ → List ℕ → Bool
same_bytes [] [] = true
same_bytes (x ∷ xs) (y ∷ ys) = (x == y) && same_bytes xs ys
same_bytes xs ys = false

-- One of the three tests; in it `outdata` loses its terminator before it is decoded.
pub check_round : (indata cmpdata : List ℕ) → Bool
unfolding same_bytes
check_round indata cmpdata =
    let (done, outdata) = encode indata in
    if same_bytes cmpdata outdata
    then (elim (decode (init outdata)) [
      | none ↦ false
      | some (_, decoded) ↦ same_bytes decoded (indata ++ (0 ∷ []))
    ])
    else false

unfoldable pub test : Bool
unfolding check_round
test =
    check_round (0x11 ∷ 0x22 ∷ 0x33 ∷ 0x44 ∷ []) (0x05 ∷ 0x11 ∷ 0x22 ∷ 0x33 ∷ 0x44 ∷ 0x00 ∷ [])
    && check_round (0x11 ∷ 0x00 ∷ 0x00 ∷ 0x00 ∷ []) (0x02 ∷ 0x11 ∷ 0x01 ∷ 0x01 ∷ 0x01 ∷ 0x00 ∷ [])
    && check_round (0x11 ∷ 0x22 ∷ 0x00 ∷ 0x33 ∷ []) (0x03 ∷ 0x11 ∷ 0x22 ∷ 0x02 ∷ 0x33 ∷ 0x00 ∷ [])
