-- ===== src/Host/Console/Plain.antt =====
-- The line reader on a line of plain characters.
use swagger.Prelude.{
  ℕ, suc, ◌+◌, ◌-◌, ◌≤◌, ◌<◌, ◌≡◌, refl, true, false, some, List, [], ◌∷◌, ◌++◌, arith, ltb, leb,
  ◌==◌, ◌&&◌, length, length-append, set-append, get_or, drop, All, All-append, append_assoc,
  append-nil,
}
use swagger.Firmware.Stuff.{store}
use swagger.Host.Console.{
  Reader, going, left, line, put_char, newline, read_char, is_zero, terminate, continue_line,
  read_chars, read_line,
}

-- Neither a newline, a backslash, a brace nor a quote.
pub record IsPlain (c : ℕ) : Type 0 where
  pub no_newline : (c == 10) ≡ false
  pub no_backslash : (c == 92) ≡ false
  pub no_opening : (c == 123) ≡ false
  pub no_closing : (c == 125) ≡ false
  pub no_quote : (c == 34) ≡ false
  pub no_apostrophe : (c == 39) ≡ false

-- Some characters have been read, and the buffer has other contents after them.
abbrev inside : (kept tail : List ℕ) → Reader → Reader
inside kept tail r = record r { buffer = kept ++ tail; i = length kept }

store-inside :
    (kept tail : List ℕ) (old c : ℕ)
    → store (kept ++ (old ∷ tail)) (length kept) c ≡ some (kept ++ (c ∷ tail))
store-inside kept tail old c =
    let room : ltb (length kept) (length (kept ++ (old ∷ tail))) ≡ true =
      ground (arith, length-append kept (old ∷ tail)) in
    rw (room, set-append kept tail old c) refl

last_char :
    (c : ℕ) (kept tail : List ℕ)
    → IsPlain c
    → All IsPlain kept
    → (get_or (c ∷ (kept ++ tail)) (length kept) 0 == 92) ≡ false
last_char c [] tail p plain = p.no_backslash
last_char c (d ∷ kept) tail p (q, plain) = last_char d kept tail q plain

last_kept :
    (kept tail : List ℕ)
    → All IsPlain kept
    → (ltb 0 (length kept) && (get_or (kept ++ tail) (length kept - 1) 0 == 92)) ≡ false
last_kept [] tail plain = refl
last_kept (c ∷ kept) tail (p, plain) =
    let some_kept : ltb 0 (suc (length kept)) ≡ true = ground arith in
    let last : suc (length kept) - 1 ≡ length kept = omega arith in
    rw (some_kept, last) (last_char c kept tail p plain)

module _ (r : Reader) (rest : List ℕ) where
  read_char-plain :
      (kept tail : List ℕ) (old c : ℕ)
      → IsPlain c
      → length kept < 1023
      → read_char c (inside kept (old ∷ tail) r) ≡ some (going (inside (kept ++ (c ∷ [])) tail r))
  unfolding read_char put_char
  read_char-plain kept tail old c p room =
      let fits : leb 1023 (length kept) ≡ false = ground (arith, room) in
      let size : length kept + 1 ≡ length (kept ++ (c ∷ [])) =
        omega (arith, length-append kept (c ∷ [])) in
      rw
        (
          p.no_newline,
          p.no_closing,
          p.no_opening,
          p.no_quote,
          p.no_apostrophe,
          fits,
          store-inside kept tail old c,
          size,
          append_assoc,
        )
        refl

  read_char-newline :
      (kept tail : List ℕ)
      → All IsPlain kept
      → is_zero r.blocks ≡ true
      → read_char 10 (inside kept tail r) ≡ some (left (inside kept tail r))
  unfolding read_char newline
  read_char-newline kept tail plain outside = rw (last_kept kept tail plain, outside) refl

  terminate-inside :
      (kept tail : List ℕ) (old : ℕ)
      → terminate (inside kept (old ∷ tail) r) rest
        ≡ line (record r { buffer = kept ++ (0 ∷ tail); i = length kept }) rest
  unfolding terminate
  terminate-inside kept tail old = rw (terminate, store-inside kept tail old 0) refl

  read_chars_step :
      (c : ℕ) (input : List ℕ) (s : Reader)
      → read_chars (c ∷ input) s ≡ continue_line (read_chars input) input (read_char c s)
  unfolding read_chars
  read_chars_step c input s = refl

  read_chars-plain :
      (chars kept tail : List ℕ)
      → All IsPlain kept
      → All IsPlain chars
      → is_zero r.blocks ≡ true
      → length kept + length chars ≤ 1023
      → length chars < length tail
      → read_chars (chars ++ (10 ∷ rest)) (inside kept tail r)
        ≡ line
            (record r {
              buffer = (kept ++ chars) ++ (0 ∷ drop (suc (length chars)) tail);
              i = length (kept ++ chars);
            })
            rest
  unfolding continue_line
  read_chars-plain chars kept [] plain more outside room fits = absurd (omega arith)
  read_chars-plain [] kept (old ∷ tail) plain more outside room fits =
      rw
        (
          read_chars_step 10 rest (inside kept (old ∷ tail) r),
          read_char-newline kept (old ∷ tail) plain outside,
          append-nil,
        )
        (terminate-inside kept tail old)
  read_chars-plain (c ∷ chars) kept (old ∷ tail) plain (p, more) outside room fits =
      let kept' = kept ++ (c ∷ []) in
      let size : length kept' ≡ length kept + 1 = length-append kept (c ∷ []) in
      let joined : kept' ++ chars ≡ kept ++ (c ∷ chars) = append_assoc kept (c ∷ []) chars in
      rw
        (
          read_chars_step c (chars ++ (10 ∷ rest)) (inside kept (old ∷ tail) r),
          read_char-plain kept tail old c p (omega arith),
        )
        (rw joined at (
          read_chars-plain chars kept' tail (All-append IsPlain kept (c ∷ []) plain (p, tt)) more
            outside (omega (arith, size)) (omega arith)))

-- Outside of a block, a line of at most 1023 plain characters is stored in the buffer with a zero
-- after it, its newline taken from the input and no more; the rest of the buffer stays, and so does
-- what the reader knows of blocks and strings.
pub read_line-plain :
    (r : Reader) (chars rest : List ℕ)
    → All IsPlain chars
    → is_zero r.blocks ≡ true
    → length chars ≤ 1023
    → length chars < length r.buffer
    → read_line (chars ++ (10 ∷ rest)) r
      ≡ line
          (record r {
            buffer = chars ++ (0 ∷ drop (suc (length chars)) r.buffer);
            i = length chars;
          })
          rest
unfolding read_line
read_line-plain r chars rest plain outside room fits =
    read_chars-plain r rest chars [] r.buffer tt plain outside (omega arith) fits
