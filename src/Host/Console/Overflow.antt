-- ===== src/Host/Console/Overflow.antt =====
-- The line reader does not test for room on braces.
use swagger.Prelude.{
  ℕ, zero, suc, ◌+◌, ◌≤◌, ◌<◌, ◌≡◌, refl, true, false, none, some, List, ◌∷◌, ◌++◌, arith, ltb,
  length, length-set, set, replicate,
}
use swagger.Host.Console.{
  Reader, going, fault, put_char, read_char, negate, increment, continue_line, read_chars,
  read_line,
}

put_char-room :
    (c : ℕ) (r : Reader)
    → r.i < length r.buffer
    → put_char c r ≡ some (going (record r { buffer = set r.buffer r.i c; i = r.i + 1 }))
unfolding put_char
put_char-room c r h =
    let room : ltb r.i (length r.buffer) ≡ true = ground (arith, h) in rw room refl

put_char-full : (c : ℕ) (r : Reader) → length r.buffer ≤ r.i → put_char c r ≡ none
unfolding put_char
put_char-full c r h =
    let full : ltb r.i (length r.buffer) ≡ false = ground (arith, h) in rw full refl

read_char-brace :
    (r : Reader)
    → r.string ≡ false
    → read_char 123 r ≡ put_char 123 (record r { blocks = increment r.blocks })
unfolding read_char negate
read_char-brace r e = rw e refl

read_chars_step :
    (c : ℕ) (rest : List ℕ) (r : Reader)
    → read_chars (c ∷ rest) r ≡ continue_line (read_chars rest) rest (read_char c r)
unfolding read_chars
read_chars_step c rest r = refl

-- With `room` places left, one brace more is written past the end.
read_chars-braces :
    (room : ℕ) (rest : List ℕ) (r : Reader)
    → r.string ≡ false
    → r.i + room ≡ length r.buffer
    → read_chars (replicate (suc room) 123 ++ rest) r ≡ fault
unfolding continue_line
read_chars-braces zero rest r e h =
    let full : length r.buffer ≤ r.i = omega arith in
    rw
      (
        read_chars_step 123 rest r,
        read_char-brace r e,
        put_char-full 123 (record r { blocks = increment r.blocks }) full,
      )
      refl
read_chars-braces (suc room) rest r e h =
    let fits : r.i < length r.buffer = omega arith in
    rw
      (
        read_chars_step 123 (replicate (suc room) 123 ++ rest) r,
        read_char-brace r e,
        put_char-room 123 (record r { blocks = increment r.blocks }) fits,
      )
      (read_chars-braces room rest
        (record {
          buffer = set r.buffer r.i 123;
          i = r.i + 1;
          blocks = increment r.blocks;
          string = r.string;
        })
        e (omega (arith, length-set r.buffer r.i 123)))

-- Outside of a string, a line that starts with more opening braces than the buffer has places makes
-- the line reader write past the end of the buffer.
pub read_line_overflow :
    (r : Reader) (rest : List ℕ)
    → r.string ≡ false
    → read_line (replicate (suc (length r.buffer)) 123 ++ rest) r ≡ fault
unfolding read_line
read_line_overflow r rest e =
    read_chars-braces (length r.buffer) rest (record r { i = 0 }) e (omega arith)
