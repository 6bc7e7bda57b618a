-- ===== src/Host/Console/Lines.antt =====
-- Plain lines at the console: each is run, up to the one that quits.
use swagger.Prelude.{
  ℕ, zero, suc, ◌+◌, ◌≤◌, ◌<◌, ◌≡◌, refl, inl, inr, Bool, true, false, List, [], ◌∷◌, ◌++◌, arith,
  ◌==◌, if◌then◌else◌, Bool-cases, length, take, drop, length-append, length-drop, length-take, All,
}
use swagger.Host.Console.{Reader, Line, is_zero, read_line, read_chars}
use swagger.Host.Console.Plain.{IsPlain, read_line-plain}
use swagger.Host.Console.Run.{
  Interpreter, return_open, c_string, is_expression, source_of, copy_source, run_text, Stopped,
  quitted, used_up, run_line, interactive_loop,
}

-- A line that can be typed without a block: plain characters, 1023 at most.
unfoldable pub IsLine : List ℕ → Type 0
IsLine chars = All IsPlain chars × (length chars ≤ 1023)

-- The lines, each with its newline.
unfoldable pub typed : List (List ℕ) → List ℕ
typed [] = []
typed (chars ∷ lines) = chars ++ (10 ∷ typed lines)

c_string-terminated : (chars rest : List ℕ) → c_string (chars ++ (0 ∷ rest)) ≡ c_string chars
unfolding c_string
c_string-terminated [] rest = refl
c_string-terminated (c ∷ chars) rest = rw (c_string-terminated chars rest) refl

length-c_string : (chars : List ℕ) → length (c_string chars) ≤ length chars
unfolding c_string
length-c_string [] = omega arith
length-c_string (c ∷ chars) = elim (Bool-cases (c == 0)) [
  | inl e ↦ rw e (omega arith)
  | inr e ↦ rw e (omega (arith, length-c_string chars))
]

overlaid-length :
    (source buffer : List ℕ)
    → length source ≤ 1023
    → length buffer ≡ 1024
    → length (source ++ (0 ∷ drop (length source + 1) buffer)) ≡ 1024
overlaid-length source buffer short size = omega (
  arith,
  length-append source (0 ∷ drop (length source + 1) buffer),
  length-drop (length source + 1) buffer,
)

copy_source-length :
    (text buffer : List ℕ) → length buffer ≡ 1024 → length (copy_source text buffer) ≡ 1024
unfolding copy_source source_of
copy_source-length text buffer size = elim (Bool-cases (is_expression text)) [
  | inr e ↦ rw e size
  | inl e ↦ rw e (
      let source = take 1023 (return_open ++ (drop 1 text ++ (41 ∷ []))) in
      overlaid-length source buffer
        (omega (arith, length-take 1023 (return_open ++ (drop 1 text ++ (41 ∷ []))))) size)
]

module _ (v : Interpreter) where
  -- The lines one after the other.
  unfoldable pub run_lines : List (List ℕ) → Bool × v.State → Stopped v
  run_lines [] (retval, s) = if v.has_quit s then quitted s else used_up (retval, s)
  run_lines (chars ∷ lines) (retval, s) =
      let rest = run_lines lines (run_text v (c_string chars) (retval, s)) in
      if v.has_quit s then quitted s else rest

  interactive_loop_step :
      (fuel : ℕ) (input : List ℕ) (r : Reader) (retval : Bool) (s : v.State) (l : Line)
      → v.has_quit s ≡ false
      → read_line input r ≡ l
      → interactive_loop v (suc fuel) input r (retval, s)
        ≡ run_line v (interactive_loop v fuel) (retval, s) l
  unfolding interactive_loop
  interactive_loop_step fuel input r retval s l runs e = rw (interactive_loop, runs, e) refl

  interactive_loop_quit :
      (fuel : ℕ) (input : List ℕ) (r : Reader) (retval : Bool) (s : v.State)
      → v.has_quit s ≡ true
      → interactive_loop v (suc fuel) input r (retval, s) ≡ quitted s
  unfolding interactive_loop
  interactive_loop_quit fuel input r retval s quits = rw (interactive_loop, quits) refl

  -- Lines that are typed at the console outside of a block, of at most 1023 plain characters each, are
  -- run one after the other, with what `retval` and the virtual machine are after the line before, up
  -- to the first after which `done` is set; no line runs over the buffer, and none is lost or joined
  -- with another. (The buffer has 1024 places; the fuel is more than the number of lines.)
  pub interactive_loop-lines :
      (fuel : ℕ) (lines : List (List ℕ)) (r : Reader) (retval : Bool) (s : v.State)
      → All IsLine lines
      → is_zero r.blocks ≡ true
      → length r.buffer ≡ 1024
      → length lines < fuel
      → interactive_loop v fuel (typed lines) r (retval, s) ≡ run_lines lines (retval, s)
  unfolding run_lines typed IsLine run_line read_line read_chars
  interactive_loop-lines zero lines r retval s valid outside size enough = absurd (omega arith)
  interactive_loop-lines (suc fuel) [] r retval s valid outside size enough =
      elim (Bool-cases (v.has_quit s)) [
        | inl e ↦ rw (interactive_loop_quit fuel [] r retval s e, e) refl
        | inr e ↦ rw (interactive_loop_step fuel [] r retval s _ e refl, e) refl
      ]
  interactive_loop-lines (suc fuel) (chars ∷ lines) r retval s ((plain, short), valid) outside size
        enough =
      elim (Bool-cases (v.has_quit s)) [
        | inl e ↦ rw (interactive_loop_quit fuel _ r retval s e, e) refl
        | inr e ↦
            let buffer = chars ++ (0 ∷ drop (suc (length chars)) r.buffer) in
            let r' = record r { buffer = copy_source (c_string chars) buffer; i = length chars } in
            let step =
              interactive_loop_step fuel _ r retval s _ e
                (read_line-plain r chars (typed lines) plain outside short (omega arith)) in
            let filled : length buffer ≡ 1024 = omega (
              arith,
              length-append chars (0 ∷ drop (suc (length chars)) r.buffer),
              length-drop (suc (length chars)) r.buffer,
            ) in
            let after = run_text v (c_string chars) (retval, s) in
            rw (step, e, c_string-terminated chars (drop (suc (length chars)) r.buffer))
              (interactive_loop-lines fuel lines r' after.0 after.1 valid outside
                (copy_source-length (c_string chars) buffer filled) (omega arith))
      ]
