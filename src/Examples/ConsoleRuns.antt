-- ===== src/Examples/ConsoleRuns.antt =====
-- The properties of the console at concrete inputs.
use swagger.Prelude.{
  All, leb, ℕ, ◌≤◌, ◌≡◌, refl, true, false, List, [], ◌∷◌, ◌++◌, arith, length, replicate,
}
use swagger.Host.Console.{Reader, fault, pos, is_zero, read_line}
use swagger.Host.Console.Plain.{IsPlain}
use swagger.Host.Console.Run.{
  Interpreter, c_string, is_expression, source_of, return_open, run_text, after_compile, after_call,
  restore, quitted, interactive_loop,
}
use swagger.Host.Console.Lines.{IsLine, typed, run_lines, interactive_loop-lines}
use swagger.Host.Console.Overflow.{read_line_overflow}

abbrev reader : Reader
reader = record { buffer = replicate 1024 0; i = 0; blocks = pos 0; string = false }

read_line_overflow_example : read_line (replicate 1025 123 ++ (10 ∷ [])) reader ≡ fault
read_line_overflow_example = read_line_overflow reader (10 ∷ []) refl

IsPlain-letter : (c : ℕ) → 40 ≤ c → c ≤ 91 → IsPlain c
IsPlain-letter c lo hi = record {
  no_newline = ground (arith, lo);
  no_backslash = ground (arith, hi);
  no_opening = ground (arith, hi);
  no_closing = ground (arith, hi);
  no_quote = ground (arith, lo);
  no_apostrophe = ground (arith, lo);
}

outside : is_zero reader.blocks ≡ true
unfolding is_zero
outside = refl

-- A virtual machine that keeps what it has run, and quits after two lines.
abbrev recorder : Interpreter
recorder = record {
  State = List (List ℕ);
  has_quit = λ s. leb 2 (length s);
  get_top = λ s. 0;
  set_top = λ top s. s;
  compile = λ source s. (true, source ∷ s);
  call = λ retval s. (true, s);
  show = λ s. s;
}

abbrev three_lines : List (List ℕ)
three_lines = (61 ∷ 65 ∷ []) ∷ (66 ∷ []) ∷ (67 ∷ []) ∷ []

three_lines-IsLine : All IsLine three_lines
unfolding IsLine
three_lines-IsLine =
    let letter : (c : ℕ) → 40 ≤ c → c ≤ 91 → IsPlain c = IsPlain-letter in
    (
      (
        (letter 61 (omega arith) (omega arith), (letter 65 (omega arith) (omega arith), tt)),
        omega arith,
      ),
      (
        ((letter 66 (omega arith) (omega arith), tt), omega arith),
        (((letter 67 (omega arith) (omega arith), tt), omega arith), tt),
      ),
    )

interactive_loop-lines_example :
    interactive_loop recorder 4 (typed three_lines) reader (false, [])
    ≡ run_lines recorder three_lines (false, [])
interactive_loop-lines_example =
    interactive_loop-lines recorder 4 three_lines reader false [] three_lines-IsLine outside refl
      (omega arith)

-- The expression is wrapped, its value shown, and the third line is not run.
runs_two :
    run_lines recorder three_lines (false, [])
    ≡ quitted ((66 ∷ []) ∷ (return_open ++ (65 ∷ 41 ∷ [])) ∷ [])
unfolding run_lines run_text c_string is_expression source_of after_compile after_call restore
runs_two = refl
