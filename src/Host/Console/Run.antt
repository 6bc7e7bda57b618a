-- ===== src/Host/Console/Run.antt =====
-- `Interactive` of `src/main.cpp`: the lines that are read are run. The virtual machine is a
-- parameter.
use swagger.Prelude.{
  ℕ, zero, suc, ◌+◌, ◌-◌, Bool, true, false, List, [], ◌∷◌, ◌++◌, ltb, ◌==◌, ◌&&◌, if◌then◌else◌,
  length, take, drop,
}
use swagger.Host.Console.{Reader, Line, line, waiting, fault, max_input, read_line}

-- What is used of the API of the virtual machine. `has_quit` is the variable that `quit` sets; `call`
-- pushes the root table and calls the closure that `compile` has pushed; `show` calls `print` with
-- the value that the call has left.
pub record Interpreter : Type 1 where
  pub State : Type 0
  pub has_quit : State → Bool
  pub get_top : State → ℕ
  pub set_top : ℕ → State → State
  pub compile : (source : List ℕ) → State → Bool × State
  pub call : (retval : Bool) → State → Bool × State
  pub show : State → State

-- The characters before the zero.
unfoldable pub c_string : List ℕ → List ℕ
c_string [] = []
c_string (c ∷ rest) = let text = c_string rest in if c == 0 then [] else c ∷ text

-- `"return ("`
abbrev pub return_open : List ℕ
return_open = 114 ∷ 101 ∷ 116 ∷ 117 ∷ 114 ∷ 110 ∷ 32 ∷ 40 ∷ []

unfoldable pub is_expression : (text : List ℕ) → Bool
is_expression [] = false
is_expression (c ∷ rest) = c == 61

-- A line that starts with `=` is an expression; what is printed into the scratch pad is cut off
-- after 1023 characters.
unfoldable pub source_of : (text : List ℕ) → List ℕ
source_of text =
    if is_expression text
    then take (max_input - 1) (return_open ++ (drop 1 text ++ (41 ∷ [])))
    else text

-- `memcpy` of an expression and its zero.
unfoldable pub copy_source : (text buffer : List ℕ) → List ℕ
copy_source text buffer =
    let source = source_of text in
    if is_expression text then source ++ (0 ∷ drop (length source + 1) buffer) else buffer

module _ (v : Interpreter) where
  -- After the call: a value that is wanted is shown, and only then `retval` is cleared.
  unfoldable pub after_call : (retval : Bool) → Bool × v.State → Bool × v.State
  after_call retval (called, s) = if called && retval then (false, v.show s) else (retval, s)

  -- A text that does not compile leaves `retval` as it is.
  unfoldable pub after_compile : (retval : Bool) → Bool × v.State → Bool × v.State
  after_compile retval (compiled, s) =
      if compiled then after_call retval (v.call retval s) else (retval, s)

  unfoldable pub restore : (top : ℕ) → Bool × v.State → Bool × v.State
  restore top (retval, s) = (retval, v.set_top top s)

  -- The line in the buffer is run.
  unfoldable pub run_text : (text : List ℕ) → Bool × v.State → Bool × v.State
  run_text text (retval, s) =
      let retval' = if is_expression text then true else retval in
      if ltb 0 (length (source_of text))
      then restore (v.get_top s) (after_compile retval' (v.compile (source_of text) s))
      else (retval', s)

  -- How it ends: by `quit`, or the input is used up; or a line runs over the buffer, or there is no
  -- fuel for a line.
  pub data Stopped : Type 0 where
    quitted : v.State → Stopped
    used_up : Bool × v.State → Stopped
    overrun : Stopped
    out_of_fuel : Stopped

  -- What follows a line; `next` is the loop from there.
  unfoldable pub run_line :
      (next : (input : List ℕ) → Reader → Bool × v.State → Stopped)
      → Bool × v.State
      → Line
      → Stopped
  run_line next (retval, s) fault = overrun
  run_line next (retval, s) (waiting r) = used_up (retval, s)
  run_line next (retval, s) (line r rest) =
      let text = c_string r.buffer in
      next rest (record r { buffer = copy_source text r.buffer }) (run_text text (retval, s))

  -- `while (!done)`, with fuel for the lines.
  unfoldable pub interactive_loop : (fuel : ℕ) (input : List ℕ) → Reader → Bool × v.State → Stopped
  interactive_loop zero input r (retval, s) = out_of_fuel
  interactive_loop (suc fuel) input r (retval, s) =
      let next = interactive_loop fuel in
      elim (v.has_quit s) [
        | true ↦ quitted s
        | false ↦ run_line next (retval, s) (read_line input r)
      ]
