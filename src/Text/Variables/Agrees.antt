-- ===== src/Text/Variables/Agrees.antt =====
-- Without a handler, the two loops of `ucl_expand_variable` in src/ucl_parser.c do what the one pass of
-- Substitute does.
use libucl.Base.{
  ◌+◌, ◌≡◌, refl, ap, ◌∙◌, Bool, true, false, not, if◌then◌else◌, some, List, Bytes, length, All,
  arith,
}
use libucl.Text.Variables.{Variable, unchanged, expanded, expand_variable}
use libucl.Text.Variables.Substitute.{substitute_from, substitute, has_variables, NoBrace}
use libucl.Text.Variables.Count.{no_handler, tally, count_substitute}
use libucl.Text.Variables.Written.{expand_substitute}

-- Without a handler, and when no variable has a closing brace in its name, a string is expanded to
-- what one pass from left to right gives, and the length that is returned is that of the bytes written;
-- a string without variables, or one that macros are disabled for, is left as it is.
pub expand_variable_lem :
    (vs : List Variable) (disable_macro : Bool) (src : Bytes)
    → All NoBrace vs
    → expand_variable disable_macro (no_handler vs) src ≡ (
        if disable_macro
        then unchanged
        else if not (has_variables vs src)
        then unchanged
        else expanded (some (substitute vs src)) (length (substitute vs src)))
unfolding expand_variable substitute has_variables
expand_variable_lem vs true src clean = refl
expand_variable_lem vs false src clean =
    let lengths : 0 + length (substitute_from vs 0 src).0 ≡ length (substitute_from vs 0 src).0 =
      omega arith in
    let counts =
      count_substitute vs 0 src 0 false ∙ ap (λ n. tally n (substitute_from vs 0 src).1) lengths in
    let writes =
      expand_substitute vs 0 src (length (substitute_from vs 0 src).0) clean (omega arith)
        (omega arith) in
    rw (counts, writes)
