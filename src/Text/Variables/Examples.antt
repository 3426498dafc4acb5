-- ===== src/Text/Variables/Examples.antt =====
-- Runs of the expansion of variables, and uses of its theorems, on concrete input.
use libucl.Base.{
  ℕ, ◌≡◌, ◌≤◌, refl, true, false, not, if◌then◌else◌, none, some, List, [], ◌∷◌, Bytes, length,
  bytes_eq, ◌==◌,
}
use libucl.Text.Variables.{
  Variable, Variables, unchanged, expanded, count, expand, expand_variable, check_variable,
  check_variable_safe, closing, ask_handler, expand_single_variable, fitting, stands, is_prefix,
  expand_handler, leave,
}
use libucl.Text.Variables.Substitute.{
  has_variables, substitute, substitute_from, piece_at, named, leading, first,
}
use libucl.Text.Variables.Count.{no_handler}
use libucl.Text.Variables.Room.{expand_variable_fits}
use libucl.Text.Variables.Agrees.{expand_variable_lem}
use libucl.Text.Variables.Copy.{copy_or_store_ptr, copy_or_store_ptr-zerocopy}

-- What a run computes with.
runs : Unit {0}
unfolding check_variable_safe ask_handler is_prefix closing check_variable count stands fitting
    leave expand_handler expand_single_variable expand expand_variable first named leading piece_at
    substitute_from substitute has_variables bytes_eq
runs = tt

abbrev variables : List Variable
variables =
    record { var = b'A' ∷ b'B' ∷ []; value = b'x' ∷ [] }
    ∷ record { var = b'A' ∷ []; value = b'4' ∷ b'2' ∷ [] }
    ∷ []

-- $A${AB}$${B}$ stands for 42x${B}$.
abbrev text : Bytes
text = b'$' ∷ b'A' ∷ b'$' ∷ b'{' ∷ b'A' ∷ b'B' ∷ b'}' ∷ b'$' ∷ b'$' ∷ b'{' ∷ b'B' ∷ b'}' ∷ b'$' ∷ []

abbrev result : Bytes
result = b'4' ∷ b'2' ∷ b'x' ∷ b'$' ∷ b'{' ∷ b'B' ∷ b'}' ∷ b'$' ∷ []

expands : expand_variable false (no_handler variables) text ≡ expanded (some result) 8
unfolding runs
expands = refl

-- Without a variable, two dollars stay two.
stays : expand_variable false (no_handler variables) (b'$' ∷ b'$' ∷ []) ≡ unchanged
unfolding runs
stays = refl

-- A handler that knows every name
abbrev knows_all : Variables
knows_all = record { variables = []; var_handler = some (λ name. some (b'v' ∷ [])) }

-- The second loop steps over the end of ${X}b, with room for one byte left.
overruns : expand_variable false knows_all (b'$' ∷ b'{' ∷ b'X' ∷ b'}' ∷ b'b' ∷ []) ≡ expanded none 2
unfolding runs
overruns = refl

-- A text before the variable is not counted, and the value no longer fits.
forgets :
    expand_variable false knows_all (b'b' ∷ b'$' ∷ b'{' ∷ b'X' ∷ b'}' ∷ [])
    ≡ expanded (some (b'b' ∷ [])) 1
unfolding runs
forgets = refl

-- A name with a closing brace is counted as it stands and written as the value.
braced_name :
    expand_variable false
      (no_handler (record { var = b'}' ∷ []; value = b'x' ∷ [] } ∷ variables))
      (b'$' ∷ b'{' ∷ b'}' ∷ b'}' ∷ b'$' ∷ b'A' ∷ [])
    ≡ expanded (some (b'x' ∷ b'4' ∷ b'2' ∷ [])) 6
unfolding runs
braced_name = refl

expand_variable_lem_example : expand_variable false (no_handler variables) text ≡ (
    if not (has_variables variables text)
    then unchanged
    else expanded (some (substitute variables text)) (length (substitute variables text)))
expand_variable_lem_example =
    expand_variable_lem variables false text ((refl, (refl, tt)), ((refl, tt), tt))

abbrev only_b : Bytes
only_b = b'b' ∷ []

expand_variable_fits_example : length only_b ≤ 1
expand_variable_fits_example =
    expand_variable_fits knows_all false (b'b' ∷ b'$' ∷ b'{' ∷ b'X' ∷ b'}' ∷ []) forgets

-- Case is folded for ASCII letters only.
abbrev to_lower : ℕ → ℕ
to_lower c = if c == b'A' then b'a' else c

copy_or_store_ptr-zerocopy_example :
    copy_or_store_ptr to_lower true false (no_handler variables) text false true true false
    ≡ copy_or_store_ptr to_lower false false (no_handler variables) text false true true false
copy_or_store_ptr-zerocopy_example =
    copy_or_store_ptr-zerocopy to_lower false variables text false true true false
