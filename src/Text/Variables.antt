-- ===== src/Text/Variables.antt =====
-- The variables of a string: `ucl_check_variable_safe`, `ucl_check_variable`,
-- `ucl_expand_single_variable` and `ucl_expand_variable` of src/ucl_parser.c. A pointer into the string
-- is the list of the bytes from there to its end. The handler of unknown variables is the user's; it
-- gets a name and returns what stands for it, if anything.
pub mod Substitute
pub mod Room
mod Names
pub mod Count
mod Written
pub mod Copy
mod Examples
pub mod Agrees
use libucl.Base.{
  ℕ, zero, suc, ◌+◌, ◌-◌, Bool, true, false, ◌&&◌, ◌||◌, not, leb, ◌==◌, if◌then◌else◌, Option,
  none, some, List, [], ◌∷◌, ◌++◌, Bytes, bytes_eq, length,
}

-- `struct ucl_variable`
pub record Variable : Type 0 where
  pub var : Bytes
  pub value : Bytes

abbrev pub Handler : Type 0
Handler = Option (Bytes → Option Bytes)

-- The parser's variables and its handler
pub record Variables : Type 0 where
  pub variables : List Variable
  pub var_handler : Handler

abbrev pub dollar : ℕ
dollar = b'$'

abbrev pub obrace : ℕ
obrace = b'{'

abbrev pub ebrace : ℕ
ebrace = b'}'

abbrev is_nil : Bytes → Bool
is_nil [] = true
is_nil (c ∷ cs) = false

-- At least `var_len` bytes are left, and `memcmp` finds the name in them.
unfoldable pub is_prefix : Bytes → Bytes → Bool
is_prefix [] ys = true
is_prefix (x ∷ xs) [] = false
is_prefix (x ∷ xs) (y ∷ ys) = x == y && is_prefix xs ys

-- How many bytes a name takes, and the count of the output behind it
pub data Found : Type 0 where
  absent : Found
  found : ℕ → ℕ → Found

-- The handler's length replaces the count (`*out_len = dstlen`).
unfoldable ask_handler : Handler → Bytes → Found
ask_handler none name = absent
ask_handler (some handler) name = elim (handler name) [
  | none ↦ absent
  | some dst ↦ found (length name) (length dst)
]

-- `ucl_check_variable_safe`
unfoldable pub check_variable_safe : Handler → List Variable → Bytes → Bool → ℕ → Found
unfolding is_prefix ask_handler
check_variable_safe handler [] ptr strict out_len =
    if strict then ask_handler handler ptr else absent
check_variable_safe handler (v ∷ vs) ptr strict out_len =
    let rest = check_variable_safe handler vs ptr strict out_len in
    if (if strict then bytes_eq ptr v.var else is_prefix v.var ptr)
    then found (length v.var) (out_len + length v.value)
    else rest

-- The bytes before the first `}`
unfoldable pub closing : Bytes → Option Bytes
closing [] = none
closing (c ∷ cs) =
    let rest = closing cs in
    if c == ebrace then some [] else elim rest [ none ↦ none | some name ↦ some (c ∷ name) ]

-- How many bytes are skipped, the count of the output and whether a variable was found
pub record Checked : Type 0 where
  pub skipped : ℕ
  pub out_len : ℕ
  pub vars_found : Bool

abbrev pub checked : ℕ → ℕ → Bool → Checked
checked k n b = record { skipped = k; out_len = n; vars_found = b }

abbrev pub strict_result : Found → ℕ → Bool → Checked
strict_result absent n b = checked 1 (n + 2) b
strict_result (found k n') n b = checked (k + 2) n' true

abbrev pub plain_result : Found → ℕ → Bool → Checked
plain_result absent n b = checked 0 (n + 1) b
plain_result (found k n') n b = checked k n' true

-- `ucl_check_variable`, behind a `$` that is not the last byte
unfoldable pub check_variable : Variables → Bytes → ℕ → Bool → Checked
unfolding check_variable_safe closing
check_variable vs [] out_len vars_found = checked 0 out_len vars_found
check_variable vs (c ∷ cs) out_len vars_found =
    let safe = check_variable_safe vs.var_handler vs.variables in
    if c == obrace
    then elim (closing cs) [
      | none ↦ checked 0 (out_len + 1) vars_found
      | some name ↦ strict_result (safe name true out_len) out_len vars_found
    ]
    else if c == dollar
    then checked 1 (out_len + 1) vars_found
    else plain_result (safe (c ∷ cs) false out_len) out_len vars_found

-- The first loop of `ucl_expand_variable`, with so many bytes still to be skipped: the count of the
-- output, and whether a variable was found
unfoldable pub count : Variables → ℕ → Bytes → ℕ → Bool → ℕ × Bool
unfolding check_variable
count vs k [] out_len vars_found = (out_len, vars_found)
count vs (suc k) (c ∷ cs) out_len vars_found = count vs k cs out_len vars_found
count vs zero (c ∷ cs) out_len vars_found =
    let next =
      if c == dollar && not (is_nil cs)
      then check_variable vs cs out_len vars_found
      else checked 0 (out_len + 1) vars_found in
    count vs next.skipped cs next.out_len next.vars_found

-- What one turn of the second loop writes, and how many bytes behind the first it skips
pub record Single : Type 0 where
  pub skipped : ℕ
  pub written : Bytes

abbrev pub single : ℕ → Bytes → Single
single k out = record { skipped = k; written = out }

-- The name stands at `p`, and in braces it has a `}` behind it.
unfoldable pub stands : Bool → Bytes → Bytes → Bool
stands strict [] p = not strict || is_prefix (ebrace ∷ []) p
stands strict (x ∷ xs) [] = false
stands strict (x ∷ xs) (y ∷ ys) = x == y && stands strict xs ys

-- The first variable that stands at `p` and whose value fits into the room
unfoldable pub fitting : List Variable → Bool → Bytes → ℕ → Option Variable
unfolding stands
fitting [] strict p room = none
fitting (v ∷ vs) strict p room =
    let rest = fitting vs strict p room in
    if leb (length v.value) room && stands strict v.var p then some v else rest

-- A variable is left as it is.
unfoldable leave : Bool → ℕ → Single
leave strict room =
    if strict && leb 2 room
    then single 1 (dollar ∷ obrace ∷ [])
    else single (if strict then 2 else 0) (dollar ∷ [])

-- The handler gets everything behind `${`, and as many bytes and the brace are skipped.
unfoldable expand_handler : Handler → Bytes → ℕ → Single
unfolding leave
expand_handler none p room = leave true room
expand_handler (some handler) p room = elim (handler p) [
  | none ↦ leave true room
  | some dst ↦ if leb (length dst) room then single (length p + 2) dst else leave true room
]

-- `ucl_expand_single_variable`, behind the `$`
unfoldable pub expand_single_variable : Variables → Bytes → ℕ → Single
unfolding fitting expand_handler leave
expand_single_variable vs [] room = leave false room
expand_single_variable vs (c ∷ cs) room =
    if c == dollar
    then single 1 (dollar ∷ [])
    else if c == obrace
    then elim (fitting vs.variables true cs room) [
      | some v ↦ single (length v.var + 2) v.value
      | none ↦ expand_handler vs.var_handler cs room
    ]
    else elim (fitting vs.variables false (c ∷ cs) room) [
      | some v ↦ single (length v.var) v.value
      | none ↦ leave false room
    ]

abbrev pub and_then : Bytes → Option Bytes → Option Bytes
and_then out none = none
and_then out (some rest) = some (out ++ rest)

-- The second loop, with so many bytes still to be skipped and so much room left: all that it writes.
-- `none` stands for a loop that has stepped over the end of the string with room left, and goes on
-- with the bytes behind it.
unfoldable pub expand : Variables → ℕ → Bytes → ℕ → Option Bytes
unfolding expand_single_variable
expand vs zero [] room = some []
expand vs (suc k) [] room = if room == 0 then some [] else none
expand vs (suc k) (c ∷ cs) room = expand vs k cs room
expand vs zero (c ∷ cs) room =
    let next =
      if c == dollar && not (is_nil cs)
      then expand_single_variable vs cs room
      else single 0 (c ∷ []) in
    let rest = expand vs next.skipped cs (room - length next.written) in
    if room == 0 then some [] else and_then next.written rest

-- The string as it was, or a copy with the bytes written to it and its length
pub data Expansion : Type 0 where
  unchanged : Expansion
  expanded : Option Bytes → ℕ → Expansion

-- `ucl_expand_variable`
unfoldable pub expand_variable : Bool → Variables → Bytes → Expansion
unfolding count expand
expand_variable disable_macro vs src =
    let (out_len, vars_found) = count vs 0 src 0 false in
    if disable_macro
    then unchanged
    else if not vars_found
    then unchanged
    else expanded (expand vs 0 src out_len) out_len
