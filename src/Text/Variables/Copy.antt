-- ===== src/Text/Variables/Copy.antt =====
-- `ucl_copy_or_store_ptr` of src/ucl_parser.c, with `ucl_strlcpy_tolower` of src/ucl_util.c: the copy of a
-- string, its escapes and its variables, or the string itself in the chunk. `tolower` is the C
-- library's. Memory is never short.
use libucl.Base.{
  ℕ, ◌==◌, ◌≡◌, refl, ap, sym, ◌∙◌, Bool, true, false, ◌&&◌, ◌||◌, not, inl, inr, if◌then◌else◌,
  Option, none, some, List, [], ◌∷◌, zero, suc, Bytes, length, Bool-cases, Option-cases,
}
use libucl.Text.Unescape.{unescape_json_string, unescape_squoted_string}
use libucl.Text.Variables.{
  Variable, Variables, Expansion, unchanged, expanded, expand_variable, closing, dollar, obrace,
}
use libucl.Text.Variables.Substitute.{
  substitute_from, has_variables, piece_at, leading, named, first,
}
use libucl.Text.Variables.Count.{no_handler}
use libucl.Text.Variables.Agrees.{expand_variable_lem}

-- The copy ends behind a null byte.
unfoldable pub strlcpy_tolower : (ℕ → ℕ) → Bytes → Bytes
strlcpy_tolower tolower [] = []
strlcpy_tolower tolower (c ∷ cs) =
    let rest = strlcpy_tolower tolower cs in if tolower c == 0 then 0 ∷ [] else tolower c ∷ rest

abbrev pub is_registered : List Variable → Bool
is_registered [] = false
is_registered (v ∷ vs) = true

-- The bytes of the value and the length that it is given
abbrev pub keep : Bytes → Option Bytes × ℕ
keep s = (some s, length s)

abbrev pub from_expansion : Bytes → Expansion → Option Bytes × ℕ
from_expansion s unchanged = keep s
from_expansion s (expanded out out_len) = (out, out_len)

-- What the copy does with the string
unfoldable pub copy_string :
    (ℕ → ℕ) → Bool → Variables → Bytes → Bool → Bool → Bool → Bool → Option Bytes × ℕ
unfolding strlcpy_tolower
copy_string tolower disable_macro vs src need_unescape need_lowercase need_expand unescape_squote =
    let copied = if need_lowercase then strlcpy_tolower tolower src else src in
    let plain =
      if need_unescape
      then (if unescape_squote then unescape_squoted_string copied else unescape_json_string copied)
      else copied in
    if need_expand
    then from_expansion plain (expand_variable disable_macro vs plain)
    else keep plain

-- `ucl_copy_or_store_ptr`
unfoldable pub copy_or_store_ptr :
    (ℕ → ℕ) → Bool → Bool → Variables → Bytes → Bool → Bool → Bool → Bool → Option Bytes × ℕ
unfolding copy_string
copy_or_store_ptr tolower zerocopy disable_macro vs src need_unescape need_lowercase need_expand
      unescape_squote =
    if need_unescape
      || need_lowercase
      || (need_expand && is_registered vs.variables)
      || not zerocopy
    then copy_string tolower disable_macro vs src need_unescape need_lowercase need_expand
        unescape_squote
    else keep src

first_nil : (p : Variable → Bool) → first p [] ≡ none
unfolding first
first_nil p = refl

piece_plain : (text : Bytes) → (piece_at [] text).is_variable ≡ false
unfolding piece_at named leading first
piece_plain [] = refl
piece_plain (c ∷ cs) = elim (Bool-cases (c == obrace)) [
  | inl a ↦ elim (Option-cases (closing cs)) [ inl e ↦ rw (a, e) | inr (name, e) ↦ rw (a, e) ]
  | inr a ↦ elim (Bool-cases (c == dollar)) [ inl d ↦ rw (a, d) | inr d ↦ rw (a, d) ]
]

substitute_plain : (k : ℕ) (src : Bytes) → (substitute_from [] k src).1 ≡ false
unfolding substitute_from
substitute_plain zero [] = refl
substitute_plain (suc k) [] = refl
substitute_plain (suc k) (c ∷ cs) = substitute_plain k cs
substitute_plain zero (c ∷ cs) = elim (Bool-cases (c == dollar)) [
  | inl a ↦ rw (a, piece_plain cs) (substitute_plain (piece_at [] cs).used cs)
  | inr a ↦ rw a (substitute_plain 0 cs)
]

expand_none :
    (disable_macro : Bool) (src : Bytes)
    → expand_variable disable_macro (no_handler []) src ≡ unchanged
unfolding has_variables
expand_none true src = expand_variable_lem [] true src tt
expand_none false src =
    let plain : has_variables [] src ≡ false = substitute_plain 0 src in
    expand_variable_lem [] false src tt ∙ rw plain

-- Without a handler, a string of a chunk that is not copied has the same value as its copy.
pub copy_or_store_ptr-zerocopy :
    (tolower : ℕ → ℕ) (disable_macro : Bool) (vs : List Variable) (src : Bytes)
    (need_unescape need_lowercase need_expand unescape_squote : Bool)
    → copy_or_store_ptr tolower true disable_macro
        (no_handler vs)
        src
        need_unescape
        need_lowercase
        need_expand
        unescape_squote
      ≡ copy_or_store_ptr tolower false disable_macro
          (no_handler vs)
          src
          need_unescape
          need_lowercase
          need_expand
          unescape_squote
unfolding copy_or_store_ptr
copy_or_store_ptr-zerocopy tolower dm vs src true lower expand squote = refl
copy_or_store_ptr-zerocopy tolower dm vs src false true expand squote = refl
copy_or_store_ptr-zerocopy tolower dm vs src false false false squote = refl
copy_or_store_ptr-zerocopy tolower dm (v ∷ vs) src false false true squote = refl
copy_or_store_ptr-zerocopy tolower dm [] src false false true squote =
    ap (from_expansion src) (sym (expand_none dm src))
