-- ===== src/Text/JsonString/RoundTrip.antt =====
-- A string that `ucl_elt_string_write_json` wrote, read by the case '"' of `ucl_parse_value`.
use libucl.Base.{
  ℕ, ◌<◌, ◌≡◌, refl, sym, ap, ◌∙◌, arith, Bool, true, false, not, ◌||◌, List, some, [], ◌∷◌, ◌++◌,
  Bytes, All, Bool-cases, inl, inr, length, take, length-append, take-append,
}
use mathlib.Core.List.{append_assoc}
use libucl.Text.Lex.{Position, lex_json_string, skipc}
use libucl.Text.Quoted.{
  Quoted, string_value, expanded_value, text_before, copy_or_store, no_flags, store_expanded,
  json_value,
}
use libucl.Text.Write.{quote, write_json}
use libucl.Text.Variables.{Variable, Variables, unchanged, expand_variable}
use libucl.Text.Variables.Substitute.{has_variables, NoBrace}
use libucl.Text.Variables.Count.{no_handler}
use libucl.Text.Variables.Agrees.{expand_variable_lem}
use libucl.Text.Variables.Copy.{copy_or_store_ptr, copy_string, keep, from_expansion, is_registered}
use libucl.Text.JsonString.Inverse.{
  escape_all, replace_all, write_json_on-run, unescape_json-escape_all, unescape_json_string-loop,
}
use libucl.Text.JsonString.Lexing.{Found, escape_all-Found}

-- The text lies between the quotes.
pub text_before-quoted : (q : ℕ) (text rest : Bytes) → text_before (text ++ (q ∷ rest)) rest ≡ text
text_before-quoted q text rest =
    ap (λ n. take n (text ++ (q ∷ rest))) (omega (arith, length-append text (q ∷ rest)))
    ∙ take-append (length text) text (q ∷ rest) refl

-- The reader of a string gives `s` and the bytes behind the string.
pub record ReadsAs (value : Quoted) (s rest : Bytes) : Type 0 where
  pub expands : Bool
  pub at : Position
  pub reads : value ≡ string_value s expands rest at

-- The reader of a string gives `s`, with its length, and the bytes behind the string.
pub record ReadsExpanded (value : Quoted) (s rest : Bytes) : Type 0 where
  pub at : Position
  pub reads : value ≡ expanded_value (some s, length s) rest at

write_json-text : (s rest : Bytes) → write_json s ++ rest ≡ quote ∷ (escape_all s ++ (quote ∷ rest))
unfolding write_json
write_json-text s rest =
    ap (λ x. quote ∷ ((x ++ (quote ∷ [])) ++ rest)) (write_json_on-run [] s)
    ∙ ap (λ x. quote ∷ x) (append_assoc (escape_all s) (quote ∷ []) rest)

copy-Found :
    (s rest : Bytes) (pos : Position) (f : Found (escape_all s) rest no_flags pos)
    → All (λ c. c < 256) s
    → copy_or_store (escape_all s) f.flags'.need_unescape false ≡ replace_all s
unfolding copy_or_store
copy-Found s rest pos f h = elim (Bool-cases f.flags'.need_unescape) [
  | inl a ↦ rw a (unescape_json_string-loop (escape_all s) ∙ unescape_json-escape_all s h)
  | inr a ↦ rw a (sym (f.clean a) ∙ unescape_json-escape_all s h)
]

-- Where there is nothing to expand, a string is copied or left in the chunk with the same value.
copy_or_store_ptr-plain :
    (tolower : ℕ → ℕ) (zerocopy disable_macro : Bool) (vs : Variables) (src : Bytes)
    (need_unescape need_expand unescape_squote : Bool)
    → expand_variable disable_macro vs (copy_or_store src need_unescape unescape_squote) ≡ unchanged
    → copy_or_store_ptr tolower zerocopy disable_macro vs src need_unescape false need_expand
        unescape_squote
      ≡ keep (copy_or_store src need_unescape unescape_squote)
unfolding copy_or_store_ptr copy_string copy_or_store
copy_or_store_ptr-plain tolower z dm vs src true true q h =
    ap (from_expansion (copy_or_store src true q)) h
copy_or_store_ptr-plain tolower z dm vs src true false q h = refl
copy_or_store_ptr-plain tolower true dm vs src false false q h = refl
copy_or_store_ptr-plain tolower false dm vs src false false q h = refl
copy_or_store_ptr-plain tolower z dm vs src false true q h =
    elim (Bool-cases (is_registered vs.variables || not z)) [
      | inl a ↦ rw a (ap (from_expansion src) h)
      | inr a ↦ rw a refl
    ]

expand_unchanged :
    (vs : List Variable) (disable_macro : Bool) (src : Bytes)
    → All NoBrace vs
    → (disable_macro || not (has_variables vs src)) ≡ true
    → expand_variable disable_macro (no_handler vs) src ≡ unchanged
expand_unchanged vs true src clean h = expand_variable_lem vs true src clean
expand_unchanged vs false src clean h = expand_variable_lem vs false src clean ∙ rw h refl

-- `ucl_elt_string_write_json` prints a quote, and what follows it, whatever comes behind, is read as the
-- string, with U+FFFD for each byte that the writer has no escape for: the control characters but \b,
-- \t, \n, \v, \f and \r. The reader stops behind the string. The string is copied or, under
-- UCL_PARSER_ZEROCOPY, may be left in the chunk; the parser has no handler of variables, no variable
-- with a closing brace in its name, and either macros are disabled or no variable stands in the string.
pub write_json-ReadsAs :
    (tolower : ℕ → ℕ) (zerocopy disable_macro : Bool) (vs : List Variable) (s rest : Bytes)
    (pos : Position)
    → All (λ c. c < 256) s
    → All NoBrace vs
    → (disable_macro || not (has_variables vs (replace_all s))) ≡ true
    → (input : Bytes) × (write_json s ++ rest ≡ quote ∷ input)
      × ReadsExpanded
          (json_value tolower zerocopy disable_macro (no_handler vs) input pos)
          (replace_all s)
          rest
unfolding json_value lex_json_string
write_json-ReadsAs tolower zerocopy dm vs s rest pos h clean plain =
    let f = escape_all-Found s rest no_flags (skipc quote pos) h in
    let u = f.flags'.need_unescape in
    let copied : copy_or_store (escape_all s) u false ≡ replace_all s =
      copy-Found s rest (skipc quote pos) f h in
    let stays : expand_variable dm (no_handler vs) (copy_or_store (escape_all s) u false)
        ≡ unchanged =
      ap (expand_variable dm (no_handler vs)) copied
      ∙ expand_unchanged vs dm (replace_all s) clean plain in
    (
      escape_all s ++ (quote ∷ rest),
      write_json-text s rest,
      record {
        at = f.pos';
        reads =
            ap
              (λ l.
                store_expanded tolower zerocopy dm (no_handler vs) (escape_all s ++ (quote ∷ rest))
                  l)
              f.finds
            ∙ ap
                (λ x.
                  expanded_value
                    (copy_or_store_ptr tolower zerocopy dm (no_handler vs) x u false
                      f.flags'.var_expand false)
                    rest f.pos')
                (text_before-quoted quote (escape_all s) rest)
            ∙ ap (λ x. expanded_value x rest f.pos')
                (copy_or_store_ptr-plain tolower zerocopy dm (no_handler vs) (escape_all s) u
                    f.flags'.var_expand false stays
                  ∙ ap keep copied);
      },
    )
