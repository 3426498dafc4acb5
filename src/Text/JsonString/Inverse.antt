-- ===== src/Text/JsonString/Inverse.antt =====
-- `ucl_unescape_json_string` on the text of `ucl_elt_string_write_json`.
use libucl.Base.{
  ℕ, ◌<◌, ◌≡◌, refl, sym, ap, ◌∙◌, arith, false, ◌==◌, leb, [], ◌∷◌, ◌++◌, Bytes, All, Bool-cases,
  inl, inr, length,
}
use mathlib.Core.List.{append_assoc, append-nil}
use libucl.Text.Write.{is_unsafe, escape_json, write_json_on}
use libucl.Text.Unescape.{unescape_json, unescape_json_string}
use libucl.Text.Escapes.{escaped, replaced, Written, kept, short, unicode, written}

-- The text of a string between its quotes
abbrev pub escape_all : Bytes → Bytes
escape_all [] = []
escape_all (c ∷ cs) = escaped c ++ escape_all cs

-- What the text stands for
abbrev pub replace_all : Bytes → Bytes
replace_all [] = []
replace_all (c ∷ cs) = replaced c ++ replace_all cs

pub write_json_on-run : (run cs : Bytes) → write_json_on run cs ≡ run ++ escape_all cs
unfolding write_json_on
write_json_on-run run [] = sym (append-nil run)
write_json_on-run run (c ∷ cs) = elim (Bool-cases (is_unsafe c)) [
  | inl a ↦ rw a (ap (λ x. run ++ (escape_json c ++ x)) (write_json_on-run [] cs))
  | inr a ↦
      rw a (write_json_on-run (run ++ (c ∷ [])) cs ∙ append_assoc run (c ∷ []) (escape_all cs))
]

pub unescape-kept :
    (c : ℕ) (tl : Bytes) → (c == 0x5c) ≡ false → unescape_json (c ∷ tl) ≡ c ∷ unescape_json tl
unfolding unescape_json
unescape-kept c [] h = refl
unescape-kept c (d ∷ tl) h = rw h refl

unescape-Written :
    (c : ℕ) (tl : Bytes)
    → Written c
    → unescape_json (escaped c ++ tl) ≡ replaced c ++ unescape_json tl
unfolding unescape_json
unescape-Written c tl (kept h low nb nq r) =
    ap (λ x. unescape_json (x ++ tl)) h
    ∙ unescape-kept c tl nb
    ∙ sym (ap (λ x. x ++ unescape_json tl) r)
unescape-Written c tl (short e h t nu r) =
    ap (λ x. unescape_json (x ++ tl)) h ∙ rw nu refl ∙ sym (ap (λ x. x ++ unescape_json tl) r)
unescape-Written c tl (unicode a b d e h xa xb xd xe r) =
    ap (λ x. unescape_json (x ++ tl)) h ∙ sym (ap (λ x. x ++ unescape_json tl) r)

pub unescape_json-escape_all :
    (s : Bytes) → All (λ c. c < 256) s → unescape_json (escape_all s) ≡ replace_all s
unfolding unescape_json
unescape_json-escape_all [] h = refl
unescape_json-escape_all (c ∷ cs) (lt, h) =
    unescape-Written c (escape_all cs) (written c lt)
    ∙ ap (λ x. replaced c ++ x) (unescape_json-escape_all cs h)

-- The early return for at most one byte makes no difference.
pub unescape_json_string-loop : (s : Bytes) → unescape_json_string s ≡ unescape_json s
unfolding unescape_json_string unescape_json
unescape_json_string-loop [] = refl
unescape_json_string-loop (c ∷ []) = refl
unescape_json_string-loop (c ∷ d ∷ cs) =
    let long : leb (length (c ∷ d ∷ cs)) 1 ≡ false = ground arith in rw long refl
