-- ===== src/Text/JsonString/Unterminated.antt =====
-- `ucl_lex_json_string` on a text of `ucl_elt_string_write_json` that lacks its closing quote.
use libucl.Base.{IsCons, ℕ, Bool, ◌⊎◌, inl, inr, ◌<◌, ◌≡◌, refl, sym, ap, [], ◌∷◌, ◌++◌, Bytes, All}
use mathlib.Core.Path.{subst}
use mathlib.Core.List.{append-nil}
use libucl.Text.Lex.{
  Flags, Position, LexError, Lexed, refused, no_quote, unfinished_escape, head, digits, lex_json_on,
  lex_json_string, at_end, skipc,
}
use libucl.Text.Quoted.{failed, no_flags, store_expanded, json_value}
use libucl.Text.Variables.{Variables}
use libucl.Text.Write.{quote, write_json}
use libucl.Text.Escapes
use libucl.Text.Escapes.{Written, kept, short, unicode, written}
use libucl.Text.JsonString.Inverse.{escape_all, write_json_on-run}
use libucl.Text.JsonString.Lexing.{Written-Passes, head-Passes, escape_step, unicode_digits}

-- The errors that the lexer has at the end of the chunk, and nowhere else
abbrev pub AtEnd : LexError → Type 0
AtEnd e = (e ≡ no_quote) ⊎ (e ≡ unfinished_escape)

abbrev Refused : Lexed → Type 0
Refused l = (e : LexError) × (at : Position) × (AtEnd e) × (l ≡ refused e at)

end-Refused : (flags : Flags) (pos : Position) → Refused (lex_json_on [] head flags pos)
unfolding lex_json_on at_end
end-Refused flags pos = (no_quote, pos, inl refl, refl)

digits-Refused : (flags : Flags) (pos : Position) → Refused (lex_json_on [] (digits 0) flags pos)
unfolding lex_json_on at_end
digits-Refused flags pos = (unfinished_escape, pos, inr refl, refl)

-- The last byte of the text
last-Refused :
    (c : ℕ) (flags : Flags) (pos : Position)
    → Written c
    → Refused (lex_json_on (Escapes.escaped c) head flags pos)
last-Refused c flags pos (kept h low nb nq r) =
    let p = head-Passes c [] flags pos low nb nq in
    subst (λ x. Refused (lex_json_on x head flags pos)) (sym h)
      (subst Refused (sym p.passes) (end-Refused p.flags' p.pos'))
last-Refused c flags pos (short e h t nu r) =
    subst (λ x. Refused (lex_json_on x head flags pos)) (sym h)
      (subst Refused (sym (escape_step e [] flags pos t nu)) (end-Refused _ _))
last-Refused c flags pos (unicode a b d e h xa xb xd xe r) =
    subst (λ x. Refused (lex_json_on x head flags pos)) (sym h)
      (subst Refused (sym (unicode_digits a b d e [] flags pos xa xb xd xe)) (digits-Refused _ _))

escaped-IsCons : (c : ℕ) → Written c → IsCons (Escapes.escaped c)
escaped-IsCons c (kept h low nb nq r) = (c, [], h)
escaped-IsCons c (short e h t nu r) = (0x5c, e ∷ [], h)
escaped-IsCons c (unicode a b d e h xa xb xd xe r) = (0x5c, b'u' ∷ a ∷ b ∷ d ∷ e ∷ [], h)

escape_all-Refused :
    (s : Bytes) (flags : Flags) (pos : Position)
    → All (λ c. c < 256) s
    → Refused (lex_json_on (escape_all s) head flags pos)
escape_all-Refused [] flags pos h = end-Refused flags pos
escape_all-Refused (c ∷ []) flags pos (lt, h) =
    subst (λ x. Refused (lex_json_on x head flags pos)) (sym (append-nil (Escapes.escaped c)))
      (last-Refused c flags pos (written c lt))
escape_all-Refused (c ∷ d ∷ cs) flags pos (lt, (ltd, h)) =
    let (b, tl, e) = escaped-IsCons d (written d ltd) in
    let p =
      Written-Passes c (escape_all (d ∷ cs)) flags pos
        (b, tl ++ escape_all cs, ap (λ x. x ++ escape_all cs) e) (written c lt) in
    subst Refused (sym p.passes) (escape_all-Refused (d ∷ cs) p.flags' p.pos' (ltd, h))

-- Of what `ucl_elt_string_write_json` prints for a string, the quote that closes it is needed: behind the
-- quote that opens it, the text alone is refused with one of the two errors for a chunk that ends inside a
-- string, whatever the parser's variables are.
pub json_value-failed :
    (tolower : ℕ → ℕ) (zerocopy disable_macro : Bool) (vs : Variables) (s : Bytes) (pos : Position)
    → All (λ c. c < 256) s
    → (text : Bytes) × (write_json s ≡ quote ∷ (text ++ (quote ∷ [])))
      × (e : LexError) × (at : Position) × (AtEnd e)
      × (json_value tolower zerocopy disable_macro vs text pos ≡ failed e at)
unfolding json_value lex_json_string write_json
json_value-failed tolower zerocopy dm vs s pos h =
    let (e, at, kind, is) = escape_all-Refused s no_flags (skipc quote pos) h in
    (
      escape_all s,
      ap (λ x. quote ∷ (x ++ (quote ∷ []))) (write_json_on-run [] s),
      e,
      at,
      kind,
      ap (store_expanded tolower zerocopy dm vs (escape_all s)) is,
    )
