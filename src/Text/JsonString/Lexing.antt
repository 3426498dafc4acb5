-- ===== src/Text/JsonString/Lexing.antt =====
-- `ucl_lex_json_string` on the text of `ucl_elt_string_write_json`.
use libucl.Base.{
  IsCons, ℕ, suc, ◌<◌, ◌≡◌, refl, sym, ap, ◌∙◌, true, false, ◌==◌, ltb, [], ◌∷◌, ◌++◌, Bytes, All,
  Bool-cases, inl, inr,
}
use mathlib.Core.Path.{subst}
use mathlib.Core.List.{append_assoc}
use libucl.Text.Chars.{test_character, character_ucl_unsafe, character_escape}
use libucl.Text.Lex.{
  Flags, Position, lexed, Place, head, escaped, digits, go, refuse, found, refused, lex_json_on,
  next_byte, at_head, at_escape, skipc, isxdigit,
}
use libucl.Text.Unescape.{unescape_json}
use libucl.Text.Escapes
use libucl.Text.Escapes.{Written, kept, short, unicode, written}
use libucl.Text.JsonString.Inverse.{escape_all, unescape-kept}

-- The lexer passes the text and comes back to the head of its loop.
pub record Passes (text tl : Bytes) (flags : Flags) (pos : Position) : Type 0 where
  pub flags' : Flags
  pub pos' : Position
  pub passes : lex_json_on (text ++ tl) head flags pos ≡ lex_json_on tl head flags' pos'
  pub marks : flags.need_unescape ≡ true → flags'.need_unescape ≡ true
  -- Where it has not seen an escape, there is none.
  pub clean :
      flags'.need_unescape ≡ false
      → (u : Bytes) → unescape_json (text ++ u) ≡ text ++ unescape_json u

lex_step :
    (place place' : Place) (flags flags' : Flags) (c : ℕ) (tl : Bytes) (pos : Position)
    → next_byte place flags c ≡ go place' flags'
    → lex_json_on (c ∷ tl) place flags pos ≡ lex_json_on tl place' flags' (skipc c pos)
unfolding lex_json_on
lex_step place place' flags flags' c tl pos e =
    ap
      (λ n. elim n [
        | refuse e ↦ refused e pos
        | found flags'' ↦ lexed flags'' tl (skipc c pos)
        | go place'' flags'' ↦ lex_json_on tl place'' flags'' (skipc c pos)
      ])
      e

-- A byte that the head of the loop skips
step-Passes :
    (c : ℕ) (tl : Bytes) (flags flags1 : Flags) (pos : Position)
    → (c == 0x5c) ≡ false
    → at_head flags c ≡ go head flags1
    → flags1.need_unescape ≡ flags.need_unescape
    → Passes (c ∷ []) tl flags pos
unfolding next_byte
step-Passes c tl flags flags1 pos nb e h = record {
  flags' = flags1;
  pos' = skipc c pos;
  passes = lex_step head head flags flags1 c tl pos e;
  marks = λ x. h ∙ x;
  clean = λ x u. unescape-kept c u nb;
}

pub head-Passes :
    (c : ℕ) (tl : Bytes) (flags : Flags) (pos : Position)
    → ltb c 0x1f ≡ false
    → (c == 0x5c) ≡ false
    → (c == 0x22) ≡ false
    → Passes (c ∷ []) tl flags pos
unfolding at_head
head-Passes c tl flags pos low nb nq = elim (Bool-cases (test_character c character_ucl_unsafe)) [
  | inl a ↦
      step-Passes c tl flags (record flags { ucl_escape = true }) pos nb (rw (low, nb, nq, a) refl)
        refl
  | inr a ↦ elim (Bool-cases (c == b'$')) [
    | inl b ↦
        step-Passes c tl flags (record flags { var_expand = true }) pos nb
          (rw (low, nb, nq, a, b) refl) refl
    | inr b ↦ step-Passes c tl flags flags pos nb (rw (low, nb, nq, a, b) refl) refl
  ]
]

abbrev pub marked : Flags → Flags
marked flags = record flags { need_unescape = true; ucl_escape = true }

digit_step :
    (i c : ℕ) (flags : Flags) (tl : Bytes) (pos : Position)
    → isxdigit c ≡ true
    → lex_json_on (c ∷ tl) (digits (suc i)) flags pos
      ≡ lex_json_on tl (digits i) flags (skipc c pos)
unfolding next_byte
digit_step i c flags tl pos h =
    lex_step (digits (suc i)) (digits i) flags flags c tl pos (rw h refl)

-- Behind the last digit stands the head of the loop, since a quote follows.
digits-head :
    (tl : Bytes) (flags : Flags) (pos : Position)
    → IsCons tl
    → lex_json_on tl (digits 0) flags pos ≡ lex_json_on tl head flags pos
unfolding lex_json_on next_byte
digits-head tl flags pos (b, u, h) = rw h refl

pub escape_step :
    (e : ℕ) (tl : Bytes) (flags : Flags) (pos : Position)
    → test_character e character_escape ≡ true
    → (e == b'u') ≡ false
    → lex_json_on (0x5c ∷ e ∷ tl) head flags pos
      ≡ lex_json_on tl head (marked flags) (skipc e (skipc 0x5c pos))
unfolding next_byte at_head at_escape
escape_step e tl flags pos t nu =
    lex_step head escaped flags flags 0x5c (e ∷ tl) pos refl
    ∙ lex_step escaped head flags (marked flags) e tl (skipc 0x5c pos) (rw (t, nu) refl)

unicode_step :
    (tl : Bytes) (flags : Flags) (pos : Position)
    → lex_json_on (0x5c ∷ b'u' ∷ tl) head flags pos
      ≡ lex_json_on tl (digits 4) (marked flags) (skipc b'u' (skipc 0x5c pos))
unfolding next_byte at_head at_escape test_character
unicode_step tl flags pos =
    lex_step head escaped flags flags 0x5c (b'u' ∷ tl) pos refl
    ∙ lex_step escaped (digits 4) flags (marked flags) b'u' tl (skipc 0x5c pos) refl

pub unicode_digits :
    (a b d e : ℕ) (tl : Bytes) (flags : Flags) (pos : Position)
    → isxdigit a ≡ true
    → isxdigit b ≡ true
    → isxdigit d ≡ true
    → isxdigit e ≡ true
    → lex_json_on (0x5c ∷ b'u' ∷ a ∷ b ∷ d ∷ e ∷ tl) head flags pos
      ≡ lex_json_on tl
          (digits 0)
          (marked flags)
          (skipc e (skipc d (skipc b (skipc a (skipc b'u' (skipc 0x5c pos))))))
unicode_digits a b d e tl flags pos xa xb xd xe =
    unicode_step (a ∷ b ∷ d ∷ e ∷ tl) flags pos
    ∙ digit_step 3 a (marked flags) (b ∷ d ∷ e ∷ tl) _ xa
    ∙ digit_step 2 b (marked flags) (d ∷ e ∷ tl) _ xb
    ∙ digit_step 1 d (marked flags) (e ∷ tl) _ xd
    ∙ digit_step 0 e (marked flags) tl _ xe

pub Written-Passes :
    (c : ℕ) (tl : Bytes) (flags : Flags) (pos : Position)
    → IsCons tl
    → Written c
    → Passes (Escapes.escaped c) tl flags pos
Written-Passes c tl flags pos nt (kept h low nb nq r) =
    subst (λ x. Passes x tl flags pos) (sym h) (head-Passes c tl flags pos low nb nq)
Written-Passes c tl flags pos nt (short e h t nu r) =
    subst (λ x. Passes x tl flags pos) (sym h)
      (record {
        flags' = marked flags;
        pos' = skipc e (skipc 0x5c pos);
        passes = escape_step e tl flags pos t nu;
        marks = λ x. refl;
        clean = λ x. cc;
      })
Written-Passes c tl flags pos nt (unicode a b d e h xa xb xd xe r) =
    subst (λ x. Passes x tl flags pos) (sym h)
      (record {
        flags' = marked flags;
        pos' = skipc e (skipc d (skipc b (skipc a (skipc b'u' (skipc 0x5c pos)))));
        passes =
            unicode_digits a b d e tl flags pos xa xb xd xe ∙ digits-head tl (marked flags) _ nt;
        marks = λ x. refl;
        clean = λ x. cc;
      })

quote-IsCons : (text rest : Bytes) → IsCons (text ++ (0x22 ∷ rest))
quote-IsCons [] rest = (0x22, rest, refl)
quote-IsCons (c ∷ text) rest = (c, text ++ (0x22 ∷ rest), refl)

-- The lexer finds the end of the string.
pub record Found (text rest : Bytes) (flags : Flags) (pos : Position) : Type 0 where
  pub flags' : Flags
  pub pos' : Position
  pub finds : lex_json_on (text ++ (0x22 ∷ rest)) head flags pos ≡ lexed flags' rest pos'
  pub marks : flags.need_unescape ≡ true → flags'.need_unescape ≡ true
  pub clean : flags'.need_unescape ≡ false → unescape_json text ≡ text

Passes-Found :
    (text more rest : Bytes) (flags : Flags) (pos : Position)
    → (p : Passes text (more ++ (0x22 ∷ rest)) flags pos) → Found more rest p.flags' p.pos'
    → Found (text ++ more) rest flags pos
Passes-Found text more rest flags pos p f = record {
  flags' = f.flags';
  pos' = f.pos';
  finds =
      ap (λ x. lex_json_on x head flags pos) (append_assoc text more (0x22 ∷ rest))
      ∙ p.passes
      ∙ f.finds;
  marks = λ h. f.marks (p.marks h);
  clean = λ h. elim (Bool-cases p.flags'.need_unescape) [
    | inl a ↦ cc (f.marks a)
    | inr a ↦ p.clean a more ∙ ap (λ x. text ++ x) (f.clean h)
  ];
}

pub escape_all-Found :
    (s rest : Bytes) (flags : Flags) (pos : Position)
    → All (λ c. c < 256) s
    → Found (escape_all s) rest flags pos
unfolding lex_json_on next_byte at_head unescape_json
escape_all-Found [] rest flags pos h = record {
  flags' = flags;
  pos' = skipc 0x22 pos;
  finds = refl;
  marks = λ x. x;
  clean = λ x. refl;
}
escape_all-Found (c ∷ cs) rest flags pos (lt, h) =
    let p =
      Written-Passes c (escape_all cs ++ (0x22 ∷ rest)) flags pos
        (quote-IsCons (escape_all cs) rest) (written c lt) in
    Passes-Found (Escapes.escaped c) (escape_all cs) rest flags pos p
      (escape_all-Found cs rest p.flags' p.pos' h)
