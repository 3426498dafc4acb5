-- ===== src/Text/Extent.antt =====
-- What `ucl_lex_json_string` has passed when it finds the end of a string.
use libucl.Base.{
  ℕ, zero, suc, ◌<◌, ◌≡◌, refl, ap, arith, Bool, true, false, ◌==◌, ==_iff, ltb, if◌then◌else◌, [],
  ◌∷◌, ◌++◌, Bytes, All, Bool-cases, inl, inr,
}
use mathlib.Core.Path.{subst}
use libucl.Base.Bits.{agree_below, agrees}
use libucl.Text.Chars.{test_character, character_escape, character_ucl_unsafe}
use libucl.Text.Escapes.{bit}
use libucl.Text.Lex.{
  Flags, Position, Lexed, lexed, refused, Place, head, escaped, digits, Next, go, found, refuse,
  lex_json_on, lex_json_string, next_byte, at_head, at_escape, skipc, isxdigit,
}

-- `ucl_chunk_skipc` over some bytes
abbrev skip_all : Bytes → Position → Position
skip_all [] pos = pos
skip_all (c ∷ cs) pos = skip_all cs (skipc c pos)

-- A text without control characters, the quote and the rest; the position is behind the quote.
pub record Extent (quote low : ℕ) (input rest : Bytes) (pos at : Position) : Type 0 where
  pub text : Bytes
  pub splits : input ≡ text ++ (quote ∷ rest)
  pub printable : All (λ c. ltb c low ≡ false) text
  pub advances : at ≡ skip_all (text ++ (quote ∷ [])) pos

Extent-cons :
    (quote low c : ℕ) (input rest : Bytes) (pos at : Position)
    → ltb c low ≡ false
    → Extent quote low input rest (skipc c pos) at
    → Extent quote low (c ∷ input) rest pos at
Extent-cons quote low c input rest pos at h e = record {
  text = c ∷ e.text;
  splits = ap (λ x. c ∷ x) e.splits;
  printable = (h, e.printable);
  advances = e.advances;
}

-- What a byte that the loop goes on behind, or ends at, is
abbrev Fits : ℕ → Next → Type 0
Fits c (go place flags) = ltb c 0x1f ≡ false
Fits c (found flags) = c ≡ 0x22
Fits c (refuse e) = Unit

Fits-if :
    (c : ℕ) (b : Bool) (x y : Next)
    → (b ≡ true → Fits c x)
    → (b ≡ false → Fits c y)
    → Fits c (if b then x else y)
Fits-if c true x y h k = h refl
Fits-if c false x y h k = k refl

at_head-Fits : (flags : Flags) (c : ℕ) → Fits c (at_head flags c)
unfolding at_head
at_head-Fits flags c =
    Fits-if c (ltb c 0x1f) _ _ (λ h. tt)
      (λ low.
        Fits-if c (c == 0x5c) _ _ (λ h. low)
          (λ n.
            Fits-if c (c == 0x22) _ _ (λ h. (==_iff c 0x22).0 h)
              (λ q.
                Fits-if c (test_character c character_ucl_unsafe) _ _ (λ h. low)
                  (λ u. Fits-if c (c == b'$') _ _ (λ h. low) (λ h. low)))))

escape-bit : (c : ℕ) → c < 31 → bit (test_character c character_escape) ≡ 0
unfolding agrees test_character
escape-bit = agree_below 31 (λ c. bit (test_character c character_escape)) (λ c. 0) refl

escape-printable : (c : ℕ) → test_character c character_escape ≡ true → ltb c 0x1f ≡ false
escape-printable c h = elim (Bool-cases (ltb c 0x1f)) [
  | inl a ↦ absurd (omega (arith, ap bit h, escape-bit c (ground arith)))
  | inr a ↦ a
]

next_byte-Fits : (place : Place) (flags : Flags) (c : ℕ) → Fits c (next_byte place flags c)
unfolding next_byte at_escape
next_byte-Fits head flags c = at_head-Fits flags c
next_byte-Fits escaped flags c =
    Fits-if c (test_character c character_escape) _ _
      (λ h. Fits-if c (c == b'u') _ _ (λ u. escape-printable c h) (λ u. escape-printable c h))
      (λ h. at_head-Fits _ c)
next_byte-Fits (digits zero) flags c = at_head-Fits flags c
next_byte-Fits (digits (suc i)) flags c = Fits-if c (isxdigit c) _ _ (λ h. ground arith) (λ h. tt)

abbrev EndsAt : ℕ → ℕ → Bytes → Position → Lexed → Type 0
EndsAt quote low input pos (lexed flags rest at) = Extent quote low input rest pos at
EndsAt quote low input pos (refused e at) = Unit

cons-EndsAt :
    (c : ℕ) (cs : Bytes) (pos : Position) (l : Lexed)
    → ltb c 0x1f ≡ false
    → EndsAt 0x22 0x1f cs (skipc c pos) l
    → EndsAt 0x22 0x1f (c ∷ cs) pos l
cons-EndsAt c cs pos (lexed flags1 rest at) h e = Extent-cons 0x22 0x1f c cs rest pos at h e
cons-EndsAt c cs pos (refused err at) h e = tt

next-EndsAt :
    (c : ℕ) (cs : Bytes) (pos : Position) (n : Next)
    → Fits c n
    → ((place : Place) (flags : Flags)
        → EndsAt 0x22 0x1f cs (skipc c pos) (lex_json_on cs place flags (skipc c pos)))
    → EndsAt 0x22 0x1f (c ∷ cs) pos (elim n [
      | refuse e ↦ refused e pos
      | found flags' ↦ lexed flags' cs (skipc c pos)
      | go place' flags' ↦ lex_json_on cs place' flags' (skipc c pos)
    ])
next-EndsAt c cs pos (refuse e) h ih = tt
next-EndsAt c cs pos (found flags1) h ih = record {
  text = [];
  splits = ap (λ x. x ∷ cs) h;
  printable = tt;
  advances = ap (λ x. skipc x pos) h;
}
next-EndsAt c cs pos (go place1 flags1) h ih = cons-EndsAt c cs pos _ h (ih place1 flags1)

lex_json_on-EndsAt :
    (input : Bytes) (place : Place) (flags : Flags) (pos : Position)
    → EndsAt 0x22 0x1f input pos (lex_json_on input place flags pos)
unfolding lex_json_on
lex_json_on-EndsAt [] place flags pos = tt
lex_json_on-EndsAt (c ∷ cs) place flags pos =
    next-EndsAt c cs pos (next_byte place flags c) (next_byte-Fits place flags c)
      (λ place1 flags1. lex_json_on-EndsAt cs place1 flags1 (skipc c pos))

-- Where `ucl_lex_json_string` finds the end of a string, the input is a text without bytes below 0x1f, a
-- quote and the rest that it returns, and line and column are those behind the quote.
pub lex_json_string-Extent :
    (input : Bytes) (flags flags' : Flags) (pos at : Position) (rest : Bytes)
    → lex_json_string input flags pos ≡ lexed flags' rest at
    → Extent 0x22 0x1f input rest pos at
unfolding lex_json_string
lex_json_string-Extent input flags flags' pos at rest h =
    subst (EndsAt 0x22 0x1f input pos) h (lex_json_on-EndsAt input head flags pos)
