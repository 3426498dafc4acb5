-- ===== src/Text/Escapes.antt =====
-- What one byte of a string becomes in the text of `ucl_elt_string_write_json`, and what it is read as.
use libucl.Base.{
  ℕ, ◌<◌, ◌≡◌, refl, sym, ◌∙◌, arith, Bool, true, false, ◌&&◌, ◌||◌, leb, ltb, ◌==◌, ==_iff,
  if◌then◌else◌, [], ◌∷◌, Bytes, Bool-cases, inl, inr,
}
use mathlib.Core.Path.{subst}
use libucl.Base.Bits.{agree_below, agrees}
use libucl.Text.Chars.{test_character, character_escape}
use libucl.Text.Write.{is_unsafe, escape_json}
use libucl.Text.Unescape.{add_digits, encode, short_escape}
use libucl.Text.Lex.{isxdigit}

-- The bytes that the writer has no escape for: the control characters but \b, \t, \n, \v, \f and \r
abbrev is_replaced : ℕ → Bool
is_replaced c = ltb c 8 || (leb 14 c && leb c 31) || c == 127

-- They come back as U+FFFD.
abbrev pub replaced : ℕ → Bytes
replaced c = if is_replaced c then 0xef ∷ 0xbf ∷ 0xbd ∷ [] else c ∷ []

abbrev pub escaped : ℕ → Bytes
escaped c = if is_unsafe c then escape_json c else c ∷ []

pub data Written (c : ℕ) : Type 0 where
  kept :
      escaped c ≡ c ∷ []
      → ltb c 0x1f ≡ false
      → (c == 0x5c) ≡ false
      → (c == 0x22) ≡ false
      → replaced c ≡ c ∷ []
      → Written c
  short :
      (e : ℕ)
      → escaped c ≡ 0x5c ∷ e ∷ []
      → test_character e character_escape ≡ true
      → (e == b'u') ≡ false
      → replaced c ≡ short_escape e ∷ []
      → Written c
  unicode :
      (a b d e : ℕ)
      → escaped c ≡ 0x5c ∷ b'u' ∷ a ∷ b ∷ d ∷ e ∷ []
      → isxdigit a ≡ true
      → isxdigit b ≡ true
      → isxdigit d ≡ true
      → isxdigit e ≡ true
      → replaced c ≡ encode (add_digits (a ∷ b ∷ d ∷ e ∷ []) 0)
      → Written c

abbrev pub bit : Bool → ℕ
bit b = if b then 1 else 0

abbrev unsafe_byte : ℕ → Bool
unsafe_byte c = leb c 32 || c == 34 || c == 92 || c == 127

unsafe-bit : (c : ℕ) → c < 256 → bit (is_unsafe c) ≡ bit (unsafe_byte c)
unfolding agrees is_unsafe test_character
unsafe-bit = agree_below 256 (λ c. bit (is_unsafe c)) (λ c. bit (unsafe_byte c)) refl

bit-inverse : (a b : Bool) → bit a ≡ bit b → a ≡ b
bit-inverse true true h = refl
bit-inverse false false h = refl
bit-inverse true false h = absurd (omega (arith, h))
bit-inverse false true h = absurd (omega (arith, h))

unsafe-lem : (c : ℕ) → c < 256 → is_unsafe c ≡ unsafe_byte c
unsafe-lem c lt = bit-inverse (is_unsafe c) (unsafe_byte c) (unsafe-bit c lt)

at : (c k : ℕ) → Written k → (c == k) ≡ true → Written c
at c k w h = subst Written (sym ((==_iff c k).0 h)) w

-- The escapes of single bytes
escape-short : (c : ℕ) → is_unsafe c ≡ true → unsafe_byte c ≡ true → Written c
unfolding is_unsafe escape_json test_character
escape-short c u d = elim (Bool-cases (c == 10)) [
  | inl a ↦ at c 10 (short b'n' refl refl refl refl) a
  | inr a ↦ elim (Bool-cases (c == 13)) [
    | inl a1 ↦ at c 13 (short b'r' refl refl refl refl) a1
    | inr a1 ↦ elim (Bool-cases (c == 8)) [
      | inl a2 ↦ at c 8 (short b'b' refl refl refl refl) a2
      | inr a2 ↦ elim (Bool-cases (c == 9)) [
        | inl a3 ↦ at c 9 (short b't' refl refl refl refl) a3
        | inr a3 ↦ elim (Bool-cases (c == 12)) [
          | inl a4 ↦ at c 12 (short b'f' refl refl refl refl) a4
          | inr a4 ↦ elim (Bool-cases (c == 11)) [
            | inl a5 ↦ at c 11 (unicode b'0' b'0' b'0' b'B' refl refl refl refl refl refl) a5
            | inr a5 ↦ elim (Bool-cases (c == 0x5c)) [
              | inl a6 ↦ at c 0x5c (short 0x5c refl refl refl refl) a6
              | inr a6 ↦ elim (Bool-cases (c == 0x20)) [
                | inl a7 ↦ at c 0x20 (kept refl refl refl refl refl) a7
                | inr a7 ↦ elim (Bool-cases (c == 0x22)) [
                  | inl a8 ↦ at c 0x22 (short 0x22 refl refl refl refl) a8
                  | inr a8 ↦
                      let r : is_replaced c ≡ true = ground arith in
                      unicode b'F' b'F' b'F' b'D' (rw (u, a, a1, a2, a3, a4, a5, a6, a7, a8) refl)
                        refl refl refl refl (rw r refl)
                ]
              ]
            ]
          ]
        ]
      ]
    ]
  ]
]

pub written : (c : ℕ) → c < 256 → Written c
written c lt = elim (Bool-cases (is_unsafe c)) [
  | inl a ↦ escape-short c a (sym (unsafe-lem c lt) ∙ a)
  | inr a ↦
      let safe : unsafe_byte c ≡ false = sym (unsafe-lem c lt) ∙ a in
      let r : is_replaced c ≡ false = ground arith in
      kept (rw a refl) (ground arith) (ground arith) (ground arith) (rw r refl)
]
