-- ===== src/Text/SquotedString.antt =====
-- A string through `ucl_elt_string_write_squoted` and back: the writer puts a backslash before each quote
-- and leaves backslashes as they are, the reader takes away those before a quote or a line end.
use libucl.Base.{
  ℕ, ◌≡◌, refl, sym, ap, ◌∙◌, arith, true, false, ◌==◌, leb, if◌then◌else◌, [], ◌∷◌, ◌++◌, Bytes,
  All, Bool-cases, inl, inr, length,
}
use mathlib.Core.List.{append_assoc, append-nil}
use libucl.Text.Write.{squote, write_squoted, write_squoted_on}
use libucl.Text.Unescape.{unescape_squoted, unescape_squoted_string}
use libucl.Text.Lex.{Flags, Position, lexed, lex_squoted_string, skipc}
use libucl.Text.Quoted.{string_value, copy_or_store, no_flags, store, squoted_value}
use libucl.Text.JsonString.RoundTrip.{text_before-quoted, ReadsAs}

abbrev quoted : ℕ → Bytes
quoted c = if c == squote then 0x5c ∷ squote ∷ [] else c ∷ []

abbrev quote_all : Bytes → Bytes
quote_all [] = []
quote_all (c ∷ cs) = quoted c ++ quote_all cs

abbrev NoBackslash : Bytes → Type 0
NoBackslash s = All (λ c. (c == 0x5c) ≡ false) s

write_squoted_on-run : (run cs : Bytes) → write_squoted_on run cs ≡ run ++ quote_all cs
unfolding write_squoted_on
write_squoted_on-run run [] = sym (append-nil run)
write_squoted_on-run run (c ∷ cs) = elim (Bool-cases (c == squote)) [
  | inl a ↦ rw a (ap (λ x. run ++ (0x5c ∷ squote ∷ x)) (write_squoted_on-run [] cs))
  | inr a ↦
      rw a (write_squoted_on-run (run ++ (c ∷ [])) cs ∙ append_assoc run (c ∷ []) (quote_all cs))
]

unescape-kept :
    (c : ℕ) (tl : Bytes) → (c == 0x5c) ≡ false → unescape_squoted (c ∷ tl) ≡ c ∷ unescape_squoted tl
unfolding unescape_squoted
unescape-kept c [] h = refl
unescape-kept c (d ∷ []) h = rw h refl
unescape-kept c (d ∷ e ∷ tl) h = rw h refl

unescape-quote : (tl : Bytes) → unescape_squoted (0x5c ∷ squote ∷ tl) ≡ squote ∷ unescape_squoted tl
unfolding unescape_squoted
unescape-quote [] = refl
unescape-quote (c ∷ tl) = refl

unescape-quoted :
    (c : ℕ) (tl : Bytes)
    → (c == 0x5c) ≡ false
    → unescape_squoted (quoted c ++ tl) ≡ c ∷ unescape_squoted tl
unescape-quoted c tl h = elim (Bool-cases (c == squote)) [
  | inl a ↦ rw a (unescape-quote tl ∙ ap (λ x. x ∷ unescape_squoted tl) (ground arith))
  | inr a ↦ rw a (unescape-kept c tl h)
]

unescape-quote_all : (s : Bytes) → NoBackslash s → unescape_squoted (quote_all s) ≡ s
unfolding unescape_squoted
unescape-quote_all [] h = refl
unescape-quote_all (c ∷ cs) (n, h) =
    unescape-quoted c (quote_all cs) n ∙ ap (λ x. c ∷ x) (unescape-quote_all cs h)

unescape_squoted_string-loop : (s : Bytes) → unescape_squoted_string s ≡ unescape_squoted s
unfolding unescape_squoted_string unescape_squoted
unescape_squoted_string-loop [] = refl
unescape_squoted_string-loop (c ∷ []) = refl
unescape_squoted_string-loop (c ∷ d ∷ cs) =
    let long : leb (length (c ∷ d ∷ cs)) 1 ≡ false = ground arith in rw long refl

-- The lexer finds the end of the string.
record Found (s rest : Bytes) (flags : Flags) (pos : Position) : Type 0 where
  pub flags' : Flags
  pub pos' : Position
  pub finds : lex_squoted_string (quote_all s ++ (squote ∷ rest)) flags pos ≡ lexed flags' rest pos'
  pub marks : flags.need_unescape ≡ true → flags'.need_unescape ≡ true
  pub clean : flags'.need_unescape ≡ false → quote_all s ≡ s

quoted-IsCons :
    (s rest : Bytes) → (b : ℕ) × (tl : Bytes) × (quote_all s ++ (squote ∷ rest) ≡ b ∷ tl)
quoted-IsCons [] rest = (squote, rest, refl)
quoted-IsCons (d ∷ ds) rest = elim (Bool-cases (d == squote)) [
  | inl a ↦ rw a (0x5c, squote ∷ (quote_all ds ++ (squote ∷ rest)), refl)
  | inr a ↦ rw a (d, quote_all ds ++ (squote ∷ rest), refl)
]

lex-kept :
    (c : ℕ) (text : Bytes) (flags : Flags) (pos : Position)
    → (c == 0x5c) ≡ false
    → (c == squote) ≡ false
    → (b : ℕ) × (tl : Bytes) × (text ≡ b ∷ tl)
    → lex_squoted_string (c ∷ text) flags pos ≡ lex_squoted_string text flags (skipc c pos)
unfolding lex_squoted_string
lex-kept c text flags pos nb nq (b, tl, e) = rw (e, nb, nq) refl

Found-cons :
    (c : ℕ) (s rest : Bytes) (flags flags1 : Flags) (pos pos1 : Position)
    → lex_squoted_string (quote_all (c ∷ s) ++ (squote ∷ rest)) flags pos
      ≡ lex_squoted_string (quote_all s ++ (squote ∷ rest)) flags1 pos1
    → (flags.need_unescape ≡ true → flags1.need_unescape ≡ true)
    → (flags1.need_unescape ≡ false → quoted c ≡ c ∷ [])
    → Found s rest flags1 pos1
    → Found (c ∷ s) rest flags pos
Found-cons c s rest flags flags1 pos pos1 e marks clean f = record {
  flags' = f.flags';
  pos' = f.pos';
  finds = e ∙ f.finds;
  marks = λ h. f.marks (marks h);
  clean = λ h. elim (Bool-cases flags1.need_unescape) [
    | inl a ↦ cc (f.marks a)
    | inr a ↦ ap (λ x. x ++ quote_all s) (clean a) ∙ ap (λ x. c ∷ x) (f.clean h)
  ];
}

quote_all-Found :
    (s rest : Bytes) (flags : Flags) (pos : Position) → NoBackslash s → Found s rest flags pos
unfolding lex_squoted_string
quote_all-Found [] [] flags pos h = record {
  flags' = flags;
  pos' = skipc squote pos;
  finds = refl;
  marks = λ x. x;
  clean = λ x. refl;
}
quote_all-Found [] (b ∷ tl) flags pos h = record {
  flags' = flags;
  pos' = skipc squote pos;
  finds = refl;
  marks = λ x. x;
  clean = λ x. refl;
}
quote_all-Found (c ∷ cs) rest flags pos (n, h) = elim (Bool-cases (c == squote)) [
  | inl a ↦
      let marked = record flags { need_unescape = true } in
      let pos1 = skipc squote (skipc 0x5c pos) in
      Found-cons c cs rest flags marked pos pos1 (rw a refl) (λ x. refl) (λ x. cc)
        (quote_all-Found cs rest marked pos1 h)
  | inr a ↦
      Found-cons c cs rest flags flags pos (skipc c pos)
        (rw a (lex-kept c (quote_all cs ++ (squote ∷ rest)) flags pos n a (quoted-IsCons cs rest)))
        (λ x. x) (λ x. rw a refl) (quote_all-Found cs rest flags (skipc c pos) h)
]

write_squoted-text :
    (s rest : Bytes) → write_squoted s ++ rest ≡ squote ∷ (quote_all s ++ (squote ∷ rest))
unfolding write_squoted
write_squoted-text s rest =
    ap (λ x. squote ∷ ((x ++ (squote ∷ [])) ++ rest)) (write_squoted_on-run [] s)
    ∙ ap (λ x. squote ∷ x) (append_assoc (quote_all s) (squote ∷ []) rest)

copy-Found :
    (s rest : Bytes) (pos : Position) (f : Found s rest no_flags pos)
    → NoBackslash s
    → copy_or_store (quote_all s) f.flags'.need_unescape true ≡ s
unfolding copy_or_store
copy-Found s rest pos f h = elim (Bool-cases f.flags'.need_unescape) [
  | inl a ↦ rw a (unescape_squoted_string-loop (quote_all s) ∙ unescape-quote_all s h)
  | inr a ↦ rw a (f.clean a)
]

-- `ucl_elt_string_write_squoted` prints a quote, and what follows it, whatever comes behind, is read as
-- the same string, if the string has no backslash. The reader stops behind the string.
pub write_squoted-ReadsAs :
    (s rest : Bytes) (pos : Position)
    → NoBackslash s
    → (input : Bytes) × (write_squoted s ++ rest ≡ squote ∷ input)
      × ReadsAs (squoted_value input pos) s rest
unfolding squoted_value
write_squoted-ReadsAs s rest pos h =
    let f = quote_all-Found s rest no_flags (skipc squote pos) h in
    (
      quote_all s ++ (squote ∷ rest),
      write_squoted-text s rest,
      record {
        expands = f.flags'.var_expand;
        at = f.pos';
        reads =
            ap (λ l. store (quote_all s ++ (squote ∷ rest)) true l) f.finds
            ∙ ap
                (λ x.
                  string_value (copy_or_store x f.flags'.need_unescape true) f.flags'.var_expand
                    rest f.pos')
                (text_before-quoted squote (quote_all s) rest)
            ∙ ap (λ x. string_value x f.flags'.var_expand rest f.pos')
                (copy-Found s rest (skipc squote pos) f h);
      },
    )
