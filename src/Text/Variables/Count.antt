-- ===== src/Text/Variables/Count.antt =====
-- The first loop of `ucl_expand_variable` in src/ucl_parser.c counts the bytes of the one pass.
use libucl.Base.{
  ℕ, zero, suc, ◌+◌, ◌≡◌, refl, ap, sym, ◌∙◌, Bool, true, false, ◌&&◌, ◌||◌, not, ◌==◌, inl, inr,
  if◌then◌else◌, Option, none, some, List, [], ◌∷◌, ◌++◌, Bytes, bytes_eq, length, length-append,
  Bool-cases, Option-cases, arith,
}
use libucl.Text.Variables.{
  Variable, Variables, Found, absent, found, Checked, checked, strict_result, plain_result,
  is_prefix, check_variable_safe, closing, check_variable, count, is_nil, dollar, obrace,
}
use libucl.Text.Variables.Substitute.{
  named, leading, Piece, piece, braced, bare, piece_at, substitute_from,
}

abbrev pub no_handler : List Variable → Variables
no_handler vs = record { variables = vs; var_handler = none }

abbrev found_variable : Option Variable → ℕ → Found
found_variable none n = absent
found_variable (some v) n = found (length v.var) (n + length v.value)

check_named :
    (vs : List Variable) (name : Bytes) (n : ℕ)
    → check_variable_safe none vs name true n ≡ found_variable (named vs name) n
unfolding check_variable_safe named
check_named [] name n = refl
check_named (v ∷ vs) name n = elim (Bool-cases (bytes_eq name v.var)) [
  | inl a ↦ rw a
  | inr a ↦ rw a (check_named vs name n)
]

check_leading :
    (vs : List Variable) (text : Bytes) (n : ℕ)
    → check_variable_safe none vs text false n ≡ found_variable (leading vs text) n
unfolding check_variable_safe leading
check_leading [] text n = refl
check_leading (v ∷ vs) text n = elim (Bool-cases (is_prefix v.var text)) [
  | inl a ↦ rw a
  | inr a ↦ rw a (check_leading vs text n)
]

abbrev counted : Piece → ℕ → Bool → Checked
counted p n b = checked p.used (n + length p.text) (b || p.is_variable)

or_true : (b : Bool) → (b || true) ≡ true
or_true b = ground arith

pub or_false : (b : Bool) → (b || false) ≡ b
or_false b = ground arith

strict_counted :
    (o : Option Variable) (n : ℕ) (b : Bool)
    → strict_result (found_variable o n) n b ≡ counted (braced o) n b
strict_counted none n b = rw (or_false b)
strict_counted (some v) n b = rw (or_true b)

plain_counted :
    (o : Option Variable) (n : ℕ) (b : Bool)
    → plain_result (found_variable o n) n b ≡ counted (bare o) n b
plain_counted none n b = rw (or_false b)
plain_counted (some v) n b = rw (or_true b)

abbrev resume : List Variable → Bytes → Checked → ℕ × Bool
resume vs cs m = count (no_handler vs) m.skipped cs m.out_len m.vars_found

count_literal :
    (vs : List Variable) (c : ℕ) (cs : Bytes) (n : ℕ) (b : Bool)
    → (c == dollar) ≡ false
    → resume vs (c ∷ cs) (checked 0 (n + 1) b) ≡ resume vs (c ∷ cs) (checked 1 (n + 2) b)
unfolding count
count_literal vs c cs n b h =
    let sums : n + 1 + 1 ≡ n + 2 = omega arith in
    rw h (ap (λ m. count (no_handler vs) 0 cs m b) sums)

-- Behind a brace that is never closed, the first loop goes on with the brace as a byte like others.
open_brace :
    (vs : List Variable) (c : ℕ) (cs : Bytes) (n : ℕ) (b : Bool)
    → (c == obrace) ≡ true
    → closing cs ≡ none
    → resume vs (c ∷ cs) (check_variable (no_handler vs) (c ∷ cs) n b)
      ≡ resume vs (c ∷ cs) (counted (piece_at vs (c ∷ cs)) n b)
unfolding check_variable piece_at
open_brace vs c cs n b a e =
    let no_dollar : (c == dollar) ≡ false = ground (arith, a) in
    let checks : check_variable (no_handler vs) (c ∷ cs) n b ≡ checked 0 (n + 1) b = rw (a, e) in
    let pieces : counted (piece_at vs (c ∷ cs)) n b ≡ checked 1 (n + 2) b = rw (a, e, or_false b) in
    ap (resume vs (c ∷ cs)) checks
    ∙ count_literal vs c cs n b no_dollar
    ∙ ap (resume vs (c ∷ cs)) (sym pieces)

-- Where the first loop goes on behind a `$`
check_counted :
    (vs : List Variable) (c : ℕ) (cs : Bytes) (n : ℕ) (b : Bool)
    → resume vs (c ∷ cs) (check_variable (no_handler vs) (c ∷ cs) n b)
      ≡ resume vs (c ∷ cs) (counted (piece_at vs (c ∷ cs)) n b)
unfolding check_variable piece_at
check_counted vs c cs n b = elim (Bool-cases (c == obrace)) [
  | inl a ↦ elim (Option-cases (closing cs)) [
    | inl e ↦ open_brace vs c cs n b a e
    | inr (name, e) ↦
        ap (resume vs (c ∷ cs))
          (rw (a, e, check_named vs name n) (strict_counted (named vs name) n b))
  ]
  | inr a ↦ elim (Bool-cases (c == dollar)) [
    | inl d ↦ ap (resume vs (c ∷ cs)) (rw (a, d, or_false b))
    | inr d ↦
        ap (resume vs (c ∷ cs))
          (rw (a, d, check_leading vs (c ∷ cs) n) (plain_counted (leading vs (c ∷ cs)) n b))
  ]
]

-- The piece that starts with a byte
abbrev pub piece_from : List Variable → ℕ → Bytes → Piece
piece_from vs c cs = if c == dollar then piece_at vs cs else piece (c ∷ []) 0 false

-- Where the first loop goes on behind a byte
abbrev next_check : List Variable → ℕ → Bytes → ℕ → Bool → Checked
next_check vs c cs n b =
    if c == dollar && not (is_nil cs)
    then check_variable (no_handler vs) cs n b
    else checked 0 (n + 1) b

count_turn :
    (vs : List Variable) (c : ℕ) (cs : Bytes) (n : ℕ) (b : Bool)
    → count (no_handler vs) 0 (c ∷ cs) n b ≡ resume vs cs (next_check vs c cs n b)
unfolding count
count_turn vs c cs n b = refl

turn_counted :
    (vs : List Variable) (c : ℕ) (cs : Bytes) (n : ℕ) (b : Bool)
    → resume vs cs (next_check vs c cs n b) ≡ resume vs cs (counted (piece_from vs c cs) n b)
unfolding piece_at
turn_counted vs c [] n b = elim (Bool-cases (c == dollar)) [
  | inr a ↦ ap (resume vs []) (rw (a, or_false b))
  | inl a ↦ ap (resume vs []) (rw (a, or_false b))
]
turn_counted vs c (d ∷ ds) n b = elim (Bool-cases (c == dollar)) [
  | inr a ↦ ap (resume vs (d ∷ ds)) (rw (a, or_false b))
  | inl a ↦
      let checks : next_check vs c (d ∷ ds) n b ≡ check_variable (no_handler vs) (d ∷ ds) n b =
        rw a in
      let pieces : piece_from vs c (d ∷ ds) ≡ piece_at vs (d ∷ ds) = rw a in
      ap (resume vs (d ∷ ds)) checks
      ∙ check_counted vs d ds n b
      ∙ ap (λ p. resume vs (d ∷ ds) (counted p n b)) (sym pieces)
]

or_assoc : (a b c : Bool) → ((a || b) || c) ≡ (a || (b || c))
or_assoc a b c = ground arith

abbrev pub tally : ℕ → Bool → ℕ × Bool
tally n b = (n, b)

count_next :
    (p : Piece) (rest : Bytes × Bool) (n : ℕ) (b : Bool)
    → tally (n + length p.text + length rest.0) ((b || p.is_variable) || rest.1)
      ≡ tally (n + length (p.text ++ rest.0)) (b || (p.is_variable || rest.1))
count_next p rest n b =
    let lengths : n + length p.text + length rest.0 ≡ n + length (p.text ++ rest.0) =
      omega (arith, length-append p.text rest.0) in
    rw (lengths, or_assoc b p.is_variable rest.1)

tally_end : (n : ℕ) (b : Bool) → tally n b ≡ tally (n + 0) (b || false)
tally_end n b =
    let e : n ≡ n + 0 = omega arith in ap (λ m. tally m b) e ∙ ap (tally (n + 0)) (sym (or_false b))

pub count_substitute :
    (vs : List Variable) (k : ℕ) (src : Bytes) (n : ℕ) (b : Bool)
    → count (no_handler vs) k src n b
      ≡ tally (n + length (substitute_from vs k src).0) (b || (substitute_from vs k src).1)
unfolding count substitute_from
count_substitute vs zero [] n b = tally_end n b
count_substitute vs (suc k) [] n b = tally_end n b
count_substitute vs (suc k) (c ∷ cs) n b = count_substitute vs k cs n b
count_substitute vs zero (c ∷ cs) n b =
    let p = piece_from vs c cs in
    count_turn vs c cs n b
    ∙ turn_counted vs c cs n b
    ∙ count_substitute vs p.used cs (n + length p.text) (b || p.is_variable)
    ∙ count_next p (substitute_from vs p.used cs) n b
