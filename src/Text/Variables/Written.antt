-- ===== src/Text/Variables/Written.antt =====
-- The second loop of `ucl_expand_variable` in src/ucl_parser.c writes the bytes of the one pass.
use libucl.Base.{
  ℕ, zero, suc, ◌+◌, ◌-◌, ◌≤◌, ◌≡◌, refl, ap, ◌∙◌, true, false, ◌&&◌, not, leb, ◌==◌, inl, inr,
  if◌then◌else◌, Option, none, some, List, [], ◌∷◌, ◌++◌, Bytes, bytes_eq, length, All,
  length-append, ==_iff, Bool-cases, Option-cases, arith,
}
use libucl.Text.Variables.{
  Variable, is_prefix, closing, Single, single, and_then, fitting, leave, expand_handler,
  expand_single_variable, expand, is_nil, dollar, obrace,
}
use libucl.Text.Variables.Substitute.{
  first, named, leading, Piece, braced, bare, piece_at, substitute_from, NoBrace,
}
use libucl.Text.Variables.Names.{
  Affords, fitting_first, All_any, All-map, stands_bare, names, stands_braced, prefix_length,
  closing-length, bytes_eq-length, first_holds, first_none,
}
use libucl.Text.Variables.Count.{no_handler, piece_from}

bare_used :
    (vs : List Variable) (o : Option Variable) (text : Bytes)
    → leading vs text ≡ o
    → (bare o).used ≤ length text
unfolding leading
bare_used vs none text h = omega arith
bare_used vs (some v) text h =
    prefix_length v.var text (first_holds (λ w. is_prefix w.var text) vs h)

braced_used :
    (vs : List Variable) (o : Option Variable) (name : Bytes)
    → named vs name ≡ o
    → (braced o).used ≤ length name + 2
unfolding named
braced_used vs none name h = omega arith
braced_used vs (some v) name h =
    omega (arith, bytes_eq-length name v.var (first_holds (λ w. bytes_eq name w.var) vs h))

piece_used : (vs : List Variable) (text : Bytes) → (piece_at vs text).used ≤ length text
unfolding piece_at
piece_used vs [] = omega arith
piece_used vs (c ∷ cs) = elim (Bool-cases (c == obrace)) [
  | inl a ↦ elim (Option-cases (closing cs)) [
    | inl e ↦ rw (a, e) (omega arith)
    | inr (name, e) ↦
        rw (a, e) (omega (arith, braced_used vs (named vs name) name refl, closing-length cs e))
  ]
  | inr a ↦ elim (Bool-cases (c == dollar)) [
    | inl d ↦ rw (a, d) (omega arith)
    | inr d ↦ rw (a, d) (bare_used vs (leading vs (c ∷ cs)) (c ∷ cs) refl)
  ]
]

piece_from_used : (vs : List Variable) (c : ℕ) (cs : Bytes) → (piece_from vs c cs).used ≤ length cs
piece_from_used vs c cs = elim (Bool-cases (c == dollar)) [
  | inl a ↦ rw a (piece_used vs cs)
  | inr a ↦ rw a (omega arith)
]

abbrev written_piece : Piece → Single
written_piece p = single p.used p.text

abbrev from_braced : Option Variable → ℕ → Single
from_braced o room = elim o [ some v ↦ single (length v.var + 2) v.value | none ↦ leave true room ]

braced_written :
    (o : Option Variable) (room : ℕ)
    → length (braced o).text ≤ room
    → from_braced o room ≡ written_piece (braced o)
unfolding leave
braced_written none room h = let fits : leb 2 room ≡ true = ground (arith, h) in rw fits
braced_written (some v) room h = refl

afford_braced : (o : Option Variable) (room : ℕ) → length (braced o).text ≤ room → Affords o room
afford_braced none room h = tt
afford_braced (some v) room h = h

afford_bare : (o : Option Variable) (room : ℕ) → length (bare o).text ≤ room → Affords o room
afford_bare none room h = tt
afford_bare (some v) room h = h

bare_written :
    (o : Option Variable) (room : ℕ)
    → (elim o [ some v ↦ single (length v.var) v.value | none ↦ leave false room ])
      ≡ written_piece (bare o)
unfolding leave
bare_written none room = refl
bare_written (some v) room = refl

fitting-braced :
    (vs : List Variable) (text : Bytes) (room : ℕ) {o : Option Variable}
    → All NoBrace vs
    → first (λ v. names (closing text) v.var) vs ≡ o
    → length (braced o).text ≤ room
    → fitting vs true text room ≡ o
fitting-braced vs text room {o} clean h fits =
    fitting_first (λ v. names (closing text) v.var) vs room true text
      (All-map vs (λ v ok. stands_braced v.var text ok) clean) (rw h (afford_braced o room fits))
    ∙ h

fitting-bare :
    (vs : List Variable) (text : Bytes) (room : ℕ)
    → length (bare (leading vs text)).text ≤ room
    → fitting vs false text room ≡ leading vs text
unfolding leading
fitting-bare vs text room fits =
    fitting_first (λ v. is_prefix v.var text) vs room false text
      (All_any vs (λ v. stands_bare v.var text)) (afford_bare (leading vs text) room fits)

single_written :
    (vs : List Variable) (c : ℕ) (cs : Bytes) (room : ℕ)
    → All NoBrace vs
    → length (piece_at vs (c ∷ cs)).text ≤ room
    → expand_single_variable (no_handler vs) (c ∷ cs) room ≡ written_piece (piece_at vs (c ∷ cs))
unfolding expand_single_variable expand_handler piece_at named
single_written vs c cs room clean fits = elim (Bool-cases (c == obrace)) [
  | inl a ↦
      let no_dollar : (c == dollar) ≡ false = ground (arith, a) in
      elim (Option-cases (closing cs)) [
        | inl e ↦
            let roomy : length (braced none).text ≤ room = rw (a, e) at fits in
            let none_fits : fitting vs true cs room ≡ none =
              fitting-braced vs cs room clean (rw e (first_none vs)) roomy in
            rw (a, e, no_dollar, none_fits) (braced_written none room roomy)
        | inr (name, e) ↦
            let o = named vs name in
            let roomy : length (braced o).text ≤ room = rw (a, e) at fits in
            let one_fits : fitting vs true cs room ≡ o =
              fitting-braced vs cs room clean (rw e refl) roomy in
            rw (a, e, no_dollar, one_fits) (braced_written o room roomy)
      ]
  | inr a ↦ elim (Bool-cases (c == dollar)) [
    | inl d ↦ rw (a, d)
    | inr d ↦
        rw (a, d, fitting-bare vs (c ∷ cs) room (rw (a, d) at fits))
          (bare_written (leading vs (c ∷ cs)) room)
  ]
]

-- One turn of the second loop, when it has room for the piece
turn_written :
    (vs : List Variable) (c : ℕ) (cs : Bytes) (room : ℕ)
    → All NoBrace vs
    → length (piece_from vs c cs).text ≤ room
    → (if c == dollar && not (is_nil cs)
        then expand_single_variable (no_handler vs) cs room
        else single 0 (c ∷ []))
      ≡ written_piece (piece_from vs c cs)
unfolding piece_at
turn_written vs c [] room clean fits = elim (Bool-cases (c == dollar)) [
  | inr a ↦ rw a
  | inl a ↦ rw (a, (==_iff c dollar).0 a)
]
turn_written vs c (d ∷ ds) room clean fits = elim (Bool-cases (c == dollar)) [
  | inr a ↦ rw a
  | inl a ↦ rw a (single_written vs d ds room clean (rw a at fits))
]

nil_of_length : (bs : Bytes) → length bs ≤ 0 → bs ≡ []
nil_of_length [] h = refl
nil_of_length (b ∷ bs) h = absurd (omega arith)

abbrev turn : List Variable → Bytes → ℕ → Single → Option Bytes
turn vs cs room next =
    if room == 0
    then some []
    else and_then next.written (expand (no_handler vs) next.skipped cs (room - length next.written))

turn_piece :
    (vs : List Variable) (cs : Bytes) (room : ℕ) (p : Piece) (rest : Bytes)
    → length (p.text ++ rest) ≤ room
    → expand (no_handler vs) p.used cs (room - length p.text) ≡ some rest
    → turn vs cs room (written_piece p) ≡ some (p.text ++ rest)
turn_piece vs cs zero p rest fits h = rw (nil_of_length (p.text ++ rest) fits)
turn_piece vs cs (suc room) p rest fits h =
    let nonzero : (suc room == 0) ≡ false = ground arith in rw (nonzero, h)

pub expand_substitute :
    (vs : List Variable) (k : ℕ) (src : Bytes) (room : ℕ)
    → All NoBrace vs
    → k ≤ length src
    → length (substitute_from vs k src).0 ≤ room
    → expand (no_handler vs) k src room ≡ some (substitute_from vs k src).0
unfolding expand substitute_from
expand_substitute vs zero [] room clean inside fits = refl
expand_substitute vs (suc k) [] room clean inside fits = absurd (omega arith)
expand_substitute vs (suc k) (c ∷ cs) room clean inside fits =
    expand_substitute vs k cs room clean (omega arith) fits
expand_substitute vs zero (c ∷ cs) room clean inside fits =
    let p = piece_from vs c cs in
    let rest = (substitute_from vs p.used cs).0 in
    let lengths = length-append p.text rest in
    ap (turn vs cs room) (turn_written vs c cs room clean (omega (arith, fits, lengths)))
    ∙ turn_piece vs cs room p rest fits (
        expand_substitute vs p.used cs (room - length p.text) clean (piece_from_used vs c cs)
          (omega (arith, fits, lengths)))
