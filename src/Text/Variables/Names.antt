-- ===== src/Text/Variables/Names.antt =====
-- The names of variables at a place of a string, as the loops of src/ucl_parser.c and the one pass of
-- Substitute look for them.
use libucl.Base.{
  ℕ, suc, ◌+◌, ◌≤◌, ◌≡◌, refl, Bool, true, false, ◌==◌, inl, inr, Option, none, some, List, [], ◌∷◌,
  Bytes, bytes_eq, length, All, ==_iff, Bool-cases, subst_some, Option-cases, arith,
}
use libucl.Text.Variables.{Variable, is_prefix, closing, stands, fitting, ebrace}
use libucl.Text.Variables.Substitute.{first}

abbrev pub Affords : Option Variable → ℕ → Type 0
Affords none room = Unit
Affords (some v) room = length v.value ≤ room

pub fitting_first :
    (p : Variable → Bool) (vs : List Variable) (room : ℕ) (strict : Bool) (text : Bytes)
    → All (λ v. stands strict v.var text ≡ p v) vs
    → Affords (first p vs) room
    → fitting vs strict text room ≡ first p vs
unfolding fitting first
fitting_first p [] room strict text agree room_for = refl
fitting_first p (v ∷ vs) room strict text agree room_for = elim (Bool-cases (p v)) [
  | inl a ↦
      let stands_here : stands strict v.var text ≡ true = rw a at agree.0 in
      let fits : length v.value ≤ room = rw a at room_for in
      rw (a, stands_here) (ground (arith, fits))
  | inr a ↦
      let not_here : stands strict v.var text ≡ false = rw a at agree.0 in
      let rest = fitting_first p vs room strict text agree.1 (rw a at room_for) in
      rw (a, not_here) (ground (arith, rest))
]

pub All_any : {P : Variable → Type 0} (vs : List Variable) → ((v : Variable) → P v) → All P vs
All_any [] f = tt
All_any (v ∷ vs) f = (f v, All_any vs f)

pub All-map :
    {P Q : Variable → Type 0} (vs : List Variable)
    → ((v : Variable) → P v → Q v)
    → All P vs
    → All Q vs
All-map [] f h = h
All-map (v ∷ vs) f h = (f v h.0, All-map vs f h.1)

pub stands_bare : (var text : Bytes) → stands false var text ≡ is_prefix var text
unfolding stands is_prefix
stands_bare [] text = refl
stands_bare (x ∷ xs) [] = refl
stands_bare (x ∷ xs) (y ∷ ys) = rw (stands_bare xs ys)

abbrev pub names : Option Bytes → Bytes → Bool
names none var = false
names (some name) var = bytes_eq name var

pub stands_braced :
    (var text : Bytes)
    → All (λ b. (b == ebrace) ≡ false) var
    → stands true var text ≡ names (closing text) var
unfolding stands closing is_prefix bytes_eq
stands_braced [] [] h = refl
stands_braced [] (y ∷ ys) h = elim (Bool-cases (y == ebrace)) [
  | inl a ↦ rw ((==_iff y ebrace).0 a)
  | inr a ↦ elim (Option-cases (closing ys)) [
    | inl n ↦ ground (arith, a, n)
    | inr (name, n) ↦ ground (arith, a, n)
  ]
]
stands_braced (x ∷ xs) [] h = refl
stands_braced (x ∷ xs) (y ∷ ys) h = elim (Bool-cases (y == ebrace)) [
  | inl a ↦ ground (arith, a, h.0)
  | inr a ↦ elim (Option-cases (closing ys)) [
    | inl n ↦ let ih = stands_braced xs ys h.1 in rw (a, n) (ground (arith, rw n at ih))
    | inr (name, n) ↦ let ih = stands_braced xs ys h.1 in rw (a, n) (ground (arith, rw n at ih))
  ]
]

pub prefix_length : (xs ys : Bytes) → is_prefix xs ys ≡ true → length xs ≤ length ys
unfolding is_prefix
prefix_length [] ys h = omega arith
prefix_length (x ∷ xs) [] h = absurd cc
prefix_length (x ∷ xs) (y ∷ ys) h = ground (arith, prefix_length xs ys)

pub closing-length :
    (text : Bytes) {name : Bytes} → closing text ≡ some name → length name + 1 ≤ length text
unfolding closing
closing-length [] h = absurd cc
closing-length (y ∷ ys) h = elim (Bool-cases (y == ebrace)) [
  | inl a ↦ subst_some (λ bs. length bs + 1 ≤ suc (length ys)) (rw a at h) (omega arith)
  | inr a ↦ elim (Option-cases (closing ys)) [
    | inl n ↦ absurd (cc (rw (a, n) at h))
    | inr (name, n) ↦
        subst_some (λ bs. length bs + 1 ≤ suc (length ys)) (rw (a, n) at h)
          (omega (arith, closing-length ys n))
  ]
]

pub bytes_eq-length : (xs ys : Bytes) → bytes_eq xs ys ≡ true → length xs ≡ length ys
unfolding bytes_eq
bytes_eq-length [] [] h = refl
bytes_eq-length (x ∷ xs) (y ∷ ys) h = ground (arith, bytes_eq-length xs ys)
bytes_eq-length _ _ h = absurd cc

pub first_holds :
    (p : Variable → Bool) (vs : List Variable) {v : Variable} → first p vs ≡ some v → p v ≡ true
unfolding first
first_holds p [] h = absurd cc
first_holds p (w ∷ vs) h = elim (Bool-cases (p w)) [
  | inl a ↦ subst_some (λ x. p x ≡ true) (rw a at h) a
  | inr a ↦ first_holds p vs (rw a at h)
]

pub first_none : (vs : List Variable) → first (λ v. false) vs ≡ none
unfolding first
first_none [] = refl
first_none (v ∷ vs) = first_none vs
