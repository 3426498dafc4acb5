-- ===== src/Csexp/Accepted.antt =====
-- What `ucl_parse_csexp` accepts.
use libucl.Base.{
  ℕ, ◌≡◌, ◌≢◌, refl, sym, Bool, true, false, ◌||◌, ◌==◌, ltb, if◌then◌else◌, List, [], ◌∷◌, Option,
  none, some, Bytes, length, All, Bool-cases, Option-cases, ◌+◌, ◌*◌, ◌%◌, inl, inr, ◌^◌, ◌-◌,
}
use mathlib.Core.Path.{subst}
use libucl.Store.{Parser, Frame, array_append}
use libucl.Csexp.{
  CsexpState, read_obrace, read_length, read_value, read_ebrace, CsexpOutcome, accepted, failed,
  fault, null_container, bad_container, extra_brace, CsexpMachine, next_state, open_brace,
  length_digit, is_digit, Closed, closed, no_container, no_array, close_brace, is_array,
  after_brace, read_string, csexp_on, parse_csexp,
}

abbrev pub IsBrace : ℕ → Type 0
IsBrace c = ((c == b'(') || (c == b')')) ≡ true

-- An accepted text consists of braces, and leaves a container open.
abbrev OnlyBraces : Bytes → CsexpOutcome → Type 0
OnlyBraces input (accepted q) = All IsBrace input × (q.stack ≢ [])
OnlyBraces input (failed e) = Unit
OnlyBraces input (fault e) = Unit

OnlyBraces-cons :
    (c : ℕ) (cs : Bytes) (o : CsexpOutcome) → IsBrace c → OnlyBraces cs o → OnlyBraces (c ∷ cs) o
OnlyBraces-cons c cs (accepted q) h (hs, ne) = ((h, hs), ne)
OnlyBraces-cons c cs (failed e) h x = tt
OnlyBraces-cons c cs (fault e) h x = tt

-- No text with a length in it is accepted.
abbrev Refuses : CsexpOutcome → Type 0
Refuses (accepted q) = ⊥
Refuses (failed e) = Unit
Refuses (fault e) = Unit

Refuses-OnlyBraces : (input : Bytes) (o : CsexpOutcome) → Refuses o → OnlyBraces input o
Refuses-OnlyBraces input (accepted q) h = absurd h
Refuses-OnlyBraces input (failed e) h = tt
Refuses-OnlyBraces input (fault e) h = tt

abbrev in_state : Parser → CsexpState → ℕ → ℕ → CsexpMachine
in_state p s l k = record { parser = p; state = s; len = l; mult = k }

read_string-Refuses : (m : CsexpMachine) (input : Bytes) → Refuses (read_string m input)
unfolding read_string
read_string-Refuses m input = elim (Bool-cases (ltb m.len (length input) || m.len == 0)) [
  | inl a ↦ rw a tt
  | inr a ↦ elim (Bool-cases (ltb (length input) m.len)) [
    | inl b ↦ rw (a, b) tt
    | inr b ↦ rw (a, b) tt
  ]
]

value-Refuses :
    (input : Bytes) (p : Parser) (l k : ℕ) → Refuses (csexp_on input (in_state p read_value l k))
unfolding csexp_on
value-Refuses [] p l k = tt
value-Refuses (c ∷ cs) p l k = read_string-Refuses (in_state p read_value l k) (c ∷ cs)

length-Refuses :
    (input : Bytes) (p : Parser) (l k : ℕ) → Refuses (csexp_on input (in_state p read_length l k))
unfolding csexp_on length_digit
length-Refuses [] p l k = tt
length-Refuses (c ∷ cs) p l k = elim (Bool-cases (c == b':')) [
  | inl a ↦ elim (Bool-cases (l == 0)) [
    | inl b ↦ rw (a, b) tt
    | inr b ↦ rw (a, b) (value-Refuses cs p l k)
  ]
  | inr a ↦ elim (Bool-cases (is_digit c)) [
    | inl b ↦ elim (Bool-cases (ltb (2 ^ 32 - 1) ((l + (c - 48) * k) % 2 ^ 64))) [
      | inl d ↦ rw (a, b, d) tt
      | inr d ↦ rw (a, b, d) (length-Refuses cs p _ _)
    ]
    | inr b ↦ rw (a, b) tt
  ]
]

-- What the state says of the next byte
abbrev Fits : CsexpState → Parser → Bytes → Type 0
Fits read_obrace p [] = Unit
Fits read_obrace p (c ∷ cs) = (c == b'(') ≡ true
Fits read_ebrace p [] = p.stack ≢ []
Fits read_ebrace p (c ∷ cs) = (c == b')') ≡ true
Fits read_length p input = Unit
Fits read_value p input = Unit

abbrev Loops : Bytes → Type 0
Loops input =
    (p : Parser) (s : CsexpState) (l k : ℕ)
    → Fits s p input
    → OnlyBraces input (csexp_on input (in_state p s l k))

open_is : (c : ℕ) → (c == b'(') ≡ true → IsBrace c
open_is c h = rw h refl

close_is : (c : ℕ) → (c == b')') ≡ true → IsBrace c
close_is c h = elim (Bool-cases (c == b'(')) [ inl a ↦ rw a refl | inr a ↦ rw (a, h) refl ]

next-OnlyBraces :
    (c : ℕ) (cs : Bytes) (m : CsexpMachine)
    → Loops (c ∷ cs)
    → OnlyBraces (c ∷ cs) (csexp_on (c ∷ cs) (next_state c m))
unfolding next_state
next-OnlyBraces c cs m loop = elim (Bool-cases (c == b'(')) [
  | inl a ↦ rw a (loop m.parser read_obrace m.len m.mult a)
  | inr a ↦ elim (Bool-cases (c == b')')) [
    | inl b ↦ rw (a, b) (loop m.parser read_ebrace m.len m.mult b)
    | inr b ↦ rw (a, b) (loop m.parser read_length 0 1 tt)
  ]
]

after-OnlyBraces :
    (ebrace : Bool) (input : Bytes) (m : CsexpMachine)
    → (ebrace ≡ true → m.parser.stack ≢ [])
    → Loops input
    → OnlyBraces input (after_brace (csexp_on input) ebrace input m)
after-OnlyBraces true [] m h loop = (tt, h refl)
after-OnlyBraces false [] m h loop = tt
after-OnlyBraces true (c ∷ cs) m h loop = next-OnlyBraces c cs m loop
after-OnlyBraces false (c ∷ cs) m h loop = next-OnlyBraces c cs m loop

-- A brace that closes a container leaves another one open.
abbrev Open : Closed → Type 0
Open (closed p) = p.stack ≢ []
Open no_container = Unit
Open no_array = Unit

abbrev at_top : Parser → Frame → List Frame → Option ℕ → Option ℕ → Closed
at_top p f fs r o = elim o [
  | none ↦ no_container
  | some top ↦
      if is_array (p.cell top).payload
      then (elim r [
        | none ↦ no_container
        | some elt ↦ closed (record p { stack = f ∷ fs; cell = array_append p.cell top elt })
      ])
      else no_array
]

top-Open :
    (p : Parser) (f : Frame) (fs : List Frame) (r : Option ℕ) (top : ℕ)
    → Open (at_top p f fs r (some top))
top-Open p f fs none top = elim (Bool-cases (is_array (p.cell top).payload)) [
  | inl a ↦ rw a tt
  | inr a ↦ rw a tt
]
top-Open p f fs (some elt) top = elim (Bool-cases (is_array (p.cell top).payload)) [
  | inl a ↦ rw a (λ e. cc)
  | inr a ↦ rw a tt
]

close_brace-Open : (p : Parser) (fs : List Frame) (r : Option ℕ) → Open (close_brace p fs r)
unfolding close_brace
close_brace-Open p [] r = tt
close_brace-Open p (f ∷ fs) r = elim (Option-cases f.obj) [
  | inl a ↦ subst (λ o. Open (at_top p f fs r o)) (sym a) tt
  | inr (top, a) ↦ subst (λ o. Open (at_top p f fs r o)) (sym a) (top-Open p f fs r top)
]

close-OnlyBraces :
    (c : ℕ) (cs : Bytes) (m : CsexpMachine) (x : Closed)
    → IsBrace c
    → Open x
    → Loops cs
    → OnlyBraces (c ∷ cs) (elim x [
      | no_container ↦ fault null_container
      | no_array ↦ failed bad_container
      | closed p ↦ after_brace (csexp_on cs) true cs (record m { parser = p })
    ])
close-OnlyBraces c cs m (closed p) b h loop =
    OnlyBraces-cons c cs _ b (after-OnlyBraces true cs (record m { parser = p }) (λ e. h) loop)
close-OnlyBraces c cs m no_container b h loop = tt
close-OnlyBraces c cs m no_array b h loop = tt

stack-OnlyBraces :
    (c : ℕ) (cs : Bytes) (m : CsexpMachine) (st : List Frame)
    → IsBrace c
    → Loops cs
    → OnlyBraces (c ∷ cs) (elim st [
      | [] ↦ failed extra_brace
      | f ∷ fs ↦ elim (close_brace m.parser fs f.obj) [
        | no_container ↦ fault null_container
        | no_array ↦ failed bad_container
        | closed p ↦ after_brace (csexp_on cs) true cs (record m { parser = p })
      ]
    ])
stack-OnlyBraces c cs m [] b loop = tt
stack-OnlyBraces c cs m (f ∷ fs) b loop =
    close-OnlyBraces c cs m (close_brace m.parser fs f.obj) b (close_brace-Open m.parser fs f.obj)
      loop

loops : (input : Bytes) → Loops input
unfolding csexp_on
loops [] p read_obrace l k h = tt
loops [] p read_length l k h = tt
loops [] p read_value l k h = tt
loops [] p read_ebrace l k h = (tt, h)
loops (c ∷ cs) p read_obrace l k h =
    OnlyBraces-cons c cs _ (open_is c h)
      (after-OnlyBraces false cs (in_state (open_brace p) read_obrace l k) (λ e. cc) (loops cs))
loops (c ∷ cs) p read_length l k h = Refuses-OnlyBraces (c ∷ cs) _ (length-Refuses (c ∷ cs) p l k)
loops (c ∷ cs) p read_value l k h = Refuses-OnlyBraces (c ∷ cs) _ (value-Refuses (c ∷ cs) p l k)
loops (c ∷ cs) p read_ebrace l k h =
    stack-OnlyBraces c cs (in_state p read_ebrace l k) p.stack (close_is c h) (loops cs)

parse-OnlyBraces : (p : Parser) (input : Bytes) → OnlyBraces input (parse_csexp p input)
unfolding parse_csexp
parse-OnlyBraces p [] = tt
parse-OnlyBraces p (c ∷ cs) = elim (Bool-cases (c == b'(')) [
  | inl a ↦ rw a (loops (c ∷ cs) p read_obrace 0 1 a)
  | inr a ↦ rw a tt
]

-- `ucl_parse_csexp` returns true only on a text of braces, without a single element, and leaves a
-- container on the parser's stack.
pub parse_csexp-accepted :
    (p q : Parser) (input : Bytes)
    → parse_csexp p input ≡ accepted q
    → All IsBrace input × (q.stack ≢ [])
parse_csexp-accepted p q input h = subst (OnlyBraces input) h (parse-OnlyBraces p input)
