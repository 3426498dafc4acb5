-- ===== src/Text/Variables/Room.antt =====
-- The second loop of `ucl_expand_variable` in src/ucl_parser.c stays inside its buffer.
use libucl.Base.{
  ℕ, zero, suc, ◌-◌, ◌≤◌, ◌≡◌, refl, Bool, true, false, ◌&&◌, not, leb, ◌==◌, inl, inr,
  if◌then◌else◌, Option, none, some, List, [], ◌∷◌, Bytes, length, length-append, Bool-cases,
  subst_some, Option-cases, arith,
}
use mathlib.Core.Path.{subst}
use libucl.Text.Variables.{
  Variable, Handler, Variables, Single, single, and_then, stands, fitting, leave, expand_handler,
  expand_single_variable, expand, unchanged, expanded, count, expand_variable, is_nil, dollar,
  obrace,
}

fitting_fits :
    (vs : List Variable) (strict : Bool) (p : Bytes) (room : ℕ) {v : Variable}
    → fitting vs strict p room ≡ some v
    → length v.value ≤ room
unfolding fitting
fitting_fits [] strict p room h = absurd cc
fitting_fits (w ∷ vs) strict p room h = elim (Bool-cases (leb (length w.value) room)) [
  | inr a ↦ fitting_fits vs strict p room (rw a at h)
  | inl a ↦ elim (Bool-cases (stands strict w.var p)) [
    | inr b ↦ fitting_fits vs strict p room (rw (a, b) at h)
    | inl b ↦ subst_some (λ x. length x.value ≤ room) (rw (a, b) at h) (ground (arith, a))
  ]
]

leave_fits : (strict : Bool) (room : ℕ) → 1 ≤ room → length (leave strict room).written ≤ room
unfolding leave
leave_fits false room h = h
leave_fits true room h = elim (Bool-cases (leb 2 room)) [
  | inl a ↦ rw (a, length) (ground (arith, a))
  | inr a ↦ rw (a, length) h
]

expand_handler_fits :
    (handler : Handler) (p : Bytes) (room : ℕ)
    → 1 ≤ room
    → length (expand_handler handler p room).written ≤ room
unfolding expand_handler
expand_handler_fits none p room h = leave_fits true room h
expand_handler_fits (some handler) p room h = elim (Option-cases (handler p)) [
  | inl a ↦ rw (a, length) (leave_fits true room h)
  | inr (dst, a) ↦ elim (Bool-cases (leb (length dst) room)) [
    | inl b ↦ rw (a, b, length) (ground (arith, b))
    | inr b ↦ rw (a, b, length) (leave_fits true room h)
  ]
]

expand_single_variable_fits :
    (vs : Variables) (p : Bytes) (room : ℕ)
    → 1 ≤ room
    → length (expand_single_variable vs p room).written ≤ room
unfolding expand_single_variable
expand_single_variable_fits vs [] room h = leave_fits false room h
expand_single_variable_fits vs (c ∷ cs) room h = elim (Bool-cases (c == dollar)) [
  | inl a ↦ rw (a, length) h
  | inr a ↦ elim (Bool-cases (c == obrace)) [
    | inl b ↦ elim (Option-cases (fitting vs.variables true cs room)) [
      | inl e ↦ rw (a, b, e, length) (expand_handler_fits vs.var_handler cs room h)
      | inr (v, e) ↦ rw (a, b, e, length) (fitting_fits vs.variables true cs room e)
    ]
    | inr b ↦ elim (Option-cases (fitting vs.variables false (c ∷ cs) room)) [
      | inl e ↦ rw (a, b, e, length) (leave_fits false room h)
      | inr (v, e) ↦ rw (a, b, e, length) (fitting_fits vs.variables false (c ∷ cs) room e)
    ]
  ]
]

single_fits :
    (b : Bool) (s t : Single) (room : ℕ)
    → length s.written ≤ room
    → length t.written ≤ room
    → length (if b then s else t).written ≤ room
single_fits true s t room hs ht = hs
single_fits false s t room hs ht = ht

length-and_then :
    (written : Bytes) (rest : Option Bytes) (room : ℕ) {out : Bytes}
    → length written ≤ room
    → and_then written rest ≡ some out
    → ((tail : Bytes) → rest ≡ some tail → length tail ≤ room - length written)
    → length out ≤ room
length-and_then written none room fits h ih = absurd cc
length-and_then written (some tail) room fits h ih =
    subst_some (λ bs. length bs ≤ room) h
      (omega (arith, fits, ih tail refl, length-append written tail))

turn_fits :
    (next : Single) (rest : Option Bytes) (room : ℕ) {out : Bytes}
    → (1 ≤ room → length next.written ≤ room)
    → ((tail : Bytes) → rest ≡ some tail → length tail ≤ room - length next.written)
    → (if room == 0 then some [] else and_then next.written rest) ≡ some out
    → length out ≤ room
turn_fits next rest zero fits ih h = subst_some (λ bs. length bs ≤ 0) h (omega arith)
turn_fits next rest (suc room) fits ih h =
    let nonzero : (suc room == 0) ≡ false = ground arith in
    length-and_then next.written rest (suc room) (fits (omega arith)) (rw nonzero at h) ih

-- Whatever the variables and the handler are, all that the second loop writes fits into the room it
-- has, from any place it may start at.
pub expand_fits :
    (vs : Variables) (k : ℕ) (src : Bytes) (room : ℕ) {out : Bytes}
    → expand vs k src room ≡ some out
    → length out ≤ room
unfolding expand
expand_fits vs zero [] room h = subst_some (λ bs. length bs ≤ room) h (omega arith)
expand_fits vs (suc k) [] zero h = subst_some (λ bs. length bs ≤ 0) h (omega arith)
expand_fits vs (suc k) [] (suc room) h =
    let nonzero : (suc room == 0) ≡ false = ground arith in absurd (cc (rw nonzero at h))
expand_fits vs (suc k) (c ∷ cs) room h = expand_fits vs k cs room h
expand_fits vs zero (c ∷ cs) room h =
    let b = c == dollar && not (is_nil cs) in
    let next = if b then expand_single_variable vs cs room else single 0 (c ∷ []) in
    turn_fits next (expand vs next.skipped cs (room - length next.written)) room
      (λ pos.
        single_fits b (expand_single_variable vs cs room) (single 0 (c ∷ [])) room
          (expand_single_variable_fits vs cs room pos) pos)
      (λ tail e. expand_fits vs next.skipped cs (room - length next.written) e) h

-- Where the expansion of a string puts out bytes, without its second loop stepping over the end of
-- the string, they fit into the buffer that its first loop has measured, whatever the variables and
-- the handler are.
pub expand_variable_fits :
    (vs : Variables) (disable_macro : Bool) (src : Bytes) {out : Bytes} {out_len : ℕ}
    → expand_variable disable_macro vs src ≡ expanded (some out) out_len
    → length out ≤ out_len
unfolding expand_variable
expand_variable_fits vs true src h = absurd cc
expand_variable_fits vs false src {out} {out_len} h = elim (Bool-cases (count vs 0 src 0 false).1) [
  | inr a ↦ let same : unchanged ≡ expanded (some out) out_len = rw a at h in absurd cc
  | inl a ↦
      let n = (count vs 0 src 0 false).0 in
      let same : expanded (expand vs 0 src n) n ≡ expanded (some out) out_len = rw a at h in
      let lens : n ≡ out_len = cc in
      let outs : expand vs 0 src n ≡ some out = cc in
      subst (λ m. length out ≤ m) lens (expand_fits vs 0 src n outs)
]
