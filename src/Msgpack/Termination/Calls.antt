-- ===== src/Msgpack/Termination/Calls.antt =====
-- The bytes that the value functions of src/ucl_msgpack.c consume.
use libucl.Base.{
  ℕ, ◌-◌, ◌/◌, ◌^◌, ◌≤◌, ◌<◌, ◌≡◌, refl, arith, Bool, true, List, [], ◌∷◌, Option, none, some,
  Bytes, length, All, length-drop, ltb, leb, false, not, ◌&&◌, if◌then◌else◌, ◌==◌, ◌⊎◌, inl, inr,
  Option-cases, Bool-cases,
}
use mathlib.Core.Path.{subst}
use libucl.Store.{Config, Parser, Frame, cannot_parse}
use libucl.Msgpack.Outcome.{
  Outcome, Ensures, Ensures-bind, Ensures-fail, Ensures-if, Ensures-weaken,
}
use libucl.Msgpack.Format.{
  Entry, Format, ParseFunction, has, flag_typevalue, flag_fixed, flag_key, parsers, find_parser,
}
use libucl.Msgpack.Values.{
  parse_with, parse_int, parse_bool, parse_null, parse_string, parse_float, parse_ignore, parse_map,
  parse_array, int_width, bool_value, float_width, ignored, open_container,
}
use libucl.Msgpack.Machine.{Machine, call_entry, with_entry}

-- How many bytes an entry's function reads for a number
abbrev pub number_width : ParseFunction → Format → Option ℕ
number_width ParseFunction.parse_int fmt = int_width fmt
number_width ParseFunction.parse_float fmt = float_width fmt
number_width _ fmt = none

-- A number is of fixed length and no key, and as long as its entry says, or a byte that is its own type.
abbrev pub number_fits : Entry → Option ℕ → Bool
number_fits e none = true
number_fits e (some n) =
    has e flag_fixed
    && not (has e flag_key)
    && (if has e flag_typevalue then leb n 1 else leb n e.len)

-- The number that an entry's function reads is checked by its length, or there anyway.
abbrev pub Fits : Entry → ℕ → ℕ → Type 0
Fits e len remain = (n : ℕ) → number_width e.func e.fmt ≡ some n → (n ≤ len) ⊎ (n ≤ remain)

-- A type that is its value has a function that consumes at least one byte.
abbrev HasUse : Entry → Type 0
HasUse e =
    has e flag_typevalue ≡ true
    → (e.func ≡ ParseFunction.parse_int)
      ⊎ (e.func ≡ ParseFunction.parse_bool)
      ⊎ (e.func ≡ ParseFunction.parse_null)

abbrev pub IsGood : Entry → Type 0
IsGood e = HasUse e × (number_fits e (number_width e.func e.fmt) ≡ true)

parsers-HasUse : All HasUse parsers
unfolding parsers
parsers-HasUse = ground arith

abbrev all_fit : List Entry → Bool
all_fit [] = true
all_fit (e ∷ es) = number_fits e (number_width e.func e.fmt) && all_fit es

parsers_fit : all_fit parsers ≡ true
unfolding parsers
parsers_fit = refl

both : (b c : Bool) → (b && c) ≡ true → (b ≡ true) × (c ≡ true)
both true true h = (refl, refl)
both true false h = cc
both false c h = cc

all_good : (es : List Entry) → All HasUse es → all_fit es ≡ true → All IsGood es
all_good [] u f = tt
all_good (e ∷ es) u f =
    let (g, r) = both (number_fits e (number_width e.func e.fmt)) (all_fit es) f in
    ((u.0, g), all_good es u.1 r)

pub parsers-IsGood : All IsGood parsers
parsers-IsGood = all_good parsers parsers-HasUse parsers_fit

pub found : {x e : Entry} → ◌≡◌ {A = Option Entry} (some x) (some e) → IsGood x → IsGood e
found {x} {e} h a = let q : x ≡ e = cc h in subst IsGood q a

pub find_parser-IsGood :
    (es : List Entry) (t : ℕ) {e : Entry} → All IsGood es → find_parser es t ≡ some e → IsGood e
unfolding find_parser
find_parser-IsGood [] t a h = cc
find_parser-IsGood (x ∷ es) t a h =
    elim (Bool-cases (x.prefix / 2 ^ (8 - x.prefixlen) == t / 2 ^ (8 - x.prefixlen))) [
      | inl hit ↦ found (rw hit at h) a.0
      | inr miss ↦ find_parser-IsGood es t a.1 (rw miss at h)
    ]

int_width-pos : (f : Format) (n : ℕ) → int_width f ≡ some n → 1 ≤ n
int_width-pos f n h = ground arith

module _ (cfg : Config) (p : Parser) (len : ℕ) (fmt : Format) (pos : Bytes) (tv : Bool) where
  abbrev Uses : Outcome (Parser × ℕ) → Type 0
  Uses = Ensures (λ r. tv ≡ true → 1 ≤ r.1)

  abbrev Room : Option ℕ → Type 0
  Room o = (n : ℕ) → o ≡ some n → (n ≤ len) ⊎ (n ≤ length pos)

  room_left : (n : ℕ) → (n ≤ len) ⊎ (n ≤ length pos) → ltb (length pos) len ≡ false → n ≤ length pos
  room_left n (inl h) k = ground (arith, h)
  room_left n (inr h) k = h

  parse_int-used : Room (int_width fmt) → Uses (parse_int cfg p len fmt pos)
  unfolding parse_int
  parse_int-used room =
      Ensures-if _ (ltb (length pos) len) _ _ (λ _. Ensures-fail _ p cannot_parse)
        λ k. elim (Option-cases (int_width fmt)) [
          | inl e ↦ rw e tt
          | inr (n, e) ↦ rw e (
              Ensures-if _ (ltb (length pos) n) _ _
                (λ x. let le = room_left n (room n e) k in absurd (ground (arith, le, x)))
                (λ _ _. int_width-pos fmt n e))
        ]

  parse_bool-used : Uses (parse_bool cfg p len fmt pos)
  unfolding parse_bool
  parse_bool-used =
      Ensures-if _ (ltb (length pos) len) _ _ (λ _. Ensures-fail _ p cannot_parse)
        λ _. elim (Option-cases (bool_value fmt)) [
          | inl e ↦ rw e tt
          | inr (v, e) ↦ rw e (λ _. omega arith)
        ]

  parse_null-used : Uses (parse_null cfg p len fmt pos)
  unfolding parse_null
  parse_null-used =
      Ensures-if _ (ltb (length pos) len) _ _ (λ _. Ensures-fail _ p cannot_parse)
        λ _ _. omega arith

  -- The other functions end, and are not called for a type that is its value.
  abbrev Ends : Outcome (Parser × ℕ) → Type 0
  Ends = Ensures (λ r. Unit {0})

  parse_string-Ends : Ends (parse_string cfg p len fmt pos)
  unfolding parse_string
  parse_string-Ends =
      Ensures-if _ (ltb (length pos) len) _ _ (λ _. Ensures-fail _ p cannot_parse) (λ _. tt)

  parse_float-Ends : Room (float_width fmt) → Ends (parse_float cfg p len fmt pos)
  unfolding parse_float
  parse_float-Ends room =
      Ensures-if _ (ltb (length pos) len) _ _ (λ _. Ensures-fail _ p cannot_parse)
        λ k. elim (Option-cases (float_width fmt)) [
          | inl e ↦ rw e tt
          | inr (n, e) ↦ rw e (
              Ensures-if _ (ltb (length pos) n) _ _
                (λ x. let le = room_left n (room n e) k in absurd (ground (arith, le, x)))
                (λ _. tt))
        ]

  parse_ignore-Ends : Ends (parse_ignore cfg p len fmt pos)
  unfolding parse_ignore
  parse_ignore-Ends =
      Ensures-if _ (ltb (length pos) len) _ _ (λ _. Ensures-fail _ p cannot_parse)
        λ _. elim (Option-cases (ignored fmt len)) [
          | inl e ↦ rw e (Ensures-fail _ p cannot_parse)
          | inr (n, e) ↦ rw e tt
        ]

  open_container-Ends : (fs : List Frame) → Ends (open_container p fs)
  open_container-Ends [] = tt
  open_container-Ends (f ∷ fs) = tt

  pub unused : (m : Outcome (Parser × ℕ)) → Ends m → (tv ≡ true → ⊥) → Uses m
  unused m h k =
      Ensures-weaken (λ _. Unit {0}) (λ r. tv ≡ true → 1 ≤ r.1) m h (λ _ _ t. absurd (k t))

  parse_with-used :
      (fn : ParseFunction)
      → (tv ≡ true
          → (fn ≡ ParseFunction.parse_int)
            ⊎ (fn ≡ ParseFunction.parse_bool)
            ⊎ (fn ≡ ParseFunction.parse_null))
      → Room (number_width fn fmt)
      → Uses (parse_with fn cfg p len fmt pos)
  unfolding parse_with parse_map parse_array
  parse_with-used ParseFunction.parse_int g r = parse_int-used r
  parse_with-used ParseFunction.parse_bool g r = parse_bool-used
  parse_with-used ParseFunction.parse_null g r = parse_null-used
  parse_with-used ParseFunction.parse_string g r =
      unused _ parse_string-Ends (λ t. ground (arith, g t))
  parse_with-used ParseFunction.parse_float g r =
      unused _ (parse_float-Ends r) (λ t. ground (arith, g t))
  parse_with-used ParseFunction.parse_ignore g r =
      unused _ parse_ignore-Ends (λ t. ground (arith, g t))
  parse_with-used ParseFunction.parse_map g r =
      unused _ (open_container-Ends p.stack) (λ t. ground (arith, g t))
  parse_with-used ParseFunction.parse_array g r =
      unused _ (open_container-Ends p.stack) (λ t. ground (arith, g t))

-- What a call of an entry's function leaves of the machine
abbrev pub Called : Machine → Entry → Machine → Type 0
Called m e m' =
    (length m'.input ≤ length m.input)
    × (m'.next_state ≡ m.next_state)
    × (m'.entry ≡ none)
    × (has e flag_typevalue ≡ true → length m'.input < length m.input)

pub Ensures-with_entry {ℓ} :
    {A : Type ℓ} (P : A → Type 0) (o : Option Entry) (k : Entry → Outcome A) {e : Entry}
    → o ≡ some e
    → Ensures P (k e)
    → Ensures P (with_entry o k)
Ensures-with_entry P o k h x = rw h x

pub call_entry-Called :
    (cfg : Config) (m : Machine) (e : Entry)
    → m.entry ≡ some e
    → IsGood e
    → Fits e m.len (length m.input)
    → Ensures (Called m e) (call_entry cfg m)
unfolding call_entry
call_entry-Called cfg m e h g room = Ensures-with_entry (Called m e) m.entry _ h (
    Ensures-bind (λ r. has e flag_typevalue ≡ true → 1 ≤ r.1) _ _ _
      (parse_with-used cfg m.parser m.len e.fmt m.input (has e flag_typevalue) e.func g.0 room)
      λ r u.
        Ensures-if _ (ltb (length m.input) r.1) _ _ (λ _. tt)
          λ fits. (
            ground (arith, length-drop r.1 m.input),
            refl,
            refl,
            λ t. ground (arith, u t, length-drop r.1 m.input),
          ))
