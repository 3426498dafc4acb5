-- ===== src/Msgpack/Termination/TypeByte.antt =====
-- The measure of the rounds that are left, and the `read_type` state of `ucl_msgpack_consume`.
use libucl.Base.{
  ℕ, zero, suc, ◌+◌, ◌*◌, ◌≤◌, ◌<◌, ◌≡◌, refl, arith, Bool, true, false, ◌∷◌, Option, none, some,
  Bytes, length, length-drop, ltb, leb, ◌⊎◌, ◌==◌, if◌then◌else◌, inl, inr, not, ◌&&◌, Option-cases,
  Bool-cases,
}
use mathlib.Core.Path.{ap}
use libucl.Store.{unknown_format, not_enough_data, invalid_length_field}
use libucl.Msgpack.Outcome.{Ensures, Ensures-fail, Ensures-if}
use libucl.Msgpack.Format.{
  Entry, has, flag_fixed, flag_typevalue, flag_container, flag_assoc, flag_key,
  get_parser_from_type, parsers, find_parser,
}
use libucl.Msgpack.Machine.{
  Machine, State, read_type, start_assoc, start_array, read_assoc_key, read_assoc_value,
  finish_assoc_value, read_array_value, finish_array_value, error_state, do_read_type, read_fixed,
  read_length, after_type, is_length_size,
}
use libucl.Msgpack.Termination.Calls.{
  IsGood, Fits, number_fits, number_width, parsers-IsGood, find_parser-IsGood,
}

-- The states that a value or a key leads to
abbrev pub IsNext : State → Type 0
IsNext read_array_value = Unit
IsNext read_assoc_key = Unit
IsNext read_assoc_value = Unit
IsNext error_state = Unit
IsNext _ = ⊥

-- How many rounds may follow before a byte is consumed; `tv` is for a type that is its value.
abbrev pub rank : State → Bool → ℕ
rank read_type tv = 1
rank finish_assoc_value tv = 2
rank finish_array_value tv = 2
rank error_state tv = 0
rank _ tv = if tv then 0 else 3

abbrev pub is_value : Option Entry → Bool
is_value none = true
is_value (some e) = has e flag_typevalue

abbrev pub measure : Machine → ℕ
measure m = 4 * length m.input + rank m.state (is_value m.entry)

abbrev EntryGood : Option Entry → Type 0
EntryGood none = Unit
EntryGood (some e) = IsGood e

abbrev EntryFits : Option Entry → ℕ → ℕ → Type 0
EntryFits none len remain = Unit
EntryFits (some e) len remain = Fits e len remain

fits_last : (a b c : Bool) → (a && b && c) ≡ true → c ≡ true
fits_last true true true h = refl
fits_last true true false h = h
fits_last true false c h = cc
fits_last false b c h = cc

at_most_len : (len x n : ℕ) → n ≤ len → n ≤ (if len == 0 then x else len)
at_most_len zero x n h = omega (arith, h)
at_most_len (suc len) x n h = let no_zero : (suc len == 0) ≡ false = ground arith in rw no_zero h

-- The number of a type that is its value is the type byte itself.
fixed-Fits :
    (e : Entry) (x : ℕ) (tl : Bytes) (input : Bytes) (o : Option ℕ)
    → length input ≡ suc (length tl)
    → number_fits e o ≡ true
    → (n : ℕ) → o ≡ some n
    → (n ≤ (if has e flag_typevalue then 0 else (if e.len == 0 then x else e.len)))
      ⊎ (n ≤ length (if has e flag_typevalue then input else tl))
fixed-Fits e x tl input none hl g n h = cc
fixed-Fits e x tl input (some k) hl g n h =
    let same : k ≡ n = cc in
    elim (Bool-cases (has e flag_typevalue)) [
      | inl t ↦
          let byte : leb k 1 ≡ true =
            fits_last (has e flag_fixed) (not (has e flag_key)) (leb k 1) (rw t at g) in
          rw t (inr (ground (arith, byte, same, hl)))
      | inr t ↦
          let within : leb k e.len ≡ true =
            fits_last (has e flag_fixed) (not (has e flag_key)) (leb k e.len) (rw t at g) in
          rw t (inl (at_most_len e.len x n (ground (arith, within, same))))
    ]

-- A number is of fixed length.
no_length-Fits :
    (e : Entry) (o : Option ℕ) (len remain : ℕ)
    → number_fits e o ≡ true
    → has e flag_fixed ≡ false
    → (n : ℕ) → o ≡ some n
    → (n ≤ len) ⊎ (n ≤ remain)
no_length-Fits e none len remain g f n h = cc
no_length-Fits e (some k) len remain g f n h = absurd (cc (rw f at g))

-- A number is no key.
pub key-Fits :
    (e : Entry) (o : Option ℕ) (len remain : ℕ)
    → number_fits e o ≡ true
    → has e flag_key ≡ true
    → (n : ℕ) → o ≡ some n
    → (n ≤ len) ⊎ (n ≤ remain)
key-Fits e none len remain g f n h = cc
key-Fits e (some k) len remain g f n h = absurd (ground (arith, f, g))

pub record IsSound (m : Machine) : Type 0 where
  pub next_ok : IsNext m.next_state
  pub entry_ok : EntryGood m.entry
  pub fits : EntryFits m.entry m.len (length m.input)

-- A round keeps the invariant and makes the measure smaller.
abbrev pub Progress : Machine → Machine → Type 0
Progress m m' = IsSound m' × (measure m' < measure m)

next_rank : (next : State) (tv : Bool) → IsNext next → rank next tv ≤ (if tv then 0 else 3)
next_rank read_array_value tv n = omega arith
next_rank read_assoc_key tv n = omega arith
next_rank read_assoc_value tv n = omega arith
next_rank error_state tv n = omega arith
next_rank read_type tv n = absurd n
next_rank start_assoc tv n = absurd n
next_rank start_array tv n = absurd n
next_rank finish_assoc_value tv n = absurd n
next_rank finish_array_value tv n = absurd n

after_type-rank :
    (e : Entry) (next : State)
    → IsNext next
    → rank (after_type e next) (has e flag_typevalue) ≤ (if has e flag_typevalue then 0 else 3)
after_type-rank e next n = elim (Bool-cases (has e flag_assoc)) [
  | inl a ↦ rw a (omega arith)
  | inr a ↦ rw a (elim (Bool-cases (has e flag_container)) [
    | inl c ↦ rw c (omega arith)
    | inr c ↦ rw c (next_rank next (has e flag_typevalue) n)
  ])
]

-- The type byte pays for what may follow before the next one.
type_measure :
    (tv : Bool) (input tl : Bytes)
    → length input ≡ suc (length tl)
    → 4 * length (if tv then input else tl) + (if tv then 0 else 3) < 4 * suc (length tl) + 1
type_measure true input tl h = omega arith
type_measure false input tl h = omega arith

three : (tv : Bool) → (if tv then 0 else 3) ≤ 3
three true = omega arith
three false = omega arith

module _ (m : Machine) (b : ℕ) (tl : Bytes) (hi : m.input ≡ b ∷ tl) (hs : m.state ≡ read_type)
    (s : IsSound m) where
  start_measure : measure m ≡ 4 * suc (length tl) + 1
  start_measure = rw (hi, hs) refl

  module _ (e : Entry) (good : IsGood e) where
    read_fixed-Progress : Ensures (Progress m) (read_fixed m e b tl)
    unfolding read_fixed
    read_fixed-Progress =
        Ensures-if (Progress m) (not (e.len == 0) && ltb (length m.input) e.len) _ _
          (λ _. Ensures-fail (Progress m) m.parser not_enough_data)
          λ _. (
            record {
              next_ok = s.next_ok;
              entry_ok = good;
              fits = fixed-Fits e _ tl m.input (number_width e.func e.fmt) (ap length hi) good.1;
            },
            omega (
              arith,
              start_measure,
              type_measure (has e flag_typevalue) m.input tl (ap length hi),
              after_type-rank e m.next_state s.next_ok,
            ),
          )

    read_length-Progress : has e flag_fixed ≡ false → Ensures (Progress m) (read_length m e tl)
    unfolding read_length
    read_length-Progress nf =
        Ensures-if (Progress m) (ltb (length tl) e.len) _ _
          (λ _. Ensures-fail (Progress m) m.parser not_enough_data)
          λ _.
            Ensures-if (Progress m) (not (is_length_size e.len)) _ _
              (λ _. Ensures-fail (Progress m) m.parser invalid_length_field)
              λ _. (
                record {
                  next_ok = s.next_ok;
                  entry_ok = good;
                  fits = no_length-Fits e (number_width e.func e.fmt) _ _ good.1 nf;
                },
                omega (
                  arith,
                  start_measure,
                  length-drop e.len tl,
                  three (has e flag_typevalue),
                  after_type-rank e m.next_state s.next_ok,
                ),
              )

  pub do_read_type-Progress : Ensures (Progress m) (do_read_type m b tl)
  unfolding do_read_type get_parser_from_type
  do_read_type-Progress = elim (Option-cases (find_parser parsers b)) [
    | inl e ↦ rw (e, do_read_type) (Ensures-fail (Progress m) m.parser unknown_format)
    | inr (e, h) ↦
        rw (h, do_read_type)
          (Ensures-if (Progress m) (has e flag_fixed) _ _
            (λ _. read_fixed-Progress e (find_parser-IsGood parsers b parsers-IsGood h))
            (λ nf. read_length-Progress e (find_parser-IsGood parsers b parsers-IsGood h) nf))
  ]
