-- ===== src/Msgpack/Termination/Rounds.antt =====
-- The measure in the states of `ucl_msgpack_consume` that insert values and open containers.
use libucl.Base.{
  ℕ, ◌+◌, ◌*◌, ◌<◌, ◌≡◌, refl, arith, Bool, true, false, List, [], ◌∷◌, Option, none, some, Bytes,
  length, length-drop, ltb, ◌==◌, if◌then◌else◌, inl, inr, not, ◌||◌, Option-cases, Bool-cases,
}
use libucl.Store.{
  Config, Parser, Payload, array, object, Frame, no_key, bad_container, no_container, bad_key_type,
  bad_key_length, bad_top_level, alloc_cur, new_object,
}
use libucl.Msgpack.Outcome.{Outcome, ok, fail, Ensures, Ensures-bind, Ensures-fail, Ensures-if}
use libucl.Msgpack.Format.{Entry, has, flag_typevalue, flag_container, flag_key}
use libucl.Msgpack.Machine.{
  Machine, State, start_assoc, start_array, read_assoc_key, read_assoc_value, read_array_value,
  do_start_assoc, do_start_array, do_array_value, do_assoc_key, do_assoc_value, enter_container,
  add_container, get_container, call_entry, insert_current, insert_object, insert_on, insert_into,
  is_finished, with_container, after_value, after_start, has_key,
}
use libucl.Msgpack.Termination.Calls.{
  IsGood, Fits, number_width, Called, Ensures-with_entry, call_entry-Called,
}
use libucl.Msgpack.Termination.TypeByte.{IsNext, rank, measure, IsSound, Progress, key-Fits}

abbrev pub EndsP : Outcome Parser → Type 0
EndsP = Ensures (λ p. Unit {0})

insert_into-ends :
    (v : Payload) (cfg : Config) (p : Parser) (r : ℕ) (key : Option Bytes) (elt : ℕ)
    → EndsP (insert_into v cfg p r key elt)
unfolding insert_into
insert_into-ends (array items) cfg p r key elt = tt
insert_into-ends (object es) cfg p r none elt = Ensures-fail _ p no_key
insert_into-ends (object es) cfg p r (some k) elt = elim (Bool-cases (length k == 0)) [
  | inl a ↦ rw a (Ensures-fail _ p no_key)
  | inr a ↦ rw a tt
]
insert_into-ends _ cfg p r key elt = Ensures-fail _ p bad_container

insert_on-ends :
    (fs : List Frame) (cfg : Config) (p : Parser) (key : Option Bytes) (elt : ℕ)
    → EndsP (insert_on fs cfg p key elt)
unfolding insert_on
insert_on-ends [] cfg p key elt = tt
insert_on-ends (f ∷ fs) cfg p key elt =
    Ensures-if _ (f.len == 0) _ _ (λ _. tt)
      λ _. elim (Option-cases f.obj) [
        | inl e ↦ rw e tt
        | inr (r, e) ↦ rw e (
            Ensures-bind (λ _. Unit {0}) _ _ _ (insert_into-ends (p.cell r).payload cfg p r key elt)
              (λ _ _. tt))
      ]

pub insert_current-ends :
    (cfg : Config) (p : Parser) (key : Option Bytes) → EndsP (insert_current cfg p key)
unfolding insert_current insert_object
insert_current-ends cfg p key = elim (Option-cases p.cur_obj) [
  | inl e ↦ rw (e, insert_current) tt
  | inr (r, e) ↦ rw (e, insert_current) (insert_on-ends p.stack cfg p key r)
]

pub Ensures-with_container {ℓ} :
    {A : Type ℓ} (P : A → Type 0) (fs : List Frame) (p : Parser) (m : Outcome A)
    → Ensures P m
    → Ensures P (with_container fs p m)
Ensures-with_container P [] p m h = Ensures-fail P p no_container
Ensures-with_container P (f ∷ fs) p m h = h

after_value-Progress :
    (m m' : Machine) (p : Parser) (finish next : State)
    → IsNext m'.next_state
    → IsNext next
    → m'.entry ≡ none
    → 4 * length m'.input + 2 < measure m
    → (rank finish true ≡ 2)
    → Progress m (after_value m' p finish next)
after_value-Progress m m' p finish next hn hk he lt hf = elim (Bool-cases (is_finished p.stack)) [
  | inl f ↦ rw (f, he) (record { next_ok = hn; entry_ok = tt; fits = tt }, omega (arith, hf))
  | inr f ↦ rw (f, he) (record { next_ok = hk; entry_ok = tt; fits = tt }, omega arith)
]

add_container-ends : (cfg : Config) (m : Machine) (v : Payload) → EndsP (add_container cfg m v)
unfolding add_container insert_object
add_container-ends cfg m v = added (alloc_cur m.parser (new_object v cfg.priority)) m.parser.stack
  where
    added :
        (p : Parser) (fs : List Frame)
        → EndsP (elim fs [ [] ↦ ok p | f ∷ rest ↦ insert_on p.stack cfg p m.key m.parser.fresh ])
    added p [] = tt
    added p (f ∷ rest) = insert_on-ends p.stack cfg p m.key m.parser.fresh

get_container-ends : (p : Parser) (e : Entry) (len : ℕ) → EndsP (get_container p e len)
unfolding get_container
get_container-ends p e len = Ensures-if _ (has e flag_container) _ _ (λ _. tt) (λ _. top p.stack)
  where
    top : (fs : List Frame) → EndsP (elim fs [ [] ↦ fail p bad_top_level | f ∷ rest ↦ ok p ])
    top [] = Ensures-fail _ p bad_top_level
    top (f ∷ rest) = tt

-- The rounds that call an entry's function
module _ (cfg : Config) (m : Machine) (s : IsSound m) (e : Entry) (he : m.entry ≡ some e) where
  pub good : IsGood e
  good = rw he at s.entry_ok

  pub room : Fits e m.len (length m.input)
  room = rw he at s.fits

  measure-Called :
      (m' : Machine)
      → Called m e m'
      → (rank m.state (has e flag_typevalue) ≡ (if has e flag_typevalue then 0 else 3))
      → 4 * length m'.input + 2 < measure m
  measure-Called m' c hr = elim (Bool-cases (has e flag_typevalue)) [
    | inl t ↦ rw (he, t) (omega (arith, c.0, c.3 t, rw t at hr))
    | inr t ↦ rw (he, t) (omega (arith, c.0, rw t at hr))
  ]

  pub do_array_value-Progress :
      m.state ≡ read_array_value → Ensures (Progress m) (do_array_value cfg m)
  unfolding do_array_value
  do_array_value-Progress hs = Ensures-with_container (Progress m) m.parser.stack m.parser _ (
      Ensures-bind (Called m e) (Progress m) (call_entry cfg m) _
        (call_entry-Called cfg m e he good room)
        λ m' c.
          Ensures-bind (λ _. Unit {0}) (Progress m) (insert_current cfg m'.parser none) _
            (insert_current-ends cfg m'.parser none)
            λ p _.
              after_value-Progress m m' p _ _ (rw (c.1) s.next_ok) tt c.2
                (measure-Called m' c (rw hs refl)) refl)

  pub do_assoc_value-Progress :
      m.state ≡ read_assoc_value → Ensures (Progress m) (do_assoc_value cfg m)
  unfolding do_assoc_value
  do_assoc_value-Progress hs = Ensures-with_container (Progress m) m.parser.stack m.parser _ (
      Ensures-bind (Called m e) (Progress m) (call_entry cfg m) _
        (call_entry-Called cfg m e he good room)
        λ m' c.
          Ensures-bind (λ _. Unit {0}) (Progress m) _ _
            (Ensures-if (λ _. Unit {0}) (has_key m.key) _ _
              (λ _. insert_current-ends cfg m'.parser m.key) (λ _. tt))
            λ p _.
              after_value-Progress m (record m' { key = none }) p _ _ (rw (c.1) s.next_ok) tt c.2
                (measure-Called m' c (rw hs refl)) refl)

  pub do_assoc_key-Progress : m.state ≡ read_assoc_key → Ensures (Progress m) (do_assoc_key m)
  unfolding do_assoc_key
  do_assoc_key-Progress hs = Ensures-with_entry (Progress m) m.entry _ he (
      Ensures-if (Progress m) (not (has e flag_key)) _ _
        (λ _. Ensures-fail (Progress m) m.parser bad_key_type)
        λ key.
          Ensures-if (Progress m) (ltb (length m.input) m.len || m.len == 0) _ _
            (λ _. Ensures-fail (Progress m) m.parser bad_key_length)
            λ fits. (
              record {
                next_ok = tt;
                entry_ok = rw he good;
                fits =
                    rw he (key-Fits e (number_width e.func e.fmt) _ _ good.1 (ground (arith, key)));
              },
              rw (he, hs) (ground (arith, length-drop m.len m.input)),
            ))

  pub enter_container-Called : (v : Payload) → Ensures (Called m e) (enter_container cfg m v)
  unfolding enter_container
  enter_container-Called v = Ensures-with_entry (Called m e) m.entry _ he (
      Ensures-bind (λ _. Unit {0}) (Called m e) (add_container cfg m v) _
        (add_container-ends cfg m v)
        λ p _.
          Ensures-bind (λ _. Unit {0}) (Called m e) (get_container p e m.len) _
            (get_container-ends p e m.len)
            λ q _. call_entry-Called cfg (record m { parser = q }) e he good room)

  after_start-Progress :
      (m' : Machine) (more : Bool) (finish next : State)
      → Called m e m'
      → IsNext next
      → (rank m.state (has e flag_typevalue) ≡ (if has e flag_typevalue then 0 else 3))
      → rank finish true ≡ 2
      → Progress m (after_start more m' finish next)
  after_start-Progress m' true finish next c n hr hf =
      rw (c.2)
        (record { next_ok = n; entry_ok = tt; fits = tt }, omega (arith, measure-Called m' c hr))
  after_start-Progress m' false finish next c n hr hf = rw (c.2) (
    record { next_ok = rw (c.1) s.next_ok; entry_ok = tt; fits = tt },
    omega (arith, hf, measure-Called m' c hr),
  )

  pub do_start_array-Progress : m.state ≡ start_array → Ensures (Progress m) (do_start_array cfg m)
  unfolding do_start_array
  do_start_array-Progress hs =
      Ensures-bind (Called m e) (Progress m) _ _ (enter_container-Called (array []))
        λ m' c. after_start-Progress m' (ltb 0 m.len) _ _ c tt (rw hs refl) refl

  pub do_start_assoc-Progress : m.state ≡ start_assoc → Ensures (Progress m) (do_start_assoc cfg m)
  unfolding do_start_assoc
  do_start_assoc-Progress hs =
      Ensures-bind (Called m e) (Progress m) _ _ (enter_container-Called (object [])) λ m' c.
        after_start-Progress (record m' { key = none }) (ltb 0 m.len) _ _ c tt (rw hs refl) refl
