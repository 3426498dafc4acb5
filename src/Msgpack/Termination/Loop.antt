-- ===== src/Msgpack/Termination/Loop.antt =====
-- The measure in every state of `ucl_msgpack_consume`, and the loop.
use libucl.Base.{
  ℕ, zero, suc, ◌<◌, ◌≡◌, ◌≢◌, refl, arith, List, [], ◌∷◌, Option, none, some, Bytes, inl, inr,
  Option-cases,
}
use libucl.Store.{Config, Parser, Payload, array, object, Frame, empty_container, invalid_state}
use libucl.Msgpack.Outcome.{
  Outcome, ok, err, fault, stuck, assertion, overread, null_pointer, negative_remain, Ensures,
  Ensures-bind, Ensures-fail,
}
use libucl.Msgpack.Format.{Entry}
use libucl.Msgpack.Machine.{
  Machine, State, read_type, start_assoc, start_array, read_assoc_key, read_assoc_value,
  finish_assoc_value, read_array_value, finish_array_value, error_state, step_in, step, run_on,
  do_start_assoc, do_start_array, do_array_value, do_assoc_key, do_assoc_value, do_finish,
  enter_container, call_entry, with_entry, state_of, get_next_container, initial,
}
use libucl.Msgpack.Termination.TypeByte.{
  IsNext, rank, is_value, measure, IsSound, Progress, do_read_type-Progress,
}
use libucl.Msgpack.Termination.Rounds.{
  Ensures-with_container, do_array_value-Progress, do_assoc_value-Progress, do_assoc_key-Progress,
  do_start_array-Progress, do_start_assoc-Progress,
}

-- With no entry at hand these rounds stop at once.
Ensures-no_entry {ℓ} :
    {A : Type ℓ} (P : A → Type 0) (o : Option Entry) (k : Entry → Outcome A)
    → o ≡ none
    → Ensures P (with_entry o k)
Ensures-no_entry P o k h = rw h tt

module _ (cfg : Config) (m : Machine) (he : m.entry ≡ none) where
  pub call_none : Ensures (λ _. ⊥) (call_entry cfg m)
  unfolding call_entry
  call_none = Ensures-no_entry (λ _. ⊥) m.entry _ he

  pub enter_none : (v : Payload) → Ensures (λ _. ⊥) (enter_container cfg m v)
  unfolding enter_container
  enter_none v = Ensures-no_entry (λ _. ⊥) m.entry _ he

  do_array_value-none : Ensures (Progress m) (do_array_value cfg m)
  unfolding do_array_value
  do_array_value-none =
      Ensures-with_container (Progress m) m.parser.stack m.parser _
        (Ensures-bind (λ _. ⊥) (Progress m) _ _ call_none (λ _ x. absurd x))

  do_assoc_value-none : Ensures (Progress m) (do_assoc_value cfg m)
  unfolding do_assoc_value
  do_assoc_value-none =
      Ensures-with_container (Progress m) m.parser.stack m.parser _
        (Ensures-bind (λ _. ⊥) (Progress m) _ _ call_none (λ _ x. absurd x))

  do_assoc_key-none : Ensures (Progress m) (do_assoc_key m)
  unfolding do_assoc_key
  do_assoc_key-none = Ensures-no_entry (Progress m) m.entry _ he

  do_start_array-none : Ensures (Progress m) (do_start_array cfg m)
  unfolding do_start_array
  do_start_array-none =
      Ensures-bind (λ _. ⊥) (Progress m) _ _ (enter_none (array [])) (λ _ x. absurd x)

  do_start_assoc-none : Ensures (Progress m) (do_start_assoc cfg m)
  unfolding do_start_assoc
  do_start_assoc-none =
      Ensures-bind (λ _. ⊥) (Progress m) _ _ (enter_none (object [])) (λ _ x. absurd x)

state_of-IsNext : (fs : List Frame) (p : Parser) → Ensures IsNext (state_of fs p)
unfolding state_of
state_of-IsNext [] p = Ensures-fail IsNext p empty_container
state_of-IsNext (f ∷ fs) p = by_obj f.obj
  where
    by_payload :
        (v : Payload) → IsNext (elim v [ object es ↦ read_assoc_key | _ ↦ read_array_value ])
    by_payload (object es) = tt
    by_payload _ = tt

    by_obj :
        (o : Option ℕ)
        → Ensures IsNext (elim o [
          | none ↦ fault assertion
          | some r ↦
              ok (elim (p.cell r).payload [ object es ↦ read_assoc_key | _ ↦ read_array_value ])
        ])
    by_obj none = tt
    by_obj (some r) = by_payload (p.cell r).payload

do_finish-Progress :
    (m : Machine)
    → IsSound m
    → rank m.state (is_value m.entry) ≡ 2
    → Ensures (Progress m) (do_finish m)
unfolding do_finish
do_finish-Progress m s hr =
    let p = get_next_container m.parser in
    Ensures-bind IsNext (Progress m) (state_of p.stack p) _ (state_of-IsNext p.stack p)
      λ next n. (record { next_ok = n; entry_ok = s.entry_ok; fits = s.fits }, omega (arith, hr))

step_in-Progress :
    (st : State) (cfg : Config) (m : Machine) (b : ℕ) (tl : Bytes)
    → m.state ≡ st
    → m.input ≡ b ∷ tl
    → IsSound m
    → Ensures (Progress m) (step_in st cfg m b tl)
unfolding step_in
step_in-Progress read_type cfg m b tl hs hi s = do_read_type-Progress m b tl hi hs s
step_in-Progress start_array cfg m b tl hs hi s = elim (Option-cases m.entry) [
  | inl e ↦ do_start_array-none cfg m e
  | inr (e, he) ↦ do_start_array-Progress cfg m s e he hs
]
step_in-Progress start_assoc cfg m b tl hs hi s = elim (Option-cases m.entry) [
  | inl e ↦ do_start_assoc-none cfg m e
  | inr (e, he) ↦ do_start_assoc-Progress cfg m s e he hs
]
step_in-Progress read_array_value cfg m b tl hs hi s = elim (Option-cases m.entry) [
  | inl e ↦ do_array_value-none cfg m e
  | inr (e, he) ↦ do_array_value-Progress cfg m s e he hs
]
step_in-Progress read_assoc_value cfg m b tl hs hi s = elim (Option-cases m.entry) [
  | inl e ↦ do_assoc_value-none cfg m e
  | inr (e, he) ↦ do_assoc_value-Progress cfg m s e he hs
]
step_in-Progress read_assoc_key cfg m b tl hs hi s = elim (Option-cases m.entry) [
  | inl e ↦ do_assoc_key-none cfg m e
  | inr (e, he) ↦ do_assoc_key-Progress cfg m s e he hs
]
step_in-Progress finish_array_value cfg m b tl hs hi s = do_finish-Progress m s (rw hs refl)
step_in-Progress finish_assoc_value cfg m b tl hs hi s = do_finish-Progress m s (rw hs refl)
step_in-Progress error_state cfg m b tl hs hi s = Ensures-fail (Progress m) m.parser invalid_state

-- The loop keeps the invariant, and enough fuel ends it.
pub run_on-IsSound :
    (input : Bytes) (fuel : ℕ) (cfg : Config) (m : Machine)
    → m.input ≡ input
    → IsSound m
    → measure m < fuel
    → Ensures IsSound (run_on input fuel cfg m)
unfolding run_on
run_on-IsSound [] fuel cfg m hi s h = s
run_on-IsSound (b ∷ tl) zero cfg m hi s h = absurd (omega arith)
run_on-IsSound (b ∷ tl) (suc fuel) cfg m hi s h =
    Ensures-bind (Progress m) IsSound (step cfg m b tl) _
      (step_in-Progress m.state cfg m b tl refl hi s)
      λ m' (s', lt). run_on-IsSound m'.input fuel cfg m' refl s' (omega arith)

pub ne-stuck : {A : Type 0} (P : A → Type 0) (m : Outcome A) → Ensures P m → m ≢ stuck
ne-stuck P (ok a) h e = cc
ne-stuck P (err x) h e = cc
ne-stuck P (fault x) h e = cc
ne-stuck P stuck h e = h

pub ne-overread : {A : Type 0} (P : A → Type 0) (m : Outcome A) → Ensures P m → m ≢ fault overread
ne-overread P (ok a) h e = cc
ne-overread P (err x) h e = cc
ne-overread P (fault overread) h e = h
ne-overread P (fault assertion) h e = cc
ne-overread P (fault null_pointer) h e = cc
ne-overread P (fault negative_remain) h e = cc
ne-overread P stuck h e = h

pub initial-IsSound : (p : Parser) (input : Bytes) → IsSound (initial p input)
initial-IsSound p input = record { next_ok = tt; entry_ok = tt; fits = tt }
