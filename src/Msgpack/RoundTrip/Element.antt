-- ===== src/Msgpack/RoundTrip/Element.antt =====
-- One value on its way into an open container: where the machine stands before it and behind it.
use libucl.Base.{
  ℕ, suc, ◌+◌, ◌<◌, ◌≡◌, ◌≢◌, refl, sym, ap, ◌∙◌, false, List, [], ◌∷◌, ◌++◌, Option, none, some,
  Bytes, length, All, Bool-cases, lt→ltb, inl, inr, if◌then◌else◌,
}
use libucl.Store.{Config, Parser, Frame}
use libucl.Msgpack.Outcome.{Outcome, ok, ◌>>=◌, fault, assertion}
use libucl.Msgpack.Machine.{
  Machine, State, read_type, read_array_value, read_assoc_value, read_assoc_key, finish_array_value,
  finish_assoc_value, after_value, is_finished, with_container, do_array_value, do_assoc_value,
  call_entry, insert_current, has_key, step, step_in,
}
use libucl.Msgpack.Steps.{Steps}
use libucl.Msgpack.Emit.{Value}
use libucl.Msgpack.RoundTrip.Spec.{Holds, size}
use libucl.Msgpack.RoundTrip.Insert.{Place, in_array, under, grow, Accepts, KeyIs, HasKey}

-- The states of a container that the place is in: a value, the next element, and the end.
abbrev pub value_state : Place → State
value_state in_array = read_array_value
value_state (under k) = read_assoc_value

abbrev pub element_state : Place → State
element_state in_array = read_array_value
element_state (under k) = read_assoc_key

abbrev pub finish_state : Place → State
finish_state in_array = finish_array_value
finish_state (under k) = finish_assoc_value

abbrev pub IsFinish : State → Type 0
IsFinish finish_array_value = Unit
IsFinish finish_assoc_value = Unit
IsFinish _ = ⊥

-- The machine is done with an element of the container on top of `stack`: finished containers stand
-- above it, which the next round pops, or the next element is up.
pub data Pending (m : Machine) (stack : List Frame) (next : State) : Type 0 where
  finishing :
      (done : List Frame)
      → All (λ (f : Frame). f.len ≡ 0) done
      → m.parser.stack ≡ done ++ stack
      → IsFinish m.state
      → Pending m stack next
  reading :
      m.parser.stack ≡ stack
      → is_finished stack ≡ false
      → m.state ≡ read_type
      → m.next_state ≡ next
      → Pending m stack next

-- A value of the place is read next, into the container at `c`.
pub record Waiting (cfg : Config) (place : Place) (c l : ℕ) (fs : List Frame) (m : Machine)
    : Type 0 where
  pub state_is : m.state ≡ read_type
  pub next_is : m.next_state ≡ value_state place
  pub stack_is : m.parser.stack ≡ record { obj = some c; len = suc l } ∷ fs
  pub key_is : KeyIs place m.key
  pub accepts : Accepts cfg.key_lowercase place (m.parser.cell c).payload
  pub alone : (m.parser.cell c).siblings ≡ []
  pub below : c < m.parser.fresh

-- The value `v` has been read, and stands in the container.
pub record After (cfg : Config) (place : Place) (c l : ℕ) (fs : List Frame) (v : Value)
    (rest : Bytes) (m : Machine) : Type 0 where
  pub to : Machine
  pub parser : Parser
  pub steps : Steps cfg to m
  pub input_is : to.input ≡ rest
  pub parser_is : to.parser ≡ parser
  pub pending : Pending to (record { obj = some c; len = l } ∷ fs) (element_state place)
  pub fresh_is : parser.fresh ≡ m.parser.fresh + size v
  pub top_is : parser.top_obj ≡ m.parser.top_obj
  pub container_is : (parser.cell c).payload ≡ grow place (m.parser.cell c).payload m.parser.fresh
  pub container_key : (parser.cell c).key ≡ (m.parser.cell c).key
  pub alone : (parser.cell c).siblings ≡ []
  pub holds : Holds parser.cell m.parser.fresh v
  pub child_key : HasKey place (parser.cell m.parser.fresh)
  pub others : (r : ℕ) → r ≢ c → r < m.parser.fresh → parser.cell r ≡ m.parser.cell r

-- The state behind a value that has been inserted.
pub record Settled (m : Machine) (p : Parser) (stack : List Frame) (finish next : State)
    : Type 0 where
  pub to : Machine
  pub is : after_value m p finish next ≡ to
  pub input_is : to.input ≡ m.input
  pub parser_is : to.parser ≡ p
  pub pending : Pending to stack next

pub settle :
    (m : Machine) (p : Parser) (stack : List Frame) (finish next : State)
    → p.stack ≡ stack
    → IsFinish finish
    → Settled m p stack finish next
settle m p stack finish next h hf = elim (Bool-cases (is_finished p.stack)) [
  | inl a ↦ record {
    to = record m { parser = p; state = finish };
    is = rw a refl;
    input_is = refl;
    parser_is = refl;
    pending = finishing [] tt h hf;
  }
  | inr a ↦ record {
    to = record m { parser = p; state = read_type; next_state = next };
    is = rw a refl;
    input_is = refl;
    parser_is = refl;
    pending = reading h (ap is_finished (sym h) ∙ a) refl refl;
  }
]

with_container-cons {ℓ} :
    {A : Type ℓ} (fs : List Frame) (f : Frame) (gs : List Frame) (p : Parser) (k : Outcome A)
    → fs ≡ f ∷ gs
    → with_container fs p k ≡ k
with_container-cons fs f gs p k h = ap (λ s. with_container s p k) h

-- A round forgets the key of an object's value.
abbrev pub forget : Place → Machine → Machine
forget in_array m = m
forget (under k) m = record m { key = none }

abbrev pub key_of : Place → Option Bytes
key_of in_array = none
key_of (under k) = some k

abbrev pub HasText : Place → Type 0
HasText in_array = Unit
HasText (under k) = 0 < length k

-- The round that reads a value of the place and inserts it.
module _ (cfg : Config) (m m' : Machine) (p : Parser) (f : Frame) (gs : List Frame)
    (hs : m.parser.stack ≡ f ∷ gs) (call : call_entry cfg m ≡ ok m') where
  array_round :
      insert_current cfg m'.parser none ≡ ok p
      → do_array_value cfg m ≡ ok (after_value m' p finish_array_value read_array_value)
  unfolding do_array_value
  array_round ins = with_container-cons m.parser.stack f gs m.parser _ hs ∙ rw call (rw ins refl)

  abbrev keyed_insert : Option Bytes → Outcome Parser
  keyed_insert key = if has_key key then insert_current cfg m'.parser key else fault assertion

  inserted_key :
      (k : Bytes)
      → m.key ≡ some k
      → 0 < length k
      → insert_current cfg m'.parser (some k) ≡ ok p
      → keyed_insert m.key ≡ ok p
  inserted_key k hk pos ins = ap keyed_insert hk ∙ rw (lt→ltb 0 (length k) pos) ins

  object_round :
      (k : Bytes)
      → m.key ≡ some k
      → 0 < length k
      → insert_current cfg m'.parser (some k) ≡ ok p
      → do_assoc_value cfg m
        ≡ ok (after_value (record m' { key = none }) p finish_assoc_value read_assoc_key)
  unfolding do_assoc_value
  object_round k hk pos ins =
      with_container-cons m.parser.stack f gs m.parser _ hs
      ∙ rw call (
          ap
            (λ x. x >>= λ q.
              ok (after_value (record m' { key = none }) q finish_assoc_value read_assoc_key))
            (inserted_key k hk pos ins))

  pub step-value :
      (place : Place) (b : ℕ) (tl : Bytes)
      → m.state ≡ value_state place
      → KeyIs place m.key
      → HasText place
      → insert_current cfg m'.parser (key_of place) ≡ ok p
      → step cfg m b tl
        ≡ ok (after_value (forget place m') p (finish_state place) (element_state place))
  unfolding step_in
  step-value in_array b tl st hk pos ins = ap (λ s. step_in s cfg m b tl) st ∙ array_round ins
  step-value (under k) b tl st hk pos ins =
      ap (λ s. step_in s cfg m b tl) st ∙ object_round k hk pos ins
