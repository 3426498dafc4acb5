-- ===== src/Msgpack/RoundTrip/Resume.antt =====
-- The round behind a finished element: finished containers are popped, and the next element is up.
use libucl.Base.{
  ℕ, suc, ◌≡◌, refl, ap, ◌∙◌, arith, false, List, [], ◌∷◌, ◌++◌, Option, some, Bytes, All, ◌==◌,
}
use mathlib.Core.Path.{subst}
use mathlib.Core.Path.{subst}
use libucl.Store.{Config, Parser, Frame, Payload}
use libucl.Store
use libucl.Msgpack.Outcome.{ok, ◌>>=◌}
use libucl.Msgpack.Machine.{
  Machine, State, read_type, read_array_value, read_assoc_key, finish_array_value,
  finish_assoc_value, step, step_in, do_finish, get_next_container, pop_finished, state_of,
}
use libucl.Msgpack.Steps.{Steps, here, next}
use libucl.Msgpack.RoundTrip.Element.{Pending, finishing, reading, IsFinish}

-- What the next element of a container is
abbrev pub element_of : Payload → State
element_of (Store.object es) = read_assoc_key
element_of _ = read_array_value

pop_done :
    (done : List Frame) (f : Frame) (fs : List Frame) (cur : Option ℕ)
    → All (λ (g : Frame). g.len ≡ 0) done
    → (f.len == 0) ≡ false
    → (pop_finished (done ++ (f ∷ fs)) cur).0 ≡ f ∷ fs
unfolding pop_finished
pop_done [] f fs cur h hf = rw hf refl
pop_done (g ∷ done) f fs cur (h, hs) hf = rw h (pop_done done f fs g.obj hs hf)

-- The machine when the next element of the container at `c` is up.
pub record Resumed (cfg : Config) (c l : ℕ) (fs : List Frame) (up : State) (m : Machine)
    : Type 0 where
  pub to : Machine
  pub parser : Parser
  pub steps : Steps cfg to m
  pub state_is : to.state ≡ read_type
  pub next_is : to.next_state ≡ up
  pub input_is : to.input ≡ m.input
  pub parser_is : to.parser ≡ parser
  pub stack_is : parser.stack ≡ record { obj = some c; len = suc l } ∷ fs
  pub cell_is : parser.cell ≡ m.parser.cell
  pub fresh_is : parser.fresh ≡ m.parser.fresh
  pub top_is : parser.top_obj ≡ m.parser.top_obj

module _ (cfg : Config) (c l : ℕ) (fs : List Frame) (m : Machine) (done : List Frame)
    (hd : All (λ (g : Frame). g.len ≡ 0) done)
    (hs : m.parser.stack ≡ done ++ (record { obj = some c; len = suc l } ∷ fs)) where
  popped : (get_next_container m.parser).stack ≡ record { obj = some c; len = suc l } ∷ fs
  unfolding get_next_container
  popped =
      ap (λ s. (pop_finished s m.parser.cur_obj).0) hs
      ∙ pop_done done (record { obj = some c; len = suc l }) fs m.parser.cur_obj hd (ground arith)

  state_of-popped :
      (v : Payload)
      → ((get_next_container m.parser).cell c).payload ≡ v
      → state_of (record { obj = some c; len = suc l } ∷ fs) (get_next_container m.parser)
        ≡ ok (element_of v)
  unfolding state_of
  state_of-popped (Store.object es) h = rw h refl
  state_of-popped (Store.array es) h = rw h refl
  state_of-popped Store.null h = rw h refl
  state_of-popped (Store.int w) h = rw h refl
  state_of-popped (Store.float w) h = rw h refl
  state_of-popped (Store.boolean b) h = rw h refl
  state_of-popped (Store.string b t) h = rw h refl

  do_finish-popped :
      do_finish m
      ≡ ok (record m {
        parser = get_next_container m.parser;
        state = read_type;
        next_state = element_of (m.parser.cell c).payload;
      })
  unfolding do_finish get_next_container
  do_finish-popped =
      ap
        (λ x. x >>= λ s.
          ok (record m { parser = get_next_container m.parser; state = read_type; next_state = s }))
        (ap (λ s. state_of s (get_next_container m.parser)) popped
          ∙ state_of-popped (m.parser.cell c).payload refl)

  finish_step :
      (b : ℕ) (tl : Bytes) (s : State) → m.state ≡ s → IsFinish s → step cfg m b tl ≡ do_finish m
  unfolding step_in
  finish_step b tl finish_array_value e h = ap (λ x. step_in x cfg m b tl) e
  finish_step b tl finish_assoc_value e h = ap (λ x. step_in x cfg m b tl) e
  finish_step b tl _ e h = absurd h

  resume_finished :
      (b : ℕ) (tl : Bytes)
      → m.input ≡ b ∷ tl
      → IsFinish m.state
      → Resumed cfg c l fs (element_of (m.parser.cell c).payload) m
  unfolding get_next_container
  resume_finished b tl hi hf = record {
    to = record m {
      parser = get_next_container m.parser;
      state = read_type;
      next_state = element_of (m.parser.cell c).payload;
    };
    parser = get_next_container m.parser;
    steps = next hi (finish_step b tl m.state refl hf ∙ do_finish-popped) here;
    state_is = refl;
    next_is = refl;
    input_is = refl;
    parser_is = refl;
    stack_is = popped;
    cell_is = refl;
    fresh_is = refl;
    top_is = refl;
  }

-- Where an element is finished and more input follows, the finished containers above its container are
-- popped, and after some rounds of the loop, or none, the next element of its container is up; the store
-- is as it was.
pub resume :
    (cfg : Config) (c l : ℕ) (fs : List Frame) (up : State) (m : Machine) (b : ℕ) (tl : Bytes)
    → m.input ≡ b ∷ tl
    → element_of (m.parser.cell c).payload ≡ up
    → Pending m (record { obj = some c; len = suc l } ∷ fs) up
    → Resumed cfg c l fs up m
resume cfg c l fs up m b tl hi he (finishing done hd hs hf) =
    subst (λ s. Resumed cfg c l fs s m) he (resume_finished cfg c l fs m done hd hs b tl hi hf)
resume cfg c l fs up m b tl hi he (reading hs hf ht hn) = record {
  to = m;
  parser = m.parser;
  steps = here;
  state_is = ht;
  next_is = hn;
  input_is = refl;
  parser_is = refl;
  stack_is = hs;
  cell_is = refl;
  fresh_is = refl;
  top_is = refl;
}
