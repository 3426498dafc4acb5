-- ===== src/Msgpack/RoundTrip/Open.antt =====
-- The header of a container that stands in another one: the new container joins it and is open.
use libucl.Base.{
  ℕ, ◌+◌, ◌<◌, ◌≡◌, ◌≢◌, refl, sym, ap, ◌∙◌, arith, true, false, List, [], ◌∷◌, none, some, Bytes,
  length, ltb, Bool-cases, inl, inr,
}
use mathlib.Core.Path.{subst}
use libucl.Store.{Config, Payload, Parser, Frame, Obj, alloc_cur, new_object}
use libucl.Store.Update.{update-same, update-other}
use libucl.Msgpack.Outcome.{ok}
use libucl.Msgpack.Format.{Entry, has, flag_container}
use libucl.Msgpack.Values.{parse_with, parse_array}
use libucl.Msgpack.Machine.{
  Machine, State, read_type, call_entry, insert_object, add_container, enter_container,
  get_container, after_start,
}
use libucl.Msgpack.Steps.{Steps}
use libucl.Msgpack.RoundTrip.Insert.{Place, grow, Accepts, HasKey, Inserted, insert_object-Inserted}
use libucl.Msgpack.RoundTrip.Element.{Waiting, Pending, finishing, reading, IsFinish}

ltb-zero : (n : ℕ) → ltb n 0 ≡ false
ltb-zero n = ground arith

-- The parser when the container's function has run.
abbrev pub opened_in : ℕ → Parser → Parser
opened_in n p = record p { stack = record { obj = p.cur_obj; len = n } ∷ p.stack }

module _ (cfg : Config) (m : Machine) (e : Entry) (n : ℕ) (rest : Bytes) (start : State)
    (hc : has e flag_container ≡ true) (v : Payload) where
  abbrev pub at_start : Machine
  at_start = record m { entry = some e; len = n; input = rest; state = start }

  pub enter-added :
      (p' : Parser)
      → add_container cfg at_start v ≡ ok p'
      → ((p : Parser) → parse_with e.func cfg p n e.fmt rest ≡ parse_array cfg p n e.fmt rest)
      → enter_container cfg at_start v
        ≡ ok (record at_start { parser = opened_in n p'; entry = none })
  unfolding enter_container get_container call_entry parse_array
  enter-added p' ha hp = rw ha (rw (hc, hp) (rw (ltb-zero (length rest)) refl))

-- The state behind the header.
pub record Started (m : Machine) (c n : ℕ) (fs : List Frame) (finish up : State) : Type 0 where
  pub to : Machine
  pub is : after_start (ltb 0 n) m finish up ≡ to
  pub input_is : to.input ≡ m.input
  pub parser_is : to.parser ≡ m.parser
  pub pending : Pending to (record { obj = some c; len = n } ∷ fs) up

pub start :
    (m : Machine) (c n : ℕ) (fs : List Frame) (finish up : State)
    → m.parser.stack ≡ record { obj = some c; len = n } ∷ fs
    → IsFinish finish
    → Started m c n fs finish up
start m c n fs finish up hs hf = elim (Bool-cases (ltb 0 n)) [
  | inl a ↦ record {
    to = record m { state = read_type; next_state = up };
    is = rw a refl;
    input_is = refl;
    parser_is = refl;
    pending = reading hs (ground (arith, a)) refl refl;
  }
  | inr a ↦ record {
    to = record m { state = finish };
    is = rw a refl;
    input_is = refl;
    parser_is = refl;
    pending = finishing [] tt hs hf;
  }
]

-- The new container stands in its place and is open.
pub record Opened (cfg : Config) (place : Place) (c l : ℕ) (fs : List Frame) (m : Machine)
    (v : Payload) (n : ℕ) (rest : Bytes) (up : State) : Type 0 where
  pub to : Machine
  pub parser : Parser
  pub steps : Steps cfg to m
  pub input_is : to.input ≡ rest
  pub parser_is : to.parser ≡ parser
  pub pending :
      Pending to
        (record { obj = some m.parser.fresh; len = n } ∷ record { obj = some c; len = l } ∷ fs)
        up
  pub fresh_is : parser.fresh ≡ m.parser.fresh + 1
  pub top_is : parser.top_obj ≡ m.parser.top_obj
  pub container_is : (parser.cell c).payload ≡ grow place (m.parser.cell c).payload m.parser.fresh
  pub container_key : (parser.cell c).key ≡ (m.parser.cell c).key
  pub alone : (parser.cell c).siblings ≡ []
  pub child_is : (parser.cell m.parser.fresh).payload ≡ v
  pub child_alone : (parser.cell m.parser.fresh).siblings ≡ []
  pub child_key : HasKey place (parser.cell m.parser.fresh)
  pub others : (r : ℕ) → r ≢ c → r < m.parser.fresh → parser.cell r ≡ m.parser.cell r

module _ (cfg : Config) (place : Place) (c l : ℕ) (fs : List Frame) (m : Machine)
    (w : Waiting cfg place c l fs m) (v : Payload) where
  abbrev pub held : Parser
  held = alloc_cur m.parser (new_object v cfg.priority)

  held_container : held.cell c ≡ m.parser.cell c
  held_container =
      update-other m.parser.cell m.parser.fresh c (new_object v cfg.priority)
        (λ e. absurd (omega (arith, e, w.below)))

  held_child : held.cell m.parser.fresh ≡ new_object v cfg.priority
  held_child = update-same m.parser.cell m.parser.fresh (new_object v cfg.priority)

  abbrev Joined : Parser → Type 0
  Joined p' = Inserted place held c m.parser.fresh (record { obj = some c; len = l } ∷ fs) p'

  pub joined : (p' : Parser) × (insert_object cfg held m.key m.parser.fresh ≡ ok p') × Joined p'
  joined =
      insert_object-Inserted cfg held c m.parser.fresh l fs
        (λ e. absurd (omega (arith, e, w.below))) w.stack_is refl place m.key
        (subst (λ (x : Obj). Accepts cfg.key_lowercase place x.payload) (sym held_container)
          w.accepts)
        w.key_is (ap (λ (x : Obj). x.siblings) held_container ∙ w.alone)

  pub added :
      (e : Entry) (n : ℕ) (rest : Bytes) (st : State) (hc : has e flag_container ≡ true)
      (p' : Parser)
      → insert_object cfg held m.key m.parser.fresh ≡ ok p'
      → add_container cfg (at_start cfg m e n rest st hc v) v ≡ ok p'
  unfolding add_container
  added e n rest st hc p' h =
      ap
        (λ (s : List Frame). elim s [
          | [] ↦ ok held
          | f ∷ _ ↦ insert_object cfg held m.key m.parser.fresh
        ])
        w.stack_is
      ∙ h

  opened_stack :
      (n : ℕ) (p' : Parser)
      → Joined p'
      → (opened_in n p').stack
        ≡ record { obj = some m.parser.fresh; len = n } ∷ record { obj = some c; len = l } ∷ fs
  opened_stack n p' j =
      ap (λ x. record { obj = x; len = n } ∷ p'.stack) j.cur_is
      ∙ ap (λ x. record { obj = some m.parser.fresh; len = n } ∷ x) j.stack_is

  pub join-Opened :
      (n : ℕ) (rest : Bytes) (p' : Parser) (m2 : Machine) (finish up : State)
      → Joined p'
      → IsFinish finish
      → m2.input ≡ rest
      → m2.parser ≡ opened_in n p'
      → Steps cfg (after_start (ltb 0 n) m2 finish up) m
      → Opened cfg place c l fs m v n rest up
  join-Opened n rest p' m2 finish up j hf hi hp st =
      let started =
        start m2 m.parser.fresh n (record { obj = some c; len = l } ∷ fs) finish up
          (ap (λ (q : Parser). q.stack) hp ∙ opened_stack n p' j) hf in
      record {
        to = started.to;
        parser = opened_in n p';
        steps = subst (λ x. Steps cfg x m) started.is st;
        input_is = started.input_is ∙ hi;
        parser_is = started.parser_is ∙ hp;
        pending = started.pending;
        fresh_is = j.fresh_is;
        top_is = j.top_is;
        container_is =
            j.container_is ∙ ap (λ (x : Obj). grow place x.payload m.parser.fresh) held_container;
        container_key = j.container_key ∙ ap (λ (x : Obj). x.key) held_container;
        alone = j.siblings_are ∙ ap (λ (x : Obj). x.siblings) held_container ∙ w.alone;
        child_is = j.child_is ∙ ap (λ (x : Obj). x.payload) held_child;
        child_alone = j.child_siblings (ap (λ (x : Obj). x.siblings) held_child);
        child_key = j.child_key;
        others = λ r a b.
            j.others r a (λ e. absurd (omega (arith, e, b)))
            ∙ update-other m.parser.cell m.parser.fresh r (new_object v cfg.priority)
                (λ e. absurd (omega (arith, e, b)));
      }
