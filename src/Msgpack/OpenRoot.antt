-- ===== src/Msgpack/OpenRoot.antt =====
-- A container that is opened at the root of a document, by the `start_array` and `start_assoc` states of
-- src/ucl_msgpack.c.
use libucl.Base.{
  ℕ, ◌^◌, ◌<◌, ◌≡◌, refl, ap, ltb, true, false, List, [], ◌∷◌, none, some, Bytes, length, arith,
}
use libucl.Store.{Config, Parser, Obj, Payload, alloc_cur, new_object}
use libucl.Store
use libucl.Msgpack.Outcome.{ok}
use libucl.Msgpack.Format.{Entry, has, flag_container}
use libucl.Msgpack.Values.{parse_with, parse_array}
use libucl.Msgpack.Machine.{
  Machine, State, insert_object, call_entry, enter_container, add_container, get_container,
}

-- The parser with a new container at its root that waits for `n` elements.
abbrev pub opened : Config → Parser → Payload → ℕ → Parser
opened cfg p v n = record (alloc_cur p (new_object v cfg.priority)) {
  stack = record { obj = some p.fresh; len = n } ∷ p.stack;
}

add_container-root :
    (cfg : Config) (m : Machine) (v : Payload)
    → m.parser.stack ≡ []
    → add_container cfg m v ≡ ok (alloc_cur m.parser (new_object v cfg.priority))
unfolding add_container
add_container-root cfg m v h =
    ap
      (λ (fs : List Store.Frame). elim fs [
        | [] ↦ ok (alloc_cur m.parser (new_object v cfg.priority))
        | f ∷ _ ↦
            insert_object cfg (alloc_cur m.parser (new_object v cfg.priority)) m.key m.parser.fresh
      ])
      h

ltb-zero : (n : ℕ) → ltb n 0 ≡ false
ltb-zero n = ground arith

module _ (cfg : Config) (m : Machine) (e : Entry) (n : ℕ) (rest : Bytes) (start : State)
    (hs : m.parser.stack ≡ []) (hc : has e flag_container ≡ true) where
  abbrev pub typed : Machine
  typed = record m { entry = some e; len = n; input = rest; state = start }

  abbrev entered : Payload → Machine
  entered v = record typed { parser = opened cfg m.parser v n; entry = none }

  pub enter_root :
      (v : Payload)
      → ((p : Parser) → parse_with e.func cfg p n e.fmt rest ≡ parse_array cfg p n e.fmt rest)
      → enter_container cfg typed v ≡ ok (entered v)
  unfolding enter_container get_container call_entry parse_array
  enter_root v hp =
      rw (add_container-root cfg typed v hs) (rw (hc, hp) (rw (ltb-zero (length rest)) refl))

module _ (cfg : Config) (m : Machine) (n : ℕ) (rest : Bytes) (lt : n < 2 ^ 32)
    (hs : m.parser.stack ≡ []) where
  -- The machine behind the header of a container of `n` elements, in the state `start`.
  abbrev pub behind : State → Payload → Machine
  behind start v = record m {
    parser = opened cfg m.parser v n;
    input = rest;
    entry = none;
    len = n;
    state = start;
  }
