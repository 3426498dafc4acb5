-- ===== src/Store/Examples.antt =====
-- A container with one entry, and a second object of the same key.
use libucl.Base.{ℕ, refl, arith, true, [], ◌∷◌, none, Bytes}
use libucl.Store.{
  Config, Parser, Obj, Payload, append, new_object, update, object, int, null, search_entries,
  key_eq, process_object_element,
}
use libucl.Store.Container.{Container, Holding}
use libucl.Store.Insertion.{process_object_element-Holding}

abbrev cfg : Config
cfg = record {
  widen_float = λ x. x;
  priority = 0;
  strategy = append;
  key_lowercase = true;
  no_implicit_arrays = true;
}

abbrev named : Bytes → Payload → Obj
named k v = record (new_object v 0) { key = k }

-- The container at 0, its entry at 1, the new object at 2, with a key that differs in case
abbrev cells : ℕ → Obj
cells =
    update
      (update (update (λ r. new_object null 0) 0 (new_object (object ((b'a' ∷ [], 1) ∷ [])) 0)) 1
        (named (b'a' ∷ []) (int 5)))
      2 (named (b'A' ∷ []) (int 6))

abbrev parser : Parser
parser = record {
  cell = cells;
  fresh = 3;
  stack = [];
  cur_obj = none;
  top_obj = none;
  trash_objs = [];
  err = none;
}

container : Container true cells 3 0 ((b'a' ∷ [], 1) ∷ [])
container = record {
  payload_is = refl;
  alone = refl;
  distinct = (tt, tt);
  named = ((refl, (λ e. absurd (omega (arith, e))), omega arith), tt);
}

-- An array takes the entry's place.
process_object_element-Holding_example :
    Holding true
      (process_object_element cfg parser 0 2).cell
      (process_object_element cfg parser 0 2).fresh
      0
      ((b'a' ∷ [], 1) ∷ [])
      (b'A' ∷ [])
      3
unfolding search_entries key_eq
process_object_element-Holding_example =
    process_object_element-Holding cfg parser 0 2 ((b'a' ∷ [], 1) ∷ []) container
      (λ e. absurd (omega (arith, e))) (omega arith) (omega arith)
