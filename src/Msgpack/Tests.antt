-- ===== src/Msgpack/Tests.antt =====
-- Runs of the reader and the writer on concrete input.
use libucl.Base.{ℕ, false, [], ◌∷◌, Option, none, some, ◌≡◌, refl, from_be, to_be}
use libucl.Store.{
  Config, Parser, Frame, Payload, Obj, append, process_object_element, array_append, new_object,
  no_container, no_key, alloc_cur, update,
}
use libucl.Store
use libucl.Msgpack.Outcome.{Outcome, ok, err, fault, negative_remain}
use libucl.Msgpack.Machine.{
  parse_msgpack, consume, run_on, step_in, finish_in, close, end_container, end_value, do_read_type,
  read_fixed, read_length, do_start_assoc, do_start_array, do_array_value, do_assoc_key,
  do_assoc_value, do_finish, enter_container, add_container, get_container, call_entry,
  insert_current, insert_object, insert_on, insert_into, get_next_container, pop_finished, state_of,
}
use libucl.Msgpack.Format.{get_parser_from_type}
use libucl.Msgpack.Values.{
  parse_with, parse_int, parse_float, parse_bool, parse_null, parse_string, parse_ignore, parse_map,
  parse_array, int_value,
}
use libucl.Msgpack.Emit.{
  print_int, print_double, print_string, print_binary_string, print_array, print_object,
}
use libucl.Msgpack.Emit.{Value, Items, Fields, nil, item, end, field, emit}
use libucl.Msgpack.Emit

-- What a run computes with.
runs : Unit {0}
unfolding parse_msgpack consume run_on step_in finish_in close end_container end_value do_read_type
    read_fixed read_length do_start_assoc do_start_array do_array_value do_assoc_key do_assoc_value
    do_finish enter_container add_container get_container call_entry insert_current insert_object
    insert_on insert_into get_next_container pop_finished state_of get_parser_from_type parse_with
    parse_int parse_float parse_bool parse_null parse_string parse_ignore parse_map parse_array
    int_value process_object_element array_append from_be to_be
runs = tt

abbrev pub cfg : Config
cfg = record {
  widen_float = λ x. x;
  priority = 0;
  strategy = append;
  key_lowercase = false;
  no_implicit_arrays = false;
}

abbrev pub empty : Parser
empty = record {
  cell = λ r. new_object Store.null 0;
  fresh = 0;
  stack = [];
  cur_obj = none;
  top_obj = none;
  trash_objs = [];
  err = none;
}

abbrev payload_at : Outcome Parser → ℕ → Option Payload
payload_at (ok p) r = some (p.cell r).payload
payload_at _ r = none

abbrev pub doc : Value
doc = Emit.object (
    field (b'a' ∷ [])
      (Emit.array (
        item (Emit.int 1)
          (item (Emit.int (0xffff_ffff_ffff_fffb)) (item (Emit.string false (b'x' ∷ [])) nil))))
      nil end)

t1 : payload_at (parse_msgpack cfg empty (emit doc)) 0 ≡ some (Store.object ((b'a' ∷ [], 1) ∷ []))
unfolding runs emit
t1 = refl

t2 : payload_at (parse_msgpack cfg empty (emit doc)) 1 ≡ some (Store.array (2 ∷ 3 ∷ 4 ∷ []))
unfolding runs emit
t2 = refl

t3 : payload_at (parse_msgpack cfg empty (emit doc)) 3 ≡ some (Store.int 0xffff_ffff_ffff_fffb)
unfolding runs emit
t3 = refl

ext_short : parse_msgpack cfg empty (0x91 ∷ 0xd4 ∷ 1 ∷ []) ≡ fault negative_remain
unfolding runs
ext_short = refl

empty_top : parse_msgpack cfg empty (0x90 ∷ []) ≡ err no_container
unfolding runs
empty_top = refl

empty_last : parse_msgpack cfg empty (0x81 ∷ 0xa1 ∷ b'a' ∷ 0xa0 ∷ []) ≡ err no_key
unfolding runs
empty_last = refl
