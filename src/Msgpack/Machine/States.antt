-- ===== src/Msgpack/Machine/States.antt =====
-- The cases of the loop of `ucl_msgpack_consume` in src/ucl_msgpack.c, one function for each.
use libucl.Base.{
  ℕ, ◌-◌, Bool, false, not, ◌&&◌, ◌||◌, ltb, ◌==◌, if◌then◌else◌, List, [], ◌∷◌, Option, none, some,
  Bytes, length, take, drop, from_be, bit_and,
}
use libucl.Store.{
  Config, Parser, Frame, Payload, array, object, new_object, alloc_cur, unknown_format,
  not_enough_data, invalid_length_field, no_container, bad_key_type, bad_key_length,
}
use libucl.Msgpack.Outcome.{
  Outcome, ok, fault, ◌>>=◌, fail, assertion, null_pointer, negative_remain,
}
use libucl.Msgpack.Format.{
  Entry, has, flag_fixed, flag_container, flag_typevalue, flag_assoc, flag_key,
  get_parser_from_type,
}
use libucl.Msgpack.Values.{parse_with}
use libucl.Msgpack.Machine.Containers.{
  State, Machine, get_container, insert_object, get_next_container, state_of, read_type,
  start_assoc, start_array, read_assoc_key, read_assoc_value, finish_assoc_value, read_array_value,
  finish_array_value,
}

-- A use of `obj_parser`
abbrev pub with_entry {ℓ} : {A : Type ℓ} → Option Entry → (Entry → Outcome A) → Outcome A
with_entry none k = fault null_pointer
with_entry (some e) k = k e

-- `obj_parser->func (...)` and CONSUME_RET
unfoldable pub call_entry : Config → Machine → Outcome Machine
call_entry cfg m = with_entry m.entry λ e. do
  (p, n) ← parse_with e.func cfg m.parser m.len e.fmt m.input
  let m' = record m { parser = p; input = drop n m.input; entry = none }
  (if ltb (length m.input) n then fault negative_remain else ok m')

-- The state after a type byte and its length.
abbrev pub after_type : Entry → State → State
after_type e next =
    if has e flag_assoc then start_assoc else if has e flag_container then start_array else next

-- A length that is part of the type byte, or that the type fixes.
unfoldable pub read_fixed : Machine → Entry → ℕ → Bytes → Outcome Machine
read_fixed m e b tl =
    if not (e.len == 0) && ltb (length m.input) e.len
    then fail m.parser not_enough_data
    else (let len = if e.len == 0 then bit_and b (255 - e.prefix) else e.len in
        let value = has e flag_typevalue in
        ok (record m {
          entry = some e;
          len = if value then 0 else len;
          input = if value then m.input else tl;
          state = after_type e m.next_state;
        }))

abbrev pub is_length_size : ℕ → Bool
is_length_size n = n == 1 || n == 2 || n == 4 || n == 8

-- A length of `e.len` bytes behind the type byte.
unfoldable pub read_length : Machine → Entry → Bytes → Outcome Machine
read_length m e tl =
    if ltb (length tl) e.len
    then fail m.parser not_enough_data
    else if not (is_length_size e.len)
    then fail m.parser invalid_length_field
    else ok (record m {
      entry = some e;
      len = from_be (take e.len tl);
      input = drop e.len tl;
      state = after_type e m.next_state;
    })

unfoldable pub do_read_type : Machine → ℕ → Bytes → Outcome Machine
do_read_type m b tl = elim (get_parser_from_type b) [
  | none ↦ fail m.parser unknown_format
  | some e ↦ if has e flag_fixed then read_fixed m e b tl else read_length m e tl
]

-- A new object or array becomes the current one and joins the container that is open.
unfoldable pub add_container : Config → Machine → Payload → Outcome Parser
add_container cfg m v =
    let p = alloc_cur m.parser (new_object v cfg.priority) in
    elim p.stack [ [] ↦ ok p | f ∷ fs ↦ insert_object cfg p m.key m.parser.fresh ]

-- It is pushed, and its function makes it the object of the new frame.
unfoldable pub enter_container : Config → Machine → Payload → Outcome Machine
enter_container cfg m v = with_entry m.entry λ e. do
  p ← add_container cfg m v
  q ← get_container p e m.len
  call_entry cfg (record m { parser = q })

-- `case start_assoc` and `case start_array`
abbrev pub after_start : Bool → Machine → State → State → Machine
after_start more m finish next =
    if more then record m { state = read_type; next_state = next } else record m { state = finish }

unfoldable pub do_start_assoc : Config → Machine → Outcome Machine
do_start_assoc cfg m = do
  m' ← enter_container cfg m (object [])
  ok (after_start (ltb 0 m.len) (record m' { key = none }) finish_assoc_value read_assoc_key)

unfoldable pub do_start_array : Config → Machine → Outcome Machine
do_start_array cfg m = do
  m' ← enter_container cfg m (array [])
  ok (after_start (ltb 0 m.len) m' finish_array_value read_array_value)

-- The current object, unless a value was ignored, goes into the open container.
unfoldable pub insert_current : Config → Parser → Option Bytes → Outcome Parser
insert_current cfg p key = elim p.cur_obj [ none ↦ ok p | some r ↦ insert_object cfg p key r ]

-- `ucl_msgpack_is_container_finished` on the top of the stack
abbrev pub is_finished : List Frame → Bool
is_finished [] = false
is_finished (f ∷ fs) = f.len == 0

-- A value has no place where no container is open.
abbrev pub with_container {ℓ} : {A : Type ℓ} → List Frame → Parser → Outcome A → Outcome A
with_container [] p m = fail p no_container
with_container (f ∷ fs) p m = m

-- After a value: the container is finished, or more elements follow.
abbrev pub after_value : Machine → Parser → State → State → Machine
after_value m p finish next =
    if is_finished p.stack
    then record m { parser = p; state = finish }
    else record m { parser = p; state = read_type; next_state = next }

-- `case read_array_value`
unfoldable pub do_array_value : Config → Machine → Outcome Machine
do_array_value cfg m = with_container m.parser.stack m.parser do
  m' ← call_entry cfg m
  p ← insert_current cfg m'.parser none
  ok (after_value m' p finish_array_value read_array_value)

-- `case read_assoc_key`
unfoldable pub do_assoc_key : Machine → Outcome Machine
do_assoc_key m = with_entry m.entry λ e.
    if not (has e flag_key)
    then fail m.parser bad_key_type
    else if ltb (length m.input) m.len || m.len == 0
    then fail m.parser bad_key_length
    else ok (record m {
      key = some (take m.len m.input);
      input = drop m.len m.input;
      state = read_type;
      next_state = read_assoc_value;
    })

-- `assert (key != NULL && keylen > 0)`
abbrev pub has_key : Option Bytes → Bool
has_key none = false
has_key (some k) = ltb 0 (length k)

-- `case read_assoc_value`
unfoldable pub do_assoc_value : Config → Machine → Outcome Machine
do_assoc_value cfg m = with_container m.parser.stack m.parser do
  m' ← call_entry cfg m
  p ← if has_key m.key then insert_current cfg m'.parser m.key else fault assertion
  ok (after_value (record m' { key = none }) p finish_assoc_value read_assoc_key)

-- `case finish_array_value` and `case finish_assoc_value`
unfoldable pub do_finish : Machine → Outcome Machine
do_finish m = do
  let p = get_next_container m.parser
  next ← state_of p.stack p
  ok (record m { parser = p; state = read_type; next_state = next })
