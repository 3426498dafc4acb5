-- ===== src/Msgpack/Machine/Loop.antt =====
-- The loop of `ucl_msgpack_consume` in src/ucl_msgpack.c, the checks behind it, and
-- `ucl_parse_msgpack`.
use libucl.Base.{
  ℕ, zero, suc, ◌+◌, ◌*◌, Bool, false, not, ◌&&◌, leb, ◌==◌, if◌then◌else◌, List, [], ◌∷◌, Option,
  none, some, Bytes, length, bit_and,
}
use libucl.Store.{
  Config, Parser, Frame, Payload, array, object, invalid_state, nonempty_at_end, unfinished_value,
  invalid_finish, incomplete_container, bad_top_level,
}
use libucl.Msgpack.Outcome.{Outcome, ok, fault, stuck, ◌>>=◌, fail, assertion}
use libucl.Msgpack.Machine.Containers.{
  State, Machine, get_next_container, read_type, start_assoc, start_array, read_assoc_key,
  read_assoc_value, finish_assoc_value, read_array_value, finish_array_value, error_state,
}
use libucl.Msgpack.Machine.States.{
  call_entry, do_read_type, enter_container, do_start_assoc, do_start_array, insert_current,
  with_container, do_array_value, do_assoc_key, do_assoc_value, do_finish,
}

-- One round of the loop, on the byte at `p` and those behind it.
unfoldable pub step_in : State → Config → Machine → ℕ → Bytes → Outcome Machine
step_in read_type cfg m b tl = do_read_type m b tl
step_in start_assoc cfg m b tl = do_start_assoc cfg m
step_in start_array cfg m b tl = do_start_array cfg m
step_in read_array_value cfg m b tl = do_array_value cfg m
step_in read_assoc_key cfg m b tl = do_assoc_key m
step_in read_assoc_value cfg m b tl = do_assoc_value cfg m
step_in finish_array_value cfg m b tl = do_finish m
step_in finish_assoc_value cfg m b tl = do_finish m
step_in error_state cfg m b tl = fail m.parser invalid_state

abbrev pub step : Config → Machine → ℕ → Bytes → Outcome Machine
step cfg m b tl = step_in m.state cfg m b tl

-- `while (p < end)`
unfoldable pub run_on : Bytes → ℕ → Config → Machine → Outcome Machine
run_on [] fuel cfg m = ok m
run_on (b ∷ tl) zero cfg m = stuck
run_on (b ∷ tl) (suc fuel) cfg m = step cfg m b tl >>= λ m'. run_on m'.input fuel cfg m'

abbrev pub run : ℕ → Config → Machine → Outcome Machine
run fuel cfg m = run_on m.input fuel cfg m

-- An empty container that ends the input.
unfoldable pub end_container : Config → Machine → Payload → Outcome Parser
end_container cfg m v =
    if not (m.len == 0)
    then fail m.parser nonempty_at_end
    else with_container m.parser.stack m.parser do m' ← enter_container cfg m v; ok m'.parser

-- A value of no bytes that ends the input.
unfoldable pub end_value : Config → Machine → Outcome Parser
end_value cfg m =
    if not (m.len == 0)
    then fail m.parser unfinished_value
    else with_container m.parser.stack m.parser
        do m' ← call_entry cfg m; insert_current cfg m'.parser none

-- The check of the finishing state
unfoldable pub finish_in : State → Config → Machine → Outcome Parser
finish_in start_array cfg m = end_container cfg m (array [])
finish_in start_assoc cfg m = end_container cfg m (object [])
finish_in read_array_value cfg m = end_value cfg m
finish_in read_assoc_value cfg m = end_value cfg m
finish_in finish_array_value cfg m = ok m.parser
finish_in finish_assoc_value cfg m = ok m.parser
finish_in read_type cfg m = ok m.parser
finish_in _ cfg m = fail m.parser invalid_finish

-- The last lines: every container must be complete.
unfoldable pub close : Parser → Outcome Parser
close p =
    let q = get_next_container p in
    elim q.stack [ [] ↦ ok q | f ∷ fs ↦ fail q incomplete_container ]

abbrev pub initial : Parser → Bytes → Machine
initial p input = record {
  parser = p;
  input = input;
  state = read_type;
  next_state = error_state;
  entry = none;
  len = 0;
  key = none;
}

-- `ucl_msgpack_consume`, with fuel for its loop
unfoldable pub consume : ℕ → Config → Parser → Bytes → Outcome Parser
consume fuel cfg p input = do
  m ← run fuel cfg (initial p input)
  q ← finish_in m.state cfg m
  close q

-- The rounds that are enough for any input.
abbrev pub enough : Bytes → ℕ
enough input = 4 * length input + 4

abbrev pub top_container : List Frame → Option ℕ
top_container [] = none
top_container (f ∷ fs) = f.obj

abbrev pub bad_first_byte : Option ℕ → ℕ → Bool
bad_first_byte none b = not (bit_and b 0x80 == 0x80) && not (leb 0xdc b && leb b 0xdf)
bad_first_byte (some r) b = false

-- `ucl_parse_msgpack`
unfoldable pub parse_msgpack : Config → Parser → Bytes → Outcome Parser
parse_msgpack cfg p [] = fault assertion
parse_msgpack cfg p (b ∷ tl) =
    if bad_first_byte (top_container p.stack) b then fail p bad_top_level else do
      q ← consume (enough (b ∷ tl)) cfg p (b ∷ tl)
      ok (record q { top_obj = elim q.top_obj [ none ↦ q.cur_obj | some r ↦ some r ] })
