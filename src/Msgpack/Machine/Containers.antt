-- ===== src/Msgpack/Machine/Containers.antt =====
-- The states and variables of `ucl_msgpack_consume` in src/ucl_msgpack.c, and the functions that it calls
-- on the stack of containers.
use libucl.Base.{ℕ, ◌-◌, ◌==◌, length, if◌then◌else◌, List, [], ◌∷◌, Option, none, some, Bytes}
use libucl.Store.{
  Config, Parser, Frame, Payload, array, object, array_append, process_object_element, no_key,
  bad_container, empty_container, bad_top_level,
}
use libucl.Msgpack.Outcome.{Outcome, ok, fault, ◌>>=◌, fail, assertion}
use libucl.Msgpack.Format.{Entry, has, flag_container}

-- `enum e_msgpack_parser_state`
pub data State : Type 0 where
  read_type start_assoc start_array read_assoc_key read_assoc_value finish_assoc_value : State
  read_array_value finish_array_value error_state : State

-- The variables of `ucl_msgpack_consume`. `input` is the bytes from `p` to `end`, so `remain` is its
-- length; `key` holds the bytes that `key` and `keylen` give, `none` for a null `key`.
pub record Machine : Type 0 where
  pub parser : Parser
  pub input : Bytes
  pub state : State
  pub next_state : State
  pub entry : Option Entry
  pub len : ℕ
  pub key : Option Bytes

-- `ucl_msgpack_get_container`
unfoldable pub get_container : Parser → Entry → ℕ → Outcome Parser
get_container p e len =
    if has e flag_container
    then ok (record p { stack = record { obj = none; len = len } ∷ p.stack })
    else elim p.stack [ [] ↦ fail p bad_top_level | f ∷ fs ↦ ok p ]

-- The body of `ucl_msgpack_insert_object` for a container of a known type; `r` is the container.
unfoldable pub insert_into : Payload → Config → Parser → ℕ → Option Bytes → ℕ → Outcome Parser
insert_into (array items) cfg p r key elt = ok (record p { cell = array_append p.cell r elt })
insert_into (object es) cfg p r none elt = fail p no_key
insert_into (object es) cfg p r (some k) elt =
    if length k == 0
    then fail p no_key
    else (let o = p.cell elt in
        let keyed = record p { cell = λ c. if c == elt then record o { key = k } else p.cell c } in
        ok (process_object_element cfg keyed r elt))
insert_into v cfg p r key elt = fail p bad_container

-- `container->e.len--`
abbrev pub count_down : List Frame → List Frame
count_down [] = []
count_down (f ∷ fs) = record f { len = f.len - 1 } ∷ fs

unfoldable pub insert_on : List Frame → Config → Parser → Option Bytes → ℕ → Outcome Parser
insert_on [] cfg p key elt = fault assertion
insert_on (f ∷ fs) cfg p key elt = if f.len == 0 then fault assertion else elim f.obj [
  | none ↦ fault assertion
  | some r ↦ do
    q ← insert_into (p.cell r).payload cfg p r key elt
    ok (record q { stack = count_down q.stack })
]

-- `ucl_msgpack_insert_object`
unfoldable pub insert_object : Config → Parser → Option Bytes → ℕ → Outcome Parser
insert_object cfg p key elt = insert_on p.stack cfg p key elt

-- `ucl_msgpack_get_next_container` on the stack and `cur_obj`: finished containers are popped.
unfoldable pub pop_finished : List Frame → Option ℕ → List Frame × Option ℕ
pop_finished [] cur = ([], cur)
pop_finished (f ∷ fs) cur =
    let rest = pop_finished fs f.obj in if f.len == 0 then rest else (f ∷ fs, cur)

unfoldable pub get_next_container : Parser → Parser
get_next_container p =
    let (fs, cur) = pop_finished p.stack p.cur_obj in record p { stack = fs; cur_obj = cur }

-- GET_NEXT_STATE on the container that is left on top
unfoldable pub state_of : List Frame → Parser → Outcome State
state_of [] p = fail p empty_container
state_of (f ∷ fs) p = elim f.obj [
  | none ↦ fault assertion
  | some r ↦ ok (elim (p.cell r).payload [ object es ↦ read_assoc_key | _ ↦ read_array_value ])
]
