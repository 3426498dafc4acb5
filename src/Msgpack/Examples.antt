-- ===== src/Msgpack/Examples.antt =====
-- Concrete inputs for the reader's and the writer's theorems.
use libucl.Base.{[], ◌∷◌, some, Bytes, ◌≡◌, refl, ◌≢◌, ◌++◌, arith}
use libucl.Store.{
  Config, Parser, Frame, Payload, Obj, append, process_object_element, array_append, new_object,
  no_container, no_key, alloc_cur, update,
}
use libucl.Store
use libucl.Msgpack.Outcome.{ok, stuck, fault, overread}
use libucl.Msgpack.Machine.{parse_msgpack, insert_object}
use libucl.Msgpack.Format.{get_parser_from_type}
use libucl.Msgpack.Machine.{Machine, initial, finish_array_value, read_array_value, read_assoc_key}
use libucl.Msgpack.Termination.Total.{parse_msgpack-ends}
use libucl.Msgpack.TypeTable.{described, byte_type, get_parser_from_type-byte_type}
use libucl.Msgpack.RoundTrip.Spec.{IsWritable, ends_well}
use libucl.Msgpack.RoundTrip.Element.{Waiting, After, finishing}
use libucl.Msgpack.RoundTrip.Scalars.{IsScalar-After}
use libucl.Msgpack.RoundTrip.Open.{Opened}
use libucl.Msgpack.RoundTrip.Nested.{print_array-Opened, print_object-Opened}
use libucl.Msgpack.RoundTrip.Resume.{Resumed, resume}
use libucl.Msgpack.Codec.Keys.{KeyRead, print_string-KeyRead}
use libucl.Msgpack.RoundTrip.Insert.{in_array, Inserted, under, insert_object-Inserted}
use libucl.Msgpack.Emit.{
  print_int, print_double, print_string, print_binary_string, print_array, print_object,
}
use libucl.Msgpack.Emit.{Value, Items, Fields, nil, item, end, field, emit}
use libucl.Msgpack.Emit
use libucl.Msgpack.RoundTrip.Root.{RootOpen, array-RootOpen, object-RootOpen}
use libucl.Msgpack.RoundTrip.Document.{Parsed, emit-Parsed}
use libucl.Msgpack.Tests.{cfg, empty, doc}

-- A machine at the start of the input, over the empty parser.
abbrev at : Bytes → Machine
at input = initial empty input

emit-Parsed_example : Parsed cfg empty (emit doc) doc
unfolding IsWritable ends_well Emit.count_fields Emit.count_items
emit-Parsed_example =
    emit-Parsed cfg empty doc tt refl refl
      (
        omega arith,
        (
          omega arith,
          omega arith,
          tt,
          refl,
          (omega arith, (omega arith, (omega arith, (omega arith, tt)))),
          tt,
        ),
      )
      refl

parse_msgpack-ends_example :
    (parse_msgpack cfg empty (emit doc) ≢ stuck)
    × (parse_msgpack cfg empty (emit doc) ≢ fault overread)
parse_msgpack-ends_example = parse_msgpack-ends cfg empty (emit doc)

get_parser_from_type-byte_type_example : described (get_parser_from_type 0xd9) ≡ byte_type 0xd9
get_parser_from_type-byte_type_example = get_parser_from_type-byte_type 0xd9 (omega arith)

array-RootOpen_example :
    RootOpen cfg empty (print_array 2 ++ (1 ∷ [])) 2 (1 ∷ []) read_array_value (Store.array [])
array-RootOpen_example =
    array-RootOpen cfg empty 2 1 [] refl (print_array 2 ++ (1 ∷ [])) (omega arith) refl

object-RootOpen_example :
    RootOpen cfg empty
      (print_object 2 ++ (0xa1 ∷ []))
      2
      (0xa1 ∷ [])
      read_assoc_key
      (Store.object [])
object-RootOpen_example =
    object-RootOpen cfg empty 2 0xa1 [] refl (print_object 2 ++ (0xa1 ∷ [])) (omega arith) refl

abbrev text : Bytes
text = b'h' ∷ b'i' ∷ []

-- An open object at 0 that waits for two entries, and a new integer at 1.
abbrev shelf : Parser
shelf = record empty {
  cell =
      update (update empty.cell 0 (new_object (Store.object []) 0)) 1 (new_object (Store.int 7) 0);
  fresh = 2;
  stack = record { obj = some 0; len = 2 } ∷ [];
  cur_obj = some 1;
}

insert_object-Inserted_example :
    (p' : Parser) × (insert_object cfg shelf (some text) 1 ≡ ok p')
    × Inserted (under text) shelf 0 1 (record { obj = some 0; len = 1 } ∷ []) p'
insert_object-Inserted_example =
    insert_object-Inserted cfg shelf 0 1 1 [] (λ e. absurd (omega (arith, e))) refl refl
      (under text) (some text) (omega arith, tt) refl refl

-- A machine that waits for two values of the array at 0.
abbrev waiting : Bytes → Machine
waiting input = record (at input) {
  parser = record empty {
    cell = update empty.cell 0 (new_object (Store.array []) 0);
    fresh = 1;
    stack = record { obj = some 0; len = 2 } ∷ [];
  };
  next_state = read_array_value;
}

waiting-Waiting : (input : Bytes) → Waiting cfg in_array 0 1 [] (waiting input)
waiting-Waiting input = record {
  state_is = refl;
  next_is = refl;
  stack_is = refl;
  key_is = tt;
  accepts = tt;
  alone = refl;
  below = omega arith;
}

IsScalar-After_example :
    After cfg in_array 0 1 [] (Emit.int 7) (9 ∷ []) (waiting (emit (Emit.int 7) ++ (9 ∷ [])))
unfolding IsWritable ends_well
IsScalar-After_example =
    IsScalar-After cfg in_array 0 1 [] (waiting (emit (Emit.int 7) ++ (9 ∷ []))) (Emit.int 7)
      (9 ∷ []) (waiting-Waiting (emit (Emit.int 7) ++ (9 ∷ []))) tt (omega arith) refl (λ e. refl)

print_array-Opened_example :
    Opened cfg in_array 0 1 []
      (waiting (print_array 2 ++ (9 ∷ [])))
      (Store.array [])
      2
      (9 ∷ [])
      read_array_value
print_array-Opened_example =
    print_array-Opened cfg in_array 0 1 [] (waiting (print_array 2 ++ (9 ∷ [])))
      (waiting-Waiting (print_array 2 ++ (9 ∷ []))) 2 9 [] (omega arith) refl

print_object-Opened_example :
    Opened cfg in_array 0 1 []
      (waiting (print_object 2 ++ (9 ∷ [])))
      (Store.object [])
      2
      (9 ∷ [])
      read_assoc_key
print_object-Opened_example =
    print_object-Opened cfg in_array 0 1 [] (waiting (print_object 2 ++ (9 ∷ [])))
      (waiting-Waiting (print_object 2 ++ (9 ∷ []))) 2 9 [] (omega arith) refl

-- The inner array at 1 is finished, and the array at 0 waits for one more value.
abbrev inner_done : Machine
inner_done = record (waiting (9 ∷ [])) {
  parser = record (waiting []).parser {
    stack = record { obj = some 1; len = 0 } ∷ record { obj = some 0; len = 1 } ∷ [];
  };
  state = finish_array_value;
}

resume_example : Resumed cfg 0 0 [] read_array_value inner_done
resume_example =
    resume cfg 0 0 [] read_array_value inner_done 9 [] refl refl
      (finishing (record { obj = some 1; len = 0 } ∷ []) (refl, tt) refl tt)

-- A machine that waits for a key.
abbrev keyless : Bytes → Machine
keyless input = record (at input) { next_state = read_assoc_key }

print_string-KeyRead_example : KeyRead cfg text (7 ∷ []) (keyless (print_string text ++ (7 ∷ [])))
print_string-KeyRead_example =
    print_string-KeyRead cfg (keyless (print_string text ++ (7 ∷ []))) text (7 ∷ []) refl refl
      (omega arith) (omega arith) refl
