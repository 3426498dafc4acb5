-- ===== src/Store.antt =====
-- The objects that a parser builds (`ucl_object_t` of include/ucl.h) on an explicit store, and the
-- operations of src/ucl_util.c and src/ucl_parser.c that add one object to another. A pointer is a
-- number, and `cell` says what stands there; the vector of an array is the list of its pointers,
-- and the hash of an object the list of its (key, pointer) entries in insertion order.
-- Memory is never short, and what `ucl_object_unref` frees simply stays in the store.
pub mod Update
pub mod Keys
pub mod Container
pub mod Insertion
mod Examples
use libucl.Base.{
  ℕ, ◌+◌, ◌%◌, Bool, true, false, not, ltb, ◌==◌, if◌then◌else◌, List, [], ◌∷◌, ◌++◌, Option, none,
  some, Bytes, bytes_eq, map, ◌&&◌, ◌-◌, leb, length,
}

-- The value and the type of an object. An integer (`int64_t`) is its two's complement bit pattern,
-- a floating-point number the bit pattern of the `double`.
pub data Payload : Type 0 where
  null : Payload
  int : ℕ → Payload
  float : ℕ → Payload
  boolean : Bool → Payload
  string : Bool → Bytes → Payload
  array : List ℕ → Payload
  object : List (Bytes × ℕ) → Payload

-- `siblings` are the objects linked behind this one in an implicit array.
pub record Obj : Type 0 where
  pub key : Bytes
  pub payload : Payload
  pub len : ℕ
  pub priority : ℕ
  pub multivalue : Bool
  pub inherited : Bool
  pub siblings : List ℕ

-- `struct ucl_stack`, with `obj` null until the container's function has run.
pub record Frame : Type 0 where
  pub obj : Option ℕ
  pub len : ℕ

pub data Strategy : Type 0 where
  append merge rewrite error : Strategy

pub data Error : Type 0 where
  duplicate_element unknown_format not_enough_data invalid_length_field no_container : Error
  no_key bad_container cannot_parse bad_key_type bad_key_length empty_container : Error
  invalid_state nonempty_at_end unfinished_value invalid_finish incomplete_container : Error
  bad_top_level : Error

-- What a chunk and the parser's flags fix for a whole run, and the machine's conversion of a
-- `float` to a `double`, as bit patterns.
pub record Config : Type 0 where
  pub widen_float : ℕ → ℕ
  pub priority : ℕ
  pub strategy : Strategy
  pub key_lowercase : Bool
  pub no_implicit_arrays : Bool

pub record Parser : Type 0 where
  pub cell : ℕ → Obj
  pub fresh : ℕ
  pub stack : List Frame
  pub cur_obj : Option ℕ
  pub top_obj : Option ℕ
  pub trash_objs : List ℕ
  pub err : Option Error

abbrev pub update : (ℕ → Obj) → ℕ → Obj → ℕ → Obj
update cell r o k = if k == r then o else cell k

-- `ucl_object_new_full`: a zeroed object of the type that the payload shows. Four bits hold the
-- priority.
abbrev pub new_object : Payload → ℕ → Obj
new_object v priority = record {
  key = [];
  payload = v;
  len = 0;
  priority = priority % 16;
  multivalue = false;
  inherited = false;
  siblings = [];
}

-- Put an object at a fresh pointer, and make it the current one.
abbrev pub alloc_cur : Parser → Obj → Parser
alloc_cur p o = record p {
  cell = update p.cell p.fresh o;
  fresh = p.fresh + 1;
  cur_obj = some p.fresh;
}

abbrev push_item : Payload → ℕ → Payload
push_item (array items) r = array (items ++ (r ∷ []))
push_item v r = v

-- `ucl_array_append`
unfoldable pub array_append : (ℕ → Obj) → ℕ → ℕ → ℕ → Obj
array_append cell top elt =
    let o = cell top in
    update cell top (record o { payload = push_item o.payload elt; len = o.len + 1 })

-- One entry of `lc_map`
unfoldable lc : ℕ → ℕ
lc b = if leb b'A' b && leb b b'Z' then b + 32 else b

-- Equality of keys in a hash, `ucl_hash_equal` or `ucl_hash_caseless_equal`.
unfoldable pub key_eq : Bool → Bytes → Bytes → Bool
unfolding lc bytes_eq
key_eq caseless a b = if caseless then bytes_eq (map lc a) (map lc b) else bytes_eq a b

unfoldable pub search_entries : Bool → Bytes → List (Bytes × ℕ) → Option ℕ
search_entries caseless k [] = none
search_entries caseless k ((j, r) ∷ es) =
    if key_eq caseless j k then some r else search_entries caseless k es

abbrev pub entries_of : Payload → List (Bytes × ℕ)
entries_of (object es) = es
entries_of v = []

-- The search over a container and the siblings linked behind it.
unfoldable pub search_chain : Bool → (ℕ → Obj) → Bytes → List ℕ → Option ℕ
unfolding search_entries
search_chain caseless cell k [] = none
search_chain caseless cell k (c ∷ cs) =
    let rest = search_chain caseless cell k cs in
    elim (search_entries caseless k (entries_of (cell c).payload)) [ none ↦ rest | some r ↦ some r ]

abbrev put_entry : Payload → Bytes → ℕ → Payload
put_entry (object es) k r = object (es ++ ((k, r) ∷ []))
put_entry v k r = v

-- `ucl_hash_insert_object` of a key that the hash lacks, into the object at `c`.
unfoldable pub hash_insert : (ℕ → Obj) → ℕ → ℕ → ℕ → Obj
hash_insert cell c elt =
    let o = cell c in
    update cell c (record o { payload = put_entry o.payload (cell elt).key elt; len = o.len + 1 })

unfoldable replace_entries : Bool → Bytes → Bytes → ℕ → List (Bytes × ℕ) → List (Bytes × ℕ)
replace_entries caseless old k r [] = []
replace_entries caseless old k r ((j, s) ∷ es) =
    if key_eq caseless j old then (k, r) ∷ es else (j, s) ∷ replace_entries caseless old k r es

abbrev replace_payload : Bool → Payload → Bytes → Bytes → ℕ → Payload
replace_payload caseless (object es) old k r = object (replace_entries caseless old k r es)
replace_payload caseless v old k r = v

-- `ucl_hash_replace`: the new object takes the place of the old one in the order.
unfoldable hash_replace : Bool → (ℕ → Obj) → ℕ → ℕ → ℕ → ℕ → Obj
unfolding replace_entries
hash_replace caseless cell c old new =
    let o = cell c in
    update cell c
      (record o { payload = replace_payload caseless o.payload (cell old).key (cell new).key new })

-- `ucl_parser_append_elt`; `c` is the container on top of the stack.
unfoldable append_elt : Config → Parser → ℕ → ℕ → ℕ → Parser
unfolding array_append hash_replace
append_elt cfg p c top elt =
    if not cfg.no_implicit_arrays
    then (let o = p.cell top in
        let cell' =
          update p.cell top (record o { multivalue = true; siblings = o.siblings ++ (elt ∷ []) }) in
        let co = cell' c in record p { cell = update cell' c (record co { len = co.len + 1 }) })
    else if (p.cell top).multivalue
    then record p { cell = array_append p.cell top elt }
    else (let n = p.fresh in
        let fresh_array = new_object (array []) 0 in
        let cell' =
          update p.cell n (record fresh_array { key = (p.cell top).key; multivalue = true }) in
        let cell'' = array_append (array_append cell' n top) n elt in
        record p { cell = hash_replace cfg.key_lowercase cell'' c top n; fresh = n + 1 })

abbrev set_err : Parser → Error → Parser
set_err p e = record p { err = elim p.err [ none ↦ some e | some e' ↦ some e' ] }

-- The rule of priorities: the newer object joins, is thrown away, or takes the older one's place.
unfoldable by_priority : Config → Parser → ℕ → ℕ → ℕ → ℕ → ℕ → Parser
unfolding append_elt
by_priority cfg p c tobj nobj priold prinew =
    if priold == prinew
    then append_elt cfg p c tobj nobj
    else if ltb prinew priold
    then record p { trash_objs = p.trash_objs ++ (nobj ∷ []) }
    else record p { cell = hash_replace cfg.key_lowercase p.cell c tobj nobj }

abbrev is_container : Payload → Bool
is_container (array items) = true
is_container (object es) = true
is_container v = false

-- The duplicate key branch of `ucl_parser_process_object_element`, by strategy.
unfoldable process_duplicate : Strategy → Config → Parser → ℕ → ℕ → ℕ → Parser
unfolding by_priority
process_duplicate append cfg p c tobj nobj =
    let priold = (p.cell tobj).priority in
    let prinew = if (p.cell tobj).inherited then priold + 1 else (p.cell nobj).priority in
    let p' = by_priority cfg p c tobj nobj priold prinew in record p' { cur_obj = some nobj }
process_duplicate rewrite cfg p c tobj nobj = record p {
  cell = hash_replace cfg.key_lowercase p.cell c tobj nobj;
  cur_obj = some nobj;
}
process_duplicate error cfg p c tobj nobj = set_err p duplicate_element
process_duplicate merge cfg p c tobj nobj =
    let p' = by_priority cfg p c tobj nobj (p.cell tobj).priority (p.cell nobj).priority in
    if is_container (p.cell tobj).payload
    then record p { cur_obj = some tobj }
    else record p' { cur_obj = some nobj }

-- `ucl_parser_process_object_element`; the element's key is set, and `c` is the container.
unfoldable pub process_object_element : Config → Parser → ℕ → ℕ → Parser
unfolding search_chain hash_insert process_duplicate
process_object_element cfg p c nobj =
    elim (search_chain cfg.key_lowercase p.cell (p.cell nobj).key (c ∷ (p.cell c).siblings)) [
      | none ↦
          let cell' = hash_insert p.cell c nobj in
          let o = cell' nobj in
          record p { cell = update cell' nobj (record o { siblings = [] }); cur_obj = some nobj }
      | some tobj ↦ process_duplicate cfg.strategy cfg p c tobj nobj
    ]
