-- ===== src/Schema/Rules.antt =====
-- The checks of src/ucl_schema.c that look at one object: the number of values, enumerations, types,
-- numbers, strings and the uniqueness of items.
use libucl.Base.{
  ℕ, ◌+◌, ◌^◌, Bool, true, false, ◌&&◌, ◌||◌, not, ltb, leb, if◌then◌else◌, Option, none, some,
  List, [], ◌∷◌, Bytes, bytes_eq,
}
use libucl.Schema.Words.{
  kw_multiple_of, kw_maximum, kw_minimum, kw_exclusive_maximum, kw_exclusive_minimum, kw_max_length,
  kw_min_length, kw_pattern, kw_max_values, kw_min_values, kw_object, kw_array, kw_integer,
  kw_number, kw_string, kw_boolean, kw_null, kw_userdata,
}
use libucl.Schema.Values.{
  Value, array, int, float, string, boolean, Chain, Items, no_items, item, Machine, Kind, an_object,
  an_array, an_int, a_float, a_string, a_boolean, a_time, a_userdata, a_null, kind_number, head,
  chain, items, entries_of, len, lookup, todouble, compare_equal,
}
use libucl.Schema.Checks.{
  Check, Verdict, refused, accepted, out_of_fuel, undefined, constraint, invalid_schema,
  type_mismatch, ◌>>◌, create_error, give_up, no_check, require,
}

-- A 32-bit length or a count of objects against an `int64_t` of that bit pattern
abbrev pub below : ℕ → ℕ → Bool
below n i = ltb i (2 ^ 63) && ltb n i

abbrev pub above : ℕ → ℕ → Bool
above n i = leb (2 ^ 63) i || ltb i n

-- The loop for maxValues
unfoldable pub exceeds : ℕ → ℕ → List Value → Bool
exceeds limit i [] = false
exceeds limit i (v ∷ vs) =
    let rest = exceeds limit (i + 1) vs in if above i limit then true else rest

-- The loop for minValues
unfoldable pub count_to : ℕ → ℕ → List Value → ℕ
count_to limit i [] = i
count_to limit i (v ∷ vs) =
    let rest = count_to limit (i + 1) vs in if not (below i limit) then i else rest

-- An integer of the schema at a key
unfoldable pub int_at : Value → Bytes → Option ℕ
int_at schema key = elim (lookup schema key) [
  | none ↦ none
  | some c ↦ elim (head c) [ int i ↦ some i | _ ↦ none ]
]

unfoldable pub max_values : Option ℕ → Chain → Check (Unit {0})
unfolding exceeds
max_values none obj = no_check
max_values (some limit) obj = require (not (exceeds limit 0 (chain obj))) constraint

unfoldable pub min_values : Option ℕ → Chain → Check (Unit {0})
unfolding count_to
min_values none obj = no_check
min_values (some limit) obj = require (not (below (count_to limit 0 (chain obj)) limit)) constraint

-- `ucl_schema_validate_values`
unfoldable pub validate_values : Value → Chain → Check (Unit {0})
unfolding max_values min_values int_at
validate_values schema obj =
    max_values (int_at schema kw_max_values) obj >> min_values (int_at schema kw_min_values) obj

unfoldable pub any_equal : Machine → Value → List Value → Bool
any_equal m v [] = false
any_equal m v (w ∷ ws) = compare_equal m w v || any_equal m v ws

-- `ucl_schema_validate_enum`
unfoldable pub validate_enum : Machine → Items → Value → Check (Unit {0})
unfolding any_equal
validate_enum m is v = require (any_equal m v (items is)) constraint

-- `ucl_object_string_to_type`
unfoldable pub string_to_type : Machine → Bytes → Option Kind
string_to_type m input =
    let same = m.strcasecmp_equal input in
    if same kw_object
    then some an_object
    else if same kw_array
    then some an_array
    else if same kw_integer
    then some an_int
    else if same kw_number
    then some a_float
    else if same kw_string
    then some a_string
    else if same kw_boolean
    then some a_boolean
    else if same kw_null
    then some a_null
    else if same kw_userdata
    then some a_userdata
    else none

abbrev pub same_kind : Kind → Kind → Bool
same_kind a b = leb (kind_number a) (kind_number b) && leb (kind_number b) (kind_number a)

-- An object of the type, or a time or an integer where a number is asked for
abbrev pub compatible : Kind → Kind → Bool
compatible found wanted =
    same_kind found wanted
    || (same_kind found a_time && same_kind wanted a_float)
    || (same_kind found an_int && same_kind wanted a_float)

abbrev pub instead : Check (Unit {0}) → Verdict (Unit {0}) → Verdict (Unit {0})
instead k (accepted u c) = accepted tt c
instead k (refused c) = k c
instead k out_of_fuel = out_of_fuel
instead k undefined = undefined

abbrev pub or_else : Check (Unit {0}) → Check (Unit {0}) → Check (Unit {0})
or_else m k c = instead k (m c)

-- The type that is asked for, if the word is one
abbrev pub fits : Option Kind → Kind → Check (Unit {0})
fits none found = create_error invalid_schema
fits (some wanted) found = require (compatible found wanted) type_mismatch

unfoldable mutual
  -- `ucl_schema_type_is_allowed`, for a type that is there
  pub type_is_allowed : Machine → Value → Kind → Check (Unit {0})
  type_is_allowed m (array is) found = one_is_allowed m is found
  type_is_allowed m (string s) found = fits (string_to_type m s) found
  type_is_allowed m _ found = give_up

  pub one_is_allowed : Machine → Items → Kind → Check (Unit {0})
  one_is_allowed m no_items found = give_up
  one_is_allowed m (item t is) found =
      or_else (type_is_allowed m t found) (one_is_allowed m is found)

abbrev pub is_numeric : Value → Bool
is_numeric (int i) = true
is_numeric (float d) = true
is_numeric v = false

-- The Boolean at a key, if there is one, or the flag as it was
unfoldable pub flag_at : Value → Bytes → Bool → Bool
flag_at schema key b = elim (lookup schema key) [
  | none ↦ b
  | some c ↦ elim (head c) [ boolean b' ↦ b' | _ ↦ b ]
]

-- `exclusive`, which an entry sets and the later ones see
unfoldable pub exclusive_at : Value → Bytes → Value → Bool → Bool
unfolding flag_at
exclusive_at schema k v exclusive =
    if is_numeric v && bytes_eq k kw_multiple_of
    then exclusive
    else if is_numeric v && bytes_eq k kw_maximum
    then flag_at schema kw_exclusive_maximum exclusive
    else if is_numeric v && bytes_eq k kw_minimum
    then flag_at schema kw_exclusive_minimum exclusive
    else exclusive

-- One entry of the schema of a number, with `exclusive` as it has set it
unfoldable pub number_rule : Machine → ℕ → Bytes → Value → Bool → Check (Unit {0})
number_rule m val k v exclusive =
    let limit = todouble m v in
    if is_numeric v && bytes_eq k kw_multiple_of
    then require (not (m.double_le limit m.double_zero)) invalid_schema
      >> require (not (m.remainder_exceeds val limit)) constraint
    else if is_numeric v && bytes_eq k kw_maximum
    then require (not (m.double_lt limit val || (exclusive && m.double_le limit val))) constraint
    else if is_numeric v && bytes_eq k kw_minimum
    then require (not (m.double_lt val limit || (exclusive && m.double_le val limit))) constraint
    else no_check

unfoldable pub number_on : Machine → Value → ℕ → List (Bytes × Chain) → Bool → Check (Unit {0})
unfolding number_rule exclusive_at
number_on m schema val [] exclusive = no_check
number_on m schema val ((k, c) ∷ es) exclusive =
    let exclusive' = exclusive_at schema k (head c) exclusive in
    number_rule m val k (head c) exclusive' >> number_on m schema val es exclusive'

-- `ucl_schema_validate_number`
unfoldable pub validate_number : Machine → Value → Value → Check (Unit {0})
unfolding number_on
validate_number m schema obj = number_on m schema (todouble m obj) (entries_of schema) false

abbrev pub matches_text : Option (Bytes → Bool) → Bytes → Check (Unit {0})
matches_text none text = create_error invalid_schema
matches_text (some matches) text = require (matches text) constraint

-- One entry of the schema of a string
unfoldable pub string_rule : Machine → Bytes → Value → Bytes → Value → Check (Unit {0})
string_rule m text obj k (int i) =
    if bytes_eq k kw_max_length
    then require (not (above (len obj) i)) constraint
    else if bytes_eq k kw_min_length
    then require (not (below (len obj) i)) constraint
    else no_check
string_rule m text obj k (string pattern) =
    if bytes_eq k kw_pattern then matches_text (m.regcomp pattern) text else no_check
string_rule m text obj k v = no_check

unfoldable pub string_on : Machine → Bytes → Value → List (Bytes × Chain) → Check (Unit {0})
unfolding string_rule
string_on m text obj [] = no_check
string_on m text obj ((k, c) ∷ es) = string_rule m text obj k (head c) >> string_on m text obj es

-- `ucl_schema_validate_string`
unfoldable pub validate_string : Machine → Value → Bytes → Check (Unit {0})
unfolding string_on
validate_string m schema text = string_on m text (string text) (entries_of schema)

-- The loop of `ucl_schema_array_is_unique`, with the values that the tree has. Whether it finds an equal one
-- is left to the tree, since `ucl_object_compare`, which drives it, is no order.
unfoldable pub unique_on : Machine → List Value → List Value → Check (Unit {0})
unique_on m nodes [] = no_check
unique_on m nodes (v ∷ vs) =
    require (not (m.tree_find nodes v)) constraint >> unique_on m (v ∷ nodes) vs

-- `ucl_schema_array_is_unique`
unfoldable pub array_is_unique : Machine → List Value → Check (Unit {0})
unfolding unique_on
array_is_unique m vs = unique_on m [] vs
