-- ===== src/Schema/Values.antt =====
-- `ucl_object_t` of include/ucl.h as a tree, and the functions of src/ucl_util.c that the validator asks:
-- lookup, iteration, conversion, and `ucl_object_compare` as far as a zero goes. Arithmetic on
-- doubles, given by their bit patterns, and the C library's strtoul, strcasecmp and regular
-- expressions are parameters. A hash tells upper from lower case.
use libucl.Base.{
  ℕ, Bool, true, false, ◌&&◌, ◌||◌, not, ◌==◌, if◌then◌else◌, Option, none, some, List, [], ◌∷◌,
  ◌++◌, Bytes, bytes_eq, length,
}

-- An integer is the bit pattern of its `int64_t`. The `len` of an object counts its values: an
-- implicit array counts as many as it has.
mutual
  pub data Value : Type 0 where
    object : ℕ → Entries → Value
    array : Items → Value
    int : ℕ → Value
    float : ℕ → Value
    string : Bytes → Value
    boolean : Bool → Value
    time : ℕ → Value
    userdata : Value
    null : Value

  -- An object and those behind it, by `next`, in an implicit array
  pub data Chain : Type 0 where
    last : Value → Chain
    next : Value → Chain → Chain

  pub data Items : Type 0 where
    no_items : Items
    item : Value → Items → Items

  pub data Entries : Type 0 where
    no_entries : Entries
    entry : Bytes → Chain → Entries → Entries

-- What the validator takes from the C library and the machine
pub record Machine : Type 0 where
  pub int_to_double : ℕ → ℕ
  pub double_to_int : ℕ → ℕ
  pub double_lt : ℕ → ℕ → Bool
  pub double_le : ℕ → ℕ → Bool
  pub double_zero : ℕ
  -- `(int)(a - b) == 0`
  pub truncated_equal : ℕ → ℕ → Bool
  -- `fabs (remainder (a, b)) > alpha`
  pub remainder_exceeds : ℕ → ℕ → Bool
  pub regcomp : Bytes → Option (Bytes → Bool)
  pub strcasecmp_equal : Bytes → Bytes → Bool
  -- the number, and what stands behind it
  pub strtoul : Bytes → ℕ × Bytes
  -- `TREE_FIND` on the balanced tree by `ucl_object_compare`, into which these values were inserted, the
  -- last one first
  pub tree_find : List Value → Value → Bool
  -- the object that a reference to another document stands for, from the cache or read anew
  pub external : Bytes → Option Value
  -- the key that an object has as a value of another, which a tree does not hold
  pub own_key : Chain → Option Bytes

-- `ucl_type_t`
pub data Kind : Type 0 where
  an_object an_array an_int a_float a_string a_boolean a_time a_userdata a_null : Kind

abbrev pub kind_of : Value → Kind
kind_of (object n es) = an_object
kind_of (array is) = an_array
kind_of (int i) = an_int
kind_of (float d) = a_float
kind_of (string s) = a_string
kind_of (boolean b) = a_boolean
kind_of (time d) = a_time
kind_of userdata = a_userdata
kind_of null = a_null

abbrev pub kind_number : Kind → ℕ
kind_number an_object = 0
kind_number an_array = 1
kind_number an_int = 2
kind_number a_float = 3
kind_number a_string = 4
kind_number a_boolean = 5
kind_number a_time = 6
kind_number a_userdata = 7
kind_number a_null = 8

abbrev pub head : Chain → Value
head (last v) = v
head (next v c) = v

-- The objects of an implicit array, from one on
abbrev pub chain : Chain → List Value
chain (last v) = v ∷ []
chain (next v c) = v ∷ chain c

abbrev pub items : Items → List Value
items no_items = []
items (item v is) = v ∷ items is

abbrev pub entries : Entries → List (Bytes × Chain)
entries no_entries = []
entries (entry k c es) = (k, c) ∷ entries es

abbrev pub entries_of : Value → List (Bytes × Chain)
entries_of (object n es) = entries es
entries_of v = []

abbrev pub items_of : Value → List Value
items_of (array is) = items is
items_of v = []

-- `len`
abbrev pub len : Value → ℕ
len (object n es) = n
len (array is) = length (items is)
len (string s) = length s
len v = 0

unfoldable pub search : Bytes → List (Bytes × Chain) → Option Chain
search key [] = none
search key ((k, c) ∷ es) = let rest = search key es in if bytes_eq k key then some c else rest

-- `ucl_object_lookup`
unfoldable pub lookup : Value → Bytes → Option Chain
unfolding search
lookup v key = search key (entries_of v)

-- An object and each one behind it, as the start of the rest of the implicit array
abbrev pub suffixes : Chain → List Chain
suffixes (last v) = last v ∷ []
suffixes (next v c) = next v c ∷ suffixes c

abbrev pub with_key : Bytes → List Chain → List (Bytes × Chain)
with_key k [] = []
with_key k (c ∷ cs) = (k, c) ∷ with_key k cs

-- `ucl_object_iterate` with `expand_values`, for loops that use the keys: `none` stands for the elements
-- of an array, which have a null key.
abbrev pub keyed_by : Value → Bytes → Chain → Option (List (Bytes × Chain))
keyed_by (object n es) k c = some (entries es)
keyed_by (array is) k c = none
keyed_by v k c = some (with_key k (suffixes c))

abbrev pub keyed : Bytes → Chain → Option (List (Bytes × Chain))
keyed k c = keyed_by (head c) k c

abbrev named : List (Bytes × Chain) → List (Option Bytes × Chain)
named [] = []
named ((k, c) ∷ es) = (some k, c) ∷ named es

abbrev nameless : List Value → List (Option Bytes × Chain)
nameless [] = []
nameless (v ∷ vs) = (none, last v) ∷ nameless vs

-- What `ucl_object_iterate_safe` with `expand_values` makes of one object of an implicit array: an object
-- gives its values, an array its items, which have no key, and any other one itself.
abbrev members : Option Bytes → Value → Chain → List (Option Bytes × Chain)
members k (object n es) c = named (entries es)
members k (array is) c = nameless (items is)
members k v c = (k, c) ∷ []

-- The loop of `ucl_object_iterate_safe` over an implicit array whose objects have this key, with the key
-- of each object that it returns. An object has a hash, also where it is empty.
unfoldable pub iterate_safe : Option Bytes → Chain → List (Option Bytes × Chain)
iterate_safe k (last v) = members k v (last v)
iterate_safe k (next v c) = members k v (next v c) ++ iterate_safe k c

-- `ucl_object_toint_safe`
abbrev pub toint_safe : Machine → Value → Option ℕ
toint_safe m (int i) = some i
toint_safe m (float d) = some (m.double_to_int d)
toint_safe m (time d) = some (m.double_to_int d)
toint_safe m v = none

-- `ucl_object_todouble`
abbrev pub todouble : Machine → Value → ℕ
todouble m (int i) = m.int_to_double i
todouble m (float d) = d
todouble m (time d) = d
todouble m v = m.double_zero

-- `ucl_object_toboolean`
abbrev pub toboolean : Value → Bool
toboolean (boolean b) = b
toboolean v = false

-- `ucl_object_tostring`, none where it is null
abbrev pub tostring : Value → Option Bytes
tostring (string s) = some s
tostring v = none

-- The bytes before a null byte, which is as far as strcmp looks
unfoldable pub c_string : Bytes → Bytes
c_string [] = []
c_string (b ∷ bs) = let rest = c_string bs in if b == 0 then [] else b ∷ rest

abbrev xor_free : Bool → Bool → Bool
xor_free true b = b
xor_free false b = not b

unfoldable mutual
  -- `ucl_object_compare (o1, o2) == 0`
  pub compare_equal : Machine → Value → Value → Bool
  compare_equal m (string s) (string t) = length s == length t && bytes_eq (c_string s) (c_string t)
  compare_equal m (float a) (float b) = m.truncated_equal a b
  compare_equal m (int a) (int b) = m.truncated_equal (m.int_to_double a) (m.int_to_double b)
  compare_equal m (time a) (time b) = m.truncated_equal a b
  compare_equal m (boolean a) (boolean b) = xor_free a b
  compare_equal m (array is) (array js) =
      length (items is) == length (items js) && compare_items m is (items js)
  compare_equal m (object n es) (object n' es') =
      n == n' && (n == 0 || compare_entries m es (entries es'))
  compare_equal m userdata userdata = true
  compare_equal m null null = true
  compare_equal m a b = false

  compare_items : Machine → Items → List Value → Bool
  compare_items m no_items js = true
  compare_items m (item v is) [] = true
  compare_items m (item v is) (w ∷ js) = compare_equal m v w && compare_items m is js

  compare_entries : Machine → Entries → List (Bytes × Chain) → Bool
  compare_entries m no_entries es' = true
  compare_entries m (entry k c es) es' =
      compare_found m c (search k es') && compare_entries m es es'

  compare_found : Machine → Chain → Option Chain → Bool
  compare_found m c none = false
  compare_found m (last v) (some d) = compare_equal m v (head d)
  compare_found m (next v c) (some d) = compare_equal m v (head d)
