-- ===== src/Msgpack/Emit.antt =====
-- The MessagePack writer: `ucl_emitter_print_*_msgpack` of src/ucl_msgpack.c and
-- `ucl_emit_msgpack_elt` of src/ucl_emitter.c. What the emitter's functions append is a byte string,
-- and a 16, 32 or 64-bit field stands in it in big-endian order.
use libucl.Base.{
  ℕ, ◌+◌, ◌-◌, ◌%◌, ◌^◌, Bool, ltb, leb, if◌then◌else◌, [], ◌∷◌, ◌++◌, Bytes, length, to_be,
  bit_and, bit_or,
}

-- An object as the emitter walks it. A value of an object stands there with its key and the values
-- that are linked behind it in an implicit array.
mutual
  pub data Value : Type 0 where
    null : Value
    int : ℕ → Value
    float : ℕ → Value
    time : ℕ → Value
    boolean : Bool → Value
    string : Bool → Bytes → Value
    array : Items → Value
    object : Fields → Value

  pub data Items : Type 0 where
    nil : Items
    item : Value → Items → Items

  pub data Fields : Type 0 where
    end : Fields
    field : Bytes → Value → Items → Fields → Fields

unfoldable pub count_items : Items → ℕ
count_items nil = 0
count_items (item v vs) = count_items vs + 1

-- `obj->len` of an object, which counts the linked values too (`ucl_parser_append_elt`).
unfoldable pub count_fields : Fields → ℕ
unfolding count_items
count_fields end = 0
count_fields (field k v more fs) = count_fields fs + 1 + count_items more

-- A prefix byte and a big-endian field of `k` bytes.
abbrev pub field_of : ℕ → ℕ → ℕ → Bytes
field_of prefix k v = prefix ∷ to_be k (v % 256 ^ k)

-- `ucl_emitter_print_int_msgpack`, on a non-negative value and on a negative one: `uval` is the
-- absolute value that the code computes by bit operations.
unfoldable pub print_positive : ℕ → Bytes
print_positive val =
    if leb val 0x7f
    then bit_and 0x7f val ∷ []
    else if leb val 0xff
    then field_of 0xcc 1 val
    else if leb val 0xffff
    then field_of 0xcd 2 val
    else if leb val 0xffff_ffff
    then field_of 0xce 4 val
    else field_of 0xcf 8 val

unfoldable pub print_negative : ℕ → ℕ → Bytes
print_negative val uval =
    if ltb (2 ^ 64 - 32) val
    then bit_and (bit_or 0xe0 uval) 0xff ∷ []
    else if leb uval 0x7f
    then field_of 0xd0 1 val
    else if leb uval 0x7fff
    then field_of 0xd1 2 val
    else if leb uval 0x7fff_ffff
    then field_of 0xd2 4 val
    else field_of 0xd3 8 val

unfoldable pub print_int : ℕ → Bytes
unfolding print_positive print_negative
print_int val = if ltb val (2 ^ 63) then print_positive val else print_negative val (2 ^ 64 - val)

-- `ucl_emitter_print_double_msgpack`
unfoldable pub print_double : ℕ → Bytes
print_double bits = field_of 0xcb 8 bits

-- `ucl_emitter_print_bool_msgpack`
unfoldable pub print_bool : Bool → Bytes
print_bool val = (if val then 0xc3 else 0xc2) ∷ []

unfoldable pub string_header : ℕ → Bytes
string_header len =
    if leb len 0x1f
    then bit_and (bit_or len 0xa0) 0xff ∷ []
    else if leb len 0xff
    then field_of 0xd9 1 len
    else if leb len 0xffff
    then field_of 0xda 2 len
    else field_of 0xdb 4 len

-- `ucl_emitter_print_string_msgpack`
unfoldable pub print_string : Bytes → Bytes
unfolding string_header
print_string s = string_header (length s) ++ s

unfoldable pub binary_header : ℕ → Bytes
binary_header len =
    if leb len 0xff
    then field_of 0xc4 1 len
    else if leb len 0xffff
    then field_of 0xc5 2 len
    else field_of 0xc6 4 len

-- `ucl_emitter_print_binary_string_msgpack`
unfoldable pub print_binary_string : Bytes → Bytes
unfolding binary_header
print_binary_string s = binary_header (length s) ++ s

-- `ucl_emitter_print_null_msgpack`
unfoldable pub print_null : Bytes
print_null = 0xc0 ∷ []

-- `ucl_emitter_print_array_msgpack`
unfoldable pub print_array : ℕ → Bytes
print_array len =
    if leb len 0xf
    then bit_and (bit_or len 0x90) 0xff ∷ []
    else if leb len 0xffff
    then field_of 0xdc 2 len
    else field_of 0xdd 4 len

-- `ucl_emitter_print_object_msgpack`
unfoldable pub print_object : ℕ → Bytes
print_object len =
    if leb len 0xf
    then bit_and (bit_or len 0x80) 0xff ∷ []
    else if leb len 0xffff
    then field_of 0xde 2 len
    else field_of 0xdf 4 len

-- `ucl_emit_msgpack_elt` with no key, and the loops of its two container cases; the key is printed
-- in front of each value of an object, by `ucl_emitter_print_key_msgpack`. Of the values that are
-- linked in an implicit array only the first is printed.
unfoldable mutual
  unfolding print_int print_double print_bool print_string print_binary_string print_null
      print_array print_object count_items count_fields

  pub emit : Value → Bytes
  emit null = print_null
  emit (int val) = print_int val
  emit (float bits) = print_double bits
  emit (time bits) = print_double bits
  emit (boolean val) = print_bool val
  emit (string binary s) = if binary then print_binary_string s else print_string s
  emit (array vs) = print_array (count_items vs) ++ emit_items vs
  emit (object fs) = print_object (count_fields fs) ++ emit_fields fs

  pub emit_items : Items → Bytes
  emit_items nil = []
  emit_items (item v vs) = emit v ++ emit_items vs

  pub emit_fields : Fields → Bytes
  emit_fields end = []
  emit_fields (field k v more fs) = print_string k ++ (emit v ++ emit_fields fs)
