-- ===== src/Msgpack/Values.antt =====
-- The value functions of src/ucl_msgpack.c, `ucl_msgpack_parse_map` to `ucl_msgpack_parse_ignore`.
-- Each takes the length that was read, and the bytes from the current position on, and returns the
-- bytes that it consumed; a result of -1 is the error that CONSUME_RET makes of it.
use libucl.Base.{
  ℕ, ◌+◌, ◌-◌, ◌^◌, ◌%◌, Bool, true, false, ltb, if◌then◌else◌, List, [], ◌∷◌, Option, none, some,
  Bytes, length, take, from_be, bit_and,
}
use libucl.Store.{
  Config, Parser, Frame, Obj, null, int, float, boolean, string, new_object, alloc_cur,
  cannot_parse,
}
use libucl.Msgpack.Outcome.{Outcome, ok, fault, fail, assertion, null_pointer, overread}
use libucl.Msgpack.Format.{Format, ParseFunction}

-- The integer that a two's complement field of `bits` bits stands for, as a 64-bit pattern.
unfoldable sign_extend : ℕ → ℕ → ℕ
sign_extend bits raw = if ltb raw (2 ^ (bits - 1)) then raw else raw + (2 ^ 64 - 2 ^ bits)

-- The bytes that `ucl_msgpack_parse_int` reads, by format; `none` is its `assert (0)`.
abbrev pub int_width : Format → Option ℕ
int_width Format.positive_fixint = some 1
int_width Format.negative_fixint = some 1
int_width Format.uint8 = some 1
int_width Format.int8 = some 1
int_width Format.int16 = some 2
int_width Format.uint16 = some 2
int_width Format.int32 = some 4
int_width Format.uint32 = some 4
int_width Format.int64 = some 8
int_width Format.uint64 = some 8
int_width _ = none

-- `obj->value.iv` from the field that was read.
unfoldable pub int_value : Format → ℕ → ℕ
unfolding sign_extend
int_value Format.positive_fixint raw = bit_and raw 0x7f
int_value Format.negative_fixint raw = (2 ^ 64 - bit_and raw 0x1f) % 2 ^ 64
int_value Format.int8 raw = sign_extend 8 raw
int_value Format.int16 raw = sign_extend 16 raw
int_value Format.int32 raw = sign_extend 32 raw
int_value _ raw = raw

-- Read `n` bytes at the current position; past the end of the input that is undefined.
abbrev read_field : ℕ → Bytes → (ℕ → Outcome (Parser × ℕ)) → Outcome (Parser × ℕ)
read_field n pos k = if ltb (length pos) n then fault overread else k (from_be (take n pos))

unfoldable pub parse_int : Config → Parser → ℕ → Format → Bytes → Outcome (Parser × ℕ)
unfolding int_value
parse_int cfg p len fmt pos =
    if ltb (length pos) len then fail p cannot_parse else elim (int_width fmt) [
      | none ↦ fault assertion
      | some n ↦
          read_field n pos
            λ raw. ok (alloc_cur p (new_object (int (int_value fmt raw)) cfg.priority), n)
    ]

-- The bytes that `ucl_msgpack_parse_float` reads, and the double that they stand for.
abbrev pub float_width : Format → Option ℕ
float_width Format.float32 = some 4
float_width Format.float64 = some 8
float_width _ = none

abbrev float_value : Config → Format → ℕ → ℕ
float_value cfg Format.float32 raw = cfg.widen_float raw
float_value cfg _ raw = raw

unfoldable pub parse_float : Config → Parser → ℕ → Format → Bytes → Outcome (Parser × ℕ)
parse_float cfg p len fmt pos =
    if ltb (length pos) len then fail p cannot_parse else elim (float_width fmt) [
      | none ↦ fault assertion
      | some n ↦
          read_field n pos
            λ raw. ok (alloc_cur p (new_object (float (float_value cfg fmt raw)) cfg.priority), n)
    ]

abbrev pub bool_value : Format → Option Bool
bool_value Format.true = some true
bool_value Format.false = some false
bool_value _ = none

unfoldable pub parse_bool : Config → Parser → ℕ → Format → Bytes → Outcome (Parser × ℕ)
parse_bool cfg p len fmt pos =
    if ltb (length pos) len then fail p cannot_parse else elim (bool_value fmt) [
      | none ↦ fault assertion
      | some v ↦ ok (alloc_cur p (new_object (boolean v) cfg.priority), 1)
    ]

unfoldable pub parse_null : Config → Parser → ℕ → Format → Bytes → Outcome (Parser × ℕ)
parse_null cfg p len fmt pos =
    if ltb (length pos) len
    then fail p cannot_parse
    else ok (alloc_cur p (new_object null cfg.priority), 1)

-- `fmt >= msgpack_bin8 && fmt <= msgpack_bin32`
abbrev pub is_binary : Format → Bool
is_binary Format.bin8 = true
is_binary Format.bin16 = true
is_binary Format.bin32 = true
is_binary _ = false

-- A string object over `s`; `len` is its length in bytes.
abbrev pub string_object : Bool → Bytes → ℕ → Obj
string_object binary s priority = record (new_object (string binary s) priority) { len = length s }

unfoldable pub parse_string : Config → Parser → ℕ → Format → Bytes → Outcome (Parser × ℕ)
parse_string cfg p len fmt pos =
    if ltb (length pos) len
    then fail p cannot_parse
    else ok (alloc_cur p (string_object (is_binary fmt) (take len pos) cfg.priority), len)

-- What `ucl_msgpack_parse_ignore` skips; `none` is its default branch.
abbrev pub ignored : Format → ℕ → Option ℕ
ignored Format.fixext1 len = some 2
ignored Format.fixext2 len = some 3
ignored Format.fixext4 len = some 5
ignored Format.fixext8 len = some 9
ignored Format.fixext16 len = some 17
ignored Format.ext8 len = some (len + 1)
ignored Format.ext16 len = some (len + 1)
ignored Format.ext32 len = some (len + 1)
ignored _ len = none

unfoldable pub parse_ignore : Config → Parser → ℕ → Format → Bytes → Outcome (Parser × ℕ)
parse_ignore cfg p len fmt pos =
    if ltb (length pos) len then fail p cannot_parse else elim (ignored fmt len) [
      | none ↦ fail p cannot_parse
      | some n ↦ ok (record p { cur_obj = none }, n)
    ]

-- `container->obj = parser->cur_obj`, on the container at the top of the stack.
abbrev pub open_container : Parser → List Frame → Outcome (Parser × ℕ)
open_container p [] = fault null_pointer
open_container p (f ∷ fs) = ok (record p { stack = record f { obj = p.cur_obj } ∷ fs }, 0)

unfoldable pub parse_map : Config → Parser → ℕ → Format → Bytes → Outcome (Parser × ℕ)
parse_map cfg p len fmt pos = open_container p p.stack

unfoldable pub parse_array : Config → Parser → ℕ → Format → Bytes → Outcome (Parser × ℕ)
parse_array cfg p len fmt pos = open_container p p.stack

-- The call through the table's function pointer.
unfoldable pub parse_with :
    ParseFunction → Config → Parser → ℕ → Format → Bytes → Outcome (Parser × ℕ)
parse_with ParseFunction.parse_map = parse_map
parse_with ParseFunction.parse_array = parse_array
parse_with ParseFunction.parse_string = parse_string
parse_with ParseFunction.parse_int = parse_int
parse_with ParseFunction.parse_float = parse_float
parse_with ParseFunction.parse_bool = parse_bool
parse_with ParseFunction.parse_null = parse_null
parse_with ParseFunction.parse_ignore = parse_ignore
