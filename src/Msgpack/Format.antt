-- ===== src/Msgpack/Format.antt =====
-- The type table of src/ucl_msgpack.c: `parsers[]` and the search in it.
use libucl.Base.{
  ℕ, ◌-◌, ◌/◌, ◌^◌, Bool, not, ◌==◌, if◌then◌else◌, List, [], ◌∷◌, Option, none, some, bit_and,
  bit_or,
}

-- `enum ucl_msgpack_format`
pub data Format : Type 0 where
  positive_fixint fixmap fixarray fixstr nil false true : Format
  bin8 bin16 bin32 ext8 ext16 ext32 float32 : Format
  float64 uint8 uint16 uint32 uint64 int8 int16 : Format
  int32 int64 fixext1 fixext2 fixext4 fixext8 fixext16 : Format
  str8 str16 str32 array16 array32 map16 map32 : Format
  negative_fixint invalid : Format

-- The function that a table entry points to.
pub data ParseFunction : Type 0 where
  parse_map parse_array parse_string parse_int parse_float parse_bool parse_null : ParseFunction
  parse_ignore : ParseFunction

abbrev pub flag_fixed : ℕ
flag_fixed = 1

abbrev pub flag_container : ℕ
flag_container = 2

abbrev pub flag_typevalue : ℕ
flag_typevalue = 4

abbrev flag_ext : ℕ
flag_ext = 8

abbrev pub flag_assoc : ℕ
flag_assoc = 16

abbrev pub flag_key : ℕ
flag_key = 32

-- `struct ucl_msgpack_parser`
pub record Entry : Type 0 where
  pub prefix : ℕ
  pub prefixlen : ℕ
  pub fmt : Format
  pub len : ℕ
  pub flags : ℕ
  pub func : ParseFunction

abbrev entry : ℕ → ℕ → Format → ℕ → ℕ → ParseFunction → Entry
entry p k f n fl fn = record { prefix = p; prefixlen = k; fmt = f; len = n; flags = fl; func = fn }

-- `flags & mask`, as a condition
abbrev pub has : Entry → ℕ → Bool
has e mask = not (bit_and e.flags mask == 0)

unfoldable pub parsers : List Entry
parsers =
    entry 0xa0 3 fixstr 0 (bit_or flag_fixed flag_key) parse_string
    ∷ entry 0x0 1 positive_fixint 0 (bit_or flag_fixed flag_typevalue) parse_int
    ∷ entry 0xe0 3 negative_fixint 0 (bit_or flag_fixed flag_typevalue) parse_int
    ∷ entry 0x80 4 fixmap 0 (bit_or flag_fixed (bit_or flag_container flag_assoc)) parse_map
    ∷ entry 0x90 4 fixarray 0 (bit_or flag_fixed flag_container) parse_array
    ∷ entry 0xd9 8 str8 1 flag_key parse_string
    ∷ entry 0xc4 8 bin8 1 flag_key parse_string
    ∷ entry 0xcf 8 uint64 8 flag_fixed parse_int
    ∷ entry 0xd3 8 int64 8 flag_fixed parse_int
    ∷ entry 0xce 8 uint32 4 flag_fixed parse_int
    ∷ entry 0xd2 8 int32 4 flag_fixed parse_int
    ∷ entry 0xcb 8 float64 8 flag_fixed parse_float
    ∷ entry 0xca 8 float32 4 flag_fixed parse_float
    ∷ entry 0xc2 8 false 1 (bit_or flag_fixed flag_typevalue) parse_bool
    ∷ entry 0xc3 8 true 1 (bit_or flag_fixed flag_typevalue) parse_bool
    ∷ entry 0xcc 8 uint8 1 flag_fixed parse_int
    ∷ entry 0xcd 8 uint16 2 flag_fixed parse_int
    ∷ entry 0xd0 8 int8 1 flag_fixed parse_int
    ∷ entry 0xd1 8 int16 2 flag_fixed parse_int
    ∷ entry 0xc0 8 nil 0 (bit_or flag_fixed flag_typevalue) parse_null
    ∷ entry 0xda 8 str16 2 flag_key parse_string
    ∷ entry 0xdb 8 str32 4 flag_key parse_string
    ∷ entry 0xc5 8 bin16 2 flag_key parse_string
    ∷ entry 0xc6 8 bin32 4 flag_key parse_string
    ∷ entry 0xdc 8 array16 2 flag_container parse_array
    ∷ entry 0xdd 8 array32 4 flag_container parse_array
    ∷ entry 0xde 8 map16 2 (bit_or flag_container flag_assoc) parse_map
    ∷ entry 0xdf 8 map32 4 (bit_or flag_container flag_assoc) parse_map
    ∷ entry 0xc7 8 ext8 1 flag_ext parse_ignore
    ∷ entry 0xc8 8 ext16 2 flag_ext parse_ignore
    ∷ entry 0xc9 8 ext32 4 flag_ext parse_ignore
    ∷ entry 0xd4 8 fixext1 1 (bit_or flag_fixed flag_ext) parse_ignore
    ∷ entry 0xd5 8 fixext2 2 (bit_or flag_fixed flag_ext) parse_ignore
    ∷ entry 0xd6 8 fixext4 4 (bit_or flag_fixed flag_ext) parse_ignore
    ∷ entry 0xd7 8 fixext8 8 (bit_or flag_fixed flag_ext) parse_ignore
    ∷ entry 0xd8 8 fixext16 16 (bit_or flag_fixed flag_ext) parse_ignore
    ∷ []

unfoldable pub find_parser : List Entry → ℕ → Option Entry
find_parser [] t = none
find_parser (e ∷ es) t =
    let rest = find_parser es t in
    let shift = 8 - e.prefixlen in if e.prefix / 2 ^ shift == t / 2 ^ shift then some e else rest

unfoldable pub get_parser_from_type : ℕ → Option Entry
unfolding parsers find_parser
get_parser_from_type t = find_parser parsers t
