-- ===== src/Msgpack/TypeTable.antt =====
-- The search in `parsers[]` of src/ucl_msgpack.c against the type bytes of the MessagePack format.
use libucl.Base.{
  ℕ, zero, suc, ◌+◌, ◌-◌, ◌<◌, ◌≤◌, ◌≡◌, refl, sym, ◌∙◌, ap, arith, ltb, if◌then◌else◌, List, [],
  ◌∷◌, Option, none, some, Bool-cases, inl, inr, ltb→lt,
}
use libucl.Msgpack.Format.{Format, ParseFunction, Entry, get_parser_from_type, parsers, find_parser}

-- The types of the bytes 0xc0 to 0xdf, in order.
abbrev single_bytes : List (Option (Format × ParseFunction))
single_bytes =
    some (Format.nil, ParseFunction.parse_null)
    ∷ none
    ∷ some (Format.false, ParseFunction.parse_bool)
    ∷ some (Format.true, ParseFunction.parse_bool)
    ∷ some (Format.bin8, ParseFunction.parse_string)
    ∷ some (Format.bin16, ParseFunction.parse_string)
    ∷ some (Format.bin32, ParseFunction.parse_string)
    ∷ some (Format.ext8, ParseFunction.parse_ignore)
    ∷ some (Format.ext16, ParseFunction.parse_ignore)
    ∷ some (Format.ext32, ParseFunction.parse_ignore)
    ∷ some (Format.float32, ParseFunction.parse_float)
    ∷ some (Format.float64, ParseFunction.parse_float)
    ∷ some (Format.uint8, ParseFunction.parse_int)
    ∷ some (Format.uint16, ParseFunction.parse_int)
    ∷ some (Format.uint32, ParseFunction.parse_int)
    ∷ some (Format.uint64, ParseFunction.parse_int)
    ∷ some (Format.int8, ParseFunction.parse_int)
    ∷ some (Format.int16, ParseFunction.parse_int)
    ∷ some (Format.int32, ParseFunction.parse_int)
    ∷ some (Format.int64, ParseFunction.parse_int)
    ∷ some (Format.fixext1, ParseFunction.parse_ignore)
    ∷ some (Format.fixext2, ParseFunction.parse_ignore)
    ∷ some (Format.fixext4, ParseFunction.parse_ignore)
    ∷ some (Format.fixext8, ParseFunction.parse_ignore)
    ∷ some (Format.fixext16, ParseFunction.parse_ignore)
    ∷ some (Format.str8, ParseFunction.parse_string)
    ∷ some (Format.str16, ParseFunction.parse_string)
    ∷ some (Format.str32, ParseFunction.parse_string)
    ∷ some (Format.array16, ParseFunction.parse_array)
    ∷ some (Format.array32, ParseFunction.parse_array)
    ∷ some (Format.map16, ParseFunction.parse_map)
    ∷ some (Format.map32, ParseFunction.parse_map)
    ∷ []

unfoldable nth : List (Option (Format × ParseFunction)) → ℕ → Option (Format × ParseFunction)
nth [] n = none
nth (x ∷ xs) zero = x
nth (x ∷ xs) (suc n) = nth xs n

-- What a type byte stands for in the MessagePack format, by ranges.
unfoldable pub byte_type : ℕ → Option (Format × ParseFunction)
unfolding nth
byte_type b =
    if ltb b 0x80
    then some (Format.positive_fixint, ParseFunction.parse_int)
    else if ltb b 0x90
    then some (Format.fixmap, ParseFunction.parse_map)
    else if ltb b 0xa0
    then some (Format.fixarray, ParseFunction.parse_array)
    else if ltb b 0xc0
    then some (Format.fixstr, ParseFunction.parse_string)
    else if ltb b 0xe0
    then nth single_bytes (b - 0xc0)
    else some (Format.negative_fixint, ParseFunction.parse_int)

abbrev pub described : Option Entry → Option (Format × ParseFunction)
described none = none
described (some e) = some (e.fmt, e.func)

-- Every `n` below `k`, one by one
unfoldable Each : ℕ → (ℕ → Type 0) → Type 0
Each zero P = Unit
Each (suc k) P = Each k (λ n. P (suc n)) × P 0

Each-at : (k : ℕ) (P : ℕ → Type 0) → Each k P → (n : ℕ) → n < k → P n
unfolding Each
Each-at zero P h n lt = absurd (omega arith)
Each-at (suc k) P h zero lt = h.1
Each-at (suc k) P h (suc n) lt = Each-at k (λ i. P (suc i)) h.0 n (omega arith)

single : Each 32 (λ n. described (get_parser_from_type (0xc0 + n)) ≡ nth single_bytes n)
unfolding Each nth get_parser_from_type parsers find_parser
single = (
  (
    (
      (
        (
          (
            (
              (
                (
                  (
                    (
                      (
                        (
                          (
                            (
                              (
                                (
                                  (
                                    (
                                      (
                                        (
                                          (
                                            (
                                              (
                                                (
                                                  (
                                                    (
                                                      (((((tt, refl), refl), refl), refl), refl),
                                                      refl,
                                                    ),
                                                    refl,
                                                  ),
                                                  refl,
                                                ),
                                                refl,
                                              ),
                                              refl,
                                            ),
                                            refl,
                                          ),
                                          refl,
                                        ),
                                        refl,
                                      ),
                                      refl,
                                    ),
                                    refl,
                                  ),
                                  refl,
                                ),
                                refl,
                              ),
                              refl,
                            ),
                            refl,
                          ),
                          refl,
                        ),
                        refl,
                      ),
                      refl,
                    ),
                    refl,
                  ),
                  refl,
                ),
                refl,
              ),
              refl,
            ),
            refl,
          ),
          refl,
        ),
        refl,
      ),
      refl,
    ),
    refl,
  ),
  refl,
)

low : (b : ℕ) → b < 0x80 → described (get_parser_from_type b) ≡ byte_type b
unfolding byte_type get_parser_from_type parsers find_parser
low b h = ground arith

map_range : (b : ℕ) → 0x80 ≤ b → b < 0x90 → described (get_parser_from_type b) ≡ byte_type b
unfolding byte_type get_parser_from_type parsers find_parser
map_range b lo hi = ground arith

array_range : (b : ℕ) → 0x90 ≤ b → b < 0xa0 → described (get_parser_from_type b) ≡ byte_type b
unfolding byte_type get_parser_from_type parsers find_parser
array_range b lo hi = ground arith

string_range : (b : ℕ) → 0xa0 ≤ b → b < 0xc0 → described (get_parser_from_type b) ≡ byte_type b
unfolding byte_type get_parser_from_type parsers find_parser
string_range b lo hi = ground arith

single_range : (b : ℕ) → 0xc0 ≤ b → b < 0xe0 → described (get_parser_from_type b) ≡ byte_type b
unfolding byte_type
single_range b lo hi =
    let at : described (get_parser_from_type (0xc0 + (b - 0xc0))) ≡ nth single_bytes (b - 0xc0) =
      Each-at 32 (λ n. described (get_parser_from_type (0xc0 + n)) ≡ nth single_bytes n) single
        (b - 0xc0) (omega arith) in
    let same : 0xc0 + (b - 0xc0) ≡ b = omega arith in
    let found : described (get_parser_from_type b) ≡ nth single_bytes (b - 0xc0) =
      ap (λ x. described (get_parser_from_type x)) (sym same) ∙ at in
    ground arith

high_range : (b : ℕ) → 0xe0 ≤ b → b < 256 → described (get_parser_from_type b) ≡ byte_type b
unfolding byte_type get_parser_from_type parsers find_parser
high_range b lo hi = ground arith

-- The first entry of the table that matches a byte has the format and the function that the
-- MessagePack format gives that byte, and no entry matches just the byte that it leaves unused.
pub get_parser_from_type-byte_type :
    (b : ℕ) → b < 256 → described (get_parser_from_type b) ≡ byte_type b
get_parser_from_type-byte_type b h = elim (Bool-cases (ltb b 0x80)) [
  | inl a ↦ low b (ltb→lt b 0x80 a)
  | inr a ↦ elim (Bool-cases (ltb b 0xa0)) [
    | inl c ↦ elim (Bool-cases (ltb b 0x90)) [
      | inl d ↦ map_range b (ground arith) (ltb→lt b 0x90 d)
      | inr d ↦ array_range b (ground arith) (ltb→lt b 0xa0 c)
    ]
    | inr c ↦ elim (Bool-cases (ltb b 0xe0)) [
      | inl d ↦ elim (Bool-cases (ltb b 0xc0)) [
        | inl e ↦ string_range b (ground arith) (ltb→lt b 0xc0 e)
        | inr e ↦ single_range b (ground arith) (ltb→lt b 0xe0 d)
      ]
      | inr d ↦ high_range b (ground arith) h
    ]
  ]
]
