-- ===== src/Text/Chars.antt =====
-- The table of character classes of src/ucl_chartable.h, with the flags of `enum` character classes in
-- src/ucl_internal.h.
use libucl.Base.{ℕ, zero, suc, ◌^◌, Bool, not, ◌==◌, List, [], ◌∷◌, bit_and}

abbrev pub character_denied : ℕ
character_denied = 2 ^ 0

abbrev character_key : ℕ
character_key = 2 ^ 1

abbrev character_key_start : ℕ
character_key_start = 2 ^ 2

abbrev character_whitespace : ℕ
character_whitespace = 2 ^ 3

abbrev pub character_whitespace_unsafe : ℕ
character_whitespace_unsafe = 2 ^ 4

abbrev character_value_end : ℕ
character_value_end = 2 ^ 5

abbrev character_value_str : ℕ
character_value_str = 2 ^ 6

abbrev character_value_digit : ℕ
character_value_digit = 2 ^ 7

abbrev character_value_digit_start : ℕ
character_value_digit_start = 2 ^ 8

abbrev pub character_escape : ℕ
character_escape = 2 ^ 9

abbrev character_key_sep : ℕ
character_key_sep = 2 ^ 10

abbrev pub character_json_unsafe : ℕ
character_json_unsafe = 2 ^ 11

abbrev pub character_ucl_unsafe : ℕ
character_ucl_unsafe = 2 ^ 12

-- `ucl_chartable`: the flags of a byte, in the order of the bytes
abbrev chartable : List ℕ
chartable =
    6176 ∷ 1 ∷ 1 ∷ 1 ∷ 1 ∷ 1 ∷ 1 ∷ 1 ∷ 6144 ∷ 7192 ∷ 6192 ∷ 16 ∷ 6160 ∷ 6192 ∷ 1 ∷ 1 ∷ 1 ∷ 1 ∷ 1 ∷ 1
    ∷ 1 ∷ 1 ∷ 1 ∷ 1 ∷ 1 ∷ 1 ∷ 1 ∷ 1 ∷ 1 ∷ 1 ∷ 1 ∷ 1 ∷ 5208 ∷ 64 ∷ 6720 ∷ 32 ∷ 64 ∷ 64 ∷ 64 ∷ 64 ∷ 64
    ∷ 64 ∷ 64 ∷ 4288 ∷ 32 ∷ 450 ∷ 194 ∷ 582 ∷ 454 ∷ 454 ∷ 454 ∷ 454 ∷ 454 ∷ 454 ∷ 454 ∷ 454 ∷ 454
    ∷ 454 ∷ 5184 ∷ 32 ∷ 64 ∷ 5184 ∷ 64 ∷ 64 ∷ 64 ∷ 198 ∷ 198 ∷ 198 ∷ 198 ∷ 198 ∷ 198 ∷ 198 ∷ 198
    ∷ 198 ∷ 198 ∷ 198 ∷ 198 ∷ 198 ∷ 198 ∷ 198 ∷ 198 ∷ 198 ∷ 198 ∷ 198 ∷ 198 ∷ 198 ∷ 198 ∷ 198 ∷ 198
    ∷ 198 ∷ 198 ∷ 4160 ∷ 6720 ∷ 32 ∷ 64 ∷ 70 ∷ 64 ∷ 198 ∷ 710 ∷ 198 ∷ 198 ∷ 198 ∷ 710 ∷ 198 ∷ 198
    ∷ 198 ∷ 198 ∷ 198 ∷ 198 ∷ 198 ∷ 710 ∷ 198 ∷ 198 ∷ 198 ∷ 710 ∷ 198 ∷ 710 ∷ 710 ∷ 198 ∷ 198 ∷ 198
    ∷ 198 ∷ 198 ∷ 4160 ∷ 64 ∷ 32 ∷ 64 ∷ 1 ∷ 70 ∷ 70 ∷ 70 ∷ 70 ∷ 70 ∷ 70 ∷ 70 ∷ 70 ∷ 70 ∷ 70 ∷ 70
    ∷ 70 ∷ 70 ∷ 70 ∷ 70 ∷ 70 ∷ 70 ∷ 70 ∷ 70 ∷ 70 ∷ 70 ∷ 70 ∷ 70 ∷ 70 ∷ 70 ∷ 70 ∷ 70 ∷ 70 ∷ 70 ∷ 70
    ∷ 70 ∷ 70 ∷ 70 ∷ 70 ∷ 70 ∷ 70 ∷ 70 ∷ 70 ∷ 70 ∷ 70 ∷ 70 ∷ 70 ∷ 70 ∷ 70 ∷ 70 ∷ 70 ∷ 70 ∷ 70 ∷ 70
    ∷ 70 ∷ 70 ∷ 70 ∷ 70 ∷ 70 ∷ 70 ∷ 70 ∷ 70 ∷ 70 ∷ 70 ∷ 70 ∷ 70 ∷ 70 ∷ 70 ∷ 70 ∷ 70 ∷ 70 ∷ 70 ∷ 70
    ∷ 70 ∷ 70 ∷ 70 ∷ 70 ∷ 70 ∷ 70 ∷ 70 ∷ 70 ∷ 70 ∷ 70 ∷ 70 ∷ 70 ∷ 70 ∷ 70 ∷ 70 ∷ 70 ∷ 70 ∷ 70 ∷ 70
    ∷ 70 ∷ 70 ∷ 70 ∷ 70 ∷ 70 ∷ 70 ∷ 70 ∷ 70 ∷ 70 ∷ 70 ∷ 70 ∷ 70 ∷ 70 ∷ 70 ∷ 70 ∷ 70 ∷ 70 ∷ 70 ∷ 70
    ∷ 70 ∷ 70 ∷ 70 ∷ 70 ∷ 70 ∷ 70 ∷ 70 ∷ 70 ∷ 70 ∷ 70 ∷ 70 ∷ 70 ∷ 70 ∷ 70 ∷ 70 ∷ 70 ∷ 70 ∷ 70 ∷ 70
    ∷ 70 ∷ 70 ∷ 70 ∷ []

abbrev flags_in : List ℕ → ℕ → ℕ
flags_in [] c = 0
flags_in (f ∷ fs) zero = f
flags_in (f ∷ fs) (suc c) = flags_in fs c

-- `ucl_test_character`
unfoldable pub test_character : ℕ → ℕ → Bool
test_character c type_flags = not (bit_and (flags_in chartable c) type_flags == 0)
