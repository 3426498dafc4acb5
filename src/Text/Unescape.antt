-- ===== src/Text/Unescape.antt =====
-- `ucl_unescape_json_string` and `ucl_unescape_squoted_string` of src/ucl_util.c. The source reads
-- `str` at `h` and writes it at `t`, which never passes `h`; here the bytes at `h` are the argument and
-- the bytes written at `t` the result. A byte behind the string is its terminator, a zero.
use libucl.Base.{
  ℕ, ◌+◌, ◌-◌, ◌*◌, ◌/◌, ◌&&◌, leb, ltb, ◌==◌, if◌then◌else◌, [], ◌∷◌, ◌++◌, Option, none, some,
  Bytes, length, bit_and,
}

abbrev pub backslash : ℕ
backslash = 0x5c

-- The value of a hexadecimal digit, in the order of the source's tests
abbrev hex_value : ℕ → Option ℕ
hex_value c =
    if leb 48 c && leb c 57
    then some (c - 48)
    else if leb 97 c && leb c 102
    then some (c - 97 + 10)
    else if leb 65 c && leb c 70
    then some (c - 65 + 10)
    else none

-- `uval` after the loop over four digits, which a byte that is no digit leaves once `uval` is shifted
abbrev pub add_digits : Bytes → ℕ → ℕ
add_digits [] uval = uval
add_digits (c ∷ cs) uval = elim (hex_value c) [
  | none ↦ uval * 16
  | some d ↦ add_digits cs (uval * 16 + d)
]

-- The UTF-8 bytes of `uval`
abbrev pub encode : ℕ → Bytes
encode uval =
    if ltb uval 0x80
    then uval ∷ []
    else if ltb uval 0x800
    then (0xc0 + bit_and uval 0x7c0 / 64) ∷ (0x80 + bit_and uval 0x3f) ∷ []
    else if ltb uval 0x10000
    then (0xe0 + bit_and uval 0xf000 / 4096)
      ∷ (0x80 + bit_and uval 0xfc0 / 64)
      ∷ (0x80 + bit_and uval 0x3f)
      ∷ []
    else 63 ∷ []

-- The byte that a short escape stands for
abbrev pub short_escape : ℕ → ℕ
short_escape c =
    if c == b'n'
    then 10
    else if c == b'r'
    then 13
    else if c == b'b'
    then 8
    else if c == b't'
    then 9
    else if c == b'f'
    then 12
    else c

unfoldable mutual
  -- The loop of `ucl_unescape_json_string`
  pub unescape_json : Bytes → Bytes
  unescape_json [] = []
  unescape_json (c ∷ []) = c ∷ []
  unescape_json (c ∷ e ∷ cs) =
      if c == backslash
      then (if e == b'u' then unescape_unicode cs else short_escape e ∷ unescape_json cs)
      else c ∷ unescape_json (e ∷ cs)

  -- Behind `\u`: four digits, or three and the terminator. With fewer, the byte behind the `u` is
  -- skipped.
  pub unescape_unicode : Bytes → Bytes
  unescape_unicode [] = b'u' ∷ []
  unescape_unicode (c ∷ []) = b'u' ∷ []
  unescape_unicode (c ∷ d ∷ []) = b'u' ∷ unescape_json (d ∷ [])
  unescape_unicode (c ∷ d ∷ e ∷ []) = encode (add_digits (c ∷ d ∷ e ∷ 0 ∷ []) 0)
  unescape_unicode (c ∷ d ∷ e ∷ f ∷ cs) =
      encode (add_digits (c ∷ d ∷ e ∷ f ∷ []) 0) ++ unescape_json cs

-- `ucl_unescape_json_string`
unfoldable pub unescape_json_string : Bytes → Bytes
unescape_json_string str = if leb (length str) 1 then str else unescape_json str

-- The loop of `ucl_unescape_squoted_string`
unfoldable pub unescape_squoted : Bytes → Bytes
unescape_squoted [] = []
unescape_squoted (c ∷ []) = c ∷ []
unescape_squoted (c ∷ e ∷ []) =
    if c == backslash
    then (if e == 39
        then 39 ∷ []
        else if e == 10
        then []
        else if e == 13
        then []
        else backslash ∷ e ∷ [])
    else c ∷ unescape_squoted (e ∷ [])
unescape_squoted (c ∷ e ∷ f ∷ cs) =
    if c == backslash
    then (if e == 39
        then 39 ∷ unescape_squoted (f ∷ cs)
        else if e == 10
        then unescape_squoted (f ∷ cs)
        else if e == 13
        then (if f == 10 then unescape_squoted cs else unescape_squoted (f ∷ cs))
        else backslash ∷ e ∷ unescape_squoted (f ∷ cs))
    else c ∷ unescape_squoted (e ∷ f ∷ cs)

-- `ucl_unescape_squoted_string`
unfoldable pub unescape_squoted_string : Bytes → Bytes
unescape_squoted_string str = if leb (length str) 1 then str else unescape_squoted str
