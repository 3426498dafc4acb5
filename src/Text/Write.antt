-- ===== src/Text/Write.antt =====
-- `ucl_elt_string_write_json` and `ucl_elt_string_write_squoted` of src/ucl_emitter_utils.c; what the
-- emitter's append functions collect is a byte string.
use libucl.Base.{ℕ, ◌+◌, Bool, ◌==◌, if◌then◌else◌, [], ◌∷◌, ◌++◌, Bytes}
use libucl.Text.Chars.{
  test_character, character_json_unsafe, character_denied, character_whitespace_unsafe,
}

abbrev pub quote : ℕ
quote = 0x22

abbrev pub squote : ℕ
squote = 0x27

-- The bytes that `ucl_elt_string_write_json` does not copy as they are
unfoldable pub is_unsafe : ℕ → Bool
is_unsafe c =
    test_character c (character_json_unsafe + character_denied + character_whitespace_unsafe)

-- What it writes in their place
unfoldable pub escape_json : ℕ → Bytes
escape_json c =
    if c == 10
    then b'\\' ∷ b'n' ∷ []
    else if c == 13
    then b'\\' ∷ b'r' ∷ []
    else if c == 8
    then b'\\' ∷ b'b' ∷ []
    else if c == 9
    then b'\\' ∷ b't' ∷ []
    else if c == 12
    then b'\\' ∷ b'f' ∷ []
    else if c == 11
    then b'\\' ∷ b'u' ∷ b'0' ∷ b'0' ∷ b'0' ∷ b'B' ∷ []
    else if c == 0x5c
    then b'\\' ∷ b'\\' ∷ []
    else if c == 0x20
    then 0x20 ∷ []
    else if c == quote
    then b'\\' ∷ quote ∷ []
    else b'\\' ∷ b'u' ∷ b'F' ∷ b'F' ∷ b'F' ∷ b'D' ∷ []

-- The loop; `run` is the `len` bytes at `c` that are still to be copied.
unfoldable pub write_json_on : Bytes → Bytes → Bytes
write_json_on run [] = run
write_json_on run (c ∷ cs) =
    if is_unsafe c
    then run ++ (escape_json c ++ write_json_on [] cs)
    else write_json_on (run ++ (c ∷ [])) cs

-- `ucl_elt_string_write_json`
unfoldable pub write_json : Bytes → Bytes
write_json str = quote ∷ (write_json_on [] str ++ (quote ∷ []))

-- The loop of `ucl_elt_string_write_squoted`
unfoldable pub write_squoted_on : Bytes → Bytes → Bytes
write_squoted_on run [] = run
write_squoted_on run (c ∷ cs) =
    if c == squote
    then run ++ (b'\\' ∷ squote ∷ write_squoted_on [] cs)
    else write_squoted_on (run ++ (c ∷ [])) cs

-- `ucl_elt_string_write_squoted`
unfoldable pub write_squoted : Bytes → Bytes
write_squoted str = squote ∷ (write_squoted_on [] str ++ (squote ∷ []))
