-- ===== src/Text/Tests.antt =====
-- Runs of the text functions on concrete input.
use libucl.Base.{false, some, [], ◌∷◌, Bytes, ◌≡◌, refl}
use libucl.Text.Chars.{test_character}
use libucl.Text.Unescape.{
  unescape_json_string, unescape_json, unescape_squoted_string, unescape_squoted,
}
use libucl.Text.Write.{
  is_unsafe, escape_json, write_json, write_json_on, write_squoted, write_squoted_on,
}
use libucl.Text.Lex.{
  Position, skipc, at_head, at_escape, next_byte, at_end, lex_json_on, lex_json_string,
  lex_squoted_string, invalid_utf_escape, unexpected_newline, no_quote,
}
use libucl.Text.Variables.Count.{no_handler}
use libucl.Text.Variables.Copy.{copy_or_store_ptr, copy_string}
use libucl.Text.Quoted.{
  Quoted, string_value, expanded_value, failed, copy_or_store, json_value, squoted_value,
}

abbrev pub start : Position
start = record { line = 1; column = 0 }

-- A parser without variables
abbrev read_json : Bytes → Position → Quoted
read_json = json_value (λ c. c) false false (no_handler [])

-- What a run computes with.
runs : Unit {0}
unfolding test_character unescape_json_string unescape_json unescape_squoted_string unescape_squoted
    is_unsafe escape_json write_json write_json_on write_squoted write_squoted_on skipc at_head
    at_escape next_byte at_end lex_json_on lex_json_string lex_squoted_string copy_or_store
    copy_or_store_ptr copy_string json_value squoted_value
runs = tt

-- a, a quote, a line feed and a bell
abbrev pub text : Bytes
text = b'a' ∷ b'"' ∷ 10 ∷ 7 ∷ []

written_text :
    write_json text
    ≡ b'"' ∷ b'a' ∷ b'\\' ∷ b'"' ∷ b'\\' ∷ b'n' ∷ b'\\' ∷ b'u' ∷ b'F' ∷ b'F' ∷ b'F' ∷ b'D' ∷ b'"'
      ∷ []
unfolding runs
written_text = refl

-- "\u20ac"x
euro :
    read_json (b'\\' ∷ b'u' ∷ b'2' ∷ b'0' ∷ b'a' ∷ b'c' ∷ b'"' ∷ b'x' ∷ []) start
    ≡ expanded_value
        (some (0xe2 ∷ 0x82 ∷ 0xac ∷ []), 3)
        (b'x' ∷ [])
        (record { line = 1; column = 8 })
unfolding runs
euro = refl

bad_digit :
    read_json (b'\\' ∷ b'u' ∷ b'g' ∷ b'"' ∷ []) start
    ≡ failed invalid_utf_escape (record { line = 1; column = 3 })
unfolding runs
bad_digit = refl

newline :
    read_json (b'a' ∷ 10 ∷ b'"' ∷ []) start
    ≡ failed unexpected_newline (record { line = 1; column = 2 })
unfolding runs
newline = refl

open_string : read_json (b'a' ∷ []) start ≡ failed no_quote (record { line = 1; column = 2 })
unfolding runs
open_string = refl

-- Fewer than three digits: the byte behind the u is lost.
short_unicode : unescape_json_string (b'\\' ∷ b'u' ∷ b'a' ∷ b'b' ∷ []) ≡ b'u' ∷ b'b' ∷ []
unfolding runs
short_unicode = refl

-- 'it\'s'
squoted_text :
    squoted_value (b'i' ∷ b't' ∷ b'\\' ∷ b'\'' ∷ b's' ∷ b'\'' ∷ []) start
    ≡ string_value (b'i' ∷ b't' ∷ b'\'' ∷ b's' ∷ []) false [] (record { line = 1; column = 7 })
unfolding runs
squoted_text = refl

-- A string that ends with a backslash is written so that its quote is escaped.
lost_quote :
    squoted_value (b'\\' ∷ b'\'' ∷ []) start ≡ failed no_quote (record { line = 1; column = 3 })
unfolding runs
lost_quote = refl

backslash_end : write_squoted (b'\\' ∷ []) ≡ b'\'' ∷ b'\\' ∷ b'\'' ∷ []
unfolding runs
backslash_end = refl
