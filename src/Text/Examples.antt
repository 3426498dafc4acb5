-- ===== src/Text/Examples.antt =====
-- Concrete inputs for the theorems on strings.
use libucl.Base.{
  if◌then◌else◌, ◌==◌, ◌≤◌, ◌≡◌, refl, arith, true, false, not, ◌||◌, [], ◌∷◌, ◌++◌, Bytes, length,
}
use libucl.Text.Lex.{
  LexError, Position, lexed, lex_json_string, lex_json_on, next_byte, at_head, skipc,
}
use libucl.Text.Chars.{test_character}
use libucl.Text.Write.{quote, squote, write_json, write_squoted}
use libucl.Text.Quoted.{failed, json_value, squoted_value, copy_or_store, no_flags}
use libucl.Text.JsonString.Inverse.{replace_all}
use libucl.Text.JsonString.RoundTrip.{ReadsAs, ReadsExpanded, write_json-ReadsAs}
use libucl.Text.JsonString.Unterminated.{AtEnd, json_value-failed}
use libucl.Text.SquotedString.{write_squoted-ReadsAs}
use libucl.Text.Bounds.{length-copy_or_store}
use libucl.Text.Extent.{Extent, lex_json_string-Extent}
use libucl.Text.Unescape.{unescape_json_string}
use libucl.Text.InPlace.{Buffer, unescape_in_place}
use libucl.Text.InPlace.Loop.{Unescaped, unescape_in_place-Unescaped}
use libucl.Text.Variables.{Variable}
use libucl.Text.Variables.Substitute.{has_variables, substitute_from, piece_at}
use libucl.Text.Variables.Count.{no_handler}
use libucl.Text.Tests.{text, start}

-- A variable that the string does not name
abbrev home : Variable
home = record { var = b'h' ∷ []; value = b'x' ∷ [] }

no_home : (false || not (has_variables (home ∷ []) (replace_all text))) ≡ true
unfolding has_variables substitute_from piece_at
no_home = refl

write_json-ReadsAs_example :
    (input : Bytes) × (write_json text ++ (b',' ∷ []) ≡ quote ∷ input)
    × ReadsExpanded
        (json_value (λ c. c) true false (no_handler (home ∷ [])) input start)
        (replace_all text)
        (b',' ∷ [])
write_json-ReadsAs_example =
    write_json-ReadsAs (λ c. c) true false (home ∷ []) text (b',' ∷ []) start
      (omega arith, (omega arith, (omega arith, (omega arith, tt)))) ((refl, tt), tt) no_home

json_value-failed_example :
    (t : Bytes) × (write_json text ≡ quote ∷ (t ++ (quote ∷ [])))
    × (e : LexError) × (at : Position) × (AtEnd e)
    × (json_value (λ c. c) false false (no_handler []) t start ≡ failed e at)
json_value-failed_example =
    json_value-failed (λ c. c) false false (no_handler []) text start
      (omega arith, (omega arith, (omega arith, (omega arith, tt))))

write_squoted-ReadsAs_example :
    (input : Bytes) × (write_squoted (b'i' ∷ b'\'' ∷ []) ++ (b',' ∷ []) ≡ squote ∷ input)
    × ReadsAs (squoted_value input start) (b'i' ∷ b'\'' ∷ []) (b',' ∷ [])
write_squoted-ReadsAs_example =
    write_squoted-ReadsAs (b'i' ∷ b'\'' ∷ []) (b',' ∷ []) start (refl, (refl, tt))

abbrev line_feed : Bytes
line_feed = b'\\' ∷ b'n' ∷ []

length-copy_or_store_example : length (copy_or_store line_feed true false) ≤ length line_feed
length-copy_or_store_example = length-copy_or_store line_feed true false

found_at :
    lex_json_string (b'a' ∷ b'"' ∷ b'x' ∷ []) no_flags start
    ≡ lexed no_flags (b'x' ∷ []) (record { line = 1; column = 2 })
unfolding lex_json_string lex_json_on next_byte at_head skipc test_character
found_at = refl

lex_json_string-Extent_example :
    Extent 0x22 0x1f (b'a' ∷ b'"' ∷ b'x' ∷ []) (b'x' ∷ []) start (record { line = 1; column = 2 })
lex_json_string-Extent_example =
    lex_json_string-Extent (b'a' ∷ b'"' ∷ b'x' ∷ []) no_flags no_flags start
      (record { line = 1; column = 2 }) (b'x' ∷ []) found_at

-- \n, and its terminator
abbrev memory : Buffer
memory i = if i == 0 then b'\\' else if i == 1 then b'n' else 0

unescape_in_place-Unescaped_example :
    Unescaped (unescape_in_place memory 2) memory 2 (unescape_json_string line_feed)
unescape_in_place-Unescaped_example =
    unescape_in_place-Unescaped memory line_feed (refl, (refl, (refl, tt)))
