-- ===== src/Text/Quoted.antt =====
-- The quoted strings of `ucl_parse_value` in src/ucl_parser.c: the lexer, the extent of the text and its
-- copy by `ucl_copy_or_store_ptr`. In single quotes no variables are expanded, since their lexer never
-- asks for it. A reader starts behind the quote that opens the string.
use libucl.Base.{ℕ, ◌-◌, Option, Bool, true, false, if◌then◌else◌, Bytes, length, take}
use libucl.Text.Unescape.{unescape_json_string, unescape_squoted_string}
use libucl.Text.Lex.{
  Position, Flags, LexError, Lexed, lexed, refused, lex_json_string, lex_squoted_string, skipc,
}
use libucl.Text.Write.{quote, squote}
use libucl.Text.Variables.{Variables}
use libucl.Text.Variables.Copy.{copy_or_store_ptr}

-- The value of the object, whether its variables are to be expanded, the bytes behind the string and
-- the position there; where they are expanded, the value and the length that it is given
pub data Quoted : Type 0 where
  expanded_value : Option Bytes × ℕ → Bytes → Position → Quoted
  string_value : Bytes → Bool → Bytes → Position → Quoted
  failed : LexError → Position → Quoted

-- The `str_len = chunk->pos - c - 2` bytes at `c + 1`
abbrev pub text_before : Bytes → Bytes → Bytes
text_before input rest = take (length input - length rest - 1) input

-- What `ucl_copy_or_store_ptr` does where it is asked neither to expand variables nor to fold the case
unfoldable pub copy_or_store : Bytes → Bool → Bool → Bytes
copy_or_store src need_unescape unescape_squote =
    if need_unescape
    then (if unescape_squote then unescape_squoted_string src else unescape_json_string src)
    else src

abbrev pub no_flags : Flags
no_flags = record { need_unescape = false; ucl_escape = false; var_expand = false }

abbrev pub store : Bytes → Bool → Lexed → Quoted
store input squoted (refused e pos) = failed e pos
store input squoted (lexed flags rest pos) =
    string_value (copy_or_store (text_before input rest) flags.need_unescape squoted)
      flags.var_expand rest pos

-- The whole of `ucl_copy_or_store_ptr` on the text, with the variables of the parser
abbrev pub store_expanded : (ℕ → ℕ) → Bool → Bool → Variables → Bytes → Lexed → Quoted
store_expanded tolower zerocopy disable_macro vs input (refused e pos) = failed e pos
store_expanded tolower zerocopy disable_macro vs input (lexed flags rest pos) =
    expanded_value
      (copy_or_store_ptr tolower zerocopy disable_macro vs (text_before input rest)
        flags.need_unescape false flags.var_expand false)
      rest pos

-- The case '"'
unfoldable pub json_value : (ℕ → ℕ) → Bool → Bool → Variables → Bytes → Position → Quoted
json_value tolower zerocopy disable_macro vs input pos =
    store_expanded tolower zerocopy disable_macro vs input
      (lex_json_string input no_flags (skipc quote pos))

-- The case '\''
unfoldable pub squoted_value : Bytes → Position → Quoted
squoted_value input pos = store input true (lex_squoted_string input no_flags (skipc squote pos))
