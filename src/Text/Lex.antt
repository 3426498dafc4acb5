-- ===== src/Text/Lex.antt =====
-- `ucl_lex_json_string` and `ucl_lex_squoted_string` of src/ucl_parser.c, with `ucl_chunk_skipc`. The
-- bytes from `p` to `chunk->end` are a list.
use libucl.Base.{
  ℕ, zero, suc, ◌+◌, Bool, true, ◌&&◌, ◌||◌, leb, ltb, ◌==◌, if◌then◌else◌, [], ◌∷◌, Bytes,
}
use libucl.Text.Chars.{test_character, character_escape, character_ucl_unsafe}

-- `line` and `column` of a chunk
pub record Position : Type 0 where
  pub line : ℕ
  pub column : ℕ

-- What `ucl_chunk_skipc` does to them
unfoldable pub skipc : ℕ → Position → Position
skipc c pos =
    if c == 10
    then record { line = pos.line + 1; column = 0 }
    else record { line = pos.line; column = pos.column + 1 }

-- What the lexer says of a string
pub record Flags : Type 0 where
  pub need_unescape : Bool
  pub ucl_escape : Bool
  pub var_expand : Bool

pub data LexError : Type 0 where
  unexpected_newline : LexError
  unexpected_control : LexError
  unfinished_escape : LexError
  invalid_utf_escape : LexError
  no_quote : LexError

-- The flags, the bytes behind the quote and the position there, or an error and its position
pub data Lexed : Type 0 where
  lexed : Flags → Bytes → Position → Lexed
  refused : LexError → Position → Lexed

-- The places of the loop: its head, behind a backslash, and before some more digits of a `\u`
pub data Place : Type 0 where
  head : Place
  escaped : Place
  digits : ℕ → Place

-- What the next byte leads to; all but an error skip the byte.
pub data Next : Type 0 where
  go : Place → Flags → Next
  found : Flags → Next
  refuse : LexError → Next

-- The head of the loop
unfoldable pub at_head : Flags → ℕ → Next
at_head flags c =
    if ltb c 0x1f
    then refuse (if c == 10 then unexpected_newline else unexpected_control)
    else if c == 0x5c
    then go escaped flags
    else if c == 0x22
    then found flags
    else if test_character c character_ucl_unsafe
    then go head (record flags { ucl_escape = true })
    else if c == b'$'
    then go head (record flags { var_expand = true })
    else go head flags

-- Behind a backslash, a byte that is no escape is left to the head of the loop.
unfoldable pub at_escape : Flags → ℕ → Next
at_escape flags c =
    let marked = record flags { need_unescape = true; ucl_escape = true } in
    if test_character c character_escape
    then (if c == b'u' then go (digits 4) marked else go head marked)
    else at_head marked c

abbrev pub isxdigit : ℕ → Bool
isxdigit c = (leb 48 c && leb c 57) || (leb 97 c && leb c 102) || (leb 65 c && leb c 70)

unfoldable pub next_byte : Place → Flags → ℕ → Next
next_byte head flags c = at_head flags c
next_byte escaped flags c = at_escape flags c
next_byte (digits zero) flags c = at_head flags c
next_byte (digits (suc i)) flags c =
    if isxdigit c then go (digits i) flags else refuse invalid_utf_escape

-- The end of the chunk
unfoldable pub at_end : Place → LexError
at_end head = no_quote
at_end escaped = unfinished_escape
at_end (digits i) = unfinished_escape

-- The loop of `ucl_lex_json_string`
unfoldable pub lex_json_on : Bytes → Place → Flags → Position → Lexed
lex_json_on [] place flags pos = refused (at_end place) pos
lex_json_on (c ∷ cs) place flags pos = elim (next_byte place flags c) [
  | refuse e ↦ refused e pos
  | found flags' ↦ lexed flags' cs (skipc c pos)
  | go place' flags' ↦ lex_json_on cs place' flags' (skipc c pos)
]

-- `ucl_lex_json_string`
unfoldable pub lex_json_string : Bytes → Flags → Position → Lexed
lex_json_string input flags pos = lex_json_on input head flags pos

-- `ucl_lex_squoted_string`, which sets only `need_unescape`
unfoldable pub lex_squoted_string : Bytes → Flags → Position → Lexed
lex_squoted_string [] flags pos = refused no_quote pos
lex_squoted_string (c ∷ []) flags pos =
    if c == 0x5c
    then refused unfinished_escape (skipc c pos)
    else if c == 0x27
    then lexed flags [] (skipc c pos)
    else refused no_quote (skipc c pos)
lex_squoted_string (c ∷ d ∷ cs) flags pos =
    if c == 0x5c
    then lex_squoted_string cs (record flags { need_unescape = true }) (skipc d (skipc c pos))
    else if c == 0x27
    then lexed flags (d ∷ cs) (skipc c pos)
    else lex_squoted_string (d ∷ cs) flags (skipc c pos)
