-- ===== src/Text/Comments.antt =====
-- `ucl_skip_comments` of src/ucl_parser.c, without the comments that `UCL_PARSER_SAVE_COMMENTS` keeps. The
-- bytes from `p` to `chunk->end` are a list, and `comments_nested`, an `int`, is a number without bound.
mod Passed
mod Nested
mod Examples
use libucl.Base.{ℕ, ◌+◌, ◌-◌, Bool, true, false, ◌&&◌, not, ◌==◌, if◌then◌else◌, [], ◌∷◌, Bytes}
use libucl.Text.Lex.{Position, skipc}

-- Where the parser goes on, or the error of a comment that does not end
pub data Skipped : Type 0 where
  skipped : Bytes → Position → Skipped
  unfinished : Skipped

-- A quote that is not escaped opens a string inside a comment, or closes it.
unfoldable pub toggle : ℕ → ℕ → Bool → Bool
toggle before c quoted = if (c == b'"') && not (before == b'\\') then not quoted else quoted

-- What stands at the label `start`: a line comment, the start of a comment, or neither
pub data Start : Type 0 where
  line : Start
  block : Start
  neither : Start

unfoldable pub start_of : Bool → ℕ → ℕ → Start
start_of hash c d =
    if c == b'#'
    then (if hash then line else neither)
    else if (c == b'/') && (d == b'*')
    then block
    else neither

-- What the loop inside a comment does at a byte: skip it, end the outermost comment, open another one,
-- or, at a star, skip it with two more bytes, which may end an inner comment
pub data Turn : Type 0 where
  pass : Turn
  end_comment : Turn
  open_inner : Turn
  star : ℕ → Turn

unfoldable pub turn_at : ℕ → Bool → ℕ → ℕ → Turn
turn_at nested quoted c d =
    if quoted
    then pass
    else if c == b'*'
    then (if d == b'/'
        then (if nested == 1 then end_comment else star (nested - 1))
        else star nested)
    else if (c == b'/') && (d == b'*')
    then open_inner
    else pass

-- What the loop does at the last byte of the chunk makes no difference: the comment is unfinished.
unfoldable mutual
  -- The label `start`; the flag says that the parser's state is not one of the two for comments.
  pub from_start : Bool → Bytes → Position → Skipped
  from_start hash [] pos = skipped [] pos
  from_start hash (c ∷ []) pos = elim (start_of hash c 0) [
    | line ↦ skipped [] (skipc c pos)
    | block ↦ skipped (c ∷ []) pos
    | neither ↦ skipped (c ∷ []) pos
  ]
  from_start hash (c ∷ d ∷ cs) pos = elim (start_of hash c d) [
    | line ↦ in_line hash (d ∷ cs) (skipc c pos)
    | block ↦ in_block hash 1 false d cs (skipc d (skipc c pos))
    | neither ↦ skipped (c ∷ d ∷ cs) pos
  ]

  -- Behind a `#`
  pub in_line : Bool → Bytes → Position → Skipped
  in_line hash [] pos = skipped [] pos
  in_line hash (c ∷ cs) pos = elim (c == 10) [
    | true ↦ from_start hash cs (skipc c pos)
    | false ↦ in_line hash cs (skipc c pos)
  ]

  -- Inside a comment, with the number of comments that are open, whether a string is, and the byte before
  pub in_block : Bool → ℕ → Bool → ℕ → Bytes → Position → Skipped
  in_block hash nested quoted before [] pos = unfinished
  in_block hash nested quoted before (c ∷ []) pos = unfinished
  in_block hash nested quoted before (c ∷ d ∷ []) pos =
      elim (turn_at nested (toggle before c quoted) c d) [
        | pass ↦ in_block hash nested (toggle before c quoted) c (d ∷ []) (skipc c pos)
        | end_comment ↦ skipped [] (skipc d (skipc c pos))
        | open_inner ↦ unfinished
        | star nested' ↦ unfinished
      ]
  in_block hash nested quoted before (c ∷ d ∷ e ∷ cs) pos =
      elim (turn_at nested (toggle before c quoted) c d) [
        | pass ↦ in_block hash nested (toggle before c quoted) c (d ∷ e ∷ cs) (skipc c pos)
        | end_comment ↦ from_start hash (e ∷ cs) (skipc d (skipc c pos))
        | open_inner ↦
            in_block hash (nested + 1) (toggle before c quoted) d (e ∷ cs) (skipc d (skipc c pos))
        | star nested' ↦
            in_block hash nested' (toggle before c quoted) e cs (skipc e (skipc d (skipc c pos)))
      ]

-- `ucl_skip_comments`
unfoldable pub skip_comments : Bool → Bytes → Position → Skipped
unfolding from_start
skip_comments hash input pos = from_start hash input pos
