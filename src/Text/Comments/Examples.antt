-- ===== src/Text/Comments/Examples.antt =====
-- Runs of `ucl_skip_comments`, and uses of its theorems, on concrete input.
use libucl.Base.{◌≡◌, refl, true, [], ◌∷◌, Bytes}
use libucl.Text.Lex.{Position, skipc}
use libucl.Text.Tests.{start}
use libucl.Text.Comments.{
  skipped, unfinished, start_of, turn_at, toggle, from_start, in_line, in_block, skip_comments,
}
use libucl.Text.Comments.Passed.{Passed, skip_all, skip_comments-Passed}
use libucl.Text.Comments.Nested.{Inside, nothing, byte, comment, written, skip_comments-written}

runs : Unit {0}
unfolding skipc start_of turn_at toggle from_start in_line in_block skip_comments
runs = tt

-- #!
-- /* ok */k
abbrev text : Bytes
text = b'#' ∷ b'!' ∷ 10 ∷ b'/' ∷ b'*' ∷ b' ' ∷ b'o' ∷ b'k' ∷ b' ' ∷ b'*' ∷ b'/' ∷ b'k' ∷ []

abbrev behind : Position
behind = record { line = 2; column = 8 }

skips_both : skip_comments true text start ≡ skipped (b'k' ∷ []) behind
unfolding runs
skips_both = refl

-- /***/ has a star before its end, which is passed over.
stars : skip_comments true (b'/' ∷ b'*' ∷ b'*' ∷ b'*' ∷ b'/' ∷ b'k' ∷ []) start ≡ unfinished
unfolding runs
stars = refl

-- /*/**/*/ ends an inner comment, and the star behind it is passed over.
adjacent :
    skip_comments true (b'/' ∷ b'*' ∷ b'/' ∷ b'*' ∷ b'*' ∷ b'/' ∷ b'*' ∷ b'/' ∷ b'k' ∷ []) start
    ≡ unfinished
unfolding runs
adjacent = refl

skip_comments-Passed_example : Passed true text (b'k' ∷ []) start behind
skip_comments-Passed_example = skip_comments-Passed true text (b'k' ∷ []) start behind skips_both

-- Behind the start of a comment and in front of its end: o/*k*/ k
abbrev nested : Inside
nested = byte b'o' (comment (byte b'k' nothing) b' ' (byte b'k' nothing))

skip_comments-written_example :
    skip_comments true (b'/' ∷ b'*' ∷ written nested (b'*' ∷ b'/' ∷ b'#' ∷ b'x' ∷ 10 ∷ [])) start
    ≡ skip_comments true
        (b'#' ∷ b'x' ∷ 10 ∷ [])
        (skip_all (b'/' ∷ b'*' ∷ written nested (b'*' ∷ b'/' ∷ [])) start)
skip_comments-written_example =
    skip_comments-written true nested (b'#' ∷ b'x' ∷ 10 ∷ []) start (refl, ((refl, tt), (refl, tt)))
