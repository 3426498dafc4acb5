-- ===== src/Text/Comments/Nested.antt =====
-- The comments that `ucl_skip_comments` of src/ucl_parser.c is sure to find the end of.
use libucl.Base.{
  ℕ, ◌+◌, ◌≡◌, ◌≢◌, refl, sym, ap, ◌∙◌, arith, Bool, false, ◌==◌, ◌||◌, [], ◌∷◌, Bytes,
}
use libucl.Text.Lex.{Position, skipc}
use libucl.Text.Comments.{
  pass, star, start_of, turn_at, toggle, from_start, in_block, skip_comments,
}
use libucl.Text.Comments.Passed.{skip_all}

-- What stands between the start of a comment and its end: bytes and comments, each of these with the byte
-- behind it
pub data Inside : Type 0 where
  nothing : Inside
  byte : ℕ → Inside → Inside
  comment : Inside → ℕ → Inside → Inside

-- Neither a star nor a slash nor a quote
abbrev pub IsPlain : ℕ → Type 0
IsPlain c = ((c == b'*') || (c == b'/') || (c == b'"')) ≡ false

-- The bytes outside the comments in it are plain, but for the ones behind a comment.
abbrev pub AllPlain : Inside → Type 0
AllPlain nothing = Unit
AllPlain (byte c i) = IsPlain c × AllPlain i
AllPlain (comment i e j) = AllPlain i × AllPlain j

-- Its text, in front of what follows
unfoldable pub written : Inside → Bytes → Bytes
written nothing rest = rest
written (byte c i) rest = c ∷ written i rest
written (comment i e j) rest = b'/' ∷ b'*' ∷ written i (b'*' ∷ b'/' ∷ e ∷ written j rest)

-- The last byte of it, or the one before it
last : Inside → ℕ → ℕ
last nothing before = before
last (byte c i) before = last i c
last (comment i e j) before = last j e

plain_toggle : (before c : ℕ) → IsPlain c → toggle before c false ≡ false
unfolding toggle
plain_toggle before c h = ground (arith, h)

plain_pass : (nested c d : ℕ) → IsPlain c → turn_at nested false c d ≡ pass
unfolding turn_at
plain_pass nested c d h = ground (arith, h)

inner_end : (nested : ℕ) → nested ≢ 0 → turn_at (nested + 1) false b'*' b'/' ≡ star nested
unfolding turn_at
inner_end nested h = ground (arith, h)

module _ (hash : Bool) where
  pass_byte :
      (nested before c : ℕ) (cs : Bytes) (pos : Position)
      → IsPlain c
      → in_block hash nested false before (c ∷ cs) pos
        ≡ in_block hash nested false c cs (skipc c pos)
  unfolding in_block
  pass_byte nested before c [] pos h = refl
  pass_byte nested before c (d ∷ []) pos h =
      rw (plain_toggle before c h, plain_pass nested c d h, in_block)
  pass_byte nested before c (d ∷ e ∷ cs) pos h =
      rw (plain_toggle before c h, plain_pass nested c d h, in_block)
        (ap (λ q. in_block hash nested q c (d ∷ e ∷ cs) (skipc c pos)) (plain_toggle before c h))

  open_comment :
      (nested before : ℕ) (cs : Bytes) (pos : Position)
      → in_block hash nested false before (b'/' ∷ b'*' ∷ cs) pos
        ≡ in_block hash (nested + 1) false b'*' cs (skipc b'*' (skipc b'/' pos))
  unfolding in_block turn_at toggle
  open_comment nested before [] pos = refl
  open_comment nested before (e ∷ cs) pos = refl

  end_inner :
      (nested before e : ℕ) (cs : Bytes) (pos : Position)
      → nested ≢ 0
      → in_block hash (nested + 1) false before (b'*' ∷ b'/' ∷ e ∷ cs) pos
        ≡ in_block hash nested false e cs (skip_all (b'*' ∷ b'/' ∷ e ∷ []) pos)
  unfolding in_block toggle
  end_inner nested before e cs pos h = rw (inner_end nested h, in_block)

  end_outer :
      (before : ℕ) (rest : Bytes) (pos : Position)
      → in_block hash 1 false before (b'*' ∷ b'/' ∷ rest) pos
        ≡ from_start hash rest (skip_all (b'*' ∷ b'/' ∷ []) pos)
  unfolding in_block from_start turn_at toggle
  end_outer before [] pos = refl
  end_outer before (e ∷ cs) pos = refl

-- The position behind it
behind : Inside → Position → Position
behind nothing pos = pos
behind (byte c i) pos = behind i (skipc c pos)
behind (comment i e j) pos =
    behind j (skip_all (b'*' ∷ b'/' ∷ e ∷ []) (behind i (skip_all (b'/' ∷ b'*' ∷ []) pos)))

skip_all-written :
    (i : Inside) (rest : Bytes) (pos : Position)
    → skip_all (written i rest) pos ≡ skip_all rest (behind i pos)
unfolding written behind
skip_all-written nothing rest pos = refl
skip_all-written (byte c i) rest pos = skip_all-written i rest (skipc c pos)
skip_all-written (comment i e j) rest pos =
    let at = skip_all (b'/' ∷ b'*' ∷ []) pos in
    skip_all-written i (b'*' ∷ b'/' ∷ e ∷ written j rest) at
    ∙ skip_all-written j rest (skip_all (b'*' ∷ b'/' ∷ e ∷ []) (behind i at))

in_block-written :
    (hash : Bool) (i : Inside) (nested before : ℕ) (rest : Bytes) (pos : Position)
    → nested ≢ 0
    → AllPlain i
    → in_block hash nested false before (written i rest) pos
      ≡ in_block hash nested false (last i before) rest (behind i pos)
unfolding written behind last
in_block-written hash nothing nested before rest pos n h = refl
in_block-written hash (byte c i) nested before rest pos n h =
    pass_byte hash nested before c (written i rest) pos h.0
    ∙ in_block-written hash i nested c rest (skipc c pos) n h.1
in_block-written hash (comment i e j) nested before rest pos n h =
    let at = skip_all (b'/' ∷ b'*' ∷ []) pos in
    open_comment hash nested before (written i (b'*' ∷ b'/' ∷ e ∷ written j rest)) pos
    ∙ in_block-written hash i (nested + 1) b'*' (b'*' ∷ b'/' ∷ e ∷ written j rest) at (omega arith)
        h.0
    ∙ end_inner hash nested (last i b'*') e (written j rest) (behind i at) n
    ∙ in_block-written hash j nested e rest (skip_all (b'*' ∷ b'/' ∷ e ∷ []) (behind i at)) n h.1

-- A comment is skipped whose text is made of bytes that are no stars, slashes and quotes, and of comments of
-- that kind, each with a byte behind it: the parser goes on as if it started behind its end, at the line
-- and the column there.
pub skip_comments-written :
    (hash : Bool) (i : Inside) (rest : Bytes) (pos : Position)
    → AllPlain i
    → skip_comments hash (b'/' ∷ b'*' ∷ written i (b'*' ∷ b'/' ∷ rest)) pos
      ≡ skip_comments hash rest (skip_all (b'/' ∷ b'*' ∷ written i (b'*' ∷ b'/' ∷ [])) pos)
unfolding skip_comments from_start start_of
skip_comments-written hash i rest pos h =
    let at = skip_all (b'/' ∷ b'*' ∷ []) pos in
    in_block-written hash i 1 b'*' (b'*' ∷ b'/' ∷ rest) at (omega arith) h
    ∙ end_outer hash (last i b'*') rest (behind i at)
    ∙ ap (from_start hash rest) (sym (skip_all-written i (b'*' ∷ b'/' ∷ []) at))
