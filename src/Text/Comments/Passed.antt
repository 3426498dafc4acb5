-- ===== src/Text/Comments/Passed.antt =====
-- What `ucl_skip_comments` of src/ucl_parser.c has passed where it succeeds.
use libucl.Base.{ℕ, ◌+◌, ◌≡◌, ◌≢◌, refl, arith, ap, Bool, true, false, ◌==◌, [], ◌∷◌, ◌++◌, Bytes}
use mathlib.Core.Path.{subst}
use libucl.Text.Lex.{Position, skipc}
use libucl.Text.Comments.{
  Skipped, skipped, unfinished, Start, line, block, neither, Turn, pass, end_comment, open_inner,
  star, start_of, turn_at, toggle, from_start, in_line, in_block, skip_comments,
}

-- `ucl_chunk_skipc` over some bytes
abbrev pub skip_all : Bytes → Position → Position
skip_all [] pos = pos
skip_all (c ∷ cs) pos = skip_all cs (skipc c pos)

-- No comment starts here.
abbrev pub IsBare : Bool → Bytes → Type 0
IsBare hash [] = Unit
IsBare hash (c ∷ []) = start_of hash c 0 ≡ neither
IsBare hash (c ∷ d ∷ cs) = start_of hash c d ≡ neither

-- The rest is a tail of the input, no comment starts there, and the position is that of the rest.
pub record Passed (hash : Bool) (input rest : Bytes) (pos at : Position) : Type 0 where
  pub comments : Bytes
  pub splits : input ≡ comments ++ rest
  pub advances : at ≡ skip_all comments pos
  pub bare : IsBare hash rest

abbrev Good : Bool → Bytes → Position → Skipped → Type 0
Good hash input pos (skipped rest at) = Passed hash input rest pos at
Good hash input pos unfinished = Unit

Passed-cons :
    (hash : Bool) (c : ℕ) (input : Bytes) (pos : Position) (r : Skipped)
    → Good hash input (skipc c pos) r
    → Good hash (c ∷ input) pos r
Passed-cons hash c input pos (skipped rest at) h = record {
  comments = c ∷ h.comments;
  splits = ap (λ x. c ∷ x) h.splits;
  advances = h.advances;
  bare = h.bare;
}
Passed-cons hash c input pos unfinished h = tt

here :
    (hash : Bool) (rest : Bytes) (pos : Position) → IsBare hash rest → Passed hash rest rest pos pos
here hash rest pos h = record { comments = []; splits = refl; advances = refl; bare = h }

module _ (hash : Bool) (c d : ℕ) (cs : Bytes) (pos : Position) where
  start-Good :
      (s : Start)
      → start_of hash c d ≡ s
      → (in_l : Skipped) → (in_b : Skipped) → Good hash (d ∷ cs) (skipc c pos) in_l
      → Good hash cs (skipc d (skipc c pos)) in_b
      → Good hash
          (c ∷ d ∷ cs)
          pos
          (elim s [ line ↦ in_l | block ↦ in_b | neither ↦ skipped (c ∷ d ∷ cs) pos ])
  start-Good line e in_l in_b hl hb = Passed-cons hash c (d ∷ cs) pos in_l hl
  start-Good block e in_l in_b hl hb =
      Passed-cons hash c (d ∷ cs) pos in_b (Passed-cons hash d cs (skipc c pos) in_b hb)
  start-Good neither e in_l in_b hl hb = here hash (c ∷ d ∷ cs) pos e

  turn-Good :
      (t : Turn) (passed closed opened : Skipped) (starred : ℕ → Skipped)
      → Good hash (d ∷ cs) (skipc c pos) passed
      → Good hash cs (skipc d (skipc c pos)) closed
      → Good hash cs (skipc d (skipc c pos)) opened
      → ((n : ℕ) → Good hash cs (skipc d (skipc c pos)) (starred n))
      → Good hash (c ∷ d ∷ cs) pos (elim t [
        | pass ↦ passed
        | end_comment ↦ closed
        | open_inner ↦ opened
        | star n ↦ starred n
      ])
  turn-Good pass passed closed opened starred hp hc ho hs =
      Passed-cons hash c (d ∷ cs) pos passed hp
  turn-Good end_comment passed closed opened starred hp hc ho hs =
      Passed-cons hash c (d ∷ cs) pos closed (Passed-cons hash d cs (skipc c pos) closed hc)
  turn-Good open_inner passed closed opened starred hp hc ho hs =
      Passed-cons hash c (d ∷ cs) pos opened (Passed-cons hash d cs (skipc c pos) opened ho)
  turn-Good (star n) passed closed opened starred hp hc ho hs =
      Passed-cons hash c (d ∷ cs) pos (starred n)
        (Passed-cons hash d cs (skipc c pos) (starred n) (hs n))

not_block : (hash : Bool) (c : ℕ) → start_of hash c 0 ≢ block
unfolding start_of
not_block hash c h = ground arith

single-Good :
    (hash : Bool) (c : ℕ) (pos : Position) (s : Start)
    → start_of hash c 0 ≡ s
    → Good hash (c ∷ []) pos (elim s [
      | line ↦ skipped [] (skipc c pos)
      | block ↦ skipped (c ∷ []) pos
      | neither ↦ skipped (c ∷ []) pos
    ])
single-Good hash c pos line e =
    Passed-cons hash c [] pos (skipped [] (skipc c pos)) (here hash [] (skipc c pos) tt)
single-Good hash c pos block e = absurd (not_block hash c e)
single-Good hash c pos neither e = here hash (c ∷ []) pos e

newline-Good :
    (hash : Bool) (c : ℕ) (cs : Bytes) (pos : Position) (b : Bool) (again more : Skipped)
    → Good hash cs (skipc c pos) again
    → Good hash cs (skipc c pos) more
    → Good hash (c ∷ cs) pos (elim b [ true ↦ again | false ↦ more ])
newline-Good hash c cs pos true again more ha hm = Passed-cons hash c cs pos again ha
newline-Good hash c cs pos false again more ha hm = Passed-cons hash c cs pos more hm

mutual
  unfolding from_start

  from_start-Good :
      (hash : Bool) (input : Bytes) (pos : Position)
      → Good hash input pos (from_start hash input pos)
  from_start-Good hash [] pos = here hash [] pos tt
  from_start-Good hash (c ∷ []) pos = single-Good hash c pos (start_of hash c 0) refl
  from_start-Good hash (c ∷ d ∷ cs) pos =
      start-Good hash c d cs pos (start_of hash c d) refl (in_line hash (d ∷ cs) (skipc c pos))
        (in_block hash 1 false d cs (skipc d (skipc c pos)))
        (in_line-Good hash (d ∷ cs) (skipc c pos))
        (in_block-Good hash 1 false d cs (skipc d (skipc c pos)))

  in_line-Good :
      (hash : Bool) (input : Bytes) (pos : Position) → Good hash input pos (in_line hash input pos)
  in_line-Good hash [] pos = here hash [] pos tt
  in_line-Good hash (c ∷ cs) pos =
      newline-Good hash c cs pos (c == 10) (from_start hash cs (skipc c pos))
        (in_line hash cs (skipc c pos)) (from_start-Good hash cs (skipc c pos))
        (in_line-Good hash cs (skipc c pos))

  in_block-Good :
      (hash : Bool) (nested : ℕ) (quoted : Bool) (before : ℕ) (input : Bytes) (pos : Position)
      → Good hash input pos (in_block hash nested quoted before input pos)
  in_block-Good hash nested quoted before [] pos = tt
  in_block-Good hash nested quoted before (c ∷ []) pos = tt
  in_block-Good hash nested quoted before (c ∷ d ∷ []) pos =
      turn-Good hash c d [] pos (turn_at nested (toggle before c quoted) c d)
        (in_block hash nested (toggle before c quoted) c (d ∷ []) (skipc c pos))
        (skipped [] (skipc d (skipc c pos))) unfinished (λ n. unfinished)
        (in_block-Good hash nested (toggle before c quoted) c (d ∷ []) (skipc c pos))
        (here hash [] (skipc d (skipc c pos)) tt) tt (λ n. tt)
  in_block-Good hash nested quoted before (c ∷ d ∷ e ∷ cs) pos =
      let q = toggle before c quoted in
      let at = skipc d (skipc c pos) in
      turn-Good hash c d (e ∷ cs) pos (turn_at nested q c d)
        (in_block hash nested q c (d ∷ e ∷ cs) (skipc c pos)) (from_start hash (e ∷ cs) at)
        (in_block hash (nested + 1) q d (e ∷ cs) at) (λ n. in_block hash n q e cs (skipc e at))
        (in_block-Good hash nested q c (d ∷ e ∷ cs) (skipc c pos))
        (from_start-Good hash (e ∷ cs) at) (in_block-Good hash (nested + 1) q d (e ∷ cs) at)
        (λ n.
          Passed-cons hash e cs at (in_block hash n q e cs (skipc e at))
            (in_block-Good hash n q e cs (skipc e at)))

-- Where the comments are skipped, the parser goes on at a tail of the input that starts with no comment,
-- with the line and the column that belong there.
pub skip_comments-Passed :
    (hash : Bool) (input rest : Bytes) (pos at : Position)
    → skip_comments hash input pos ≡ skipped rest at
    → Passed hash input rest pos at
unfolding skip_comments
skip_comments-Passed hash input rest pos at h =
    subst (Good hash input pos) h (from_start-Good hash input pos)
