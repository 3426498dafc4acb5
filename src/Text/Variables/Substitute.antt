-- ===== src/Text/Variables/Substitute.antt =====
-- What the expansion of variables is meant to be, in one pass and without a buffer.
use libucl.Base.{
  ℕ, zero, suc, ◌+◌, ◌≡◌, Bool, true, false, ◌||◌, ◌==◌, if◌then◌else◌, Option, none, some, List,
  [], ◌∷◌, ◌++◌, Bytes, bytes_eq, length, All,
}
use libucl.Text.Variables.{Variable, is_prefix, closing, dollar, obrace, ebrace}

-- The first variable of a list for which the test holds
unfoldable pub first : (Variable → Bool) → List Variable → Option Variable
first p [] = none
first p (v ∷ vs) = let rest = first p vs in if p v then some v else rest

-- The variable of that name
unfoldable pub named : List Variable → Bytes → Option Variable
unfolding first
named vs name = first (λ v. bytes_eq name v.var) vs

-- The first variable whose name the text starts with
unfoldable pub leading : List Variable → Bytes → Option Variable
unfolding first
leading vs text = first (λ v. is_prefix v.var text) vs

-- What a `$` and the bytes behind it stand for: the text, how many of the bytes are used up, and
-- whether that is a variable
pub record Piece : Type 0 where
  pub text : Bytes
  pub used : ℕ
  pub is_variable : Bool

abbrev pub piece : Bytes → ℕ → Bool → Piece
piece text used b = record { text = text; used = used; is_variable = b }

abbrev pub braced : Option Variable → Piece
braced none = piece (dollar ∷ obrace ∷ []) 1 false
braced (some v) = piece v.value (length v.var + 2) true

abbrev pub bare : Option Variable → Piece
bare none = piece (dollar ∷ []) 0 false
bare (some v) = piece v.value (length v.var) true

unfoldable pub piece_at : List Variable → Bytes → Piece
unfolding named leading
piece_at vs [] = piece (dollar ∷ []) 0 false
piece_at vs (c ∷ cs) =
    if c == obrace
    then elim (closing cs) [ none ↦ braced none | some name ↦ braced (named vs name) ]
    else if c == dollar
    then piece (dollar ∷ []) 1 false
    else bare (leading vs (c ∷ cs))

-- The text with its variables replaced, and whether it has any; so many bytes are used up already.
unfoldable pub substitute_from : List Variable → ℕ → Bytes → Bytes × Bool
unfolding piece_at
substitute_from vs k [] = ([], false)
substitute_from vs (suc k) (c ∷ cs) = substitute_from vs k cs
substitute_from vs zero (c ∷ cs) =
    let next = if c == dollar then piece_at vs cs else piece (c ∷ []) 0 false in
    let rest = substitute_from vs next.used cs in (next.text ++ rest.0, next.is_variable || rest.1)

unfoldable pub substitute : List Variable → Bytes → Bytes
substitute vs src = (substitute_from vs 0 src).0

unfoldable pub has_variables : List Variable → Bytes → Bool
has_variables vs src = (substitute_from vs 0 src).1

-- No name has a closing brace in it.
abbrev pub NoBrace : Variable → Type 0
NoBrace v = All (λ b. (b == ebrace) ≡ false) v.var
