-- ===== src/Array/Spec.antt =====
-- What the array functions promise: a list of elements, and one command for each function that changes
-- it.
use libucl.Base.{
  ℕ, ◌%◌, ◌^◌, ◌≡◌, ◌==◌, if◌then◌else◌, List, [], ◌∷◌, ◌++◌, Option, none, some, length,
}
use libucl.Array.Vector.{KVec, nth, set_at}
use libucl.Array.Ops.{
  Array, array_append, array_prepend, array_delete, array_pop_last, array_pop_first,
  array_replace_index,
}

pub data Command : Type 0 where
  append : ℕ → Command
  prepend : ℕ → Command
  delete : ℕ → Command
  pop_last : Command
  pop_first : Command
  replace_index : ℕ → ℕ → Command

-- The result of a command on a list: what it hands out, and the list behind it
abbrev pub Result : Type 0
Result = Option ℕ × List ℕ

abbrev pub delete_first : ℕ → List ℕ → Result
delete_first x [] = (none, [])
delete_first x (y ∷ ys) =
    let (r, zs) = delete_first x ys in if y == x then (some x, ys) else (r, y ∷ zs)

abbrev pub without_last : List ℕ → Result
without_last [] = (none, [])
without_last (y ∷ []) = (some y, [])
without_last (y ∷ z ∷ zs) = let (r, xs) = without_last (z ∷ zs) in (r, y ∷ xs)

abbrev pub without_first : List ℕ → Result
without_first [] = (none, [])
without_first (y ∷ ys) = (some y, ys)

abbrev pub spec : Command → List ℕ → Result
spec (append x) xs = (none, xs ++ (x ∷ []))
spec (prepend x) xs = (none, x ∷ xs)
spec (delete x) xs = delete_first x xs
spec pop_last xs = without_last xs
spec pop_first xs = without_first xs
spec (replace_index i x) xs = (nth xs i, set_at xs i x)

abbrev pub spec_all : List Command → List ℕ → List (Option ℕ) × List ℕ
spec_all [] xs = ([], xs)
spec_all (c ∷ cs) xs = let (r, ys) = spec c xs in let (rs, zs) = spec_all cs ys in (r ∷ rs, zs)

module _ (K : KVec) where
  -- The functions themselves
  unfoldable pub exec : Command → Array K → Option (Option ℕ × Array K)
  exec (append x) a = some (none, elim (array_append K (some a) (some x)) [ none ↦ a | some b ↦ b ])
  exec (prepend x) a =
      some (none, elim (array_prepend K (some a) (some x)) [ none ↦ a | some b ↦ b ])
  exec (delete x) a = array_delete K a x
  exec pop_last a = some (array_pop_last K a)
  exec pop_first a = some (array_pop_first K a)
  exec (replace_index i x) a = some (array_replace_index K a x i)

  abbrev pub and_then :
      Option ℕ → Option (List (Option ℕ) × Array K) → Option (List (Option ℕ) × Array K)
  and_then r none = none
  and_then r (some (rs, d)) = some (r ∷ rs, d)

  -- One after the other; `none` where one of them never ends
  unfoldable pub exec_all : List Command → Array K → Option (List (Option ℕ) × Array K)
  exec_all [] a = some ([], a)
  exec_all (c ∷ cs) a = elim (exec c a) [
    | none ↦ none
    | some out ↦ and_then out.0 (exec_all cs out.1)
  ]

  abbrev pub elements : Array K → List ℕ
  elements a = elim a.av [ none ↦ [] | some v ↦ K.items v ]

  -- `len` counts the elements.
  abbrev pub WellFormed : Array K → Type 0
  WellFormed a = a.len ≡ length (elements a) % 2 ^ 32
