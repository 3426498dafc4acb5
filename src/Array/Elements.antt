-- ===== src/Array/Elements.antt =====
-- Lists of elements: what is at an index, out of range and at the ends.
use libucl.Base.{
  ℕ, zero, suc, ◌<◌, ◌≤◌, ◌≡◌, refl, ap, arith, List, [], ◌∷◌, none, some, length, length-append,
  ◌==◌, Bool-cases, inl, inr,
}
use libucl.Array.Vector.{nth, remove_at, set_at}
use libucl.Array.Spec.{
  Command, append, prepend, delete, pop_last, pop_first, replace_index, Result, delete_first,
  without_last, without_first, spec,
}

pub length-remove_at :
    (xs : List ℕ) (i : ℕ) → i < length xs → suc (length (remove_at xs i)) ≡ length xs
length-remove_at [] i lt = absurd (omega arith)
length-remove_at (x ∷ xs) zero lt = refl
length-remove_at (x ∷ xs) (suc i) lt = omega (arith, length-remove_at xs i (omega arith))

pub length-set_at : (xs : List ℕ) (i y : ℕ) → length (set_at xs i y) ≡ length xs
length-set_at [] i y = refl
length-set_at (x ∷ xs) zero y = refl
length-set_at (x ∷ xs) (suc i) y = omega (arith, length-set_at xs i y)

pub nth-beyond : (xs : List ℕ) (i : ℕ) → length xs ≤ i → nth xs i ≡ none
nth-beyond [] i h = refl
nth-beyond (x ∷ xs) zero h = absurd (omega arith)
nth-beyond (x ∷ xs) (suc i) h = nth-beyond xs i (omega arith)

pub set_at-beyond : (xs : List ℕ) (i y : ℕ) → length xs ≤ i → set_at xs i y ≡ xs
set_at-beyond [] i y h = refl
set_at-beyond (x ∷ xs) zero y h = absurd (omega arith)
set_at-beyond (x ∷ xs) (suc i) y h = ap (λ l. x ∷ l) (set_at-beyond xs i y (omega arith))

pub without_last-lem :
    (xs : List ℕ) (m : ℕ) → length xs ≡ suc m → without_last xs ≡ (nth xs m, remove_at xs m)
without_last-lem [] m h = absurd (omega arith)
without_last-lem (x ∷ []) zero h = refl
without_last-lem (x ∷ []) (suc m) h = absurd (omega arith)
without_last-lem (x ∷ y ∷ ys) zero h = absurd (omega arith)
without_last-lem (x ∷ y ∷ ys) (suc m) h =
    ap (λ (r : Result). (r.0, x ∷ r.1)) (without_last-lem (y ∷ ys) m (omega arith))

pub without_first-lem :
    (xs : List ℕ) → 0 < length xs → without_first xs ≡ (nth xs 0, remove_at xs 0)
without_first-lem [] lt = absurd (omega arith)
without_first-lem (x ∷ xs) lt = refl

length-delete_first : (x : ℕ) (xs : List ℕ) → length (delete_first x xs).1 ≤ length xs
length-delete_first x [] = omega arith
length-delete_first x (y ∷ ys) = elim (Bool-cases (y == x)) [
  | inl a ↦ rw a (omega arith)
  | inr a ↦ rw a (omega (arith, length-delete_first x ys))
]

length-without_last : (xs : List ℕ) → length (without_last xs).1 ≤ length xs
length-without_last [] = omega arith
length-without_last (x ∷ []) = omega arith
length-without_last (x ∷ y ∷ ys) = omega (arith, length-without_last (y ∷ ys))

-- A command adds one element at most.
pub length-spec : (c : Command) (xs : List ℕ) → length (spec c xs).1 ≤ suc (length xs)
length-spec (append x) xs = omega (arith, length-append xs (x ∷ []))
length-spec (prepend x) xs = omega arith
length-spec (delete x) xs = omega (arith, length-delete_first x xs)
length-spec pop_last xs = omega (arith, length-without_last xs)
length-spec pop_first [] = omega arith
length-spec pop_first (x ∷ xs) = omega arith
length-spec (replace_index i x) xs = omega (arith, length-set_at xs i x)

pub no-elements : (xs : List ℕ) → length xs ≡ 0 → xs ≡ []
no-elements [] h = refl
no-elements (x ∷ xs) h = absurd (omega arith)

pub some-injective : (a b : ℕ) → some a ≡ some b → a ≡ b
some-injective a b h = ap (λ o. elim o [ none ↦ a | some x ↦ x ]) h
