-- ===== src/Array/Reads.antt =====
-- The array functions that read an array.
use libucl.Base.{
  ℕ, suc, ◌+◌, ◌-◌, ◌%◌, ◌^◌, ◌<◌, ◌≤◌, ◌≡◌, refl, sym, ap, ◌∙◌, arith, Bool, true, false, ltb,
  ◌==◌, ◌&&◌, if◌then◌else◌, List, [], ◌∷◌, Option, none, some, length, Bool-cases, inl, inr,
}
use libucl.Array.Vector.{KVec, nth}
use libucl.Array.Ops.{
  Array, returned, array_head, array_tail, array_size, array_find_index, array_index_of,
}
use libucl.Array.Spec.{elements}
use libucl.Array.Index.{scan_of, search_from, index_from-search}
use libucl.Array.Elements.{nth-beyond, some-injective}

-- The first index of an element
abbrev pub position : ℕ → List ℕ → Option ℕ
position x [] = none
position x (y ∷ ys) =
    if y == x then some 0 else elim (position x ys) [ none ↦ none | some i ↦ some (suc i) ]

abbrev index_or_minus_one : Option ℕ → ℕ
index_or_minus_one none = 2 ^ 32 - 1
index_or_minus_one (some i) = i

abbrev shift : ℕ → Option ℕ → Option ℕ
shift i none = none
shift i (some n) = some (i + n)

shift-suc :
    (i : ℕ) (o : Option ℕ)
    → shift (suc i) o ≡ shift i (elim o [ none ↦ none | some n ↦ some (suc n) ])
shift-suc i none = refl
shift-suc i (some n) = ap some (omega arith)

shift-zero : (o : Option ℕ) → shift 0 o ≡ o
shift-zero none = refl
shift-zero (some n) = ap some (omega arith)

by_scan : (o : Option ℕ) → returned (scan_of o) ≡ some (index_or_minus_one o)
by_scan none = refl
by_scan (some i) = refl

module _ (K : KVec) where
  search_from-position :
      (v : K.Vec) (x : ℕ) (ys : List ℕ) (i : ℕ)
      → ((n : ℕ) → n < length ys → nth ys n ≡ some (K.at v (i + n)))
      → search_from K v x (length ys) i ≡ shift i (position x ys)
  unfolding search_from
  search_from-position v x [] i h = refl
  search_from-position v x (y ∷ ys) i h =
      let first : K.at v i ≡ y = sym (
        some-injective y (K.at v i)
          (h 0 (omega arith) ∙ ap (λ k. some (K.at v k)) (omega arith))) in
      let later =
        search_from-position v x ys (suc i)
          (λ n lt. h (suc n) (omega arith) ∙ ap (λ k. some (K.at v k)) (omega arith)) in
      ap (λ z. if z == x then some i else search_from K v x (length ys) (suc i)) first
      ∙ elim (Bool-cases (y == x)) [
        | inl a ↦ rw a (ap some (omega arith))
        | inr a ↦ rw a (later ∙ shift-suc i (position x ys))
      ]

  -- The functions that read an array read the list of its elements.
  pub record Observed (a : Array K) (xs : List ℕ) : Type 0 where
    pub head_is : array_head K a ≡ nth xs 0
    pub tail_is : array_tail K a ≡ nth xs (length xs - 1)
    pub size_is : array_size K a ≡ length xs % 2 ^ 32
    pub at_index : (i : ℕ) → array_find_index K a i ≡ nth xs i
    pub index_is : (x : ℕ) → array_index_of K a x ≡ some (index_or_minus_one (position x xs))

  read_at :
      (v : K.Vec) (i : ℕ) (b : Bool)
      → (b ≡ true → i < K.size v)
      → (b ≡ false → K.size v ≤ i)
      → (if b then some (K.at v i) else none) ≡ nth (K.items v) i
  read_at v i true h k = sym (K.nth-items v i (h refl))
  read_at v i false h k = sym (nth-beyond (K.items v) i (omega (arith, K.size-items v, k refl)))

  read_last :
      (v : K.Vec)
      → (if ltb 0 (K.size v) then some (K.at v (K.size v - 1)) else none)
        ≡ nth (K.items v) (length (K.items v) - 1)
  read_last v =
      elim (Bool-cases (ltb 0 (K.size v))) [
        | inl h ↦
            let pos : 0 < K.size v = ground arith in
            rw h (sym (K.nth-items v (K.size v - 1) (omega (arith, pos))))
        | inr h ↦
            let zero_size : K.size v ≡ 0 = ground arith in
            rw h (
              sym
                (nth-beyond (K.items v) (K.size v - 1) (omega (arith, K.size-items v, zero_size))))
      ]
      ∙ ap (λ n. nth (K.items v) (n - 1)) (K.size-items v)

  Observed-at :
      (av : Option K.Vec) (len : ℕ)
      → length (elements K (record { av = av; len = len })) < 2 ^ 32
      → Observed (record { av = av; len = len }) (elements K (record { av = av; len = len }))
  unfolding array_head array_tail array_size array_find_index array_index_of
  Observed-at none len few = record {
    head_is = refl;
    tail_is = refl;
    size_is = refl;
    at_index = λ i. refl;
    index_is = λ x. refl;
  }
  Observed-at (some v) len few = record {
    head_is = read_at v 0 (ltb 0 (K.size v)) (λ h. ground arith) (λ h. ground arith);
    tail_is = read_last v;
    size_is = ap (λ n. n % 2 ^ 32) (K.size-items v);
    at_index = λ i.
        read_at v i (ltb 0 (K.size v) && ltb i (K.size v)) (λ h. ground arith) (λ h. ground arith);
    index_is = λ x.
        ap returned
          (index_from-search K v x (K.size v) 0 (omega arith) (omega (arith, few, K.size-items v)))
        ∙ by_scan (search_from K v x (K.size v) 0)
        ∙ ap (λ o. some (index_or_minus_one o))
            (ap (λ k. search_from K v x k 0) (K.size-items v)
              ∙ search_from-position v x (K.items v) 0 (λ n lt.
                K.nth-items v n (omega (arith, K.size-items v, lt))
                ∙ ap (λ k. some (K.at v k)) (omega arith))
              ∙ shift-zero (position x (K.items v)));
  }

  -- `ucl_array_head`, `ucl_array_tail`, `ucl_array_find_index` and `ucl_array_index_of` give the first and
  -- the last element, the element at an index and the first index of an element, with NULL or -1 where
  -- there is none, and `ucl_array_size` the number of elements, of which there are less than 2^32.
  pub array-Observed : (a : Array K) → length (elements K a) < 2 ^ 32 → Observed a (elements K a)
  array-Observed a few = Observed-at a.av a.len few
