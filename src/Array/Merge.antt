-- ===== src/Array/Merge.antt =====
-- `ucl_array_merge` of src/ucl_util.c, without a copy.
use libucl.Base.{
  ℕ, zero, suc, ◌+◌, ◌%◌, ◌^◌, ◌<◌, ◌≤◌, ◌≡◌, refl, ap, sym, ◌∙◌, arith, Bool, true, false, ltb,
  ◌==◌, if◌then◌else◌, List, [], ◌∷◌, ◌++◌, some, length, length-append, All,
}
use libucl.Array.Vector.{KVec, nth}
use libucl.Array.Ops.{Array, count_from, merged, array_merge}
use libucl.Array.Spec.{elements}
use libucl.Array.Elements.{some-injective}

-- No element is null.
abbrev pub NoNull : List ℕ → Type 0
NoNull xs = All (λ x. (x == 0) ≡ false) xs

NoNull-nth : (xs : List ℕ) (i x : ℕ) → NoNull xs → nth xs i ≡ some x → (x == 0) ≡ false
NoNull-nth [] i x h e = absurd cc
NoNull-nth (y ∷ ys) zero x h e = ap (λ z. z == 0) (sym (some-injective y x e)) ∙ h.0
NoNull-nth (y ∷ ys) (suc i) x h e = NoNull-nth ys i x h.1 e

module _ (K : KVec) where
  count_from-lem :
      (vec : K.Vec) (fuel k i len : ℕ)
      → k ≤ fuel
      → i + k ≡ K.size vec
      → K.size vec < 2 ^ 32
      → len < 2 ^ 32
      → ((j : ℕ) → j < K.size vec → (K.at vec j == 0) ≡ false)
      → count_from K vec fuel i len ≡ some ((len + k) % 2 ^ 32)
  unfolding count_from
  count_from-lem vec zero zero i len le h few small full =
      let out : ltb i (K.size vec) ≡ false = ground (arith, h) in
      rw out (ap some (omega (arith, small)))
  count_from-lem vec zero (suc k) i len le h few small full = absurd (omega (arith, le))
  count_from-lem vec (suc fuel) zero i len le h few small full =
      let out : ltb i (K.size vec) ≡ false = ground (arith, h) in
      rw out (ap some (omega (arith, small)))
  count_from-lem vec (suc fuel) (suc k) i len le h few small full =
      let within : ltb i (K.size vec) ≡ true = ground (arith, h) in
      let next : (i + 1) % 2 ^ 32 ≡ suc i = omega (arith, h, few) in
      rw (within, full i (omega (arith, h)), next)
        (count_from-lem vec fuel k (suc i) ((len + 1) % 2 ^ 32) (omega (arith, le))
            (omega (arith, h)) few (omega arith) full
          ∙ ap some (omega arith))

  module _ (v w : K.Vec) (len m : ℕ) (whole : NoNull (K.items v ++ K.items w))
      (few : length (K.items v) + length (K.items w) < 2 ^ 32) (small : len < 2 ^ 32) where
    joined : K.size (K.concat v w) ≡ length (K.items v) + length (K.items w)
    joined =
        K.size-items (K.concat v w)
        ∙ ap length (K.items-concat v w)
        ∙ length-append (K.items v) (K.items w)

    full : (j : ℕ) → j < K.size (K.concat v w) → (K.at (K.concat v w) j == 0) ≡ false
    full j lt =
        NoNull-nth (K.items v ++ K.items w) j (K.at (K.concat v w) j) whole
          (ap (λ l. nth l j) (sym (K.items-concat v w)) ∙ K.nth-items (K.concat v w) j lt)

    -- Where the loop starts, and what it adds
    from : Bool → ℕ
    from same = if same then K.size (K.concat v w) else K.size w

    added : Bool → ℕ
    added same = if same then 0 else length (K.items v)

    counted :
        (same : Bool)
        → count_from K (K.concat v w) (K.size (K.concat v w)) (from same % 2 ^ 32) len
          ≡ some ((len + added same) % 2 ^ 32)
    unfolding from added
    counted true =
        count_from-lem (K.concat v w) (K.size (K.concat v w)) 0 (K.size (K.concat v w) % 2 ^ 32) len
          (omega arith) (omega (arith, few, joined)) (omega (arith, few, joined)) small full
    counted false =
        count_from-lem (K.concat v w) (K.size (K.concat v w)) (length (K.items v))
          (K.size w % 2 ^ 32) len (omega (arith, joined))
          (omega (arith, few, joined, K.size-items w)) (omega (arith, few, joined)) small full

    -- `ucl_array_merge`, of two arrays that both have a vector, or of one with itself, without a copy,
    -- ends and puts the elements of the second array behind those of the first; to `len` it adds the
    -- number of elements that the first had before, and nothing where both are the same. There are less
    -- than 2^32 elements together, and none is null.
    pub array_merge-len :
        (same : Bool)
        → (b : Array K) × (array_merge K same
              (some (record { av = some v; len = len }))
              (some (record { av = some w; len = m }))
            ≡ some (some b))
          × (elements K b ≡ K.items v ++ K.items w)
          × (b.len ≡ (len + (if same then 0 else length (K.items v))) % 2 ^ 32)
    unfolding array_merge from added
    array_merge-len same = (
      record { av = some (K.concat v w); len = (len + added same) % 2 ^ 32 },
      ap (merged K (K.concat v w)) (counted same),
      K.items-concat v w,
      refl,
    )
