-- ===== src/Array/Index.antt =====
-- The loop over a 32-bit index of `ucl_array_delete` and `ucl_array_index_of`, on a vector of less than 2^32
-- elements.
use libucl.Base.{
  ℕ, zero, suc, ◌+◌, ◌%◌, ◌^◌, ◌<◌, ◌≡◌, refl, arith, true, false, ltb, ◌==◌, if◌then◌else◌, Option,
  none, some, Bool-cases, inl, inr,
}
use libucl.Array.Vector.{KVec}
use libucl.Array.Ops.{Scan, found, missing, index_from}

abbrev pub scan_of : Option ℕ → Scan
scan_of none = missing
scan_of (some i) = found i

module _ (K : KVec) where
  -- The first index of an element from `i` on, with `k` elements left
  unfoldable pub search_from : K.Vec → ℕ → ℕ → ℕ → Option ℕ
  search_from vec elt zero i = none
  search_from vec elt (suc k) i =
      let rest = search_from vec elt k (suc i) in if K.at vec i == elt then some i else rest

  pub index_from-search :
      (vec : K.Vec) (elt k i : ℕ)
      → i + k ≡ K.size vec
      → K.size vec < 2 ^ 32
      → index_from K vec elt k i ≡ scan_of (search_from vec elt k i)
  unfolding index_from search_from
  index_from-search vec elt zero i h lt =
      let out : ltb i (K.size vec) ≡ false = ground (arith, h) in rw out refl
  index_from-search vec elt (suc k) i h lt =
      let within : ltb i (K.size vec) ≡ true = ground (arith, h) in
      let next : (i + 1) % 2 ^ 32 ≡ suc i = omega (arith, h, lt) in
      rw (within, next)
        (elim (Bool-cases (K.at vec i == elt)) [
          | inl a ↦ rw a refl
          | inr a ↦ rw a (index_from-search vec elt k (suc i) (omega (arith, h)) lt)
        ])
