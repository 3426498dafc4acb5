-- ===== src/Store/Keys.antt =====
-- The equality of keys, and entries with distinct keys.
use libucl.Base.{
  ℕ, ◌≡◌, refl, sym, ap, ◌∙◌, Bool, true, false, if◌then◌else◌, List, [], ◌∷◌, ◌++◌, none, some,
  Bytes, bytes_eq, map, All, Bool-cases, inl, inr, arith,
}
use libucl.Store.{key_eq, lc, search_entries, replace_entries}

abbrev fold : Bool → Bytes → Bytes
unfolding lc
fold caseless a = if caseless then map lc a else a

key_eq-fold :
    (caseless : Bool) (a b : Bytes)
    → key_eq caseless a b ≡ bytes_eq (fold caseless a) (fold caseless b)
unfolding key_eq
key_eq-fold true a b = refl
key_eq-fold false a b = refl

bytes_eq-eq : (a b : Bytes) → bytes_eq a b ≡ true → a ≡ b
unfolding bytes_eq
bytes_eq-eq (x ∷ a) (y ∷ b) h = ground (arith, bytes_eq-eq a b)
bytes_eq-eq [] [] h = refl
bytes_eq-eq [] (y ∷ b) h = cc
bytes_eq-eq (x ∷ a) [] h = cc

bytes_eq_refl : (a : Bytes) → bytes_eq a a ≡ true
unfolding bytes_eq
bytes_eq_refl [] = refl
bytes_eq_refl (x ∷ a) = ground (arith, bytes_eq_refl a)

module _ (caseless : Bool) where
  key_eq-eq : (a b : Bytes) → key_eq caseless a b ≡ true → fold caseless a ≡ fold caseless b
  key_eq-eq a b h =
      bytes_eq-eq (fold caseless a) (fold caseless b) (sym (key_eq-fold caseless a b) ∙ h)

  -- Equal keys are equal to the same keys.
  pub key_eq-left :
      (a b k : Bytes) → key_eq caseless a b ≡ true → key_eq caseless a k ≡ key_eq caseless b k
  key_eq-left a b k h =
      key_eq-fold caseless a k
      ∙ ap (λ x. bytes_eq x (fold caseless k)) (key_eq-eq a b h)
      ∙ sym (key_eq-fold caseless b k)

  key_eq-right :
      (a b k : Bytes) → key_eq caseless a b ≡ true → key_eq caseless k a ≡ key_eq caseless k b
  key_eq-right a b k h =
      key_eq-fold caseless k a
      ∙ ap (λ x. bytes_eq (fold caseless k) x) (key_eq-eq a b h)
      ∙ sym (key_eq-fold caseless k b)

  abbrev pub Distinct : List (Bytes × ℕ) → Type 0
  Distinct [] = Unit
  Distinct (e ∷ es) = All (λ (f : Bytes × ℕ). key_eq caseless e.0 f.0 ≡ false) es × Distinct es

  pub search-none-All :
      (k : Bytes) (es : List (Bytes × ℕ))
      → search_entries caseless k es ≡ none
      → All (λ (e : Bytes × ℕ). key_eq caseless e.0 k ≡ false) es
  unfolding search_entries
  search-none-All k [] h = tt
  search-none-All k ((j, r) ∷ es) h = elim (Bool-cases (key_eq caseless j k)) [
    | inl a ↦ absurd (cc (ap (λ b. if b then some r else search_entries caseless k es) (sym a) ∙ h))
    | inr a ↦ (
      a,
      search-none-All k es
          (ap (λ b. if b then some r else search_entries caseless k es) (sym a) ∙ h),
    )
  ]

  pub search-append :
      (k j : Bytes) (r : ℕ) (es : List (Bytes × ℕ))
      → search_entries caseless k (es ++ ((j, r) ∷ [])) ≡ elim (search_entries caseless k es) [
        | none ↦ if key_eq caseless j k then some r else none
        | some s ↦ some s
      ]
  unfolding search_entries
  search-append k j r [] = refl
  search-append k j r ((i, s) ∷ es) = elim (Bool-cases (key_eq caseless i k)) [
    | inl a ↦ rw a refl
    | inr a ↦ rw a (search-append k j r es)
  ]

  pub All-append :
      (P : Bytes × ℕ → Type 0) (es : List (Bytes × ℕ)) (e : Bytes × ℕ)
      → All P es
      → P e
      → All P (es ++ (e ∷ []))
  All-append P [] e h p = (p, tt)
  All-append P (f ∷ es) e (h, hs) p = (h, All-append P es e hs p)

  pub Distinct-append :
      (es : List (Bytes × ℕ)) (k : Bytes) (r : ℕ)
      → All (λ (e : Bytes × ℕ). key_eq caseless e.0 k ≡ false) es
      → Distinct es
      → Distinct (es ++ ((k, r) ∷ []))
  Distinct-append [] k r h d = (tt, tt)
  Distinct-append (e ∷ es) k r (h, hs) (d, ds) =
      (All-append _ es (k, r) d h, Distinct-append es k r hs ds)

  module _ (old new : Bytes) (r : ℕ) (same : key_eq caseless old new ≡ true) where
    pub All-replace :
        (P : Bytes × ℕ → Type 0) (es : List (Bytes × ℕ))
        → All P es
        → P (new, r)
        → All P (replace_entries caseless old new r es)
    unfolding replace_entries
    All-replace P [] h p = tt
    All-replace P ((j, s) ∷ es) (h, hs) p = elim (Bool-cases (key_eq caseless j old)) [
      | inl a ↦ rw a (p, hs)
      | inr a ↦ rw a (h, All-replace P es hs p)
    ]

    All-left :
        (j : Bytes) (es : List (Bytes × ℕ))
        → key_eq caseless j old ≡ true
        → All (λ (f : Bytes × ℕ). key_eq caseless j f.0 ≡ false) es
        → All (λ (f : Bytes × ℕ). key_eq caseless new f.0 ≡ false) es
    All-left j [] h d = tt
    All-left j (f ∷ es) h (d, ds) =
        (sym (key_eq-left old new f.0 same) ∙ sym (key_eq-left j old f.0 h) ∙ d, All-left j es h ds)

    pub Distinct-replace :
        (es : List (Bytes × ℕ)) → Distinct es → Distinct (replace_entries caseless old new r es)
    unfolding replace_entries
    Distinct-replace [] d = tt
    Distinct-replace ((j, s) ∷ es) (d, ds) = elim (Bool-cases (key_eq caseless j old)) [
      | inl a ↦ rw a (All-left j es a d, ds)
      | inr a ↦
          rw a (All-replace _ es d (sym (key_eq-right old new j same) ∙ a), Distinct-replace es ds)
    ]

    -- The new object is found under the old key.
    pub search-replace-same :
        (k : Bytes) (s : ℕ) (es : List (Bytes × ℕ))
        → key_eq caseless old k ≡ true
        → search_entries caseless k es ≡ some s
        → search_entries caseless k (replace_entries caseless old new r es) ≡ some r
    unfolding replace_entries search_entries
    search-replace-same k s [] e h = cc
    search-replace-same k s ((j, t) ∷ es) e h = elim (Bool-cases (key_eq caseless j old)) [
      | inl a ↦ rw (a, sym (key_eq-left old new k same) ∙ e) refl
      | inr a ↦
          let other : key_eq caseless j k ≡ false = sym (key_eq-right old k j e) ∙ a in
          rw (a, other)
            (search-replace-same k s es e
              (ap (λ b. if b then some t else search_entries caseless k es) (sym other) ∙ h))
    ]

    pub search-replace-other :
        (k : Bytes) (es : List (Bytes × ℕ))
        → key_eq caseless old k ≡ false
        → search_entries caseless k (replace_entries caseless old new r es)
          ≡ search_entries caseless k es
    unfolding replace_entries search_entries
    search-replace-other k [] e = refl
    search-replace-other k ((j, t) ∷ es) e = elim (Bool-cases (key_eq caseless j old)) [
      | inl a ↦ rw (a, sym (key_eq-left old new k same) ∙ e, key_eq-left j old k a ∙ e) refl
      | inr a ↦ elim (Bool-cases (key_eq caseless j k)) [
        | inl b ↦ rw (a, b) refl
        | inr b ↦ rw (a, b) (search-replace-other k es e)
      ]
    ]

pub key_eq_refl : (caseless : Bool) (k : Bytes) → key_eq caseless k k ≡ true
key_eq_refl caseless k = key_eq-fold caseless k k ∙ bytes_eq_refl (fold caseless k)
