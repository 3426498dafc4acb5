-- ===== src/Store/Update.antt =====
-- Reading the store after a write to it.
use libucl.Base.{
  ℕ, ◌+◌, ◌≡◌, ◌≢◌, refl, sym, ap, arith, Bool, true, false, ◌==◌, ==_iff, Bool-cases, inl, inr,
  ◌∙◌, if◌then◌else◌, Bytes, List, ◌++◌, ◌∷◌, [],
}
use libucl.Store.{
  Obj, update, array_append, array, object, hash_insert, hash_replace, replace_entries,
}

==-refl : (r : ℕ) → (r == r) ≡ true
==-refl r = ground arith

==-ne : (k r : ℕ) → k ≢ r → (k == r) ≡ false
==-ne k r ne = ground arith

pub update-same : (cell : ℕ → Obj) (r : ℕ) (o : Obj) → update cell r o r ≡ o
update-same cell r o = ap (λ b. if b then o else cell r) (==-refl r)

pub update-other : (cell : ℕ → Obj) (r k : ℕ) (o : Obj) → k ≢ r → update cell r o k ≡ cell k
update-other cell r k o ne = ap (λ b. if b then o else cell k) (==-ne k r ne)

pub array_append-same :
    (cell : ℕ → Obj) (c n : ℕ) (items : List ℕ)
    → (cell c).payload ≡ array items
    → array_append cell c n c
      ≡ record (cell c) { payload = array (items ++ (n ∷ [])); len = (cell c).len + 1 }
unfolding array_append
array_append-same cell c n items h = update-same cell c _ ∙ rw h refl

module _ (cell : ℕ → Obj) (c n : ℕ) where
  pub hash_insert-payload :
      (es : List (Bytes × ℕ))
      → (cell c).payload ≡ object es
      → (hash_insert cell c n c).payload ≡ object (es ++ (((cell n).key, n) ∷ []))
  unfolding hash_insert
  hash_insert-payload es h = rw (update-same cell c _, h) refl

  pub hash_insert-key : (hash_insert cell c n c).key ≡ (cell c).key
  unfolding hash_insert
  hash_insert-key = rw (update-same cell c _) refl

  pub hash_insert-siblings : (hash_insert cell c n c).siblings ≡ (cell c).siblings
  unfolding hash_insert
  hash_insert-siblings = rw (update-same cell c _) refl

  pub hash_insert-other : (k : ℕ) → k ≢ c → hash_insert cell c n k ≡ cell k
  unfolding hash_insert
  hash_insert-other k ne = update-other cell c k _ ne

pub key-update :
    (cell : ℕ → Obj) (r : ℕ) (o : Obj)
    → o.key ≡ (cell r).key
    → (k : ℕ) → (update cell r o k).key ≡ (cell k).key
key-update cell r o h k = elim (Bool-cases (k == r)) [
  | inl a ↦ rw a (h ∙ ap (λ x. (cell x).key) (sym ((==_iff k r).0 a)))
  | inr a ↦ rw a refl
]

pub hash_insert-keys :
    (cell : ℕ → Obj) (c new r : ℕ) → (hash_insert cell c new r).key ≡ (cell r).key
unfolding hash_insert
hash_insert-keys cell c new r = key-update cell c _ refl r

module _ (caseless : Bool) (cell : ℕ → Obj) (c old new : ℕ) where
  pub hash_replace-keys : (r : ℕ) → (hash_replace caseless cell c old new r).key ≡ (cell r).key
  unfolding hash_replace
  hash_replace-keys r = key-update cell c _ refl r

  pub hash_replace-siblings : (hash_replace caseless cell c old new c).siblings ≡ (cell c).siblings
  unfolding hash_replace
  hash_replace-siblings = ap (λ (o : Obj). o.siblings) (update-same cell c _)

  pub hash_replace-payload :
      (es : List (Bytes × ℕ))
      → (cell c).payload ≡ object es
      → (hash_replace caseless cell c old new c).payload
        ≡ object (replace_entries caseless (cell old).key (cell new).key new es)
  unfolding hash_replace
  hash_replace-payload es h = rw (update-same cell c _, h) refl

pub array_append-keys :
    (cell : ℕ → Obj) (c new r : ℕ) → (array_append cell c new r).key ≡ (cell r).key
unfolding array_append
array_append-keys cell c new r = key-update cell c _ refl r

pub array_append-others :
    (cell : ℕ → Obj) (c new r : ℕ) → r ≢ c → array_append cell c new r ≡ cell r
unfolding array_append
array_append-others cell c new r ne = update-other cell c r _ ne
