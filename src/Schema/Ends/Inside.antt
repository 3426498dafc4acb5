-- ===== src/Schema/Ends/Inside.antt =====
-- A property of the values inside a value, at any depth.
use libucl.Base.{◌≡◌, List, [], ◌∷◌, some, Bytes, All, bytes_eq, Bool-cases, inl, inr, subst_some}
use libucl.Schema.Values.{
  Value, object, array, Items, no_items, item, Entries, no_entries, entry, Chain, last, next, head,
  entries, entries_of, items, items_of, search, lookup, keyed, keyed_by, suffixes, with_key,
}

module _ (P : Value → Type 0) where
  unfoldable mutual
    pub Inside : Value → Type 0
    Inside (object n es) = InsideEntries es
    Inside (array is) = InsideItems is
    Inside v = Unit

    pub InsideEntries : Entries → Type 0
    InsideEntries no_entries = Unit
    InsideEntries (entry k c es) = InsideChain c × InsideEntries es

    pub InsideChain : Chain → Type 0
    InsideChain (last v) = P v × Inside v
    InsideChain (next v c) = (P v × Inside v) × InsideChain c

    pub InsideItems : Items → Type 0
    InsideItems no_items = Unit
    InsideItems (item v is) = (P v × Inside v) × InsideItems is

  entries_inside : (es : Entries) → InsideEntries es → All (λ (k, c). InsideChain c) (entries es)
  unfolding Inside
  entries_inside no_entries h = tt
  entries_inside (entry k c es) h = (h.0, entries_inside es h.1)

  items-Inside : (is : Items) → InsideItems is → All (λ v. P v × Inside v) (items is)
  unfolding Inside
  items-Inside no_items h = tt
  items-Inside (item v is) h = (h.0, items-Inside is h.1)

  pub entries_of-Inside : (v : Value) → Inside v → All (λ (k, c). InsideChain c) (entries_of v)
  unfolding Inside
  entries_of-Inside (object n es) h = entries_inside es h
  entries_of-Inside _ h = tt

  pub items_of-Inside : (v : Value) → Inside v → All (λ w. P w × Inside w) (items_of v)
  unfolding Inside
  items_of-Inside (array is) h = items-Inside is h
  items_of-Inside _ h = tt

  pub head-Inside : (c : Chain) → InsideChain c → P (head c) × Inside (head c)
  unfolding Inside
  head-Inside (last v) h = h
  head-Inside (next v c) h = h.0

  search_inside :
      (key : Bytes) (es : List (Bytes × Chain)) {c : Chain}
      → All (λ (k, d). InsideChain d) es
      → search key es ≡ some c
      → InsideChain c
  unfolding search
  search_inside key [] h e = absurd cc
  search_inside key ((k, d) ∷ es) h e = elim (Bool-cases (bytes_eq k key)) [
    | inl a ↦ subst_some (InsideChain) (rw a at e) h.0
    | inr a ↦ search_inside key es h.1 (rw a at e)
  ]

  pub lookup-Inside :
      (v : Value) (key : Bytes) {c : Chain} → Inside v → lookup v key ≡ some c → InsideChain c
  unfolding lookup
  lookup-Inside v key h e = search_inside key (entries_of v) (entries_of-Inside v h) e

  suffixes_inside :
      (k : Bytes) (c : Chain) → InsideChain c → All (λ (j, d). P (head d)) (with_key k (suffixes c))
  unfolding Inside
  suffixes_inside k (last v) h = (h.0, tt)
  suffixes_inside k (next v c) h = (h.0.0, suffixes_inside k c h.1)

  heads_inside :
      (es : List (Bytes × Chain)) → All (λ (k, c). InsideChain c) es → All (λ (k, c). P (head c)) es
  heads_inside [] h = tt
  heads_inside ((k, c) ∷ es) h = ((head-Inside c h.0).0, heads_inside es h.1)

  keyed_by_inside :
      (v : Value) (k : Bytes) (c : Chain) {es : List (Bytes × Chain)}
      → Inside v
      → InsideChain c
      → keyed_by v k c ≡ some es
      → All (λ (j, d). P (head d)) es
  unfolding Inside
  keyed_by_inside (object n es) k c h hc e =
      subst_some (All (λ (j, d). P (head d))) e (heads_inside (entries es) (entries_inside es h))
  keyed_by_inside (array is) k c h hc e = absurd cc
  keyed_by_inside _ k c h hc e = subst_some (All (λ (j, d). P (head d))) e (suffixes_inside k c hc)

  pub keyed_inside :
      (k : Bytes) (c : Chain) {es : List (Bytes × Chain)}
      → InsideChain c
      → keyed k c ≡ some es
      → All (λ (j, d). P (head d)) es
  keyed_inside k c h e = keyed_by_inside (head c) k c (head-Inside c h).1 h e
