-- ===== src/Schema/Ends/Sizes.antt =====
-- The size of a schema, schemas without references, and what holds of all smaller ones.
use libucl.Base.{ℕ, suc, ◌+◌, ◌≤◌, ◌<◌, ◌≡◌, refl, false, none, bytes_eq, arith}
use libucl.Schema.Words.{kw_ref}
use libucl.Schema.Values.{
  Value, object, array, Items, no_items, item, Entries, no_entries, entry, Chain, last, next,
  entries, search,
}
use libucl.Schema.Ends.Inside.{Inside, InsideChain, InsideEntries, InsideItems}

unfoldable mutual
  -- How many values there are in a value
  pub size : Value → ℕ
  size (object n es) = suc (entries_size es)
  size (array is) = suc (items_size is)
  size v = 1

  entries_size : Entries → ℕ
  entries_size no_entries = 0
  entries_size (entry k c es) = chain_size c + entries_size es

  chain_size : Chain → ℕ
  chain_size (last v) = size v
  chain_size (next v c) = size v + chain_size c

  items_size : Items → ℕ
  items_size no_items = 0
  items_size (item v is) = size v + items_size is

unfoldable mutual
  -- No object in the value has the key $ref.
  pub NoRef : Value → Type 0
  NoRef (object n es) = NoRefEntries es
  NoRef (array is) = NoRefItems is
  NoRef v = Unit

  pub NoRefEntries : Entries → Type 0
  NoRefEntries no_entries = Unit
  NoRefEntries (entry k c es) = (bytes_eq k kw_ref ≡ false) × (NoRefChain c × NoRefEntries es)

  NoRefChain : Chain → Type 0
  NoRefChain (last v) = NoRef v
  NoRefChain (next v c) = NoRef v × NoRefChain c

  NoRefItems : Items → Type 0
  NoRefItems no_items = Unit
  NoRefItems (item v is) = NoRef v × NoRefItems is

pub no_reference : (es : Entries) → NoRefEntries es → search kw_ref (entries es) ≡ none
unfolding search NoRef
no_reference no_entries h = refl
no_reference (entry k c es) h = rw h.0 (no_reference es h.1.1)

module _ (P : Value → Type 0) (bound : ℕ)
    (smaller : (w : Value) → NoRef w → size w < bound → P w) where
  mutual
    unfolding Inside size NoRef

    pub value-Inside : (v : Value) → NoRef v → size v ≤ bound → Inside P v
    value-Inside (object n es) h le = entries_inside es h (omega (arith, le))
    value-Inside (array is) h le = items-Inside is h (omega (arith, le))
    value-Inside _ h le = tt

    entries_inside : (es : Entries) → NoRefEntries es → entries_size es < bound → InsideEntries P es
    entries_inside no_entries h lt = tt
    entries_inside (entry k c es) h lt =
        (chain_inside c h.1.0 (omega (arith, lt)), entries_inside es h.1.1 (omega (arith, lt)))

    chain_inside : (c : Chain) → NoRefChain c → chain_size c < bound → InsideChain P c
    chain_inside (last v) h lt = (smaller v h lt, value-Inside v h (omega (arith, lt)))
    chain_inside (next v c) h lt = (
      (smaller v h.0 (omega (arith, lt)), value-Inside v h.0 (omega (arith, lt))),
      chain_inside c h.1 (omega (arith, lt)),
    )

    items-Inside : (is : Items) → NoRefItems is → items_size is < bound → InsideItems P is
    items-Inside no_items h lt = tt
    items-Inside (item v is) h lt = (
      (smaller v h.0 (omega (arith, lt)), value-Inside v h.0 (omega (arith, lt))),
      items-Inside is h.1 (omega (arith, lt)),
    )
