-- ===== src/Msgpack/RoundTrip/Spec.antt =====
-- What it means that a tree stands in the store, and which trees can be written and read back.
use libucl.Base.{
  ℕ, suc, ◌+◌, ◌^◌, ◌≤◌, ◌<◌, ◌≡◌, ◌∙◌, ap, arith, Bool, true, false, List, [], ◌∷◌, ◌++◌, Bytes,
  length, All,
}
use libucl.Store.{Obj, Payload, key_eq}
use libucl.Store
use libucl.Msgpack.Emit.{Value, Items, Fields, nil, item, end, field, count_items, count_fields}
use libucl.Msgpack.Emit

-- The number of objects that a tree takes.
unfoldable mutual
  pub size : Value → ℕ
  size (Emit.array vs) = suc (size_items vs)
  size (Emit.object fs) = suc (size_fields fs)
  size _ = 1

  pub size_items : Items → ℕ
  size_items nil = 0
  size_items (item v vs) = size v + size_items vs

  pub size_fields : Fields → ℕ
  size_fields end = 0
  size_fields (field k v more fs) = size v + size_fields fs

-- The pointers of the children of a container, where the first child stands at `n`.
unfoldable pub refs : ℕ → Items → List ℕ
refs n nil = []
refs n (item v vs) = n ∷ refs (n + size v) vs

unfoldable pub entries : ℕ → Fields → List (Bytes × ℕ)
entries n end = []
entries n (field k v more fs) = (k, n) ∷ entries (n + size v) fs

-- The tree stands in the store: its root at `n`, and the other objects behind it in the order of the
-- text. A time is written as a float, and that is what is read. Values linked behind the first one
-- of a key are not written, so they stand nowhere.
unfoldable mutual
  pub Holds : (ℕ → Obj) → ℕ → Value → Type 0
  Holds cell n Emit.null = (cell n).payload ≡ Store.null
  Holds cell n (Emit.int w) = (cell n).payload ≡ Store.int w
  Holds cell n (Emit.float w) = (cell n).payload ≡ Store.float w
  Holds cell n (Emit.time w) = (cell n).payload ≡ Store.float w
  Holds cell n (Emit.boolean b) = (cell n).payload ≡ Store.boolean b
  Holds cell n (Emit.string binary s) = (cell n).payload ≡ Store.string binary s
  Holds cell n (Emit.array vs) =
      ((cell n).payload ≡ Store.array (refs (suc n) vs)) × HoldsItems cell (suc n) vs
  Holds cell n (Emit.object fs) =
      ((cell n).payload ≡ Store.object (entries (suc n) fs)) × HoldsFields cell (suc n) fs

  pub HoldsItems : (ℕ → Obj) → ℕ → Items → Type 0
  HoldsItems cell n nil = Unit
  HoldsItems cell n (item v vs) = Holds cell n v × HoldsItems cell (n + size v) vs

  pub HoldsFields : (ℕ → Obj) → ℕ → Fields → Type 0
  HoldsFields cell n end = Unit
  HoldsFields cell n (field k v more fs) =
      ((cell n).key ≡ k) × Holds cell n v × HoldsFields cell (n + size v) fs

-- No key of the list is the key `k` in the parser's eyes.
abbrev pub IsNewKey : Bool → Bytes → List Bytes → Type 0
IsNewKey caseless k seen = All (λ j. key_eq caseless j k ≡ false) seen

-- Numbers fit 64 bits, lengths and counts 32; keys are not empty and differ from each other, and no
-- key has more than one value.
unfoldable mutual
  pub IsWritable : Bool → Value → Type 0
  IsWritable caseless Emit.null = Unit
  IsWritable caseless (Emit.int w) = w < 2 ^ 64
  IsWritable caseless (Emit.float w) = w < 2 ^ 64
  IsWritable caseless (Emit.time w) = w < 2 ^ 64
  IsWritable caseless (Emit.boolean b) = Unit
  IsWritable caseless (Emit.string binary s) = length s < 2 ^ 32
  IsWritable caseless (Emit.array vs) = (count_items vs < 2 ^ 32) × IsWritableItems caseless vs
  IsWritable caseless (Emit.object fs) =
      (count_fields fs < 2 ^ 32) × IsWritableFields caseless [] fs

  pub IsWritableItems : Bool → Items → Type 0
  IsWritableItems caseless nil = Unit
  IsWritableItems caseless (item v vs) = IsWritable caseless v × IsWritableItems caseless vs

  pub IsWritableFields : Bool → List Bytes → Fields → Type 0
  IsWritableFields caseless seen end = Unit
  IsWritableFields caseless seen (field k v more fs) =
      (0 < length k)
      × (length k < 2 ^ 32)
      × IsNewKey caseless k seen
      × (more ≡ nil)
      × IsWritable caseless v
      × IsWritableFields caseless (seen ++ (k ∷ [])) fs

-- The last thing written is no empty string, array or object.
unfoldable mutual
  pub ends_well : Value → Bool
  ends_well (Emit.string binary []) = false
  ends_well (Emit.array vs) = ends_items false vs
  ends_well (Emit.object fs) = ends_fields false fs
  ends_well _ = true

  pub ends_items : Bool → Items → Bool
  ends_items last nil = last
  ends_items last (item v vs) = ends_items (ends_well v) vs

  pub ends_fields : Bool → Fields → Bool
  ends_fields last end = last
  ends_fields last (field k v more fs) = ends_fields (ends_well v) fs

-- A tree stays where it is while its cells are left alone.
abbrev Same : (ℕ → Obj) → (ℕ → Obj) → ℕ → ℕ → Type 0
Same cell cell' n k = (r : ℕ) → n ≤ r → r < n + k → cell' r ≡ cell r

payload-Same :
    (cell cell' : ℕ → Obj) (n : ℕ) → Same cell cell' n 1 → (cell' n).payload ≡ (cell n).payload
payload-Same cell cell' n s = ap (λ (o : Obj). o.payload) (s n (omega arith) (omega arith))

pub size-pos : (v : Value) → 0 < size v
unfolding size
size-pos (Emit.array vs) = omega arith
size-pos (Emit.object fs) = omega arith
size-pos _ = omega arith

below : (n k : ℕ) {j : ℕ} → 0 < j → n < n + (j + k)
below n k h = omega arith

mutual
  unfolding Holds size

  pub Holds-Same :
      (v : Value) (cell cell' : ℕ → Obj) (n : ℕ)
      → Same cell cell' n (size v)
      → Holds cell n v
      → Holds cell' n v
  Holds-Same Emit.null cell cell' n s h = payload-Same cell cell' n s ∙ h
  Holds-Same (Emit.int w) cell cell' n s h = payload-Same cell cell' n s ∙ h
  Holds-Same (Emit.float w) cell cell' n s h = payload-Same cell cell' n s ∙ h
  Holds-Same (Emit.time w) cell cell' n s h = payload-Same cell cell' n s ∙ h
  Holds-Same (Emit.boolean b) cell cell' n s h = payload-Same cell cell' n s ∙ h
  Holds-Same (Emit.string binary t) cell cell' n s h = payload-Same cell cell' n s ∙ h
  Holds-Same (Emit.array vs) cell cell' n s h = (
    ap (λ (o : Obj). o.payload) (s n (omega arith) (omega arith)) ∙ h.0,
    HoldsItems-Same vs cell cell' (suc n) (λ r a b. s r (omega arith) (omega arith)) h.1,
  )
  Holds-Same (Emit.object fs) cell cell' n s h = (
    ap (λ (o : Obj). o.payload) (s n (omega arith) (omega arith)) ∙ h.0,
    HoldsFields-Same fs cell cell' (suc n) (λ r a b. s r (omega arith) (omega arith)) h.1,
  )

  HoldsItems-Same :
      (vs : Items) (cell cell' : ℕ → Obj) (n : ℕ)
      → Same cell cell' n (size_items vs)
      → HoldsItems cell n vs
      → HoldsItems cell' n vs
  HoldsItems-Same nil cell cell' n s h = tt
  HoldsItems-Same (item v vs) cell cell' n s h = (
    Holds-Same v cell cell' n (λ r a b. s r a (omega arith)) h.0,
    HoldsItems-Same vs cell cell' (n + size v) (λ r a b. s r (omega arith) (omega arith)) h.1,
  )

  HoldsFields-Same :
      (fs : Fields) (cell cell' : ℕ → Obj) (n : ℕ)
      → Same cell cell' n (size_fields fs)
      → HoldsFields cell n fs
      → HoldsFields cell' n fs
  HoldsFields-Same end cell cell' n s h = tt
  HoldsFields-Same (field k v more fs) cell cell' n s h = (
    ap (λ (o : Obj). o.key) (s n (omega arith) (below n (size_fields fs) (size-pos v))) ∙ h.0,
    Holds-Same v cell cell' n (λ r a b. s r a (omega arith)) h.1,
    HoldsFields-Same fs cell cell' (n + size v) (λ r a b. s r (omega arith) (omega arith)) h.2,
  )
