-- ===== src/Schema/Refs.antt =====
-- References of a schema: `ucl_schema_resolve_ref_component` and `ucl_schema_resolve_ref` of
-- src/ucl_schema.c.
use libucl.Base.{
  ℕ, ◌+◌, ◌%◌, ◌^◌, Bool, true, ◌==◌, if◌then◌else◌, Option, none, some, [], ◌∷◌, Bytes, take,
}
use libucl.Schema.Values.{Value, object, array, Items, no_items, item, Machine, head, lookup}
use libucl.Schema.Checks.{Check, invalid_schema, create_error, return, ◌>>=◌}

abbrev slash : ℕ
slash = b'/'

-- A number ends with the string or at a slash.
abbrev ends_number : Bytes → Bool
ends_number [] = true
ends_number (b ∷ bs) = b == slash

-- The counter of the search for an item never moves: only the first one is found.
abbrev item_number : Items → ℕ → Check Value
item_number no_items num = create_error invalid_schema
item_number (item v is) num = if num % 2 ^ 32 == 0 then return v else create_error invalid_schema

-- `ucl_schema_resolve_ref_component`: the component is the first bytes of the text.
unfoldable pub resolve_ref_component : Machine → Value → Bytes → ℕ → Check Value
resolve_ref_component m (object n es) refc size = elim (lookup (object n es) (take size refc)) [
  | none ↦ create_error invalid_schema
  | some c ↦ return (head c)
]
resolve_ref_component m (array is) refc size =
    let (num, behind) = m.strtoul refc in
    if ends_number behind then item_number is num else create_error invalid_schema
resolve_ref_component m v refc size = create_error invalid_schema

-- The loop over the components: `refc` is the text from the start of the current one, `size` how much
-- of it is passed, and the last argument what is left.
unfoldable pub resolve_path : Machine → Value → Bytes → ℕ → Bytes → Check Value
unfolding resolve_ref_component
resolve_path m res refc size [] =
    if size == 0 then return res else resolve_ref_component m res refc size
resolve_path m res refc size (b ∷ p) =
    if b == slash
    then (if size == 0
        then create_error invalid_schema
        else resolve_ref_component m res refc size >>= λ found. resolve_path m found p 0 p)
    else resolve_path m res refc (size + 1) p

-- A schema is an object.
abbrev pub an_object_only : Value → Check Value
an_object_only (object n es) = return (object n es)
an_object_only v = create_error invalid_schema

-- Behind the `#`
unfoldable pub resolve_pointer : Machine → Value → Bytes → Check Value
unfolding resolve_path
resolve_pointer m root [] = return root
resolve_pointer m root (b ∷ p) =
    if b == slash
    then resolve_path m root p 0 p >>= an_object_only
    else resolve_path m root (b ∷ p) 0 (b ∷ p) >>= an_object_only

-- The bytes before the last `#`, and those behind it
unfoldable pub last_hash : Bytes → Option (Bytes × Bytes)
last_hash [] = none
last_hash (b ∷ bs) = elim (last_hash bs) [
  | some (url, p) ↦ some (b ∷ url, p)
  | none ↦ if b == b'#' then some ([], bs) else none
]

abbrev split_url : Bytes → Bytes × Bytes
split_url ref = elim (last_hash ref) [ some parts ↦ parts | none ↦ (ref, []) ]

abbrev resolve_external : Machine → Bytes × Bytes → Check (Value × Value)
resolve_external m (url, p) = elim (m.external url) [
  | none ↦ create_error invalid_schema
  | some doc ↦ resolve_pointer m doc p >>= λ res. return (res, doc)
]

-- `ucl_schema_resolve_ref`: the schema, and the root that its own references start from
unfoldable pub resolve_ref : Machine → Value → Bytes → Check (Value × Value)
unfolding resolve_pointer last_hash
resolve_ref m root [] = resolve_external m (split_url [])
resolve_ref m root (b ∷ p) =
    if b == b'#'
    then (resolve_pointer m root p >>= λ res. return (res, root))
    else resolve_external m (split_url (b ∷ p))
