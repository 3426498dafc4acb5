-- ===== src/Schema/Additional.antt =====
-- additionalProperties, in `ucl_schema_validate_object` of src/ucl_schema.c.
use libucl.Base.{Bool, ◌||◌, List, [], ◌∷◌, Option, none, some, Bytes}
use libucl.Schema.Values.{Value, Chain, Machine, entries_of}
use libucl.Schema.Containers.{is_property, test_patterns}
use libucl.Schema.Says.{Says, any}

abbrev pub with_name : Option Bytes → Option (List Bytes) → Option (List Bytes)
with_name none rest = none
with_name (some k) none = none
with_name (some k) (some ks) = some (k ∷ ks)

-- The keys of a loop, if all objects have one
abbrev pub keys : List (Option Bytes × Chain) → Option (List Bytes)
keys [] = some []
keys ((k, c) ∷ es) = with_name k (keys es)

-- A property of the schema, or some pattern matches some key of the object.
unfoldable pub excused : Machine → Value → Value → List Bytes → Option Bytes → Bool
unfolding any
excused m schema obj ps k =
    is_property schema k || any (λ pattern. test_patterns m pattern (entries_of obj)) ps
