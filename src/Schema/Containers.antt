-- ===== src/Schema/Containers.antt =====
-- What the checks of objects and of arrays in src/ucl_schema.c share: lengths, patterns, and the keys that
-- only leave something behind for later.
use libucl.Base.{
  ℕ, Bool, true, false, ◌||◌, not, if◌then◌else◌, Option, none, some, List, [], ◌∷◌, Bytes,
}
use libucl.Schema.Words.{kw_properties, kw_pattern_properties}
use libucl.Schema.Values.{
  Value, object, array, boolean, Chain, Machine, head, items, len, lookup, toint_safe, iterate_safe,
}
use libucl.Schema.Checks.{
  Check, undefined, constraint, invalid_schema, return, create_error, no_check, require,
}
use libucl.Schema.Rules.{below, above}

-- What `additionalProperties` and `required`, or `additionalItems`, `uniqueItems` and `items`, leave
-- behind; `unvalidated` are the items from the first without a schema on.
pub record ObjectRules : Type 0 where
  pub allow_additional : Bool
  pub additional_schema : Option Value
  pub required : Option (List Value)

pub record ArrayRules : Type 0 where
  pub allow_additional : Bool
  pub additional_schema : Option Value
  pub unvalidated : List Value
  pub need_unique : Bool

abbrev pub is_object : Value → Bool
is_object (object n es) = true
is_object v = false

-- `ucl_object_lookup` finds something.
unfoldable pub has : Value → Option Bytes → Bool
has obj none = false
has obj (some key) = elim (lookup obj key) [ none ↦ false | some c ↦ true ]

abbrev pub at_least : ℕ → Option ℕ → Check (Unit {0})
at_least n none = no_check
at_least n (some i) = require (not (below n i)) constraint

abbrev pub at_most : ℕ → Option ℕ → Check (Unit {0})
at_most n none = no_check
at_most n (some i) = require (not (above n i)) constraint

-- minProperties and minItems, maxProperties and maxItems
abbrev pub min_len : Machine → Value → Value → Check (Unit {0})
min_len m obj v = at_least (len obj) (toint_safe m v)

abbrev pub max_len : Machine → Value → Value → Check (Unit {0})
max_len m obj v = at_most (len obj) (toint_safe m v)

-- `ucl_schema_test_pattern`: the expression compiles, and matches the key.
unfoldable pub test_pattern : Machine → Bytes → Bytes → Bool
test_pattern m pattern key = elim (m.regcomp pattern) [ none ↦ false | some matches ↦ matches key ]

-- The same with `recursive`: some key of the object matches.
unfoldable pub test_patterns : Machine → Bytes → List (Bytes × Chain) → Bool
unfolding test_pattern
test_patterns m pattern [] = false
test_patterns m pattern ((k, c) ∷ es) = test_pattern m pattern k || test_patterns m pattern es

-- Some key matches some pattern; `none` stands for the compilation of a null pattern.
unfoldable pub some_pattern :
    Machine → List (Option Bytes × Chain) → List (Bytes × Chain) → Option Bool
unfolding test_patterns
some_pattern m [] es = some false
some_pattern m ((none, c) ∷ ps) es = none
some_pattern m ((some pattern, c) ∷ ps) es =
    let rest = some_pattern m ps es in if test_patterns m pattern es then some true else rest

-- The patterns of the schema
unfoldable pub patterns_of : Option Chain → List (Option Bytes × Chain)
unfolding iterate_safe
patterns_of none = []
patterns_of (some c) = iterate_safe (some kw_pattern_properties) c

-- The schema has a property of that key.
unfoldable pub is_property : Value → Option Bytes → Bool
unfolding has
is_property schema k = elim (lookup schema kw_properties) [ none ↦ false | some c ↦ has (head c) k ]

abbrev pub asks_additional : ObjectRules → Bool
asks_additional st = elim st.additional_schema [ none ↦ not st.allow_additional | some s ↦ true ]

abbrev pub unit_check : {A : Type 0} → Option A → (A → Check (Unit {0})) → Check (Unit {0})
unit_check none f c = undefined
unit_check (some a) f c = f a c

-- additionalProperties, required, additionalItems and uniqueItems
unfoldable pub additional_rule : Value → ObjectRules → Check ObjectRules
additional_rule (boolean b) st = return (if b then st else record st { allow_additional = false })
additional_rule (object n es) st = return (record st { additional_schema = some (object n es) })
additional_rule v st = create_error invalid_schema

unfoldable pub required_rule : Value → ObjectRules → Check ObjectRules
required_rule (array is) st = return (record st { required = some (items is) })
required_rule v st = create_error invalid_schema

unfoldable pub additional_items_rule : Value → ArrayRules → Check ArrayRules
additional_items_rule (boolean b) st =
    return (if b then st else record st { allow_additional = false })
additional_items_rule (object n es) st =
    return (record st { additional_schema = some (object n es) })
additional_items_rule v st = create_error invalid_schema

unfoldable pub unique_rule : Value → ArrayRules → Check ArrayRules
unique_rule (boolean b) st = return (record st { need_unique = b })
unique_rule v st = return st
