-- ===== src/Schema/Objects.antt =====
-- `ucl_schema_validate_dependencies` and `ucl_schema_validate_object` of src/ucl_schema.c. What they ask
-- `ucl_schema_validate` for is a parameter: whether an object, or where the flag is set all objects from
-- it on, meets a schema.
use libucl.Base.{
  Bool, true, ◌&&◌, not, if◌then◌else◌, Option, none, some, List, [], ◌∷◌, Bytes, bytes_eq,
}
use libucl.Schema.Words.{
  kw_properties, kw_additional_properties, kw_required, kw_min_properties, kw_max_properties,
  kw_pattern_properties, kw_dependencies,
}
use libucl.Schema.Values.{
  Value, object, array, Chain, Machine, head, items, entries_of, lookup, keyed, tostring,
  iterate_safe,
}
use libucl.Schema.Checks.{
  Check, constraint, missing_property, missing_dependency, ◌>>=◌, ◌>>◌, return, attempt, give_up,
  create_error, no_check, require, each,
}
use libucl.Schema.Containers.{
  ObjectRules, is_object, has, min_len, max_len, test_pattern, some_pattern, is_property,
  asks_additional, unit_check, patterns_of, additional_rule, required_rule,
}

module _ (m : Machine) (valid : Value → Chain → Bool → Check (Unit {0})) where
  -- What a key that the object has depends on
  unfoldable pub depends : Value → Chain → Check (Unit {0})
  unfolding has each
  depends (array is) obj =
      each (λ v. require (has (head obj) (tostring v)) missing_dependency) (items is)
  depends (object n es) obj = valid (object n es) obj true
  depends v obj = no_check

  unfoldable pub dependency : Chain → Bytes × Chain → Check (Unit {0})
  unfolding has depends
  dependency obj (k, c) = if has (head obj) (some k) then depends (head c) obj else no_check

  -- `ucl_schema_validate_dependencies`
  unfoldable pub validate_dependencies : List (Bytes × Chain) → Chain → Check (Unit {0})
  unfolding dependency each
  validate_dependencies deps obj = each (dependency obj) deps

  abbrev pub found_property : Value → Option Chain → Check (Unit {0})
  found_property prop none = no_check
  found_property prop (some found) = valid prop found true

  unfoldable pub property : Value → Bytes × Chain → Check (Unit {0})
  property obj (k, prop) = found_property (head prop) (lookup obj k)

  unfoldable pub pattern_property : Value → Bytes × Chain → Check (Unit {0})
  unfolding test_pattern each
  pattern_property obj (pattern, prop) =
      each
        (λ (k, found). if test_pattern m pattern k then valid (head prop) found true else no_check)
        (entries_of obj)

  -- One entry of the schema of an object
  unfoldable pub object_rule : Chain → ObjectRules → Bytes × Chain → Check ObjectRules
  unfolding property pattern_property validate_dependencies additional_rule required_rule each
  object_rule obj st (k, c) =
      let schema = head c in
      if is_object schema && bytes_eq k kw_properties
      then (each (property (head obj)) (entries_of schema) >> return st)
      else if bytes_eq k kw_additional_properties
      then additional_rule schema st
      else if bytes_eq k kw_required
      then required_rule schema st
      else if bytes_eq k kw_min_properties
      then (min_len m (head obj) schema >> return st)
      else if bytes_eq k kw_max_properties
      then (max_len m (head obj) schema >> return st)
      else if bytes_eq k kw_pattern_properties
      then (unit_check (keyed k c) (each (pattern_property (head obj))) >> return st)
      else if is_object schema && bytes_eq k kw_dependencies
      then (validate_dependencies (entries_of schema) obj >> return st)
      else return st

  unfoldable pub object_on : Chain → ObjectRules → List (Bytes × Chain) → Check ObjectRules
  unfolding object_rule
  object_on obj st [] = return st
  object_on obj st (e ∷ es) = object_rule obj st e >>= λ st'. object_on obj st' es

  abbrev pub by_schema : Option Value → Chain → Check (Unit {0})
  by_schema none elt = no_check
  by_schema (some s) elt = valid s elt true

  -- What becomes of a key that neither a property nor a pattern is for
  unfoldable pub additional : ObjectRules → Chain → Check (Unit {0})
  additional st elt =
      if not st.allow_additional
      then create_error constraint
      else by_schema st.additional_schema elt

  unfoldable pub by_patterns :
      Value → ObjectRules → Chain → List (Option Bytes × Chain) → Check (Unit {0})
  unfolding some_pattern additional
  by_patterns obj st elt ps =
      unit_check (some_pattern m ps (entries_of obj))
        (λ b. if b then no_check else additional st elt)

  -- The patterns are tried on all keys of the object, not on the one in question.
  unfoldable pub additional_property :
      Value → Value → ObjectRules → Option Bytes × Chain → Check (Unit {0})
  unfolding is_property by_patterns patterns_of
  additional_property schema obj st (k, elt) =
      if is_property schema k
      then no_check
      else by_patterns obj st elt (patterns_of (lookup schema kw_pattern_properties))

  -- The loop goes on to the objects behind the first of an implicit array, whose key is given.
  unfoldable pub additional_properties :
      Option Bytes → Value → Chain → ObjectRules → Check (Unit {0})
  unfolding additional_property iterate_safe each
  additional_properties key schema obj st =
      if asks_additional st
      then each (additional_property schema (head obj) st) (iterate_safe key obj)
      else no_check

  abbrev pub has_all : Value → Option (List Value) → Check (Unit {0})
  has_all obj none = no_check
  has_all obj (some keys) = each (λ v. require (has obj (tostring v)) missing_property) keys

  unfoldable pub required_properties : Value → ObjectRules → Check (Unit {0})
  unfolding has each
  required_properties obj st = has_all obj st.required

  -- `ucl_schema_validate_object`: the required properties are looked for also where an additional one
  -- is refused, and may replace the error.
  unfoldable pub validate_object : Value → Chain → Check (Unit {0})
  unfolding object_on additional_properties required_properties
  validate_object schema obj = do
    let start : ObjectRules = record {
      allow_additional = true;
      additional_schema = none;
      required = none;
    }
    st ← object_on obj start (entries_of schema)
    ok ← attempt (additional_properties (m.own_key obj) schema obj st)
    required_properties (head obj) st
    if ok then no_check else give_up
