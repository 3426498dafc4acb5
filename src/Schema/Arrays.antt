-- ===== src/Schema/Arrays.antt =====
-- `ucl_schema_validate_array` of src/ucl_schema.c. What it asks `ucl_schema_validate` for is a parameter.
use libucl.Base.{
  Bool, true, false, not, if◌then◌else◌, Option, none, some, List, [], ◌∷◌, Bytes, bytes_eq,
}
use libucl.Schema.Words.{kw_items, kw_additional_items, kw_unique_items, kw_min_items, kw_max_items}
use libucl.Schema.Values.{
  Value, object, array, Chain, last, Machine, head, items, entries_of, items_of,
}
use libucl.Schema.Checks.{
  Check, constraint, invalid_schema, ◌>>=◌, ◌>>◌, return, create_error, no_check, each,
}
use libucl.Schema.Rules.{array_is_unique}
use libucl.Schema.Containers.{ArrayRules, min_len, max_len, additional_items_rule, unique_rule}

module _ (m : Machine) (valid : Value → Chain → Bool → Check (Unit {0})) where
  -- The schemas of a list, one for each item; the items that are left
  unfoldable pub items_in_turn : List Value → List Value → Check (List Value)
  items_in_turn [] vs = return vs
  items_in_turn (s ∷ ss) [] = items_in_turn ss []
  items_in_turn (s ∷ ss) (v ∷ vs) = valid s (last v) false >> items_in_turn ss vs

  abbrev pub set_unvalidated : ArrayRules → List Value → ArrayRules
  set_unvalidated st [] = st
  set_unvalidated st (v ∷ vs) = record st { unvalidated = v ∷ vs }

  -- The items of an array, by a list of schemas or by one
  unfoldable pub items_rule : Value → Value → ArrayRules → Check ArrayRules
  unfolding items_in_turn each
  items_rule (array is) obj st =
      items_in_turn (items is) (items_of obj) >>= λ vs. return (set_unvalidated st vs)
  items_rule (object n es) obj st =
      each (λ v. valid (object n es) (last v) false) (items_of obj) >> return st
  items_rule v obj st = create_error invalid_schema

  -- One entry of the schema of an array
  unfoldable pub array_rule : Value → ArrayRules → Bytes × Chain → Check ArrayRules
  unfolding items_rule additional_items_rule unique_rule
  array_rule obj st (k, c) =
      let schema = head c in
      if bytes_eq k kw_items
      then items_rule schema obj st
      else if bytes_eq k kw_additional_items
      then additional_items_rule schema st
      else if bytes_eq k kw_unique_items
      then unique_rule schema st
      else if bytes_eq k kw_min_items
      then (min_len m obj schema >> return st)
      else if bytes_eq k kw_max_items
      then (max_len m obj schema >> return st)
      else return st

  unfoldable pub array_on : Value → ArrayRules → List (Bytes × Chain) → Check ArrayRules
  unfolding array_rule
  array_on obj st [] = return st
  array_on obj st (e ∷ es) = array_rule obj st e >>= λ st'. array_on obj st' es

  abbrev pub items_by_schema : Option Value → List Value → Check (Unit {0})
  items_by_schema none vs = no_check
  items_by_schema (some s) vs = each (λ v. valid s (last v) false) vs

  -- The first item without a schema of its own is validated twice.
  unfoldable pub additional_items : ArrayRules → List Value → Check (Unit {0})
  unfolding each
  additional_items st [] = no_check
  additional_items st (v ∷ vs) =
      if not st.allow_additional
      then create_error constraint
      else items_by_schema st.additional_schema (v ∷ v ∷ vs)

  -- `ucl_schema_validate_array`
  unfoldable pub validate_array : Value → Value → Check (Unit {0})
  unfolding array_on additional_items array_is_unique
  validate_array schema obj = do
    let start : ArrayRules = record {
      allow_additional = true;
      additional_schema = none;
      unvalidated = [];
      need_unique = false;
    }
    st ← array_on obj start (entries_of schema)
    additional_items st st.unvalidated
    if st.need_unique then array_is_unique m (items_of obj) else no_check
