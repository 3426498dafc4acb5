-- ===== src/Schema/Ends/Objects.antt =====
-- `ucl_schema_validate_object` of src/ucl_schema.c ends, if the validation by the schemas inside its own does.
use libucl.Base.{
  Bool, true, false, ◌&&◌, not, List, [], ◌∷◌, Option, none, some, Bytes, All, bytes_eq,
}
use libucl.Schema.Words.{
  kw_properties, kw_additional_properties, kw_required, kw_min_properties, kw_max_properties,
  kw_pattern_properties, kw_dependencies,
}
use libucl.Schema.Values.{
  Value, object, array, boolean, Chain, head, Machine, entries_of, items, lookup, keyed, len,
  iterate_safe, toint_safe,
}
use libucl.Schema.Checks.{Check, constraint, invalid_schema, missing_property, missing_dependency}
use libucl.Schema.Containers.{
  ObjectRules, has, additional_rule, required_rule, is_object, asks_additional, test_pattern,
  is_property, some_pattern, patterns_of,
}
use libucl.Schema.Objects.{
  depends, found_property, by_schema, by_patterns, has_all, dependency, validate_dependencies,
  property, pattern_property, object_rule, object_on, additional, additional_property,
  additional_properties, required_properties, validate_object,
}
use libucl.Schema.Ends.{
  Ends, create_error-Ends, give_up-Ends, if_Ends, no_check-Ends, EndsIn, return_in, create_error_in,
  if_in, bind_in, then_in, in_then, bind-Ends, then-Ends, attempt-Ends, require-Ends, each-Ends,
}
use libucl.Schema.Ends.Inside.{Inside, InsideChain, entries_of-Inside, head-Inside, keyed_inside}
use libucl.Schema.Ends.Fields.{
  All_any, All-map, at_least-Ends, at_most-Ends, unit_check-Ends, Sub, IsSub,
}

module _ (m : Machine) (valid : Value → Chain → Bool → Check (Unit {0})) where
  depends-Ends : (v : Value) (obj : Chain) → (Sub m valid) v → Ends (depends m valid v obj)
  unfolding depends
  depends-Ends (array is) obj h =
      each-Ends _ (items is) (All_any (items is) (λ v. require-Ends _ missing_dependency))
  depends-Ends (object n es) obj h = h obj true
  depends-Ends _ obj h = no_check-Ends

  found_property-Ends :
      (s : Value) (o : Option Chain) → (Sub m valid) s → Ends (found_property m valid s o)
  found_property-Ends s none h = no_check-Ends
  found_property-Ends s (some c) h = h c true

  property-Ends :
      (obj : Value) (e : Bytes × Chain) → (Sub m valid) (head e.1) → Ends (property m valid obj e)
  unfolding property
  property-Ends obj (k, c) h = found_property-Ends (head c) (lookup obj k) h

  pattern_property-Ends :
      (obj : Value) (e : Bytes × Chain)
      → (Sub m valid) (head e.1)
      → Ends (pattern_property m valid obj e)
  unfolding pattern_property
  pattern_property-Ends obj (k, c) h =
      each-Ends _ (entries_of obj)
        (All_any (entries_of obj) (λ (j, d). if_Ends (test_pattern m k j) (h d true) no_check-Ends))

  dependency-Ends :
      (obj : Chain) (e : Bytes × Chain) → (Sub m valid) (head e.1) → Ends (dependency m valid obj e)
  unfolding dependency
  dependency-Ends obj (k, c) h =
      if_Ends (has (head obj) (some k)) (depends-Ends (head c) obj h) no_check-Ends

  below_heads :
      (v : Value) → Inside (Sub m valid) v → All (λ e. (Sub m valid) (head e.1)) (entries_of v)
  below_heads v h =
      All-map (entries_of v) (λ (k, c) hc. (head-Inside (Sub m valid) c hc).0)
        (entries_of-Inside (Sub m valid) v h)

  abbrev ObjectKept : ObjectRules → Type 0
  ObjectKept st = (IsSub m valid) st.additional_schema

  additional_rule_in :
      (v : Value) (st : ObjectRules)
      → (Sub m valid) v
      → (IsSub m valid) st.additional_schema
      → EndsIn ObjectKept (additional_rule v st)
  unfolding additional_rule
  additional_rule_in (boolean true) st h sub = return_in sub
  additional_rule_in (boolean false) st h sub = return_in sub
  additional_rule_in (object n es) st h sub = return_in h
  additional_rule_in _ st h sub = create_error_in invalid_schema

  required_rule_in :
      (v : Value) (st : ObjectRules)
      → (IsSub m valid) st.additional_schema
      → EndsIn ObjectKept (required_rule v st)
  unfolding required_rule
  required_rule_in (array is) st sub = return_in sub
  required_rule_in _ st sub = create_error_in invalid_schema

  by_schema-Ends :
      (o : Option Value) (elt : Chain) → (IsSub m valid) o → Ends (by_schema m valid o elt)
  by_schema-Ends none elt h = no_check-Ends
  by_schema-Ends (some s) elt h = h elt true

  additional-Ends :
      (st : ObjectRules) (elt : Chain)
      → (IsSub m valid) st.additional_schema
      → Ends (additional m valid st elt)
  unfolding additional
  additional-Ends st elt h =
      if_Ends (not st.allow_additional) (create_error-Ends constraint)
        (by_schema-Ends st.additional_schema elt h)

  by_patterns-Ends :
      (obj : Value) (st : ObjectRules) (elt : Chain) (ps : List (Option Bytes × Chain))
      → (IsSub m valid) st.additional_schema
      → Ends (by_patterns m valid obj st elt ps)
  unfolding by_patterns
  by_patterns-Ends obj st elt ps h =
      unit_check-Ends (some_pattern m ps (entries_of obj)) _
        (λ b e. if_Ends b no_check-Ends (additional-Ends st elt h))

  additional_properties-Ends :
      (key : Option Bytes) (schema : Value) (obj : Chain) (st : ObjectRules)
      → (IsSub m valid) st.additional_schema
      → Ends (additional_properties m valid key schema obj st)
  unfolding additional_properties additional_property
  additional_properties-Ends key schema obj st h =
      if_Ends (asks_additional st)
        (each-Ends _ (iterate_safe key obj) (
          All_any (iterate_safe key obj) (λ (k, elt). if_Ends (is_property schema k) no_check-Ends (
            by_patterns-Ends (head obj) st elt (patterns_of (lookup schema kw_pattern_properties))
              h))))
        no_check-Ends

  has_all-Ends : (obj : Value) (o : Option (List Value)) → Ends (has_all m valid obj o)
  has_all-Ends obj none = no_check-Ends
  has_all-Ends obj (some keys) =
      each-Ends _ keys (All_any keys (λ v. require-Ends _ missing_property))

  object_rule_in :
      (obj : Chain) (st : ObjectRules) (e : Bytes × Chain)
      → InsideChain (Sub m valid) e.1
      → (IsSub m valid) st.additional_schema
      → EndsIn ObjectKept (object_rule m valid obj st e)
  unfolding object_rule validate_dependencies
  object_rule_in obj st (k, c) hc sub =
      let inner = below_heads (head c) (head-Inside (Sub m valid) c hc).1 in
      if_in (is_object (head c) && bytes_eq k kw_properties)
        (then_in (each-Ends _ (entries_of (head c)) (All-map _ (property-Ends (head obj)) inner))
          (return_in sub))
        (if_in (bytes_eq k kw_additional_properties)
          (additional_rule_in (head c) st (head-Inside (Sub m valid) c hc).0 sub)
          (if_in (bytes_eq k kw_required) (required_rule_in (head c) st sub) (
            if_in (bytes_eq k kw_min_properties)
              (then_in (at_least-Ends (len (head obj)) (toint_safe m (head c))) (return_in sub))
              (if_in (bytes_eq k kw_max_properties)
                (then_in (at_most-Ends (len (head obj)) (toint_safe m (head c))) (return_in sub))
                (if_in (bytes_eq k kw_pattern_properties)
                  (then_in
                    (unit_check-Ends (keyed k c) _ (λ es e. each-Ends _ es (
                      All-map es (pattern_property-Ends (head obj))
                        (keyed_inside (Sub m valid) k c hc e))))
                    (return_in sub))
                  (if_in (is_object (head c) && bytes_eq k kw_dependencies)
                    (then_in
                      (each-Ends _ (entries_of (head c)) (All-map _ (dependency-Ends obj) inner))
                      (return_in sub))
                    (return_in sub)))))))

  object_on_in :
      (obj : Chain) (st : ObjectRules) (es : List (Bytes × Chain))
      → All (λ (k, c). InsideChain (Sub m valid) c) es
      → (IsSub m valid) st.additional_schema
      → EndsIn ObjectKept (object_on m valid obj st es)
  unfolding object_on
  object_on_in obj st [] h sub = return_in sub
  object_on_in obj st ((k, c) ∷ es) h sub =
      bind_in (object_rule_in obj st (k, c) h.0 sub) (λ st' sub'. object_on_in obj st' es h.1 sub')

  pub validate_object-Ends :
      (schema : Value) (obj : Chain)
      → Inside (Sub m valid) schema
      → Ends (validate_object m valid schema obj)
  unfolding validate_object required_properties
  validate_object-Ends schema obj h =
      in_then (object_on_in obj _ (entries_of schema) (entries_of-Inside (Sub m valid) schema h) tt)
        (λ st sub.
          bind-Ends (attempt-Ends (additional_properties-Ends (m.own_key obj) schema obj st sub))
            (λ ok.
              then-Ends (has_all-Ends (head obj) st.required)
                (if_Ends ok no_check-Ends give_up-Ends)))
