-- ===== src/Schema/Ends/Arrays.antt =====
-- `ucl_schema_validate_array` of src/ucl_schema.c ends, if the validation by the schemas inside its own does.
use libucl.Base.{Bool, true, false, not, List, [], ◌∷◌, Option, none, some, Bytes, All, bytes_eq}
use libucl.Schema.Words.{kw_items, kw_additional_items, kw_unique_items, kw_min_items, kw_max_items}
use libucl.Schema.Values.{
  Value, object, array, boolean, Chain, last, head, Machine, entries_of, items, items_of, len,
  toint_safe,
}
use libucl.Schema.Checks.{Check, constraint, invalid_schema}
use libucl.Schema.Containers.{ArrayRules, additional_items_rule, unique_rule}
use libucl.Schema.Arrays.{
  items_rule, items_by_schema, items_in_turn, set_unvalidated, array_rule, array_on,
  additional_items, validate_array,
}
use libucl.Schema.Ends.{
  Ends, return-Ends, create_error-Ends, if_Ends, no_check-Ends, EndsIn, return_in, create_error_in,
  if_in, bind_in, then_in, in_then, ends_in, then-Ends, each-Ends,
}
use libucl.Schema.Ends.Inside.{Inside, InsideChain, entries_of-Inside, items_of-Inside, head-Inside}
use libucl.Schema.Ends.Rules.{array_is_unique-Ends}
use libucl.Schema.Ends.Fields.{All_any, All-map, at_least-Ends, at_most-Ends, Sub, IsSub}

module _ (m : Machine) (valid : Value → Chain → Bool → Check (Unit {0})) where
  items_in_turn-Ends :
      (ss vs : List Value) → All (Sub m valid) ss → Ends (items_in_turn m valid ss vs)
  unfolding items_in_turn
  items_in_turn-Ends [] vs h = return-Ends vs
  items_in_turn-Ends (s ∷ ss) [] h = items_in_turn-Ends ss [] h.1
  items_in_turn-Ends (s ∷ ss) (v ∷ vs) h =
      then-Ends (h.0 (last v) false) (items_in_turn-Ends ss vs h.1)

  abbrev ArrayKept : ArrayRules → Type 0
  ArrayKept st = (IsSub m valid) st.additional_schema

  set_unvalidated-IsSub :
      (st : ArrayRules) (vs : List Value)
      → (IsSub m valid) st.additional_schema
      → (IsSub m valid) (set_unvalidated m valid st vs).additional_schema
  set_unvalidated-IsSub st [] h = h
  set_unvalidated-IsSub st (v ∷ vs) h = h

  items_rule_in :
      (v obj : Value) (st : ArrayRules)
      → (Sub m valid) v
      → Inside (Sub m valid) v
      → (IsSub m valid) st.additional_schema
      → EndsIn ArrayKept (items_rule m valid v obj st)
  unfolding items_rule
  items_rule_in (array is) obj st h inner sub =
      bind_in
        (ends_in (
          items_in_turn-Ends (items is) (items_of obj)
            (All-map (items is) (λ w hw. hw.0) (items_of-Inside (Sub m valid) (array is) inner))))
        (λ vs _. return_in (set_unvalidated-IsSub st vs sub))
  items_rule_in (object n es) obj st h inner sub =
      then_in (each-Ends _ (items_of obj) (All_any (items_of obj) (λ v. h (last v) false)))
        (return_in sub)
  items_rule_in _ obj st h inner sub = create_error_in invalid_schema

  additional_items_rule_in :
      (v : Value) (st : ArrayRules)
      → (Sub m valid) v
      → (IsSub m valid) st.additional_schema
      → EndsIn ArrayKept (additional_items_rule v st)
  unfolding additional_items_rule
  additional_items_rule_in (boolean true) st h sub = return_in sub
  additional_items_rule_in (boolean false) st h sub = return_in sub
  additional_items_rule_in (object n es) st h sub = return_in h
  additional_items_rule_in _ st h sub = create_error_in invalid_schema

  unique_rule_in :
      (v : Value) (st : ArrayRules)
      → (IsSub m valid) st.additional_schema
      → EndsIn ArrayKept (unique_rule v st)
  unfolding unique_rule
  unique_rule_in (boolean b) st sub = return_in sub
  unique_rule_in _ st sub = return_in sub

  array_rule_in :
      (obj : Value) (st : ArrayRules) (e : Bytes × Chain)
      → InsideChain (Sub m valid) e.1
      → (IsSub m valid) st.additional_schema
      → EndsIn ArrayKept (array_rule m valid obj st e)
  unfolding array_rule
  array_rule_in obj st (k, c) hc sub =
      let inner = head-Inside (Sub m valid) c hc in
      if_in (bytes_eq k kw_items) (items_rule_in (head c) obj st inner.0 inner.1 sub) (
        if_in (bytes_eq k kw_additional_items) (additional_items_rule_in (head c) st inner.0 sub) (
          if_in (bytes_eq k kw_unique_items) (unique_rule_in (head c) st sub) (
            if_in (bytes_eq k kw_min_items)
              (then_in (at_least-Ends (len obj) (toint_safe m (head c))) (return_in sub))
              (if_in (bytes_eq k kw_max_items)
                (then_in (at_most-Ends (len obj) (toint_safe m (head c))) (return_in sub))
                (return_in sub)))))

  array_on_in :
      (obj : Value) (st : ArrayRules) (es : List (Bytes × Chain))
      → All (λ (k, c). InsideChain (Sub m valid) c) es
      → (IsSub m valid) st.additional_schema
      → EndsIn ArrayKept (array_on m valid obj st es)
  unfolding array_on
  array_on_in obj st [] h sub = return_in sub
  array_on_in obj st ((k, c) ∷ es) h sub =
      bind_in (array_rule_in obj st (k, c) h.0 sub) (λ st' sub'. array_on_in obj st' es h.1 sub')

  items_by_schema-Ends :
      (o : Option Value) (vs : List Value) → (IsSub m valid) o → Ends (items_by_schema m valid o vs)
  items_by_schema-Ends none vs h = no_check-Ends
  items_by_schema-Ends (some s) vs h = each-Ends _ vs (All_any vs (λ v. h (last v) false))

  additional_items-Ends :
      (st : ArrayRules) (vs : List Value)
      → (IsSub m valid) st.additional_schema
      → Ends (additional_items m valid st vs)
  unfolding additional_items
  additional_items-Ends st [] h = no_check-Ends
  additional_items-Ends st (v ∷ vs) h =
      if_Ends (not st.allow_additional) (create_error-Ends constraint)
        (items_by_schema-Ends st.additional_schema (v ∷ v ∷ vs) h)

  pub validate_array-Ends :
      (schema obj : Value) → Inside (Sub m valid) schema → Ends (validate_array m valid schema obj)
  unfolding validate_array
  validate_array-Ends schema obj h =
      in_then (array_on_in obj _ (entries_of schema) (entries_of-Inside (Sub m valid) schema h) tt)
        (λ st sub.
          then-Ends (additional_items-Ends st st.unvalidated sub)
            (if_Ends st.need_unique (array_is_unique-Ends m (items_of obj)) no_check-Ends))
