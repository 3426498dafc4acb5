-- ===== src/Schema/Ends/Logic.antt =====
-- enum, allOf, anyOf, oneOf and not, in `ucl_schema_validate` of src/ucl_schema.c, end if the schemas in them do.
use libucl.Base.{
  ◌≡◌, refl, Bool, true, false, List, [], ◌∷◌, Option, none, some, Bytes, All, subst_some,
}
use libucl.Schema.Words.{kw_all_of, kw_any_of, kw_one_of, kw_not}
use libucl.Schema.Values.{Value, object, array, Items, Chain, head, Machine, items, lookup}
use libucl.Schema.Checks.{Check}
use libucl.Schema.Validate.{
  as_array, as_object, array_of, object_of, array_at, object_at, where_given, any_of, one_of,
  any_of_rule, validate_logic,
}
use libucl.Schema.Ends.{
  Ends, return-Ends, give_up-Ends, if_Ends, no_check-Ends, reset_error-Ends, undefined-Ends,
  bind-Ends, then-Ends, attempt-Ends, each-Ends,
}
use libucl.Schema.Ends.Rules.{validate_enum-Ends}
use libucl.Schema.Ends.Inside.{Inside, InsideChain, head-Inside, lookup-Inside, items_of-Inside}
use libucl.Schema.Ends.Fields.{All-map}

where_given-Ends :
    {A : Type 0} (o : Option A) (f : A → Check (Unit {0}))
    → ((a : A) → o ≡ some a → Ends (f a))
    → Ends (where_given o f)
where_given-Ends none f h = no_check-Ends
where_given-Ends (some a) f h = h a refl

module _ (valid : Value → Check (Unit {0})) where
  any_of-Ends :
      (ret : Bool) (ss : List Value) → All (λ s. Ends (valid s)) ss → Ends (any_of valid ret ss)
  unfolding any_of
  any_of-Ends ret [] h = return-Ends ret
  any_of-Ends ret (s ∷ ss) h =
      bind-Ends (attempt-Ends h.0) (λ ok. if_Ends ok (return-Ends true) (any_of-Ends false ss h.1))

  one_of-Ends :
      (ret : Bool) (ss : List Value) → All (λ s. Ends (valid s)) ss → Ends (one_of valid ret ss)
  unfolding one_of
  one_of-Ends ret [] h = return-Ends ret
  one_of-Ends true (s ∷ ss) h =
      bind-Ends (attempt-Ends h.0) (λ ok. if_Ends ok (return-Ends false) (one_of-Ends true ss h.1))
  one_of-Ends false (s ∷ ss) h = bind-Ends (attempt-Ends h.0) (λ ok. one_of-Ends ok ss h.1)

  any_of_rule-Ends :
      (set : Bool) (ss : List Value)
      → All (λ s. Ends (valid s)) ss
      → Ends (any_of_rule valid set ss)
  any_of_rule-Ends true [] h = reset_error-Ends
  any_of_rule-Ends false [] h = undefined-Ends
  any_of_rule-Ends set (s ∷ ss) h =
      bind-Ends (any_of-Ends false (s ∷ ss) h) (λ ok. if_Ends ok reset_error-Ends give_up-Ends)

module _ (P : Value → Type 0) where
  array_inside : (v : Value) (is : Items) → Inside P v → as_array v ≡ some is → All P (items is)
  array_inside (array js) is h e =
      subst_some (λ js'. All P (items js')) e
        (All-map (items js) (λ w hw. hw.0) (items_of-Inside P (array js) h))
  array_inside _ is h e = absurd cc

  object_inside : (v w : Value) → P v → as_object v ≡ some w → P w
  object_inside (object n es) w h e = subst_some P e h
  object_inside _ w h e = absurd cc

  array_of_inside :
      (o : Option Chain) (is : Items)
      → ((c : Chain) → o ≡ some c → InsideChain P c)
      → array_of o ≡ some is
      → All P (items is)
  array_of_inside none is h e = absurd cc
  array_of_inside (some c) is h e = array_inside (head c) is (head-Inside P c (h c refl)).1 e

  object_of_inside :
      (o : Option Chain) (w : Value)
      → ((c : Chain) → o ≡ some c → InsideChain P c)
      → object_of o ≡ some w
      → P w
  object_of_inside none w h e = absurd cc
  object_of_inside (some c) w h e = object_inside (head c) w (head-Inside P c (h c refl)).0 e

module _ (m : Machine) (valid : Value → Check (Unit {0})) where
  abbrev Works : Value → Type 0
  Works s = Ends (valid s)

  schemas_end :
      (schema : Value)
      → Inside Works schema
      → (key : Bytes) (is : Items) → array_of (lookup schema key) ≡ some is
      → All Works (items is)
  schemas_end schema h key is e =
      array_of_inside Works (lookup schema key) is (λ c. lookup-Inside Works schema key h) e

  schema_ends :
      (schema : Value)
      → Inside Works schema
      → (key : Bytes) (s : Value) → object_of (lookup schema key) ≡ some s
      → Works s
  schema_ends schema h key s e =
      object_of_inside Works (lookup schema key) s (λ c. lookup-Inside Works schema key h) e

  pub validate_logic-Ends :
      (schema v : Value) → Inside Works schema → Ends (validate_logic m valid schema v)
  unfolding validate_logic array_at object_at
  validate_logic-Ends schema v h =
      then-Ends (where_given-Ends _ _ (λ is e. validate_enum-Ends m is v)) (
        then-Ends
          (where_given-Ends _ _
            (λ is e. each-Ends valid (items is) (schemas_end schema h kw_all_of is e)))
          (then-Ends
            (where_given-Ends _ _
              (λ is e. any_of_rule-Ends valid _ (items is) (schemas_end schema h kw_any_of is e)))
            (then-Ends
              (where_given-Ends _ _ (λ is e.
                bind-Ends (one_of-Ends valid false (items is) (schemas_end schema h kw_one_of is e))
                  (λ ok. if_Ends ok no_check-Ends give_up-Ends)))
              (where_given-Ends _ _ (λ s e.
                bind-Ends (attempt-Ends (schema_ends schema h kw_not s e))
                  (λ ok. if_Ends ok give_up-Ends reset_error-Ends))))))
