-- ===== src/Schema/Validate.antt =====
-- `ucl_schema_validate` and `ucl_object_validate` of src/ucl_schema.c. References may lead back to where
-- they come from, so that the recursion runs on fuel.
use libucl.Base.{
  ℕ, zero, suc, Bool, true, false, if◌then◌else◌, Option, none, some, List, [], ◌∷◌, Bytes,
}
use libucl.Schema.Words.{kw_enum, kw_all_of, kw_any_of, kw_one_of, kw_not, kw_ref, kw_type}
use libucl.Schema.Values.{
  Value, object, array, int, float, string, Chain, Items, Machine, head, items, suffixes, lookup,
  kind_of, tostring,
}
use libucl.Schema.Checks.{
  Check, out_of_fuel, undefined, invalid_schema, ◌>>=◌, ◌>>◌, return, attempt, create_error,
  give_up, reset_error, no_check, each,
}
use libucl.Schema.Rules.{
  validate_values, validate_enum, type_is_allowed, validate_number, validate_string,
}
use libucl.Schema.Refs.{resolve_ref}
use libucl.Schema.Objects.{validate_object}
use libucl.Schema.Arrays.{validate_array}

abbrev pub as_array : Value → Option Items
as_array (array is) = some is
as_array v = none

abbrev pub as_object : Value → Option Value
as_object (object n es) = some (object n es)
as_object v = none

abbrev pub array_of : Option Chain → Option Items
array_of none = none
array_of (some c) = as_array (head c)

abbrev pub object_of : Option Chain → Option Value
object_of none = none
object_of (some c) = as_object (head c)

-- The items of an array at a key of the schema, if it has one
unfoldable pub array_at : Value → Bytes → Option Items
array_at schema key = array_of (lookup schema key)

-- The object at a key of the schema, if it has one
unfoldable pub object_at : Value → Bytes → Option Value
object_at schema key = object_of (lookup schema key)

abbrev pub where_given : {A : Type 0} → Option A → (A → Check (Unit {0})) → Check (Unit {0})
where_given none f = no_check
where_given (some a) f = f a

-- The loop for anyOf, with `ret` before it
unfoldable pub any_of : (Value → Check (Unit {0})) → Bool → List Value → Check Bool
any_of valid ret [] = return ret
any_of valid ret (s ∷ ss) =
    attempt (valid s) >>= λ ok. if ok then return true else any_of valid false ss

-- The loop for oneOf
unfoldable pub one_of : (Value → Check (Unit {0})) → Bool → List Value → Check Bool
one_of valid ret [] = return ret
one_of valid true (s ∷ ss) =
    attempt (valid s) >>= λ ok. if ok then return false else one_of valid true ss
one_of valid false (s ∷ ss) = attempt (valid s) >>= λ ok. one_of valid ok ss

-- Whether the loop for allOf has set `ret`, which an empty anyOf reads
abbrev pub ran : Option Items → Bool
ran none = false
ran (some is) = elim (items is) [ [] ↦ false | v ∷ vs ↦ true ]

abbrev pub any_of_rule : (Value → Check (Unit {0})) → Bool → List Value → Check (Unit {0})
any_of_rule valid set [] c = if set then reset_error c else undefined
any_of_rule valid set (s ∷ ss) c =
    (any_of valid false (s ∷ ss) >>= λ ok. if ok then reset_error else give_up) c

-- The part of `ucl_schema_validate` that asks for other schemas: enum, allOf, anyOf, oneOf, not
unfoldable pub validate_logic :
    Machine → (Value → Check (Unit {0})) → Value → Value → Check (Unit {0})
unfolding array_at object_at validate_enum any_of one_of each
validate_logic m valid schema v = do
  where_given (array_at schema kw_enum) (λ is. validate_enum m is v)
  where_given (array_at schema kw_all_of) (λ is. each valid (items is))
  where_given (array_at schema kw_any_of)
      (λ is. any_of_rule valid (ran (array_at schema kw_all_of)) (items is))
  where_given (array_at schema kw_one_of)
      (λ is. one_of valid false (items is) >>= λ ok. if ok then no_check else give_up)
  where_given (object_at schema kw_not)
      (λ s. attempt (valid s) >>= λ ok. if ok then give_up else reset_error)

-- `obj->type` decides what is left to check.
unfoldable pub validate_kind :
    Machine → (Value → Chain → Bool → Check (Unit {0})) → Value → Chain → Value → Check (Unit {0})
unfolding validate_object validate_array validate_number validate_string
validate_kind m valid schema obj (object n es) = validate_object m valid schema obj
validate_kind m valid schema obj (array is) = validate_array m valid schema (array is)
validate_kind m valid schema obj (int i) = validate_number m schema (int i)
validate_kind m valid schema obj (float d) = validate_number m schema (float d)
validate_kind m valid schema obj (string s) = validate_string m schema s
validate_kind m valid schema obj v = no_check

abbrev pub of_type : Machine → Option Chain → Value → Check (Unit {0})
of_type m none v = no_check
of_type m (some c) v = type_is_allowed m (head c) (kind_of v)

abbrev pub follow_ref :
    Machine → (Value → Value → Check (Unit {0})) → Value → Option Bytes → Check (Unit {0})
follow_ref m valid root none = λ code. undefined
follow_ref m valid root (some ref) = resolve_ref m root ref >>= λ (found, root'). valid root' found

abbrev pub follow :
    Machine → (Value → Value → Check (Unit {0})) → Value → Option Chain → Check (Unit {0})
follow m valid root none = no_check
follow m valid root (some c) = follow_ref m valid root (tostring (head c))

-- One call of `ucl_schema_validate`, its recursive calls being a parameter: the root, the schema, the
-- object, and whether those behind it are meant too
unfoldable pub validate_step :
    Machine
    → (Value → Value → Chain → Bool → Check (Unit {0}))
    → Value
    → Value
    → Chain
    → Bool
    → Check (Unit {0})
unfolding validate_values validate_logic validate_kind type_is_allowed resolve_ref each
validate_step m valid root (object n es) obj true =
    validate_values (object n es) obj
    >> each (λ cur. valid root (object n es) cur false) (suffixes obj)
validate_step m valid root (object n es) obj false = do
  validate_logic m (λ s. valid root s obj true) (object n es) (head obj)
  follow m (λ root' s. valid root' s obj false) root (lookup (object n es) kw_ref)
  of_type m (lookup (object n es) kw_type) (head obj)
  validate_kind m (valid root) (object n es) obj (head obj)
validate_step m valid root schema obj try_array = create_error invalid_schema

-- `ucl_schema_validate`
unfoldable pub validate : Machine → ℕ → Value → Value → Chain → Bool → Check (Unit {0})
unfolding validate_step
validate m zero root schema obj try_array code = out_of_fuel
validate m (suc fuel) root schema obj try_array code =
    validate_step m (validate m fuel) root schema obj try_array code

-- `ucl_object_validate`
unfoldable pub object_validate : Machine → ℕ → Value → Chain → Check (Unit {0})
unfolding validate
object_validate m fuel schema obj = validate m fuel schema schema obj true
