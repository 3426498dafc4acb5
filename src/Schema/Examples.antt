-- ===== src/Schema/Examples.antt =====
-- Runs of the validator, and uses of its theorems, on concrete input.
use libucl.Base.{
  ◌≡◌, ◌+◌, ◌*◌, refl, Bool, true, false, ◌||◌, if◌then◌else◌, none, some, [], ◌∷◌, bytes_eq, arith,
}
use libucl.Schema.Words.{
  kw_one_of, kw_any_of, kw_all_of, kw_not, kw_max_values, kw_min_values, kw_maximum, kw_minimum,
  kw_exclusive_maximum,
}
use libucl.Schema.Values.{
  Value, Chain, object, array, int, string, boolean, last, next, no_items, item, no_entries, entry,
  search, lookup, iterate_safe, compare_equal, c_string, items,
}
use libucl.Schema.Checks.{
  Check, schema_ok, constraint, accepted, refused, out_of_fuel, each, no_check,
}
use libucl.Schema.Rules.{
  validate_values, max_values, min_values, exceeds, count_to, int_at, validate_enum, any_equal,
  type_is_allowed, string_to_type, validate_number, number_on, number_rule, exclusive_at, flag_at,
  validate_string, string_on, string_rule, array_is_unique, unique_on,
}
use libucl.Schema.Containers.{
  ObjectRules, has, test_pattern, test_patterns, some_pattern, patterns_of, is_property,
  additional_rule, required_rule, additional_items_rule, unique_rule,
}
use libucl.Schema.Objects.{
  depends, dependency, validate_dependencies, property, pattern_property, object_rule, object_on,
  additional, by_patterns, additional_property, additional_properties, required_properties,
  validate_object,
}
use libucl.Schema.Arrays.{
  items_in_turn, items_rule, array_rule, array_on, additional_items, validate_array,
}
use libucl.Schema.Refs.{
  resolve_ref, resolve_pointer, resolve_path, resolve_ref_component, last_hash,
}
use libucl.Schema.Validate.{
  array_at, object_at, any_of, one_of, validate_logic, validate_kind, validate_step, validate,
  object_validate,
}
use libucl.Schema.Says.{Says, Decided, any, all, count}
use libucl.Schema.Counts.{validate_values_lem, too_many, too_few}
use libucl.Schema.Logic.{logic_holds, given, is_filled, ItemsSay, OneSays, validate_logic_says}
use libucl.Schema.Ends.{ended}
use libucl.Schema.Ends.Sizes.{size, NoRef}
use libucl.Schema.Ends.Termination.{object_validate_ends}
use libucl.Schema.Samples.{machine, starts_with, one, key_a, key_b, integer, closed, stray, hidden}

-- What a run computes with.
runs : Unit {0}
unfolding search lookup compare_equal c_string each validate_values max_values min_values exceeds
    count_to int_at validate_enum any_equal type_is_allowed string_to_type validate_number number_on
    number_rule exclusive_at flag_at validate_string string_on string_rule array_is_unique unique_on
    has test_pattern test_patterns some_pattern patterns_of iterate_safe is_property additional_rule
    required_rule additional_items_rule unique_rule depends dependency validate_dependencies
    property pattern_property object_rule object_on additional by_patterns additional_property
    additional_properties required_properties validate_object items_in_turn items_rule array_rule
    array_on additional_items validate_array resolve_ref resolve_pointer resolve_path
    resolve_ref_component last_hash array_at object_at any_of one_of validate_logic validate_kind
    validate_step validate object_validate any all count machine starts_with bytes_eq
runs = tt

-- A key that is neither a property nor matches a pattern is refused.
refuses_stray : object_validate machine 9 closed (one stray) schema_ok ≡ refused constraint
unfolding runs
refuses_stray = refl

-- The same key is accepted next to one that matches a pattern.
accepts_hidden : object_validate machine 9 closed (one hidden) schema_ok ≡ accepted tt schema_ok
unfolding runs
accepts_hidden = refl

-- {maxValues: 1, minValues: 1}
abbrev single : Value
single = object 2 (entry kw_max_values (one (int 1)) (entry kw_min_values (one (int 1)) no_entries))

-- Two values are not more than maxValues 1.
two_values :
    object_validate machine 9 single (next (int 5) (last (int 6))) schema_ok ≡ accepted tt schema_ok
unfolding runs
two_values = refl

-- {maximum: 9, exclusiveMaximum: true, minimum: 3}
abbrev range : Value
range = object 3 (
    entry kw_maximum (one (int 9))
      (entry kw_exclusive_maximum (one (boolean true)) (entry kw_minimum (one (int 3)) no_entries)))

-- exclusiveMaximum makes the minimum exclusive as well.
at_minimum : object_validate machine 9 range (one (int 3)) schema_ok ≡ refused constraint
unfolding runs
at_minimum = refl

-- {oneOf: [{type: integer}, {type: integer}]}
abbrev twice : Value
twice = object 1 (entry kw_one_of (one (array (item integer (item integer no_items)))) no_entries)

-- An object that meets two schemas of oneOf is refused without an error.
silent : object_validate machine 9 twice (one (int 3)) schema_ok ≡ refused schema_ok
unfolding runs
silent = refl

-- {$ref: "#"} asks for itself.
endless :
    object_validate machine 100
      (object 1 (entry (b'$' ∷ b'r' ∷ b'e' ∷ b'f' ∷ []) (one (string (b'#' ∷ []))) no_entries))
      (one (int 3))
      schema_ok
    ≡ out_of_fuel
unfolding runs
endless = refl

closed-NoRef : NoRef closed
unfolding NoRef bytes_eq
closed-NoRef = (
  refl,
  (tt, (refl, ((refl, ((refl, (tt, tt)), tt)), (refl, ((refl, (tt, tt)), (refl, (tt, tt))))))),
)

object_validate_ends_example :
    ended (object_validate machine (2 * size closed + 2) closed (one stray) schema_ok) ≡ true
object_validate_ends_example =
    object_validate_ends machine closed (one stray) schema_ok closed-NoRef

limits : (int_at single kw_max_values ≡ some 1) × (int_at single kw_min_values ≡ some 1)
unfolding runs
limits = (refl, refl)

validate_values_lem_example : validate_values single (one (int 5)) schema_ok ≡ (
    if too_many (int_at single kw_max_values) 1 || too_few (int_at single kw_min_values) 1
    then refused constraint
    else accepted tt schema_ok)
validate_values_lem_example =
    validate_values_lem single (one (int 5)) schema_ok (rw limits.0 (omega arith))
      (rw limits.1 (omega arith))

abbrev denying : ObjectRules
denying = record { allow_additional = false; additional_schema = none; required = none }

-- {a: 1} and {b: 2} behind it
abbrev pair : Chain
pair =
    next (object 1 (entry key_a (one (int 1)) no_entries))
      (last (object 1 (entry key_b (one (int 2)) no_entries)))

-- The key of the second object is neither a property nor one that a pattern matches in the first.
refuses_second :
    additional_properties machine (λ s c b. no_check) none closed pair denying schema_ok
    ≡ refused constraint
unfolding runs
refuses_second = refl

no_any_of : given (array_at twice kw_any_of) (λ is. is_filled (items is)) ≡ true
unfolding runs
no_any_of = refl

-- The schemas of `twice`, checked by the validator itself
abbrev inner : Value → Check (Unit {0})
inner s = validate machine 9 twice s (one (int 3)) true

abbrev met : Value → Bool
met s = true

integer-Says : Says (inner integer) true
unfolding runs
integer-Says code = (code, refl)

twice-ItemsSay : ItemsSay inner met (array_at twice kw_one_of)
unfolding runs
twice-ItemsSay = (integer-Says, (integer-Says, tt))

no_all_of : ItemsSay inner met (array_at twice kw_all_of)
unfolding runs
no_all_of = tt

no_any_items : ItemsSay inner met (array_at twice kw_any_of)
unfolding runs
no_any_items = tt

no_not : OneSays inner met (object_at twice kw_not)
unfolding runs
no_not = tt

validate_logic_says_example :
    Decided
      (validate_logic machine inner twice (int 3) schema_ok)
      (logic_holds machine met twice (int 3))
validate_logic_says_example =
    validate_logic_says inner met machine twice (int 3) schema_ok no_all_of no_any_items
      twice-ItemsSay no_not no_any_of
