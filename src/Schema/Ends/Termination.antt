-- ===== src/Schema/Ends/Termination.antt =====
-- Without references, `ucl_schema_validate` of src/ucl_schema.c ends: each call goes to the same schema once,
-- and then to a smaller one.
use libucl.Base.{
  ℕ, zero, suc, ◌+◌, ◌*◌, ◌≤◌, ◌<◌, ◌≡◌, Bool, true, false, Option, none, some, arith,
}
use libucl.Schema.Words.{kw_ref, kw_type}
use libucl.Schema.Values.{
  Value, object, array, int, float, string, Entries, Chain, head, Machine, lookup, suffixes,
  kind_of,
}
use libucl.Schema.Checks.{Check, Code, invalid_schema}
use libucl.Schema.Validate.{
  validate_kind, of_type, follow, validate_step, validate, object_validate,
}
use libucl.Schema.Ends.{Ends, ended, create_error-Ends, no_check-Ends, then-Ends, each-Ends}
use libucl.Schema.Ends.Rules.{
  validate_values-Ends, type_is_allowed-Ends, validate_number-Ends, validate_string-Ends,
}
use libucl.Schema.Ends.Inside.{Inside}
use libucl.Schema.Ends.Fields.{Sub, All_any}
use libucl.Schema.Ends.Objects.{validate_object-Ends}
use libucl.Schema.Ends.Arrays.{validate_array-Ends}
use libucl.Schema.Ends.Sizes.{size, NoRef, NoRefEntries, no_reference, value-Inside}
use libucl.Schema.Ends.Logic.{validate_logic-Ends}

of_type-Ends : (m : Machine) (o : Option Chain) (v : Value) → Ends (of_type m o v)
of_type-Ends m none v = no_check-Ends
of_type-Ends m (some c) v = type_is_allowed-Ends m (head c) (kind_of v)

validate_kind-Ends :
    (m : Machine) (valid : Value → Chain → Bool → Check (Unit {0})) (schema : Value) (obj : Chain)
    (v : Value)
    → Inside (Sub m valid) schema
    → Ends (validate_kind m valid schema obj v)
unfolding validate_kind
validate_kind-Ends m valid schema obj (object n es) h = validate_object-Ends m valid schema obj h
validate_kind-Ends m valid schema obj (array is) h = validate_array-Ends m valid schema (array is) h
validate_kind-Ends m valid schema obj (int i) h = validate_number-Ends m schema (int i)
validate_kind-Ends m valid schema obj (float d) h = validate_number-Ends m schema (float d)
validate_kind-Ends m valid schema obj (string s) h = validate_string-Ends m schema s
validate_kind-Ends m valid schema obj _ h = no_check-Ends

-- The turns that a call has: one more where it is for all objects of an implicit array
abbrev turns : Bool → ℕ
turns true = 1
turns false = 0

turns_le : (b : Bool) → turns b ≤ 1
turns_le true = omega arith
turns_le false = omega arith

no_ref_at : (n : ℕ) (es : Entries) → NoRefEntries es → lookup (object n es) kw_ref ≡ none
unfolding lookup
no_ref_at n es h = no_reference es h

follow-Ends :
    (m : Machine) (valid : Value → Value → Check (Unit {0})) (root : Value) (o : Option Chain)
    → o ≡ none
    → Ends (follow m valid root o)
follow-Ends m valid root none h = no_check-Ends
follow-Ends m valid root (some c) h = absurd cc

-- The calls of the rounds that are left end, for schemas that are small enough for them.
abbrev EndsBelow : ℕ → (Value → Value → Chain → Bool → Check (Unit {0})) → Type 0
EndsBelow fuel valid =
    (s : Value) (b : Bool)
    → NoRef s
    → 2 * size s + turns b < fuel
    → (root : Value) (obj : Chain) → Ends (valid root s obj b)

module _ (m : Machine) (fuel : ℕ) (valid : Value → Value → Chain → Bool → Check (Unit {0}))
    (again : EndsBelow fuel valid) where
  inner_end : (root s : Value) → NoRef s → 2 * size s < suc fuel → Inside (Sub m (valid root)) s
  inner_end root s h lt =
      value-Inside (Sub m (valid root)) (size s)
        (λ w nr below obj b.
          let small = turns_le b in again w b nr (omega (arith, lt, below, small)) root obj)
        s h (omega arith)

  logic_end :
      (root s : Value) (obj : Chain)
      → NoRef s
      → 2 * size s < suc fuel
      → Inside (λ w. Ends (valid root w obj true)) s
  logic_end root s obj h lt =
      value-Inside (λ w. Ends (valid root w obj true)) (size s)
        (λ w nr below. again w true nr (omega (arith, lt, below)) root obj) s h (omega arith)

  step-Ends :
      (s : Value) (b : Bool)
      → NoRef s
      → 2 * size s + turns b < suc fuel
      → (root : Value) (obj : Chain) → Ends (validate_step m valid root s obj b)
  unfolding validate_step NoRef
  step-Ends (object n es) true h lt root obj = then-Ends (validate_values-Ends (object n es) obj) (
      each-Ends _ (suffixes obj)
        (All_any (suffixes obj) (λ cur. again (object n es) false h (omega (arith, lt)) root cur)))
  step-Ends (object n es) false h lt root obj =
      then-Ends
        (validate_logic-Ends m (λ s. valid root s obj true) (object n es) (head obj)
          (logic_end root (object n es) obj h (omega (arith, lt))))
        (then-Ends (follow-Ends m _ root (lookup (object n es) kw_ref) (no_ref_at n es h)) (
          then-Ends (of_type-Ends m (lookup (object n es) kw_type) (head obj)) (
            validate_kind-Ends m (valid root) (object n es) obj (head obj)
              (inner_end root (object n es) h (omega (arith, lt))))))
  step-Ends _ b h lt root obj = create_error-Ends invalid_schema

pub validate_ends : (m : Machine) (fuel : ℕ) → EndsBelow fuel (validate m fuel)
unfolding validate
validate_ends m zero s b h lt root obj = absurd (omega (arith, lt))
validate_ends m (suc fuel) s b h lt root obj = record {
  run = λ code.
      (step-Ends m fuel (validate m fuel) (validate_ends m fuel) s b h lt root obj).run code;
}

-- A schema without references is done with after twice as many nested calls as it has values, and two
-- more, whatever the object and the error before it are.
pub object_validate_ends :
    (m : Machine) (schema : Value) (obj : Chain) (code : Code)
    → NoRef schema
    → ended (object_validate m (2 * size schema + 2) schema obj code) ≡ true
unfolding object_validate
object_validate_ends m schema obj code h =
    (validate_ends m (2 * size schema + 2) schema true h (omega arith) schema obj).run code
