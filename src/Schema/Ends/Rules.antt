-- ===== src/Schema/Ends/Rules.antt =====
-- The checks of src/ucl_schema.c that ask for no other schema end.
use libucl.Base.{ℕ, ◌≡◌, refl, Bool, true, not, List, [], ◌∷◌, Option, none, some, Bytes, bytes_eq}
use libucl.Schema.Values.{
  Value, array, int, string, Items, no_items, item, Chain, Machine, Kind, head, entries_of,
}
use libucl.Schema.Checks.{
  Verdict, accepted, refused, out_of_fuel, undefined, Check, constraint, invalid_schema,
}
use libucl.Schema.Words.{kw_max_values, kw_min_values, kw_pattern}
use libucl.Schema.Rules.{
  validate_values, max_values, min_values, int_at, validate_enum, type_is_allowed, one_is_allowed,
  or_else, instead, fits, matches_text, string_to_type, validate_number, number_on, exclusive_at,
  number_rule, validate_string, string_on, string_rule, array_is_unique, unique_on,
}
use libucl.Schema.Ends.{
  ended, Ends, create_error-Ends, give_up-Ends, if_Ends, no_check-Ends, then-Ends, require-Ends,
}

max_values-Ends : (o : Option ℕ) (obj : Chain) → Ends (max_values o obj)
unfolding max_values
max_values-Ends none obj = no_check-Ends
max_values-Ends (some limit) obj = search (require-Ends)

min_values-Ends : (o : Option ℕ) (obj : Chain) → Ends (min_values o obj)
unfolding min_values
min_values-Ends none obj = no_check-Ends
min_values-Ends (some limit) obj = search (require-Ends)

pub validate_values-Ends : (schema : Value) (obj : Chain) → Ends (validate_values schema obj)
unfolding validate_values
validate_values-Ends schema obj =
    then-Ends (max_values-Ends (int_at schema kw_max_values) obj)
      (min_values-Ends (int_at schema kw_min_values) obj)

pub validate_enum-Ends : (m : Machine) (is : Items) (v : Value) → Ends (validate_enum m is v)
unfolding validate_enum
validate_enum-Ends m is v = search (require-Ends)

or_else-Ends : {m k : Check (Unit {0})} → Ends m → Ends k → Ends (or_else m k)
or_else-Ends {m} {k} h h' = record { run = λ code. go (m code) (h.run code) }
  where
    go : (v : Verdict (Unit {0})) → ended v ≡ true → ended (instead k v) ≡ true
    go (accepted u c) e = refl
    go (refused c) e = h'.run c
    go out_of_fuel e = e
    go undefined e = refl

fits-Ends : (o : Option Kind) (found : Kind) → Ends (fits o found)
fits-Ends none found = create_error-Ends invalid_schema
fits-Ends (some wanted) found = search (require-Ends)

matches-Ends : (o : Option (Bytes → Bool)) (text : Bytes) → Ends (matches_text o text)
matches-Ends none text = create_error-Ends invalid_schema
matches-Ends (some matches) text = search (require-Ends)

mutual
  unfolding type_is_allowed

  pub type_is_allowed-Ends : (m : Machine) (t : Value) (k : Kind) → Ends (type_is_allowed m t k)
  type_is_allowed-Ends m (array is) k = one_is_allowed-Ends m is k
  type_is_allowed-Ends m (string s) k = fits-Ends (string_to_type m s) k
  type_is_allowed-Ends m _ k = give_up-Ends

  one_is_allowed-Ends : (m : Machine) (is : Items) (k : Kind) → Ends (one_is_allowed m is k)
  one_is_allowed-Ends m no_items k = give_up-Ends
  one_is_allowed-Ends m (item t is) k =
      or_else-Ends (type_is_allowed-Ends m t k) (one_is_allowed-Ends m is k)

number_rule-Ends :
    (m : Machine) (val : ℕ) (k : Bytes) (v : Value) (exclusive : Bool)
    → Ends (number_rule m val k v exclusive)
unfolding number_rule
number_rule-Ends m val k v exclusive = search (if_Ends, then-Ends, require-Ends, no_check-Ends)

number_on-Ends :
    (m : Machine) (schema : Value) (val : ℕ) (es : List (Bytes × Chain)) (exclusive : Bool)
    → Ends (number_on m schema val es exclusive)
unfolding number_on
number_on-Ends m schema val [] exclusive = no_check-Ends
number_on-Ends m schema val ((k, c) ∷ es) exclusive =
    let exclusive' = exclusive_at schema k (head c) exclusive in
    then-Ends (number_rule-Ends m val k (head c) exclusive')
      (number_on-Ends m schema val es exclusive')

pub validate_number-Ends : (m : Machine) (schema v : Value) → Ends (validate_number m schema v)
unfolding validate_number
validate_number-Ends m schema v = search (number_on-Ends)

string_rule-Ends :
    (m : Machine) (text : Bytes) (obj : Value) (k : Bytes) (v : Value)
    → Ends (string_rule m text obj k v)
unfolding string_rule
string_rule-Ends m text obj k (int i) = search (if_Ends, require-Ends, no_check-Ends)
string_rule-Ends m text obj k (string pattern) =
    if_Ends (bytes_eq k kw_pattern) (matches-Ends (m.regcomp pattern) text) no_check-Ends
string_rule-Ends m text obj k v = no_check-Ends

string_on-Ends :
    (m : Machine) (text : Bytes) (obj : Value) (es : List (Bytes × Chain))
    → Ends (string_on m text obj es)
unfolding string_on
string_on-Ends m text obj [] = no_check-Ends
string_on-Ends m text obj ((k, c) ∷ es) =
    then-Ends (string_rule-Ends m text obj k (head c)) (string_on-Ends m text obj es)

pub validate_string-Ends :
    (m : Machine) (schema : Value) (text : Bytes) → Ends (validate_string m schema text)
unfolding validate_string
validate_string-Ends m schema text = string_on-Ends m text (string text) (entries_of schema)

unique_on-Ends : (m : Machine) (nodes vs : List Value) → Ends (unique_on m nodes vs)
unfolding unique_on
unique_on-Ends m nodes [] = no_check-Ends
unique_on-Ends m nodes (v ∷ vs) =
    then-Ends (require-Ends (not (m.tree_find nodes v)) constraint)
      (unique_on-Ends m (v ∷ nodes) vs)

pub array_is_unique-Ends : (m : Machine) (vs : List Value) → Ends (array_is_unique m vs)
unfolding array_is_unique
array_is_unique-Ends m vs = unique_on-Ends m [] vs
