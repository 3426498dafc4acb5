-- ===== src/Schema/Samples.antt =====
-- A machine whose doubles are natural numbers, and schemas in short form.
use libucl.Base.{
  ◌%◌, Bool, true, false, not, ltb, leb, ◌==◌, if◌then◌else◌, none, some, [], ◌∷◌, Bytes, bytes_eq,
  drop,
}
use libucl.Schema.Values.{
  Value, object, int, string, boolean, no_entries, entry, Chain, last, Machine,
}
use libucl.Schema.Words.{
  kw_type, kw_object, kw_integer, kw_properties, kw_additional_properties, kw_pattern_properties,
}

-- An expression matches the keys that start with it.
unfoldable pub starts_with : Bytes → Bytes → Bool
starts_with [] key = true
starts_with (b ∷ bs) [] = false
starts_with (b ∷ bs) (c ∷ cs) = if b == c then starts_with bs cs else false

unfoldable pub machine : Machine
unfolding starts_with
machine = record {
  int_to_double = λ i. i;
  double_to_int = λ d. d;
  double_lt = ltb;
  double_le = leb;
  double_zero = 0;
  truncated_equal = λ a b. a == b;
  remainder_exceeds = λ a b. not (a % b == 0);
  regcomp = λ pattern. some (starts_with pattern);
  strcasecmp_equal = bytes_eq;
  strtoul = λ bs. (0, drop 1 bs);
  tree_find = λ nodes v. false;
  external = λ url. none;
  own_key = λ c. none;
}

abbrev pub one : Value → Chain
one v = last v

abbrev pub key_a : Bytes
key_a = b'a' ∷ []

abbrev pub key_b : Bytes
key_b = b'b' ∷ []

-- {type: integer}
abbrev pub integer : Value
integer = object 1 (entry kw_type (one (string kw_integer)) no_entries)

-- {type: object, properties: {a: {type: integer}}, patternProperties: {b: {}}, additionalProperties: false}
abbrev pub closed : Value
closed = object 4 (
    entry kw_type (one (string kw_object)) (
      entry kw_properties (one (object 1 (entry key_a (one integer) no_entries))) (
        entry kw_pattern_properties
          (one (object 1 (entry key_b (one (object 0 no_entries)) no_entries)))
          (entry kw_additional_properties (one (boolean false)) no_entries))))

-- {a: 1, c: 2}
abbrev pub stray : Value
stray = object 2 (entry key_a (one (int 1)) (entry (b'c' ∷ []) (one (int 2)) no_entries))

-- {a: 1, c: 2, b: 3}
abbrev pub hidden : Value
hidden = object 3 (
    entry key_a (one (int 1))
      (entry (b'c' ∷ []) (one (int 2)) (entry key_b (one (int 3)) no_entries)))
