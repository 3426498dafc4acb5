-- ===== src/Schema/Counts.antt =====
-- What `ucl_schema_validate_values` of src/ucl_schema.c counts.
use libucl.Base.{
  ℕ, ◌+◌, ◌≤◌, ◌<◌, ◌^◌, ◌≡◌, refl, ap, ◌∙◌, Bool, true, false, ◌||◌, ltb, inl, inr, if◌then◌else◌,
  List, [], ◌∷◌, length, Bool-cases, Option, none, some, arith,
}
use libucl.Schema.Words.{kw_max_values, kw_min_values}
use libucl.Schema.Values.{Value, Chain, chain}
use libucl.Schema.Checks.{Check, Verdict, Code, accepted, refused, constraint, continue, ◌>>◌}
use libucl.Schema.Rules.{
  below, above, exceeds, count_to, int_at, max_values, min_values, validate_values,
}

above_small : (i limit : ℕ) → limit < 2 ^ 63 → above i limit ≡ ltb limit i
above_small i limit h = ground (arith, h)

below_small : (i limit : ℕ) → limit < 2 ^ 63 → below i limit ≡ ltb i limit
below_small i limit h = ground (arith, h)

exceeds_lem :
    (limit i : ℕ) (vs : List Value)
    → limit < 2 ^ 63
    → i ≤ limit + 1
    → exceeds limit i vs ≡ ltb (limit + 1) (i + length vs)
unfolding exceeds
exceeds_lem limit i [] h le = ground (arith, le)
exceeds_lem limit i (v ∷ vs) h le = elim (Bool-cases (ltb limit i)) [
  | inl a ↦ rw (above_small i limit h, a) (ground (arith, a))
  | inr a ↦
      let rest = exceeds_lem limit (i + 1) vs h (ground (arith, a)) in
      rw (above_small i limit h, a) (ground (arith, rest))
]

count_to_lem :
    (limit i : ℕ) (vs : List Value)
    → limit < 2 ^ 63
    → below (count_to limit i vs) limit ≡ ltb (i + length vs) limit
unfolding count_to
count_to_lem limit i [] h = ground (arith, below_small i limit h)
count_to_lem limit i (v ∷ vs) h = elim (Bool-cases (ltb i limit)) [
  | inr a ↦ rw (below_small i limit h, a, below_small i limit h) (ground (arith, a))
  | inl a ↦
      let rest = count_to_lem limit (i + 1) vs h in
      rw (below_small i limit h, a) (ground (arith, rest))
]

abbrev pub too_many : Option ℕ → ℕ → Bool
too_many none n = false
too_many (some limit) n = ltb (limit + 1) n

abbrev pub too_few : Option ℕ → ℕ → Bool
too_few none n = false
too_few (some limit) n = ltb n limit

abbrev pub IsSmall : Option ℕ → Type 0
IsSmall none = Unit
IsSmall (some limit) = limit < 2 ^ 63

abbrev refused_if : Bool → Code → Verdict (Unit {0})
refused_if b code = if b then refused constraint else accepted tt code

max_values_lem :
    (o : Option ℕ) (obj : Chain) (code : Code)
    → IsSmall o
    → max_values o obj code ≡ refused_if (too_many o (length (chain obj))) code
unfolding max_values
max_values_lem none obj code small = refl
max_values_lem (some limit) obj code small =
    let over : exceeds limit 0 (chain obj) ≡ ltb (limit + 1) (length (chain obj)) =
      exceeds_lem limit 0 (chain obj) small (omega arith) ∙ ap (ltb (limit + 1)) (omega arith) in
    elim (Bool-cases (ltb (limit + 1) (length (chain obj)))) [
      | inl a ↦ rw (over, a)
      | inr a ↦ rw (over, a)
    ]

min_values_lem :
    (o : Option ℕ) (obj : Chain) (code : Code)
    → IsSmall o
    → min_values o obj code ≡ refused_if (too_few o (length (chain obj))) code
unfolding min_values
min_values_lem none obj code small = refl
min_values_lem (some limit) obj code small =
    let under : below (count_to limit 0 (chain obj)) limit ≡ ltb (length (chain obj)) limit =
      count_to_lem limit 0 (chain obj) small ∙ ap (λ n. ltb n limit) (omega arith) in
    elim (Bool-cases (ltb (length (chain obj)) limit)) [
      | inl a ↦ rw (under, a)
      | inr a ↦ rw (under, a)
    ]

refused_if_or :
    (m k : Check (Unit {0})) (a b : Bool) (code : Code)
    → m code ≡ refused_if a code
    → k code ≡ refused_if b code
    → (m >> k) code ≡ refused_if (a || b) code
refused_if_or m k true b code hm hk = ap (continue (λ _. k)) hm
refused_if_or m k false b code hm hk = ap (continue (λ _. k)) hm ∙ hk

-- For limits that are not negative, the values of a key are refused exactly if they are fewer than
-- minValues or more than one above maxValues; otherwise the error stays as it was.
pub validate_values_lem :
    (schema : Value) (obj : Chain) (code : Code)
    → IsSmall (int_at schema kw_max_values)
    → IsSmall (int_at schema kw_min_values)
    → validate_values schema obj code ≡ (
        if too_many (int_at schema kw_max_values) (length (chain obj))
          || too_few (int_at schema kw_min_values) (length (chain obj))
        then refused constraint
        else accepted tt code)
unfolding validate_values
validate_values_lem schema obj code small_max small_min =
    refused_if_or (max_values (int_at schema kw_max_values) obj)
      (min_values (int_at schema kw_min_values) obj)
      (too_many (int_at schema kw_max_values) (length (chain obj)))
      (too_few (int_at schema kw_min_values) (length (chain obj))) code
      (max_values_lem (int_at schema kw_max_values) obj code small_max)
      (min_values_lem (int_at schema kw_min_values) obj code small_min)
