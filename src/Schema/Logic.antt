-- ===== src/Schema/Logic.antt =====
-- enum, allOf, anyOf, oneOf and not: what `ucl_schema_validate` of src/ucl_schema.c makes of the verdicts of
-- the schemas in them.
use libucl.Base.{
  ℕ, suc, ◌==◌, ◌≡◌, refl, Bool, true, false, ◌&&◌, ◌||◌, not, if◌then◌else◌, List, [], ◌∷◌, Option,
  none, some, arith, All, subst_some,
}
use libucl.Schema.Words.{kw_enum, kw_all_of, kw_any_of, kw_one_of, kw_not}
use libucl.Schema.Values.{Value, Machine, Items, items}
use libucl.Schema.Checks.{
  Code, Check, ◌>>=◌, attempt, return, reset_error, give_up, no_check, schema_ok, constraint, each,
}
use libucl.Schema.Rules.{any_equal, validate_enum}
use libucl.Schema.Validate.{
  array_at, object_at, where_given, any_of, one_of, any_of_rule, ran, validate_logic,
}
use libucl.Schema.Says.{
  Says, Decided, Yields, then-Says, bind-Says, bind-Yields, attempt-Yields, require-Says,
  no_check-Says, all, any, count, each-AllSay,
}

abbrev pub given : {A : Type 0} → Option A → (A → Bool) → Bool
given none p = true
given (some a) p = p a

abbrev pub is_filled : List Value → Bool
is_filled [] = false
is_filled (v ∷ vs) = true

-- What the five keys of a schema ask of an object, where `p` says which schemas it meets
unfoldable pub logic_holds : Machine → (Value → Bool) → Value → Value → Bool
unfolding any_equal array_at object_at all any count
logic_holds m p schema v =
    given (array_at schema kw_enum) (λ is. any_equal m v (items is))
    && (given (array_at schema kw_all_of) (λ is. all p (items is))
        && (given (array_at schema kw_any_of) (λ is. any p (items is))
            && (given (array_at schema kw_one_of) (λ is. count p (items is) == 1)
                && given (object_at schema kw_not) (λ s. not (p s)))))

where_given-Says :
    {A : Type 0} (o : Option A) (f : A → Check (Unit {0})) (p : A → Bool)
    → ((a : A) → o ≡ some a → Says (f a) (p a))
    → Says (where_given o f) (given o p)
where_given-Says none f p h = no_check-Says
where_given-Says (some a) f p h = h a refl

or_Yields :
    (b : Bool) (m : Check Bool) (x : Bool)
    → Yields m x
    → Yields (if b then return true else m) (b || x)
or_Yields true m x h = λ code. (code, refl)
or_Yields false m x h = h

after-Yields :
    (b : Bool) (m : Check Bool) (n : ℕ)
    → Yields m (n == 0)
    → Yields (if b then return false else m) ((if b then suc n else n) == 0)
after-Yields true m n h =
    λ code. let nonzero : (suc n == 0) ≡ false = ground arith in rw nonzero (code, refl)
after-Yields false m n h = h

reset-Says : (b : Bool) → Says (if b then reset_error else give_up) b
reset-Says true code = (schema_ok, refl)
reset-Says false code = (code, refl)

give_up-Says : (b : Bool) → Says (if b then give_up else reset_error) (not b)
give_up-Says true code = (code, refl)
give_up-Says false code = (schema_ok, refl)

keep-Says : (b : Bool) → Says (if b then no_check else give_up) b
keep-Says true code = (code, refl)
keep-Says false code = (code, refl)

module _ (valid : Value → Check (Unit {0})) (p : Value → Bool) where
  -- The schemas of a list have verdicts, and `p` says which.
  abbrev pub AllSay : List Value → Type 0
  AllSay ss = All (λ s. Says (valid s) (p s)) ss

  -- The same for the schemas at a key, if the schema has it
  abbrev pub ItemsSay : Option Items → Type 0
  ItemsSay none = Unit
  ItemsSay (some is) = AllSay (items is)

  abbrev pub OneSays : Option Value → Type 0
  OneSays none = Unit
  OneSays (some s) = Says (valid s) (p s)

  said : (o : Option Items) (is : Items) → ItemsSay o → o ≡ some is → AllSay (items is)
  said none is h e = absurd cc
  said (some js) is h e = subst_some (λ ks. AllSay (items ks)) e h

  said_one : (o : Option Value) (s : Value) → OneSays o → o ≡ some s → Says (valid s) (p s)
  said_one none s h e = absurd cc
  said_one (some t) s h e = subst_some (λ u. Says (valid u) (p u)) e h

  any_of-Yields : (ss : List Value) → AllSay ss → Yields (any_of valid false ss) (any p ss)
  unfolding any_of any
  any_of-Yields [] h = λ code. (code, refl)
  any_of-Yields (s ∷ ss) h =
      bind-Yields (attempt (valid s)) (λ ok. if ok then return true else any_of valid false ss)
        (p s) (p s || any p ss) (attempt-Yields (valid s) (p s) h.0)
        (or_Yields (p s) (any_of valid false ss) (any p ss) (any_of-Yields ss h.1))

  one_of_after : (ss : List Value) → AllSay ss → Yields (one_of valid true ss) (count p ss == 0)
  unfolding one_of count
  one_of_after [] h = λ code. (code, refl)
  one_of_after (s ∷ ss) h =
      bind-Yields (attempt (valid s)) (λ ok. if ok then return false else one_of valid true ss)
        (p s) ((if p s then suc (count p ss) else count p ss) == 0)
        (attempt-Yields (valid s) (p s) h.0)
        (after-Yields (p s) (one_of valid true ss) (count p ss) (one_of_after ss h.1))

  one_of_next :
      (b : Bool) (ss : List Value)
      → AllSay ss
      → Yields (one_of valid false ss) (count p ss == 1)
      → Yields (one_of valid b ss) ((if b then suc (count p ss) else count p ss) == 1)
  one_of_next true ss a h =
      let same : (suc (count p ss) == 1) ≡ (count p ss == 0) = ground arith in
      rw same (one_of_after ss a)
  one_of_next false ss a h = h

  one_of-Yields : (ss : List Value) → AllSay ss → Yields (one_of valid false ss) (count p ss == 1)
  unfolding one_of count
  one_of-Yields [] h = λ code. (code, refl)
  one_of-Yields (s ∷ ss) h =
      bind-Yields (attempt (valid s)) (λ ok. one_of valid ok ss) (p s)
        ((if p s then suc (count p ss) else count p ss) == 1) (attempt-Yields (valid s) (p s) h.0)
        (one_of_next (p s) ss h.1 (one_of-Yields ss h.1))

  any_of_rule-Says :
      (set : Bool) (ss : List Value)
      → AllSay ss
      → is_filled ss ≡ true
      → Says (any_of_rule valid set ss) (any p ss)
  any_of_rule-Says set [] a h = absurd cc
  any_of_rule-Says set (s ∷ ss) a h =
      bind-Says (any_of valid false (s ∷ ss)) (λ ok. if ok then reset_error else give_up)
        (any p (s ∷ ss)) (any p (s ∷ ss)) (any_of-Yields (s ∷ ss) a) (reset-Says (any p (s ∷ ss)))

  one_of_rule-Says :
      (ss : List Value)
      → AllSay ss
      → Says (one_of valid false ss >>= λ ok. if ok then no_check else give_up) (count p ss == 1)
  one_of_rule-Says ss a =
      bind-Says (one_of valid false ss) (λ ok. if ok then no_check else give_up) (count p ss == 1)
        (count p ss == 1) (one_of-Yields ss a) (keep-Says (count p ss == 1))

  not_rule-Says :
      (s : Value)
      → Says (valid s) (p s)
      → Says (attempt (valid s) >>= λ ok. if ok then give_up else reset_error) (not (p s))
  not_rule-Says s a =
      bind-Says (attempt (valid s)) (λ ok. if ok then give_up else reset_error) (p s) (not (p s))
        (attempt-Yields (valid s) (p s) a) (give_up-Says (p s))

  -- Where the schemas in allOf, anyOf, oneOf and not have verdicts, so do the five keys: the object is
  -- accepted exactly if it is one of the enumeration, meets all schemas of allOf, some of anyOf, exactly
  -- one of oneOf and not that of not, whatever the error was before. anyOf, where it is given, is not
  -- empty.
  pub validate_logic_says :
      (m : Machine) (schema v : Value) (code : Code)
      → ItemsSay (array_at schema kw_all_of)
      → ItemsSay (array_at schema kw_any_of)
      → ItemsSay (array_at schema kw_one_of)
      → OneSays (object_at schema kw_not)
      → given (array_at schema kw_any_of) (λ is. is_filled (items is)) ≡ true
      → Decided (validate_logic m valid schema v code) (logic_holds m p schema v)
  unfolding validate_logic logic_holds validate_enum
  validate_logic_says m schema v code alls anys ones nots filled =
      then-Says _ _ _ _
        (where_given-Says (array_at schema kw_enum) (λ is. validate_enum m is v)
          (λ is. any_equal m v (items is))
          (λ is e. require-Says (any_equal m v (items is)) constraint))
        (then-Says _ _ _ _
          (where_given-Says (array_at schema kw_all_of) (λ is. each valid (items is))
            (λ is. all p (items is))
            (λ is e. each-AllSay valid p (items is) (said (array_at schema kw_all_of) is alls e)))
          (then-Says _ _ _ _
            (where_given-Says (array_at schema kw_any_of)
              (λ is. any_of_rule valid (ran (array_at schema kw_all_of)) (items is))
              (λ is. any p (items is))
              (λ is e.
                any_of_rule-Says (ran (array_at schema kw_all_of)) (items is)
                  (said (array_at schema kw_any_of) is anys e) (rw e at filled)))
            (then-Says _ _ _ _
              (where_given-Says (array_at schema kw_one_of)
                (λ is. one_of valid false (items is) >>= λ ok. if ok then no_check else give_up)
                (λ is. count p (items is) == 1)
                (λ is e. one_of_rule-Says (items is) (said (array_at schema kw_one_of) is ones e)))
              (where_given-Says (object_at schema kw_not)
                (λ s. attempt (valid s) >>= λ ok. if ok then give_up else reset_error)
                (λ s. not (p s))
                (λ s e. not_rule-Says s (said_one (object_at schema kw_not) s nots e))))))
        code
