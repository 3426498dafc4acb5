-- ===== src/Schema/Ends.antt =====
-- Checks that end: rules for the pieces that the functions of src/ucl_schema.c are made of.
mod Rules
mod Inside
mod Fields
mod Objects
mod Arrays
pub mod Sizes
mod Logic
pub mod Termination
use libucl.Base.{
  ℕ, ◌≡◌, refl, ap, ◌∙◌, Bool, true, false, not, if◌then◌else◌, List, [], ◌∷◌, Option, none, some,
  Bytes, All, bytes_eq,
}
use libucl.Schema.Values.{
  Value, object, array, int, float, string, boolean, time, userdata, null, Items, no_items, item,
  Chain, Machine, Kind, head, entries_of, items, compare_equal,
}
use libucl.Schema.Checks.{
  Code, Verdict, accepted, refused, out_of_fuel, undefined, Check, continue, ◌>>=◌, ◌>>◌, outcome,
  attempt, each, require, no_check, return, create_error, give_up, reset_error, constraint,
  invalid_schema,
}
use libucl.Schema.Words.{kw_max_values, kw_min_values, kw_pattern}
use libucl.Schema.Rules.{
  validate_values, max_values, min_values, int_at, validate_enum, type_is_allowed, one_is_allowed,
  or_else, instead, fits, matches_text, string_to_type, validate_number, number_on, exclusive_at,
  number_rule, validate_string, string_on, string_rule, array_is_unique, unique_on,
}

abbrev pub ended {ℓ} : {A : Type ℓ} → Verdict A → Bool
ended (accepted a c) = true
ended (refused c) = true
ended out_of_fuel = false
ended undefined = true

-- The check does not run out of fuel.
pub record Ends {ℓ} {A : Type ℓ} (m : Check A) : Type 0 where
  pub run : (code : Code) → ended (m code) ≡ true

module _ {ℓ} {A : Type ℓ} where
  pub return-Ends : (a : A) → Ends (return a)
  return-Ends a = record { run = λ code. refl }

  pub create_error-Ends : (e : Code) → Ends {A = A} (create_error e)
  create_error-Ends e = record { run = λ code. refl }

  pub give_up-Ends : Ends {A = A} give_up
  give_up-Ends = record { run = λ code. refl }

  pub if_Ends : (b : Bool) {m k : Check A} → Ends m → Ends k → Ends (if b then m else k)
  if_Ends true h h' = h
  if_Ends false h h' = h'

pub no_check-Ends : Ends no_check
no_check-Ends = record { run = λ code. refl }

pub reset_error-Ends : Ends reset_error
reset_error-Ends = record { run = λ code. refl }

pub undefined-Ends : Ends {A = Unit {0}} (λ code. undefined)
undefined-Ends = record { run = λ code. refl }

continue-ended {ℓ κ} :
    {A : Type ℓ} {B : Type κ} (f : A → Check B) (v : Verdict A)
    → ended v ≡ true
    → ((a : A) → Ends (f a))
    → ended (continue f v) ≡ true
continue-ended f (accepted a c) h k = (k a).run c
continue-ended f (refused c) h k = refl
continue-ended f out_of_fuel h k = h
continue-ended f undefined h k = refl

pub bind-Ends {ℓ κ} :
    {A : Type ℓ} {B : Type κ} {m : Check A} {f : A → Check B}
    → Ends m
    → ((a : A) → Ends (f a))
    → Ends (m >>= f)
bind-Ends {m} {f} h k = record { run = λ code. continue-ended f (m code) (h.run code) k }

pub then-Ends {ℓ} :
    {B : Type ℓ} {m : Check (Unit {0})} {k : Check B} → Ends m → Ends k → Ends (m >> k)
then-Ends h h' = bind-Ends h (λ _. h')

-- What the check returns, where it returns something
abbrev pub Settled : {A : Type 0} → (A → Type 0) → Verdict A → Type 0
Settled P (accepted a c) = P a
Settled P (refused c) = Unit
Settled P out_of_fuel = false ≡ true
Settled P undefined = Unit

-- The check does not run out of fuel, and what it returns has the property.
pub record EndsIn {A : Type 0} (P : A → Type 0) (m : Check A) : Type 0 where
  pub run : (code : Code) → Settled P (m code)

module _ {A : Type 0} {P : A → Type 0} where
  pub return_in : {a : A} → P a → EndsIn P (return a)
  return_in h = record { run = λ code. h }

  pub create_error_in : (e : Code) → EndsIn P (create_error e)
  create_error_in e = record { run = λ code. tt }

  pub if_in : (b : Bool) {m k : Check A} → EndsIn P m → EndsIn P k → EndsIn P (if b then m else k)
  if_in true h h' = h
  if_in false h h' = h'

  continue_settled :
      {B : Type 0} (Q : B → Type 0) (f : B → Check A) (v : Verdict B)
      → Settled Q v
      → ((b : B) → Q b → EndsIn P (f b))
      → Settled P (continue f v)
  continue_settled Q f (accepted b c) h k = (k b h).run c
  continue_settled Q f (refused c) h k = tt
  continue_settled Q f out_of_fuel h k = h
  continue_settled Q f undefined h k = tt

  pub bind_in :
      {B : Type 0} {Q : B → Type 0} {m : Check B} {f : B → Check A}
      → EndsIn Q m
      → ((b : B) → Q b → EndsIn P (f b))
      → EndsIn P (m >>= f)
  bind_in {Q} {m} {f} h k = record { run = λ code. continue_settled Q f (m code) (h.run code) k }

settled-ended : {A : Type 0} (P : A → Type 0) (v : Verdict A) → Settled P v → ended v ≡ true
settled-ended P (accepted a c) h = refl
settled-ended P (refused c) h = refl
settled-ended P out_of_fuel h = h
settled-ended P undefined h = refl

pub in-Ends : {A : Type 0} {P : A → Type 0} {m : Check A} → EndsIn P m → Ends m
in-Ends {P} {m} h = record { run = λ code. settled-ended P (m code) (h.run code) }

ended_settled : {A : Type 0} (v : Verdict A) → ended v ≡ true → Settled (λ a. Unit {0}) v
ended_settled (accepted a c) h = tt
ended_settled (refused c) h = tt
ended_settled out_of_fuel h = h
ended_settled undefined h = tt

pub ends_in : {A : Type 0} {m : Check A} → Ends m → EndsIn (λ a. Unit {0}) m
ends_in {m} h = record { run = λ code. ended_settled (m code) (h.run code) }

pub then_in :
    {A : Type 0} {P : A → Type 0} {m : Check (Unit {0})} {k : Check A}
    → Ends m
    → EndsIn P k
    → EndsIn P (m >> k)
then_in h h' = bind_in (ends_in h) (λ _ _. h')

pub in_then :
    {A B : Type 0} {P : A → Type 0} {m : Check A} {f : A → Check B}
    → EndsIn P m
    → ((a : A) → P a → Ends (f a))
    → Ends (m >>= f)
in_then h k = in-Ends (bind_in h (λ a p. ends_in (k a p)))

outcome-ended : (v : Verdict (Unit {0})) → ended v ≡ true → ended (outcome v) ≡ true
outcome-ended (accepted a c) h = refl
outcome-ended (refused c) h = refl
outcome-ended out_of_fuel h = h
outcome-ended undefined h = refl

pub attempt-Ends : {m : Check (Unit {0})} → Ends m → Ends (attempt m)
attempt-Ends {m} h = record { run = λ code. outcome-ended (m code) (h.run code) }

pub require-Ends : (b : Bool) (e : Code) → Ends (require b e)
require-Ends b e = if_Ends b no_check-Ends (create_error-Ends e)

pub each-Ends :
    {A : Type 0} (f : A → Check (Unit {0})) (xs : List A)
    → All (λ x. Ends (f x)) xs
    → Ends (each f xs)
unfolding each
each-Ends f [] h = no_check-Ends
each-Ends f (x ∷ xs) h = then-Ends h.0 (each-Ends f xs h.1)
