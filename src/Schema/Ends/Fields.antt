-- ===== src/Schema/Ends/Fields.antt =====
-- What the proofs on objects and on arrays share: lengths, patterns, and the schemas inside a schema.
use libucl.Base.{ℕ, ◌≡◌, refl, Bool, List, [], ◌∷◌, Option, none, some, All}
use libucl.Schema.Values.{Value, Chain, Machine}
use libucl.Schema.Checks.{Check}
use libucl.Schema.Containers.{at_least, at_most, unit_check}
use libucl.Schema.Ends.{Ends, no_check-Ends, undefined-Ends, require-Ends}

pub All_any {ℓ κ} : {A : Type ℓ} {P : A → Type κ} (xs : List A) → ((x : A) → P x) → All P xs
All_any [] f = tt
All_any (x ∷ xs) f = (f x, All_any xs f)

pub All-map {κ ι} :
    {A : Type 0} {P : A → Type κ} {Q : A → Type ι} (xs : List A)
    → ((x : A) → P x → Q x)
    → All P xs
    → All Q xs
All-map [] f h = tt
All-map (x ∷ xs) f h = (f x h.0, All-map xs f h.1)

pub at_least-Ends : (n : ℕ) (o : Option ℕ) → Ends (at_least n o)
at_least-Ends n none = no_check-Ends
at_least-Ends n (some i) = search (require-Ends)

pub at_most-Ends : (n : ℕ) (o : Option ℕ) → Ends (at_most n o)
at_most-Ends n none = no_check-Ends
at_most-Ends n (some i) = search (require-Ends)

pub unit_check-Ends :
    {A : Type 0} (o : Option A) (f : A → Check (Unit {0}))
    → ((a : A) → o ≡ some a → Ends (f a))
    → Ends (unit_check o f)
unit_check-Ends none f h = undefined-Ends
unit_check-Ends (some a) f h = h a refl

module _ (m : Machine) (valid : Value → Chain → Bool → Check (Unit {0})) where
  -- The validation by this schema ends.
  abbrev pub Sub : Value → Type 0
  Sub s = (obj : Chain) (try_array : Bool) → Ends (valid s obj try_array)

  -- Where an object has been validated by the entries of its schema, the schema for additional
  -- properties is one of them.
  abbrev pub IsSub : Option Value → Type 0
  IsSub none = Unit
  IsSub (some s) = Sub s
