-- ===== src/Schema/Checks.antt =====
-- The results of the validator: `struct ucl_schema_error` of include/ucl.h with the Boolean that each
-- function of src/ucl_schema.c returns. The message and the object of an error are left out.
use libucl.Base.{Bool, true, false, List, [], ◌∷◌, if◌then◌else◌}

pub data Code : Type 0 where
  schema_ok type_mismatch invalid_schema missing_property constraint missing_dependency : Code
  unknown internal_error external_ref_missing external_ref_invalid : Code

-- `accepted` is true, `refused` is false, each with the code that the error has then. `undefined` stands
-- for undefined behaviour of the source.
pub data Verdict {ℓ} (A : Type ℓ) : Type ℓ where
  accepted : A → Code → Verdict A
  refused : Code → Verdict A
  out_of_fuel : Verdict A
  undefined : Verdict A

abbrev pub Check {ℓ} : Type ℓ → Type ℓ
Check A = Code → Verdict A

abbrev pub continue {ℓ κ} : {A : Type ℓ} {B : Type κ} → (A → Check B) → Verdict A → Verdict B
continue f (accepted a c) = f a c
continue f (refused c) = refused c
continue f out_of_fuel = out_of_fuel
continue f undefined = undefined

infixl 5 ◌>>=◌ ◌>>◌
abbrev pub ◌>>=◌ {ℓ κ} : {A : Type ℓ} {B : Type κ} → Check A → (A → Check B) → Check B
(m >>= f) c = continue f (m c)

abbrev pub ◌>>◌ {ℓ} : {B : Type ℓ} → Check (Unit {0}) → Check B → Check B
m >> k = m >>= λ _. k

abbrev pub return {ℓ} : {A : Type ℓ} → A → Check A
return a c = accepted a c

abbrev pub outcome : Verdict (Unit {0}) → Verdict Bool
outcome (accepted u c) = accepted true c
outcome (refused c) = accepted false c
outcome out_of_fuel = out_of_fuel
outcome undefined = undefined

-- Whatever a function found, the caller goes on with the Boolean.
abbrev pub attempt : Check (Unit {0}) → Check Bool
attempt m c = outcome (m c)

-- `ucl_schema_create_error`, and false
abbrev pub create_error {ℓ} : {A : Type ℓ} → Code → Check A
create_error e c = refused e

-- False, with the error as it is
abbrev pub give_up {ℓ} : {A : Type ℓ} → Check A
give_up c = refused c

-- `err->code = UCL_SCHEMA_OK`
abbrev pub reset_error : Check (Unit {0})
reset_error c = accepted tt schema_ok

abbrev pub no_check : Check (Unit {0})
no_check c = accepted tt c

abbrev pub require : Bool → Code → Check (Unit {0})
require b e = if b then no_check else create_error e

-- A loop that ends at the first false
unfoldable pub each {ℓ} : {A : Type ℓ} → (A → Check (Unit {0})) → List A → Check (Unit {0})
each f [] = no_check
each f (x ∷ xs) = f x >> each f xs
