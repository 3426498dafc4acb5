-- ===== src/Msgpack/Outcome.antt =====
-- What a run of the MessagePack reader of src/ucl_msgpack.c comes to.
use libucl.Base.{Bool, true, false, if◌then◌else◌, ◌≡◌, refl, none, some}
use libucl.Store.{Error, Parser}

-- The ways in which the C program leaves its defined behaviour or stops at an assertion.
pub data Fault : Type 0 where
  assertion null_pointer overread negative_remain : Fault

-- `stuck` is no outcome of the program: the fuel of its loop ran out.
pub data Outcome {ℓ} (A : Type ℓ) : Type ℓ where
  ok : A → Outcome A
  err : Error → Outcome A
  fault : Fault → Outcome A
  stuck : Outcome A

infixl 5 ◌>>=◌
abbrev pub ◌>>=◌ {ℓ κ} : {A : Type ℓ} {B : Type κ} → Outcome A → (A → Outcome B) → Outcome B
ok a >>= f = f a
err e >>= f = err e
fault x >>= f = fault x
stuck >>= f = stuck

-- `ucl_create_err` and `return false`: only the first error is kept.
abbrev pub fail {ℓ} : {A : Type ℓ} → Parser → Error → Outcome A
fail p e = elim p.err [ none ↦ err e | some e' ↦ err e' ]

-- Every fault but a read past the end of the input
abbrev pub IsInside : Fault → Type 0
IsInside overread = ⊥
IsInside assertion = Unit
IsInside null_pointer = Unit
IsInside negative_remain = Unit

-- The postcondition `P` on every result; a run out of fuel, or past the end of the input, meets none.
abbrev pub Ensures {ℓ} : {A : Type ℓ} → (A → Type 0) → Outcome A → Type 0
Ensures P (ok a) = P a
Ensures P (err e) = Unit
Ensures P (fault x) = IsInside x
Ensures P stuck = ⊥

pub Ensures-bind {ℓ κ} :
    {A : Type ℓ} {B : Type κ} (P : A → Type 0) (Q : B → Type 0) (m : Outcome A) (f : A → Outcome B)
    → Ensures P m
    → ((a : A) → P a → Ensures Q (f a))
    → Ensures Q (m >>= f)
Ensures-bind P Q (ok a) f h k = k a h
Ensures-bind P Q (err e) f h k = tt
Ensures-bind P Q (fault x) f h k = h
Ensures-bind P Q stuck f h k = h

pub Ensures-fail {ℓ} : {A : Type ℓ} (P : A → Type 0) (p : Parser) (e : Error) → Ensures P (fail p e)
Ensures-fail P p e = elim p.err as (λ o. Ensures P (elim o [ none ↦ err e | some e' ↦ err e' ])) [
  | none ↦ tt
  | some e' ↦ tt
]

pub Ensures-if {ℓ} :
    {A : Type ℓ} (P : A → Type 0) (b : Bool) (m n : Outcome A)
    → (b ≡ true → Ensures P m)
    → (b ≡ false → Ensures P n)
    → Ensures P (if b then m else n)
Ensures-if P true m n h k = h refl
Ensures-if P false m n h k = k refl

pub Ensures-weaken {ℓ} :
    {A : Type ℓ} (P Q : A → Type 0) (m : Outcome A)
    → Ensures P m
    → ((a : A) → P a → Q a)
    → Ensures Q m
Ensures-weaken P Q (ok a) h k = k a h
Ensures-weaken P Q (err e) h k = tt
Ensures-weaken P Q (fault x) h k = h
Ensures-weaken P Q stuck h k = h
