-- ===== src/Schema/Says.antt =====
-- The verdict of a check, whatever the error was before it: rules for the pieces that the functions of
-- src/ucl_schema.c are made of.
use libucl.Base.{
  ℕ, suc, ◌≡◌, refl, ap, ◌∙◌, Bool, true, false, ◌&&◌, ◌||◌, if◌then◌else◌, List, [], ◌∷◌, All,
}
use libucl.Schema.Checks.{
  Code, Verdict, accepted, refused, Check, continue, ◌>>=◌, ◌>>◌, outcome, attempt, each, require,
  no_check,
}

abbrev pub verdict : Bool → Code → Verdict (Unit {0})
verdict b code = if b then accepted tt code else refused code

-- The verdict is this Boolean, with some error.
abbrev pub Decided : Verdict (Unit {0}) → Bool → Type 0
Decided v b = (code' : Code) × (v ≡ verdict b code')

-- The check returns this Boolean, whatever the error was.
abbrev pub Says : Check (Unit {0}) → Bool → Type 0
Says m b = (code : Code) → Decided (m code) b

abbrev pub Yields {ℓ} : {A : Type ℓ} → Check A → A → Type ℓ
Yields m a = (code : Code) → (code' : Code) × (m code ≡ accepted a code')

pub then-Says : (m k : Check (Unit {0})) (a b : Bool) → Says m a → Says k b → Says (m >> k) (a && b)
then-Says m k true b hm hk code =
    let (c, e) = hm code in let (d, e') = hk c in (d, ap (continue (λ _. k)) e ∙ e')
then-Says m k false b hm hk code = let (c, e) = hm code in (c, ap (continue (λ _. k)) e)

pub bind-Says {ℓ} :
    {A : Type ℓ} (m : Check A) (f : A → Check (Unit {0})) (a : A) (b : Bool)
    → Yields m a
    → Says (f a) b
    → Says (m >>= f) b
bind-Says m f a b hm hf code =
    let (c, e) = hm code in let (d, e') = hf c in (d, ap (continue f) e ∙ e')

pub bind-Yields {ℓ κ} :
    {A : Type ℓ} {B : Type κ} (m : Check A) (f : A → Check B) (a : A) (b : B)
    → Yields m a
    → Yields (f a) b
    → Yields (m >>= f) b
bind-Yields m f a b hm hf code =
    let (c, e) = hm code in let (d, e') = hf c in (d, ap (continue f) e ∙ e')

pub attempt-Yields : (m : Check (Unit {0})) (b : Bool) → Says m b → Yields (attempt m) b
attempt-Yields m true h code = let (c, e) = h code in (c, ap outcome e)
attempt-Yields m false h code = let (c, e) = h code in (c, ap outcome e)

pub require-Says : (b : Bool) (e : Code) → Says (require b e) b
require-Says true e code = (code, refl)
require-Says false e code = (e, refl)

pub no_check-Says : Says no_check true
no_check-Says code = (code, refl)

unfoldable pub all {ℓ} : {A : Type ℓ} → (A → Bool) → List A → Bool
all p [] = true
all p (x ∷ xs) = p x && all p xs

unfoldable pub any {ℓ} : {A : Type ℓ} → (A → Bool) → List A → Bool
any p [] = false
any p (x ∷ xs) = p x || any p xs

-- For how many the test holds
unfoldable pub count {ℓ} : {A : Type ℓ} → (A → Bool) → List A → ℕ
count p [] = 0
count p (x ∷ xs) = let rest = count p xs in if p x then suc rest else rest

pub each-AllSay :
    {A : Type 0} (f : A → Check (Unit {0})) (p : A → Bool) (xs : List A)
    → All (λ x. Says (f x) (p x)) xs
    → Says (each f xs) (all p xs)
unfolding each all
each-AllSay f p [] h = no_check-Says
each-AllSay f p (x ∷ xs) h =
    then-Says (f x) (each f xs) (p x) (all p xs) h.0 (each-AllSay f p xs h.1)

all_say :
    {A : Type 0} (f : A → Check (Unit {0})) (p : A → Bool) (xs : List A)
    → ((x : A) → Says (f x) (p x))
    → All (λ x. Says (f x) (p x)) xs
all_say f p [] h = tt
all_say f p (x ∷ xs) h = (h x, all_say f p xs h)

pub each-Says :
    {A : Type 0} (f : A → Check (Unit {0})) (p : A → Bool) (xs : List A)
    → ((x : A) → Says (f x) (p x))
    → Says (each f xs) (all p xs)
each-Says f p xs h = each-AllSay f p xs (all_say f p xs h)
