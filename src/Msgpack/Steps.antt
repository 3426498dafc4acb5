-- ===== src/Msgpack/Steps.antt =====
-- Rounds of the reader's loop as a relation, and what they say of `run`.
use libucl.Base.{ℕ, zero, suc, ◌≡◌, ◌≢◌, refl, ap, ◌∙◌, [], ◌∷◌, Bytes}
use libucl.Store.{Config}
use libucl.Msgpack.Outcome.{ok, stuck}
use libucl.Msgpack.Machine.{Machine, step, run_on, run}

-- Rounds of the loop take one machine to the other.
pub data Steps (cfg : Config) (to : Machine) : Machine → Type 0 where
  here : Steps cfg to to
  next :
      {b : ℕ} {tl : Bytes} {from mid : Machine}
      → from.input ≡ b ∷ tl
      → step cfg from b tl ≡ ok mid
      → Steps cfg to mid
      → Steps cfg to from

pub Steps-trans :
    {cfg : Config} {mid to from : Machine}
    → Steps cfg mid from
    → Steps cfg to mid
    → Steps cfg to from
Steps-trans here r = r
Steps-trans (next i s l) r = next i s (Steps-trans l r)

run_on-cons :
    (fuel b : ℕ) (tl : Bytes) (cfg : Config) (m mid to : Machine)
    → step cfg m b tl ≡ ok mid
    → ((fuel' : ℕ) → run fuel' cfg mid ≢ stuck → run fuel' cfg mid ≡ ok to)
    → run_on (b ∷ tl) fuel cfg m ≢ stuck
    → run_on (b ∷ tl) fuel cfg m ≡ ok to
unfolding run_on
run_on-cons zero b tl cfg m mid to s ih h = absurd (h refl)
run_on-cons (suc fuel) b tl cfg m mid to s ih h = rw s (ih fuel (λ e. h (rw s e)))

run_on-nil : (fuel : ℕ) (cfg : Config) (m : Machine) → m.input ≡ [] → run fuel cfg m ≡ ok m
unfolding run_on
run_on-nil fuel cfg m e = rw e

-- Where the fuel is enough, the loop ends in the machine that the rounds lead to.
pub run-Steps :
    {cfg : Config} {to from : Machine} (fuel : ℕ)
    → Steps cfg to from
    → to.input ≡ []
    → run fuel cfg from ≢ stuck
    → run fuel cfg from ≡ ok to
run-Steps {cfg} {to = to} fuel here e h = run_on-nil fuel cfg to e
run-Steps {cfg} {to = to} {from = from} fuel (next {b} {tl} {mid = mid} i s l) e h =
    let at : run fuel cfg from ≡ run_on (b ∷ tl) fuel cfg from =
      ap (λ x. run_on x fuel cfg from) i in
    at ∙ run_on-cons fuel b tl cfg from mid to s (λ f. run-Steps f l e) (λ x. h (at ∙ x))
