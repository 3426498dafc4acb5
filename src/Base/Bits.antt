-- ===== src/Base/Bits.antt =====
-- Masks on a byte as arithmetic: two functions that agree on every number below a bound, by a run
-- over them.
use Prim.Native.Nat.{ℕ, zero, suc, ◌<◌}
use mathlib.Core.Path.{◌≡◌}
use mathlib.Core.Bool.{Bool, true, false}
use mathlib.Core.Logic.{inl, inr}
use native.Mathlib.Omega.{arith}
use libucl.Base.Tests.{◌==◌, ==_iff, Bool-cases, if◌then◌else◌}

unfoldable pub agrees : (ℕ → ℕ) → (ℕ → ℕ) → ℕ → Bool
agrees f g zero = true
agrees f g (suc k) = let rest = agrees f g k in if f k == g k then rest else false

pub agree_below : (k : ℕ) (f g : ℕ → ℕ) → agrees f g k ≡ true → (i : ℕ) → i < k → f i ≡ g i
unfolding agrees
agree_below zero f g run i lt = absurd (omega arith)
agree_below (suc k) f g run i lt = elim (Bool-cases (f k == g k)) [
  | inr a ↦ absurd (ground (arith, run, a))
  | inl a ↦ elim (Bool-cases (i == k)) [
    | inl b ↦ rw ((==_iff i k).0 b) ((==_iff (f k) (g k)).0 a)
    | inr b ↦ agree_below k f g (ground (arith, run, a)) i (ground (arith, b))
  ]
]
