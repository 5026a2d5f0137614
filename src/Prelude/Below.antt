-- ===== src/Prelude/Below.antt =====
-- A Boolean test on all the numbers below a bound.
use Prim.Native.Nat.{ℕ, zero, suc, ◌<◌}
use mathlib.Core.Path.{◌≡◌, subst}
use mathlib.Core.Logic.{inl, inr}
use mathlib.Core.Bool.{Bool, true, ◌&&◌}
use native.Mathlib.Omega.{arith}
use ps2eth.Prelude.Tests.{◌==◌, Bool-cases}

-- A test that holds of every number below `n`.
abbrev pub all_below : (n : ℕ) → (ℕ → Bool) → Bool
all_below zero p = true
all_below (suc n) p = p n && all_below n p

pub at-all_below : (n : ℕ) (p : ℕ → Bool) → all_below n p ≡ true → (k : ℕ) → k < n → p k ≡ true
at-all_below zero p h k l = absurd (omega (arith, l))
at-all_below (suc n) p h k l = elim (Bool-cases (n == k)) [
  | inl e ↦ let q : n ≡ k = ground (arith, e) in subst (λ t. p t ≡ true) q (ground (arith, h))
  | inr e ↦ at-all_below n p (ground (arith, h)) k (ground (arith, e, l))
]
