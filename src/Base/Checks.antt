-- ===== src/Base/Checks.antt =====
-- A Boolean law on all numbers below a bound, by evaluation.
use Prim.Native.Nat.{ℕ, zero, suc, ◌<◌}
use mathlib.Core.Path.{◌≡◌}
use mathlib.Core.Bool.{Bool, true, ◌&&◌}
use native.Mathlib.Omega.{arith}

abbrev pub holds_below : ℕ → (ℕ → Bool) → Bool
holds_below zero law = true
holds_below (suc bound) law = holds_below bound law && law bound

holds_at : (n : ℕ) (p : ℕ → Bool) (x : ℕ) → holds_below n p ≡ true → x < n → p x ≡ true
holds_at zero law x checked lt = absurd (omega arith)
holds_at (suc bound) law x checked lt = ground (arith, holds_at bound law x)

pub checked_below : (n : ℕ) (p : ℕ → Bool) → holds_below n p ≡ true → (x : ℕ) → x < n → p x ≡ true
checked_below n p h x lt = holds_at n p x h lt
