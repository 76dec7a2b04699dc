-- ===== src/Numbers/Divisors.antt =====
-- tlslite/utils/cryptomath.py: `gcd` and `lcm`.
use tls_dvnizk.Base.{
  ℕ, zero, suc, ◌*◌, ◌/◌, ◌%◌, ◌<◌, min, max, ◌≡◌, subst, inl, inr, false, ◌==◌, if◌then◌else◌,
  Result, ok, err, zero_division, arith,
}
use Prim.Native.Nat.{◌∣◌}
use native.Mathlib.Nat.{dvd_refl, dvd-zero, dvd-mod_iff, dvd_antisymm, mod-lt}
use tls_dvnizk.ConstantTime.CbcCheck.{split_le}

-- Each round makes the second number smaller, so that one more than it is fuel enough.
unfoldable pub gcd_loop : ℕ → ℕ → ℕ → ℕ
gcd_loop zero a b = a
gcd_loop (suc fuel) a b = let rest = gcd_loop fuel b (a % b) in if b == 0 then a else rest

unfoldable pub gcd : ℕ → ℕ → ℕ
gcd a b = gcd_loop (suc (min a b)) (max a b) (min a b)

unfoldable pub lcm : ℕ → ℕ → Result ℕ
lcm a b = if gcd a b == 0 then err zero_division else ok (a * b / gcd a b)

-- The greatest common divisor by what it divides.
pub record IsGcd (g a b : ℕ) : Type 0 where
  pub left : g ∣ a
  pub right : g ∣ b
  pub greatest : (k : ℕ) → k ∣ a → k ∣ b → k ∣ g

pub swap_IsGcd : (g a b : ℕ) → IsGcd g a b → IsGcd g b a
swap_IsGcd g a b h = record { left = h.right; right = h.left; greatest = λ k p q. h.greatest k q p }

pub mod_IsGcd : (g a b : ℕ) → IsGcd g b (a % b) → IsGcd g a b
mod_IsGcd g a b h = record {
  left = (dvd-mod_iff g h.left).0 h.right;
  right = h.left;
  greatest = λ k p q. h.greatest k q ((dvd-mod_iff k q).1 p);
}

positive : (b : ℕ) → (suc b == 0) ≡ false
positive b = ground arith

gcd_loop-IsGcd : (fuel a b : ℕ) → b < fuel → IsGcd (gcd_loop fuel a b) a b
unfolding gcd_loop
gcd_loop-IsGcd zero a b h = absurd (omega arith)
gcd_loop-IsGcd (suc fuel) a zero h = record {
  left = dvd_refl a;
  right = dvd-zero a;
  greatest = λ k p q. p;
}
gcd_loop-IsGcd (suc fuel) a (suc b) h = rw (positive b) (
    mod_IsGcd (gcd_loop fuel (suc b) (a % suc b)) a (suc b)
      (gcd_loop-IsGcd fuel (suc b) (a % suc b) (omega (arith, mod-lt a {m = suc b} (omega arith)))))

gcd_sorted : (a b : ℕ) → IsGcd (gcd a b) (max a b) (min a b)
unfolding gcd
gcd_sorted a b = gcd_loop-IsGcd (suc (min a b)) (max a b) (min a b) (omega arith)

-- `gcd` gives the greatest common divisor of its arguments: it divides both, and all that divides both divides it.
pub gcd-IsGcd : (a b : ℕ) → IsGcd (gcd a b) a b
gcd-IsGcd a b = elim (split_le a b) [
  | inl small ↦ swap_IsGcd (gcd a b) b a (
      subst (λ (m : ℕ). IsGcd (gcd a b) m a) (omega arith)
        (subst (IsGcd (gcd a b) (max a b)) (omega arith) (gcd_sorted a b)))
  | inr big ↦
      subst (λ (m : ℕ). IsGcd (gcd a b) m b) (omega arith)
        (subst (IsGcd (gcd a b) (max a b)) (omega arith) (gcd_sorted a b))
]

-- Two numbers that divide each other are one.
pub gcd_unique : (g d a b : ℕ) → IsGcd g a b → IsGcd d a b → g ≡ d
gcd_unique g d a b h k = dvd_antisymm (k.greatest g h.left h.right) (h.greatest d k.left k.right)
