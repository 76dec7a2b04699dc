-- ===== src/Base/Power.antt =====
-- Python's `pow(a, e, m)`.
use Prim.Native.Nat.{ℕ, zero, suc, ◌+◌, ◌*◌, ◌/◌, ◌%◌, ◌^◌, ◌≤◌, ◌<◌}
use mathlib.Core.Path.{◌≡◌, sym, ap, subst, ◌∙◌}
use mathlib.Core.Logic.{inl, inr}
use mathlib.Core.Bool.{false}
use native.Mathlib.Omega.{arith}
use native.Mathlib.Nat.{pow-suc, pow-zero, mul_comm, mul_assoc, div-add-mod, add-mul-mod_self_left}
use tls_dvnizk.Base.Tests.{◌==◌, if◌then◌else◌, Bool-cases}

-- Square and multiply; each round halves the exponent, so the exponent itself is fuel enough.
square_multiply : ℕ → ℕ → ℕ → ℕ → ℕ
square_multiply zero a e m = 1 % m
square_multiply (suc fuel) a e m =
    let rest = square_multiply fuel (a * a % m) (e / 2) m in
    if e == 0 then 1 % m else (if e % 2 == 0 then rest else a * rest % m)

unfoldable pub pow_mod : ℕ → ℕ → ℕ → ℕ
unfolding square_multiply
pow_mod a e m = square_multiply e a e m

pub mod-mul : (a b m : ℕ) → (a % m * b) % m ≡ (a * b) % m
mod-mul a b m =
    sym (add-mul-mod_self_left (a % m * b) m (a / m * b))
    ∙ ap (λ (t : ℕ). t % m) (omega (arith, ap (λ (t : ℕ). t * b) (div-add-mod a m)))

pub mul-mod : (a b m : ℕ) → (a * (b % m)) % m ≡ (a * b) % m
mul-mod a b m =
    ap (λ (t : ℕ). t % m) (mul_comm a (b % m))
    ∙ mod-mul b a m
    ∙ ap (λ (t : ℕ). t % m) (mul_comm b a)

pow-mod : (a k m : ℕ) → (a % m) ^ k % m ≡ a ^ k % m
pow-mod a zero m = ap (λ (t : ℕ). t % m) (pow-zero (a % m) ∙ sym (pow-zero a))
pow-mod a (suc k) m =
    ap (λ (t : ℕ). t % m) (pow-suc (a % m) k)
    ∙ mul-mod ((a % m) ^ k) a m
    ∙ sym (mod-mul ((a % m) ^ k) a m)
    ∙ ap (λ (t : ℕ). (t * a) % m) (pow-mod a k m)
    ∙ mod-mul (a ^ k) a m
    ∙ ap (λ (t : ℕ). t % m) (sym (pow-suc a k))

pow-double : (a k : ℕ) → (a * a) ^ k ≡ a ^ (k + k)
pow-double a zero = pow-zero (a * a) ∙ sym (pow-zero a)
pow-double a (suc k) =
    pow-suc (a * a) k
    ∙ ap (λ (t : ℕ). t * (a * a)) (pow-double a k)
    ∙ sym (mul_assoc (a ^ (k + k)) a a)
    ∙ ap (λ (t : ℕ). t * a) (sym (pow-suc a (k + k)))
    ∙ sym (pow-suc a (suc (k + k)))
    ∙ ap (λ (t : ℕ). a ^ t) (omega arith)

nonzero : (e : ℕ) → (suc e == 0) ≡ false
nonzero e = ground arith

square_multiply_lem : (fuel a e m : ℕ) → e ≤ fuel → square_multiply fuel a e m ≡ a ^ e % m
unfolding square_multiply
square_multiply_lem zero a zero m h = ap (λ (t : ℕ). t % m) (sym (pow-zero a))
square_multiply_lem zero a (suc e) m h = absurd (omega arith)
square_multiply_lem (suc fuel) a zero m h = ap (λ (t : ℕ). t % m) (sym (pow-zero a))
square_multiply_lem (suc fuel) a (suc e) m h =
    let halved : square_multiply fuel (a * a % m) (suc e / 2) m ≡ a ^ (suc e / 2 + suc e / 2) % m =
      square_multiply_lem fuel (a * a % m) (suc e / 2) m (omega arith)
      ∙ pow-mod (a * a) (suc e / 2) m
      ∙ ap (λ (t : ℕ). t % m) (pow-double a (suc e / 2)) in
    elim (Bool-cases (suc e % 2 == 0)) [
      | inl even ↦ rw (nonzero e, even) (halved ∙ ap (λ (t : ℕ). a ^ t % m) (ground arith))
      | inr odd ↦
          rw (nonzero e, odd)
            (ap (λ (t : ℕ). (a * t) % m) halved
              ∙ mul-mod a (a ^ (suc e / 2 + suc e / 2)) m
              ∙ ap (λ (t : ℕ). t % m)
                  (mul_comm a (a ^ (suc e / 2 + suc e / 2))
                    ∙ sym (pow-suc a (suc e / 2 + suc e / 2)))
              ∙ ap (λ (t : ℕ). a ^ t % m) (ground arith))
    ]

-- `pow_mod` is the power modulo `m`.
pub pow_mod_lem : (a e m : ℕ) → pow_mod a e m ≡ a ^ e % m
unfolding pow_mod
pow_mod_lem a e m = square_multiply_lem e a e m (omega arith)

times_one : (x y : ℕ) → y ≡ 1 → x ≡ x * y
times_one x y e = subst (λ (t : ℕ). x ≡ x * t) (sym e) (omega arith)

pow-add : (a m n : ℕ) → a ^ (m + n) ≡ a ^ m * a ^ n
pow-add a m zero =
    ap (λ (t : ℕ). a ^ t) {x = m + 0} {y = m} (omega arith) ∙ times_one (a ^ m) (a ^ 0) (pow-zero a)
pow-add a m (suc n) =
    ap (λ (t : ℕ). a ^ t) (omega arith)
    ∙ pow-suc a (m + n)
    ∙ ap (λ (t : ℕ). t * a) (pow-add a m n)
    ∙ mul_assoc (a ^ m) (a ^ n) a
    ∙ ap (λ (t : ℕ). a ^ m * t) (sym (pow-suc a n))

pow-pow : (a m n : ℕ) → (a ^ m) ^ n ≡ a ^ (m * n)
pow-pow a m zero = pow-zero (a ^ m) ∙ sym (pow-zero a) ∙ ap (λ (t : ℕ). a ^ t) (omega arith)
pow-pow a m (suc n) =
    pow-suc (a ^ m) n
    ∙ ap (λ (t : ℕ). t * a ^ m) (pow-pow a m n)
    ∙ sym (pow-add a (m * n) m)
    ∙ ap (λ (t : ℕ). a ^ t) (omega arith)

-- Powers of powers, and products of powers, modulo `m`.
pub pow_mod-pow_mod : (a k n m : ℕ) → pow_mod (pow_mod a k m) n m ≡ a ^ (k * n) % m
pow_mod-pow_mod a k n m =
    pow_mod_lem (pow_mod a k m) n m
    ∙ ap (λ (t : ℕ). t ^ n % m) (pow_mod_lem a k m)
    ∙ pow-mod (a ^ k) n m
    ∙ ap (λ (t : ℕ). t % m) (pow-pow a k n)

pub pow_mod_swap : (a k n m : ℕ) → pow_mod (pow_mod a k m) n m ≡ pow_mod (pow_mod a n m) k m
pow_mod_swap a k n m =
    pow_mod-pow_mod a k n m
    ∙ ap (λ (t : ℕ). a ^ t % m) (mul_comm k n)
    ∙ sym (pow_mod-pow_mod a n k m)

pub pow_mod-lt : (a k m : ℕ) → 1 ≤ m → pow_mod a k m < m
pow_mod-lt a k m h = omega (arith, pow_mod_lem a k m)

pub pow_mod-mul : (a k n m : ℕ) → pow_mod (pow_mod a k m) n m ≡ pow_mod a (k * n) m
pow_mod-mul a k n m = pow_mod-pow_mod a k n m ∙ sym (pow_mod_lem a (k * n) m)

pub pow_mod-add : (a k n m : ℕ) → (pow_mod a k m * pow_mod a n m) % m ≡ pow_mod a (k + n) m
pow_mod-add a k n m =
    ap (λ (t : ℕ). (t * pow_mod a n m) % m) (pow_mod_lem a k m)
    ∙ mod-mul (a ^ k) (pow_mod a n m) m
    ∙ ap (λ (t : ℕ). (a ^ k * t) % m) (pow_mod_lem a n m)
    ∙ mul-mod (a ^ k) (a ^ n) m
    ∙ ap (λ (t : ℕ). t % m) (sym (pow-add a k n))
    ∙ sym (pow_mod_lem a (k + n) m)
