-- ===== src/Base/Digits.antt =====
-- Laws of `bit_or`, `bit_xor` and `bit_and` at variables, from their definition on binary digits.
use Prim.Native.Nat.{
  ℕ, zero, suc, ◌+◌, ◌*◌, ◌/◌, ◌%◌, ◌^◌, ◌≤◌, ◌<◌, min, max, bit_and, bit_or, bit_xor, digits,
  differ, bit_and-bitwise, bit_or-bitwise, bit_xor-bitwise,
}
use mathlib.Core.Path.{◌≡◌, refl, sym, ap, ap₂, ◌∙◌}
use native.Mathlib.Omega.{arith}
use native.Mathlib.Nat.{
  pow-suc, div-div-eq-div-mul, div-one, pow-zero, lt-mul-div-succ, one-le-pow, div-eq_of_lt,
}

-- A digit-wise operation: `z` is what it gives once the first number has run out.
module _ (z : ℕ → ℕ) (f : ℕ → ℕ → ℕ) where
  -- Its law for a first number 0, and that it makes digits of digits.
  record IsDigitwise : Type 0 where
    run_out : (b : ℕ) → z b ≡ z (b / 2) * 2 + f 0 (b % 2)
    digit : (a b : ℕ) → f (a % 2) (b % 2) < 2

  enough : (n m a b : ℕ) → a ≤ n → a ≤ m → digits z f n a b ≡ digits z f m a b
  enough zero zero a b p q = refl
  enough zero (suc m) zero b p q = refl
  enough zero (suc m) (suc a) b p q = absurd (omega arith)
  enough (suc n) zero zero b p q = refl
  enough (suc n) zero (suc a) b p q = absurd (omega arith)
  enough (suc n) (suc m) zero b p q = refl
  enough (suc n) (suc m) (suc a) b p q =
      ap (λ (t : ℕ). t * 2 + f (suc a % 2) (b % 2))
        (enough n m (suc a / 2) (b / 2) (omega arith) (omega arith))

  lowest :
      IsDigitwise
      → (a b : ℕ) → digits z f a a b ≡ digits z f (a / 2) (a / 2) (b / 2) * 2 + f (a % 2) (b % 2)
  lowest law zero b = law.run_out b
  lowest law (suc a) b =
      ap (λ (t : ℕ). t * 2 + f (suc a % 2) (b % 2))
        (enough a (suc a / 2) (suc a / 2) (b / 2) (omega arith) (omega arith))

  halved : IsDigitwise → (a b : ℕ) → digits z f a a b / 2 ≡ digits z f (a / 2) (a / 2) (b / 2)
  halved law a b = omega (arith, lowest law a b, law.digit a b)

  -- Shifting right distributes over the operation.
  shifted :
      IsDigitwise
      → (k a b : ℕ) → digits z f a a b / 2 ^ k ≡ digits z f (a / 2 ^ k) (a / 2 ^ k) (b / 2 ^ k)
  shifted law zero a b =
      unshift (digits z f a a b)
      ∙ ap₂ (λ (x y : ℕ). digits z f x x y) (sym (unshift a)) (sym (unshift b))
    where
      unshift : (x : ℕ) → x / 2 ^ zero ≡ x
      unshift x = ap (λ (t : ℕ). x / t) (pow-zero 2) ∙ div-one x
  shifted law (suc k) a b =
      step (digits z f a a b)
      ∙ ap (λ (t : ℕ). t / 2) (shifted law k a b)
      ∙ halved law (a / 2 ^ k) (b / 2 ^ k)
      ∙ ap₂ (λ (x y : ℕ). digits z f x x y) (sym (step a)) (sym (step b))
    where
      step : (x : ℕ) → x / 2 ^ suc k ≡ x / 2 ^ k / 2
      step x = ap (λ (t : ℕ). x / t) (pow-suc 2 k) ∙ sym (div-div-eq-div-mul x (2 ^ k) 2)

  -- The same for an operation that is defined so.
  module _ (op : ℕ → ℕ → ℕ) (by_digits : (a b : ℕ) → op a b ≡ digits z f a a b) where
    op_step : IsDigitwise → (a b : ℕ) → op a b ≡ op (a / 2) (b / 2) * 2 + f (a % 2) (b % 2)
    op_step law a b =
        by_digits a b
        ∙ lowest law a b
        ∙ ap (λ (t : ℕ). t * 2 + f (a % 2) (b % 2)) (sym (by_digits (a / 2) (b / 2)))

    op_shift : IsDigitwise → (k a b : ℕ) → op a b / 2 ^ k ≡ op (a / 2 ^ k) (b / 2 ^ k)
    op_shift law k a b =
        ap (λ (t : ℕ). t / 2 ^ k) (by_digits a b)
        ∙ shifted law k a b
        ∙ sym (by_digits (a / 2 ^ k) (b / 2 ^ k))

or_digitwise : IsDigitwise (λ b. b) max
or_digitwise = record { run_out = λ b. omega arith; digit = λ a b. omega arith }

and_digitwise : IsDigitwise (λ b. zero) min
and_digitwise = record { run_out = λ b. omega arith; digit = λ a b. omega arith }

differ-lt : (x y : ℕ) → x < 2 → y < 2 → differ x y < 2
differ-lt zero y p q = q
differ-lt (suc x) zero p q = p
differ-lt (suc zero) (suc zero) p q = omega arith
differ-lt (suc zero) (suc (suc y)) p q = absurd (omega arith)
differ-lt (suc (suc x)) (suc y) p q = absurd (omega arith)

xor_digitwise : IsDigitwise (λ b. b) differ
xor_digitwise = record {
  run_out = λ b. omega arith;
  digit = λ a b. differ-lt (a % 2) (b % 2) (omega arith) (omega arith);
}

pub bit_or_step : (a b : ℕ) → bit_or a b ≡ bit_or (a / 2) (b / 2) * 2 + max (a % 2) (b % 2)
bit_or_step a b = op_step (λ b. b) max bit_or (λ x y. bit_or-bitwise x y) or_digitwise a b

pub bit_or_shift : (k a b : ℕ) → bit_or a b / 2 ^ k ≡ bit_or (a / 2 ^ k) (b / 2 ^ k)
bit_or_shift k a b = op_shift (λ b. b) max bit_or (λ x y. bit_or-bitwise x y) or_digitwise k a b

pub bit_xor_step : (a b : ℕ) → bit_xor a b ≡ bit_xor (a / 2) (b / 2) * 2 + differ (a % 2) (b % 2)
bit_xor_step a b = op_step (λ b. b) differ bit_xor (λ x y. bit_xor-bitwise x y) xor_digitwise a b

pub bit_xor_shift : (k a b : ℕ) → bit_xor a b / 2 ^ k ≡ bit_xor (a / 2 ^ k) (b / 2 ^ k)
bit_xor_shift k a b =
    op_shift (λ b. b) differ bit_xor (λ x y. bit_xor-bitwise x y) xor_digitwise k a b

pub bit_and_step : (a b : ℕ) → bit_and a b ≡ bit_and (a / 2) (b / 2) * 2 + min (a % 2) (b % 2)
bit_and_step a b = op_step (λ b. zero) min bit_and (λ x y. bit_and-bitwise x y) and_digitwise a b

pub bit_and_shift : (k a b : ℕ) → bit_and a b / 2 ^ k ≡ bit_and (a / 2 ^ k) (b / 2 ^ k)
bit_and_shift k a b =
    op_shift (λ b. zero) min bit_and (λ x y. bit_and-bitwise x y) and_digitwise k a b

-- Below a power of two the operations stay below it.
below_of_shift : (k x : ℕ) → x / 2 ^ k ≡ 0 → x < 2 ^ k
below_of_shift k x e =
    omega
      (arith, lt-mul-div-succ x (one-le-pow k 2 (omega arith)), ap (λ (t : ℕ). 2 ^ k * (t + 1)) e)

pub bit_xor-lt : (k a b : ℕ) → a < 2 ^ k → b < 2 ^ k → bit_xor a b < 2 ^ k
bit_xor-lt k a b p q =
    below_of_shift k (bit_xor a b)
      (bit_xor_shift k a b ∙ ap₂ bit_xor (div-eq_of_lt p) (div-eq_of_lt q))

pub bit_or-lt : (k a b : ℕ) → a < 2 ^ k → b < 2 ^ k → bit_or a b < 2 ^ k
bit_or-lt k a b p q =
    below_of_shift k (bit_or a b)
      (bit_or_shift k a b ∙ ap₂ bit_or (div-eq_of_lt p) (div-eq_of_lt q))

differ-zero : (x y : ℕ) → differ x y ≡ 0 → x ≡ y
differ-zero zero y e = sym e
differ-zero (suc x) zero e = e
differ-zero (suc x) (suc y) e = ap suc (differ-zero x y e)

differ_self : (x : ℕ) → differ x x ≡ 0
differ_self zero = refl
differ_self (suc x) = differ_self x

halves_differ : (a b : ℕ) → bit_xor a b ≡ 0 → (bit_xor (a / 2) (b / 2) ≡ 0) × (a % 2 ≡ b % 2)
halves_differ a b e = (
  omega (arith, bit_xor_step a b, e),
  differ-zero (a % 2) (b % 2) (omega (arith, bit_xor_step a b, e)),
)

same_halves : (a b : ℕ) → a / 2 ≡ b / 2 → a % 2 ≡ b % 2 → a ≡ b
same_halves a b p q = omega arith

xor_zero_fuel : (n a b : ℕ) → a + b ≤ n → bit_xor a b ≡ 0 → a ≡ b
xor_zero_fuel zero a b h e = omega arith
xor_zero_fuel (suc n) zero zero h e = refl
xor_zero_fuel (suc n) (suc a) b h e =
    same_halves (suc a) b
      (xor_zero_fuel n (suc a / 2) (b / 2) (omega arith) ((halves_differ (suc a) b e).0))
      ((halves_differ (suc a) b e).1)
xor_zero_fuel (suc n) zero (suc b) h e =
    same_halves zero (suc b)
      (xor_zero_fuel n (zero / 2) (suc b / 2) (omega arith) ((halves_differ zero (suc b) e).0))
      ((halves_differ zero (suc b) e).1)

-- Only equal numbers differ in no digit.
pub bit_xor-eq_zero : (a b : ℕ) → bit_xor a b ≡ 0 → a ≡ b
bit_xor-eq_zero a b e = xor_zero_fuel (a + b) a b (omega arith) e

xor_self_fuel : (n a : ℕ) → a ≤ n → bit_xor a a ≡ 0
xor_self_fuel zero zero h = refl
xor_self_fuel zero (suc a) h = absurd (omega arith)
xor_self_fuel (suc n) a h =
    omega (arith, bit_xor_step a a, xor_self_fuel n (a / 2) (omega arith), differ_self (a % 2))

pub bit_xor_self : (a : ℕ) → bit_xor a a ≡ 0
bit_xor_self a = xor_self_fuel a a (omega arith)

or_halves : (a b : ℕ) → (a / 2 ≡ 0) × (b / 2 ≡ 0) → bit_or a b ≡ 0 → (a ≡ 0) × (b ≡ 0)
or_halves a b (p, q) e =
    (omega (arith, p, bit_or_step a b, e), omega (arith, q, bit_or_step a b, e))

or_zero_fuel : (n a b : ℕ) → a + b ≤ n → bit_or a b ≡ 0 → (a ≡ 0) × (b ≡ 0)
or_zero_fuel zero a b h e = (omega arith, omega arith)
or_zero_fuel (suc n) zero zero h e = (refl, refl)
or_zero_fuel (suc n) (suc a) b h e =
    or_halves (suc a) b
      (or_zero_fuel n (suc a / 2) (b / 2) (omega arith) (omega (arith, bit_or_step (suc a) b, e))) e
or_zero_fuel (suc n) zero (suc b) h e =
    or_halves zero (suc b)
      (or_zero_fuel n (zero / 2) (suc b / 2) (omega arith)
        (omega (arith, bit_or_step zero (suc b), e)))
      e

-- Only zeros have no digit between them.
pub bit_or-eq_zero : (a b : ℕ) → bit_or a b ≡ 0 → (a ≡ 0) × (b ≡ 0)
bit_or-eq_zero a b e = or_zero_fuel (a + b) a b (omega arith) e

and_zero_fuel : (n a : ℕ) → a ≤ n → bit_and a 0 ≡ 0
and_zero_fuel zero zero h = refl
and_zero_fuel zero (suc a) h = absurd (omega arith)
and_zero_fuel (suc n) a h = omega (arith, bit_and_step a 0, and_zero_fuel n (a / 2) (omega arith))

pub bit_and_zero : (a : ℕ) → bit_and a 0 ≡ 0
bit_and_zero a = and_zero_fuel a a (omega arith)

differ_cancel : (x y : ℕ) → x < 2 → y < 2 → differ (differ x y) y ≡ x
differ_cancel zero zero p q = refl
differ_cancel zero (suc zero) p q = refl
differ_cancel (suc zero) zero p q = refl
differ_cancel (suc zero) (suc zero) p q = refl
differ_cancel zero (suc (suc y)) p q = absurd (omega arith)
differ_cancel (suc zero) (suc (suc y)) p q = absurd (omega arith)
differ_cancel (suc (suc x)) y p q = absurd (omega arith)

-- Each half of what the operation gives.
xor_half : (a b : ℕ) → bit_xor a b / 2 ≡ bit_xor (a / 2) (b / 2)
xor_half a b =
    omega (arith, bit_xor_step a b, differ-lt (a % 2) (b % 2) (omega arith) (omega arith))

xor_last : (a b : ℕ) → bit_xor a b % 2 ≡ differ (a % 2) (b % 2)
xor_last a b =
    omega (arith, bit_xor_step a b, differ-lt (a % 2) (b % 2) (omega arith) (omega arith))

xor_cancel_step :
    (a b : ℕ) → bit_xor (bit_xor (a / 2) (b / 2)) (b / 2) ≡ a / 2 → bit_xor (bit_xor a b) b ≡ a
xor_cancel_step a b e =
    bit_xor_step (bit_xor a b) b
    ∙ ap₂ (λ (h l : ℕ). h * 2 + l) (ap (λ (t : ℕ). bit_xor t (b / 2)) (xor_half a b) ∙ e)
        (ap (λ (t : ℕ). differ t (b % 2)) (xor_last a b)
          ∙ differ_cancel (a % 2) (b % 2) (omega arith) (omega arith))
    ∙ whole a
  where
    whole : (x : ℕ) → x / 2 * 2 + x % 2 ≡ x
    whole x = omega arith

xor_cancel_fuel : (n a b : ℕ) → a + b ≤ n → bit_xor (bit_xor a b) b ≡ a
xor_cancel_fuel zero zero zero h = refl
xor_cancel_fuel zero zero (suc b) h = absurd (omega arith)
xor_cancel_fuel zero (suc a) b h = absurd (omega arith)
xor_cancel_fuel (suc n) zero zero h = refl
xor_cancel_fuel (suc n) zero (suc b) h =
    xor_cancel_step zero (suc b) (xor_cancel_fuel n (zero / 2) (suc b / 2) (omega arith))
xor_cancel_fuel (suc n) (suc a) b h =
    xor_cancel_step (suc a) b (xor_cancel_fuel n (suc a / 2) (b / 2) (omega arith))

-- The same number twice changes nothing.
pub bit_xor_cancel : (a b : ℕ) → bit_xor (bit_xor a b) b ≡ a
bit_xor_cancel a b = xor_cancel_fuel (a + b) a b (omega arith)

differ_comm : (x y : ℕ) → differ x y ≡ differ y x
differ_comm zero zero = refl
differ_comm zero (suc y) = refl
differ_comm (suc x) zero = refl
differ_comm (suc x) (suc y) = differ_comm x y

xor_comm_fuel : (n a b : ℕ) → a + b ≤ n → bit_xor a b ≡ bit_xor b a
xor_comm_fuel zero zero zero h = refl
xor_comm_fuel zero zero (suc b) h = absurd (omega arith)
xor_comm_fuel zero (suc a) b h = absurd (omega arith)
xor_comm_fuel (suc n) zero zero h = refl
xor_comm_fuel (suc n) zero (suc b) h =
    bit_xor_step zero (suc b)
    ∙ ap₂ (λ (t l : ℕ). t * 2 + l) (xor_comm_fuel n (zero / 2) (suc b / 2) (omega arith))
        (differ_comm (zero % 2) (suc b % 2))
    ∙ sym (bit_xor_step (suc b) zero)
xor_comm_fuel (suc n) (suc a) b h =
    bit_xor_step (suc a) b
    ∙ ap₂ (λ (t l : ℕ). t * 2 + l) (xor_comm_fuel n (suc a / 2) (b / 2) (omega arith))
        (differ_comm (suc a % 2) (b % 2))
    ∙ sym (bit_xor_step b (suc a))

pub bit_xor_comm : (a b : ℕ) → bit_xor a b ≡ bit_xor b a
bit_xor_comm a b = xor_comm_fuel (a + b) a b (omega arith)
