-- ===== src/Numbers/Integers.antt =====
-- Integers over the native numbers, with what the extended Euclidean algorithm of tlslite/utils/cryptomath.py does to
-- them, and the two parts of an integer.
use tls_dvnizk.Base.{ℕ, suc, ◌+◌, ◌-◌, ◌*◌, ◌%◌, ◌≡◌, ltb, if◌then◌else◌, arith}
use tls_dvnizk.Base.Numbers.{sub_mod}

pub data ℤ : Type 0 where
  pos negsuc : ℕ → ℤ

-- `m - n`
unfoldable pub minus : ℕ → ℕ → ℤ
minus m n = if ltb m n then negsuc (n - m - 1) else pos (m - n)

-- `q * z`
unfoldable pub scale : ℕ → ℤ → ℤ
scale q (pos n) = pos (q * n)
scale q (negsuc n) = minus 0 (q * suc n)

unfoldable pub subtract : ℤ → ℤ → ℤ
subtract (pos m) (pos n) = minus m n
subtract (pos m) (negsuc n) = pos (m + suc n)
subtract (negsuc m) (pos n) = negsuc (m + n)
subtract (negsuc m) (negsuc n) = minus (suc n) (suc m)

-- `z % b`, which in Python is never negative.
unfoldable pub mod_of : ℤ → ℕ → ℕ
mod_of (pos n) b = n % b
mod_of (negsuc n) b = sub_mod 0 (suc n) b

-- A number is its first part less its second.
abbrev pub up : ℤ → ℕ
up (pos n) = n
up (negsuc n) = 0

abbrev pub down : ℤ → ℕ
down (pos n) = 0
down (negsuc n) = suc n

up-minus : (m n : ℕ) → up (minus m n) + n ≡ m + down (minus m n)
unfolding minus
up-minus m n = ground arith

up-scale : (q : ℕ) (z : ℤ) → up (scale q z) + q * down z ≡ q * up z + down (scale q z)
unfolding scale
up-scale q (pos n) = omega arith
up-scale q (negsuc n) = omega (arith, up-minus 0 (q * suc n))

up-subtract : (x y : ℤ) → up (subtract x y) + down x + up y ≡ up x + down y + down (subtract x y)
unfolding subtract
up-subtract (pos m) (pos n) = omega (arith, up-minus m n)
up-subtract (pos m) (negsuc n) = omega arith
up-subtract (negsuc m) (pos n) = omega arith
up-subtract (negsuc m) (negsuc n) = omega (arith, up-minus (suc n) (suc m))

-- The parts of `x - q * y`.
pub subtract-scale :
    (q : ℕ) (x y : ℤ)
    → up (subtract x (scale q y)) + down x + q * up y
      ≡ down (subtract x (scale q y)) + up x + q * down y
subtract-scale q x y = omega (arith, up-subtract x (scale q y), up-scale q y)
