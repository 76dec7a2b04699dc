-- ===== src/Base/Bytes.antt =====
-- Python's `bytes` and `bytearray` as lists of numbers, and `int.to_bytes` and `int.from_bytes`.
use Prim.Native.Nat.{ℕ, zero, suc, ◌+◌, ◌*◌, ◌/◌, ◌%◌, ◌^◌, ◌≤◌, ◌<◌}
use mathlib.Core.Bool.{Bool, true, false, ◌&&◌}
use tls_dvnizk.Base.Tests.{◌==◌}
use mathlib.Core.Path.{◌≡◌, refl, ap, ap₂, ◌∙◌}
use mathlib.Core.List.{List, [], ◌∷◌, ◌++◌, foldl}
use native.Mathlib.Omega.{arith}
use native.Mathlib.Nat.{pow-suc}
use tls_dvnizk.Base.Lists.{length, length-append, All, All-append, set}

abbrev pub Bytes : Type 0
Bytes = List ℕ

abbrev pub IsByte : ℕ → Type 0
IsByte b = b < 256

-- `x.to_bytes(n, 'big')`, for an `x` that fits.
unfoldable pub be_bytes : ℕ → ℕ → Bytes
be_bytes zero x = []
be_bytes (suc n) x = be_bytes n (x / 256) ++ ((x % 256) ∷ [])

-- `x.to_bytes(n, 'little')`, for an `x` that fits.
unfoldable pub le_bytes : ℕ → ℕ → Bytes
le_bytes zero x = []
le_bytes (suc n) x = (x % 256) ∷ le_bytes n (x / 256)

-- `int.from_bytes(bs, 'big')`
unfoldable pub be_value : Bytes → ℕ
be_value = foldl (λ acc b. acc * 256 + b) 0

-- `int.from_bytes(bs, 'little')`
unfoldable pub le_value : Bytes → ℕ
le_value [] = 0
le_value (b ∷ bs) = b + 256 * le_value bs

fold_snoc :
    (acc b : ℕ) (bs : Bytes)
    → foldl (λ (a c : ℕ). a * 256 + c) acc (bs ++ (b ∷ []))
      ≡ foldl (λ (a c : ℕ). a * 256 + c) acc bs * 256 + b
fold_snoc acc b [] = refl
fold_snoc acc b (c ∷ bs) = fold_snoc (acc * 256 + c) b bs

pub be_value-snoc : (bs : Bytes) (b : ℕ) → be_value (bs ++ (b ∷ [])) ≡ be_value bs * 256 + b
unfolding be_value
be_value-snoc bs b = fold_snoc 0 b bs

quotient_fits : (n x : ℕ) → x < 256 ^ suc n → x / 256 < 256 ^ n
quotient_fits n x h = omega (arith, pow-suc 256 n)

pub be_value-be_bytes : (n x : ℕ) → x < 256 ^ n → be_value (be_bytes n x) ≡ x
unfolding be_bytes
be_value-be_bytes zero x h = unfold be_value in omega arith
be_value-be_bytes (suc n) x h = omega (
  arith,
  be_value-snoc (be_bytes n (x / 256)) (x % 256),
  be_value-be_bytes n (x / 256) (quotient_fits n x h),
)

pub le_value-le_bytes : (n x : ℕ) → x < 256 ^ n → le_value (le_bytes n x) ≡ x
unfolding le_bytes le_value
le_value-le_bytes zero x h = omega arith
le_value-le_bytes (suc n) x h = omega (arith, le_value-le_bytes n (x / 256) (quotient_fits n x h))

pub length-be_bytes : (n x : ℕ) → length (be_bytes n x) ≡ n
unfolding be_bytes
length-be_bytes zero x = refl
length-be_bytes (suc n) x =
    omega
      (arith, length-append (be_bytes n (x / 256)) ((x % 256) ∷ []), length-be_bytes n (x / 256))

pub length-le_bytes : (n x : ℕ) → length (le_bytes n x) ≡ n
unfolding le_bytes
length-le_bytes zero x = refl
length-le_bytes (suc n) x = ap suc (length-le_bytes n (x / 256))

pub be_bytes-IsByte : (n x : ℕ) → All IsByte (be_bytes n x)
unfolding be_bytes
be_bytes-IsByte zero x = tt
be_bytes-IsByte (suc n) x =
    All-append IsByte (be_bytes n (x / 256)) ((x % 256) ∷ []) (be_bytes-IsByte n (x / 256))
      (omega arith)

pub le_bytes-IsByte : (n x : ℕ) → All IsByte (le_bytes n x)
unfolding le_bytes
le_bytes-IsByte zero x = tt
le_bytes-IsByte (suc n) x = (omega arith, le_bytes-IsByte n (x / 256))

pub le_value-lt : (bs : Bytes) → All IsByte bs → le_value bs < 256 ^ length bs
unfolding le_value
le_value-lt [] h = omega arith
le_value-lt (b ∷ bs) (p, h) = omega (arith, le_value-lt bs h, pow-suc 256 (length bs))

-- The other round trip: a string of bytes is given back by its value.
pub le_bytes-le_value : (bs : Bytes) → All IsByte bs → le_bytes (length bs) (le_value bs) ≡ bs
unfolding le_bytes le_value
le_bytes-le_value [] h = refl
le_bytes-le_value (b ∷ bs) (p, h) =
    ap₂ (λ (x : ℕ) (t : Bytes). x ∷ t) (omega arith)
      (ap (le_bytes (length bs)) (omega arith) ∙ le_bytes-le_value bs h)

-- `bs[i]`, for an index inside.
abbrev pub byte_at : ℕ → Bytes → ℕ
byte_at i [] = 0
byte_at zero (b ∷ bs) = b
byte_at (suc i) (b ∷ bs) = byte_at i bs

pub byte_at-set_self : (i v : ℕ) (bs : Bytes) → i < length bs → byte_at i (set bs i v) ≡ v
byte_at-set_self i v [] h = absurd (omega arith)
byte_at-set_self zero v (b ∷ bs) h = refl
byte_at-set_self (suc i) v (b ∷ bs) h = byte_at-set_self i v bs (omega arith)

pub length-set : (i v : ℕ) (bs : Bytes) → length (set bs i v) ≡ length bs
length-set i v [] = refl
length-set zero v (b ∷ bs) = refl
length-set (suc i) v (b ∷ bs) = ap suc (length-set i v bs)

pub set-IsByte : (i v : ℕ) (bs : Bytes) → IsByte v → All IsByte bs → All IsByte (set bs i v)
set-IsByte i v [] p h = tt
set-IsByte zero v (b ∷ bs) p (q, h) = (p, h)
set-IsByte (suc i) v (b ∷ bs) p (q, h) = (q, set-IsByte i v bs p h)

pub byte_at-IsByte : (i : ℕ) (bs : Bytes) → All IsByte bs → IsByte (byte_at i bs)
byte_at-IsByte i [] h = omega arith
byte_at-IsByte zero (b ∷ bs) (q, h) = q
byte_at-IsByte (suc i) (b ∷ bs) (q, h) = byte_at-IsByte i bs h

-- The last byte bounds the value from both sides.
pub le_value_last :
    (n : ℕ) (bs : Bytes)
    → length bs ≡ suc n
    → All IsByte bs
    → (256 ^ n * byte_at n bs ≤ le_value bs) × (le_value bs < 256 ^ n * (byte_at n bs + 1))
unfolding le_value
le_value_last n [] e h = absurd (omega arith)
le_value_last zero (b ∷ []) e h = omega arith
le_value_last zero (b ∷ c ∷ bs) e h = absurd (omega arith)
le_value_last (suc n) (b ∷ bs) e (p, h) = omega (
  arith,
  le_value_last n bs (omega arith) h,
  ap (λ (t : ℕ). t * byte_at n bs) (pow-suc 256 n),
  pow-suc 256 n,
)

pub le_value_first : (b : ℕ) (bs : Bytes) → IsByte b → le_value (b ∷ bs) % 256 ≡ b
unfolding le_value
le_value_first b bs h = omega arith

-- `==` on bytes
abbrev pub same_bytes : Bytes → Bytes → Bool
same_bytes [] [] = true
same_bytes [] (y ∷ ys) = false
same_bytes (x ∷ xs) [] = false
same_bytes (x ∷ xs) (y ∷ ys) = x == y && same_bytes xs ys

pub same_bytes_refl : (xs : Bytes) → same_bytes xs xs ≡ true
same_bytes_refl [] = refl
same_bytes_refl (x ∷ xs) = ground (arith, same_bytes_refl xs)

pub same_bytes→eq : (xs ys : Bytes) → same_bytes xs ys ≡ true → xs ≡ ys
same_bytes→eq [] [] h = refl
same_bytes→eq [] (y ∷ ys) h = cc
same_bytes→eq (x ∷ xs) [] h = cc
same_bytes→eq (x ∷ xs) (y ∷ ys) h = ground (arith, same_bytes→eq xs ys)
