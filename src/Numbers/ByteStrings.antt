-- ===== src/Numbers/ByteStrings.antt =====
-- tlslite/utils/cryptomath.py and compat.py: numbers as byte strings of no fixed length.
use tls_dvnizk.Base.{
  ℕ, zero, suc, ◌+◌, ◌*◌, ◌/◌, ◌^◌, ◌≤◌, ◌<◌, ◌≡◌, refl, sym, ap, subst, Bool, true, false, ◌==◌,
  if◌then◌else◌, ltb, Option, none, some, drop, ◌-◌, arith,
}
use native.Mathlib.Nat.{pow-le-pow_right}
use tls_dvnizk.Base.Bytes.{Bytes, be_bytes, be_value}

-- Python's `bit_length`; the fuel is more than the number's bits.
abbrev bits : ℕ → ℕ → ℕ
bits zero n = 0
bits (suc fuel) n = elim (n == 0) [ true ↦ 0 | false ↦ suc (bits fuel (n / 2)) ]

unfoldable pub bit_length : ℕ → ℕ
bit_length n = bits n n

unfoldable pub byte_length : ℕ → ℕ
byte_length n = (bit_length n + 7) / 8

-- The length that `int_to_bytes` takes where none is given.
unfoldable pub default_length : ℕ → ℕ
default_length n = if n == 0 then 1 else byte_length n

-- `numberToByteArray`, big-endian, with the case of a length that is too short.
unfoldable pub number_to_byte_array : ℕ → Option ℕ → Bytes
number_to_byte_array n none = be_bytes (default_length n) n
number_to_byte_array n (some how_many_bytes) =
    if ltb how_many_bytes (byte_length n)
    then drop (byte_length n - how_many_bytes) (be_bytes (byte_length n) n)
    else be_bytes how_many_bytes n

-- `bytesToNumber`, big-endian.
abbrev pub bytes_to_number : Bytes → ℕ
bytes_to_number = be_value

double : (r m n : ℕ) → m < 2 ^ r → n ≤ 2 * m + 1 → n < 2 ^ suc r
double r m n h k = omega (arith, h, k)

bits_step : (r n : ℕ) → n / 2 < 2 ^ r → n < 2 ^ (if n == 0 then 0 else suc r)
bits_step r n h = ground (arith, double r (n / 2) n h (omega arith))

bits-suc : (fuel n : ℕ) → bits (suc fuel) n ≡ (if n == 0 then 0 else suc (bits fuel (n / 2)))
bits-suc fuel n = by_test (n == 0)
  where
    by_test :
        (b : Bool)
        → (elim b [ true ↦ 0 | false ↦ suc (bits fuel (n / 2)) ])
          ≡ (if b then 0 else suc (bits fuel (n / 2)))
    by_test true = refl
    by_test false = refl

bits-lt : (fuel n : ℕ) → n ≤ fuel → n < 2 ^ bits fuel n
bits-lt zero n h = omega arith
bits-lt (suc fuel) n h =
    subst (λ (t : ℕ). n < 2 ^ t) (sym (bits-suc fuel n))
      (bits_step (bits fuel (n / 2)) n (bits-lt fuel (n / 2) (omega arith)))

in_bits : (k : ℕ) → 256 ^ k ≡ 2 ^ (8 * k)
in_bits zero = omega arith
in_bits (suc k) = omega (arith, in_bits k, ap (λ (t : ℕ). 2 ^ t) (eight_more k))
  where
    eight_more : (k : ℕ) → 8 * suc k ≡ suc (suc (suc (suc (suc (suc (suc (suc (8 * k))))))))
    eight_more k = omega arith

pub byte_length-lt : (n : ℕ) → n < 256 ^ byte_length n
unfolding byte_length bit_length
byte_length-lt n = omega (
  arith,
  bits-lt n n (omega arith),
  in_bits ((bits n n + 7) / 8),
  pow-le-pow_right {n = 2} (omega arith) {i = bits n n} {j = 8 * ((bits n n + 7) / 8)}
      (omega arith),
)

pub default_length-lt : (n : ℕ) → n < 256 ^ default_length n
unfolding default_length
default_length-lt n = ground (arith, byte_length-lt n)

pub default_length-pos : (n : ℕ) → 1 ≤ default_length n
unfolding default_length
default_length-pos n = ground (arith, positive (byte_length n) n (byte_length-lt n))
  where
    positive : (k m : ℕ) → m < 256 ^ k → 1 ≤ m → 1 ≤ k
    positive zero m h g = absurd (omega arith)
    positive (suc k) m h g = omega arith

-- A length that is enough for a number.
pub enough-lt : (n k : ℕ) → byte_length n ≤ k → n < 256 ^ k
enough-lt n k h = omega (
  arith,
  byte_length-lt n,
  pow-le-pow_right {n = 256} (omega arith) {i = byte_length n} {j = k} h,
)

halved : (k n : ℕ) → n < 2 ^ suc k → n / 2 < 2 ^ k
halved k n h = omega arith

bits_le_step : (r n k : ℕ) → r ≤ k → (if n == 0 then 0 else suc r) ≤ suc k
bits_le_step r n k h = ground arith

no_bits : (r n : ℕ) → n < 2 ^ 0 → (if n == 0 then 0 else suc r) ≤ 0
no_bits r n h = ground arith

bits-le : (fuel n k : ℕ) → n < 2 ^ k → bits fuel n ≤ k
bits-le zero n k h = omega arith
bits-le (suc fuel) n zero h =
    subst (λ (t : ℕ). t ≤ 0) (sym (bits-suc fuel n)) (no_bits (bits fuel (n / 2)) n h)
bits-le (suc fuel) n (suc k) h =
    subst (λ (t : ℕ). t ≤ suc k) (sym (bits-suc fuel n))
      (bits_le_step (bits fuel (n / 2)) n k (bits-le fuel (n / 2) k (halved k n h)))

-- The length is no longer than one that is enough.
pub byte_length-le : (n k : ℕ) → n < 256 ^ k → byte_length n ≤ k
unfolding byte_length bit_length
byte_length-le n k h = omega (arith, bits-le n n (8 * k) (subst (λ (t : ℕ). n < t) (in_bits k) h))

-- The bytes of a number in a length that is enough.
pub number_to_byte_array-enough :
    (n k : ℕ) → n < 256 ^ k → number_to_byte_array n (some k) ≡ be_bytes k n
unfolding number_to_byte_array
number_to_byte_array-enough n k h = by_length (byte_length n) (byte_length-le n k h)
  where
    by_length :
        (l : ℕ)
        → l ≤ k
        → (if ltb k l then drop (l - k) (be_bytes l n) else be_bytes k n) ≡ be_bytes k n
    by_length l g = ground arith
