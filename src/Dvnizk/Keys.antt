-- ===== src/Dvnizk/Keys.antt =====
-- tlslite/dvnizk.py: the keys that the proof is about, and tlslite/utils/x25519.py: the same clamping.
use Prim.Native.Nat.{bit_and, bit_or}
use tls_dvnizk.Base.{
  ℕ, ◌+◌, ◌-◌, ◌*◌, ◌/◌, ◌%◌, ◌^◌, ◌<◌, ◌≤◌, ◌≡◌, ◌≢◌, refl, sym, ap, ◌∙◌, [], ◌∷◌, true, ◌==◌,
  if◌then◌else◌, length, set, take, All, arith, ==_iff, ltb, ltb→lt, Bool-cases, inl, inr,
}
use tls_dvnizk.Base.Bytes.{
  Bytes, IsByte, le_bytes, le_value, length-le_bytes, le_value-le_bytes, byte_at, byte_at-set_self,
  length-set, set-IsByte, byte_at-IsByte, le_value_last, le_value_first,
}
use tls_dvnizk.Base.Numbers.{sub_mod, sub_mod-lt}
use tls_dvnizk.Base.Power.{pow_mod, mod-mul, mul-mod}
use tls_dvnizk.Base.Checks.{checked_below}
use tls_dvnizk.Dvnizk.Curve.{Library}
use native.Mathlib.Nat.{mod-lt, mod-eq_of_lt, mul_assoc, mul_comm}

-- The characteristic of the field, `p` of the source.
unfoldable pub prime : ℕ
prime = 2 ^ 255 - 19

-- The Edwards coordinate y of the Montgomery coordinate u.
unfoldable pub edwards_y : ℕ → ℕ
edwards_y u =
    if u == (prime - 1) % prime
    then 1
    else (sub_mod u 1 prime * pow_mod ((u + 1) % prime) (prime - 2) prime) % prime

unfoldable pub x25519_to_ed25519 : Bytes → Bytes
x25519_to_ed25519 u_bytes = le_bytes 32 (edwards_y (le_value u_bytes % prime))

abbrev update : ℕ → (ℕ → ℕ) → Bytes → Bytes
update i f bs = set bs i (f (byte_at i bs))

-- `a[0] &= 248`, `a[31] &= 127`, `a[31] |= 64`
abbrev pub clamp : Bytes → Bytes
clamp a =
    update 31 (λ b. bit_or b 64) (update 31 (λ b. bit_and b 127) (update 0 (λ b. bit_and b 248) a))

-- `decodeScalar22519`
unfoldable pub decode_scalar22519 : Bytes → ℕ
decode_scalar22519 k = le_value (clamp k)

-- The seed and the public key are what the key object holds.
unfoldable pub eddsakey_to_scalar_and_pub : Library → Bytes → Bytes → ℕ × Bytes
eddsakey_to_scalar_and_pub lib seed public = (le_value (clamp (take 32 (lib.sha512 seed))), public)

prime_range : (2 < prime) × (prime < 2 ^ 255)
unfolding prime
prime_range = (omega arith, omega arith)

edwards_y-lt : (u : ℕ) → edwards_y u < prime
unfolding edwards_y
edwards_y-lt u = elim (Bool-cases (u == (prime - 1) % prime)) [
  | inl e ↦ rw e (omega (arith, prime_range))
  | inr e ↦ rw e (mod-lt _ (omega (arith, prime_range)))
]

pub x25519_to_ed25519_value :
    (u : Bytes) → le_value (x25519_to_ed25519 u) ≡ edwards_y (le_value u % prime)
unfolding x25519_to_ed25519
x25519_to_ed25519_value u =
    le_value-le_bytes 32 _ (omega (arith, edwards_y-lt (le_value u % prime), prime_range))

-- The converted key is 32 bytes, a reduced coordinate with the sign bit clear, whatever the input.
pub x25519_to_ed25519_range :
    (u : Bytes)
    → (length (x25519_to_ed25519 u) ≡ 32)
      × (le_value (x25519_to_ed25519 u) < prime)
      × (le_value (x25519_to_ed25519 u) < 2 ^ 255)
x25519_to_ed25519_range u = (
  length_fact,
  omega (arith, x25519_to_ed25519_value u, edwards_y-lt (le_value u % prime)),
  omega (arith, x25519_to_ed25519_value u, edwards_y-lt (le_value u % prime), prime_range),
)
  where
    length_fact : length (x25519_to_ed25519 u) ≡ 32
    length_fact = unfold x25519_to_ed25519 in length-le_bytes 32 (edwards_y (le_value u % prime))

-- Dividing by `d` and multiplying by it modulo `m`.
cancel_inverse : (a d i m : ℕ) → (d % m * i) % m ≡ 1 → ((a * i) % m * d) % m ≡ a % m
cancel_inverse a d i m h =
    mod-mul (a * i) d m
    ∙ sym (mul-mod (a * i) d m)
    ∙ ap (λ (t : ℕ). t % m) (mul_assoc a i (d % m) ∙ ap (λ (t : ℕ). a * t) (mul_comm i (d % m)))
    ∙ sym (mul-mod a (d % m * i) m)
    ∙ ap (λ (t : ℕ). (a * t) % m) h
    ∙ ap (λ (t : ℕ). t % m) (omega arith)

edwards_y_lem :
    (u : ℕ)
    → u ≢ (prime - 1) % prime
    → edwards_y u ≡ (sub_mod u 1 prime * pow_mod ((u + 1) % prime) (prime - 2) prime) % prime
unfolding edwards_y
edwards_y_lem u ne = elim (Bool-cases (u == (prime - 1) % prime)) [
  | inl e ↦ absurd (ne ((==_iff u ((prime - 1) % prime)).0 e))
  | inr e ↦ rw e
]

-- Where u + 1 is not 0 and is inverted by the power p - 2, as Fermat's theorem says for a prime, the
-- coordinates satisfy y·(u + 1) = u - 1 in the field, which is the birational map.
pub x25519_to_ed25519_birational :
    (bs : Bytes)
    → let u = le_value bs % prime in
      u ≢ (prime - 1) % prime
      → ((u + 1) % prime * pow_mod ((u + 1) % prime) (prime - 2) prime) % prime ≡ 1
      → (le_value (x25519_to_ed25519 bs) * (u + 1)) % prime ≡ sub_mod u 1 prime
x25519_to_ed25519_birational bs ne inverse =
    ap (λ (t : ℕ). (t * (le_value bs % prime + 1)) % prime)
      (x25519_to_ed25519_value bs ∙ edwards_y_lem (le_value bs % prime) ne)
    ∙ cancel_inverse (sub_mod (le_value bs % prime) 1 prime) (le_value bs % prime + 1) _ prime
        inverse
    ∙ mod-eq_of_lt (sub_mod-lt (le_value bs % prime) 1 prime (omega (arith, prime_range)))

-- The masks of the clamping, on one byte.
clamp_low : (b : ℕ) → b < 256 → (bit_and b 248 == b / 8 * 8) ≡ true
clamp_low = checked_below 256 _ refl

clamp_high : (b : ℕ) → b < 256 → (bit_or (bit_and b 127) 64 == b % 64 + 64) ≡ true
clamp_high = checked_below 256 _ refl

and_127_table : (b : ℕ) → b < 256 → ltb (bit_and b 127) 256 ≡ true
and_127_table = checked_below 256 _ refl

and_127 : (b : ℕ) → b < 256 → bit_and b 127 < 256
and_127 b h = ltb→lt _ _ (and_127_table b h)

clamp_low_lem : (b : ℕ) → b < 256 → bit_and b 248 ≡ b / 8 * 8
clamp_low_lem b h = (==_iff _ _).0 (clamp_low b h)

clamp_high_lem : (b : ℕ) → b < 256 → bit_or (bit_and b 127) 64 ≡ b % 64 + 64
clamp_high_lem b h = (==_iff _ _).0 (clamp_high b h)

-- A number of 32 bytes whose first byte is a multiple of 8 and whose last byte lies in [64, 128).
clamped_range :
    (low v : ℕ) (bs : Bytes)
    → length bs ≡ 31
    → All IsByte bs
    → low < 256
    → low % 8 ≡ 0
    → 64 ≤ v
    → v < 128
    → let x = le_value (low ∷ set bs 30 v) in (x % 8 ≡ 0) × (2 ^ 254 ≤ x) × (x < 2 ^ 255)
clamped_range low v bs e h small eight lo hi =
    let written : Bytes = low ∷ set bs 30 v in
    let bytes : All IsByte written = (small, set-IsByte 30 v bs (omega arith) h) in
    let bounds = le_value_last 31 written (omega (arith, length-set 30 v bs)) bytes in
    let top : byte_at 31 written ≡ v = byte_at-set_self 30 v bs (omega arith) in
    let first = le_value_first low (set bs 30 v) small in (omega arith, omega arith, omega arith)

-- The clamped scalar of 32 bytes is a multiple of 8 with bit 254 set and bit 255 clear.
pub decode_scalar22519_range :
    (k : Bytes)
    → length k ≡ 32
    → All IsByte k
    → (decode_scalar22519 k % 8 ≡ 0)
      × (2 ^ 254 ≤ decode_scalar22519 k)
      × (decode_scalar22519 k < 2 ^ 255)
unfolding decode_scalar22519
decode_scalar22519_range [] e h = absurd (omega arith)
decode_scalar22519_range (b ∷ bs) e (p, h) =
    let t : ℕ = byte_at 30 bs in
    let masked : Bytes = set bs 30 (bit_and t 127) in
    let top : byte_at 30 masked ≡ bit_and t 127 =
      byte_at-set_self 30 (bit_and t 127) bs (omega arith) in
    let final : bit_or (byte_at 30 masked) 64 ≡ t % 64 + 64 =
      ap (λ (x : ℕ). bit_or x 64) top ∙ clamp_high_lem t (byte_at-IsByte 30 bs h) in
    let low : bit_and b 248 ≡ b / 8 * 8 = clamp_low_lem b p in
    let mask : bit_and t 127 < 256 = and_127 t (byte_at-IsByte 30 bs h) in
    clamped_range (bit_and b 248) (bit_or (byte_at 30 masked) 64) masked
      (omega (arith, length-set 30 (bit_and t 127) bs)) (set-IsByte 30 (bit_and t 127) bs mask h)
      (omega arith) (omega arith) (omega arith) (omega arith)
