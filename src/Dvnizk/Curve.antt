-- ===== src/Dvnizk/Curve.antt =====
-- What tlslite/dvnizk.py uses of PyNaCl and hashlib, and its scalars.
use tls_dvnizk.Base.{
  ℕ, ◌+◌, ◌*◌, ◌%◌, ◌^◌, ◌<◌, ◌≡◌, List, [], ◌∷◌, ◌++◌, arith, length, leb, if◌then◌else◌, Result,
  ok, err, overflow_error,
}
use tls_dvnizk.Base.Bytes.{Bytes, le_bytes, le_value}
use tls_dvnizk.Base.Numbers.{sub_mod}
use tls_dvnizk.Base.Fallible.{◌>>=◌}

-- The order of the group, `n` of the source.
unfoldable pub order : ℕ
order = 2 ^ 252 + 27742317777372353535851937790883648493

pub order_range : (1 < order) × (order < 256 ^ 32)
unfolding order
order_range = (omega arith, omega arith)

-- The library calls: the four functions of `nacl.bindings`, which may raise, and SHA-512.
pub record Library : Type 0 where
  pub scalarmult_base_noclamp : Bytes → Result Bytes
  pub scalarmult_noclamp : Bytes → Bytes → Result Bytes
  pub core_add : Bytes → Bytes → Result Bytes
  pub core_sub : Bytes → Bytes → Result Bytes
  pub sha512 : Bytes → Bytes

-- What is documented of them. `encode x` is the 32-byte encoding of the point x·G: these are all
-- the points of the subgroup of prime order. Multiplication refuses the scalar 0 and the neutral
-- point, so nothing is said of those.
pub record Lawful (lib : Library) : Type 0 where
  pub encode : ℕ → Bytes
  pub length-encode : (x : ℕ) → length (encode x) ≡ 32
  pub encode-mod : (x : ℕ) → encode (x % order) ≡ encode x
  pub encode_inj : (x y : ℕ) → encode x ≡ encode y → x % order ≡ y % order
  pub base_mul :
      (s : ℕ) → 0 < s → s < order → lib.scalarmult_base_noclamp (le_bytes 32 s) ≡ ok (encode s)
  pub mul :
      (s x : ℕ)
      → 0 < s
      → s < order
      → 0 < x % order
      → lib.scalarmult_noclamp (le_bytes 32 s) (encode x) ≡ ok (encode (s * x))
  pub add : (x y : ℕ) → lib.core_add (encode x) (encode y) ≡ ok (encode (x + y))
  pub sub : (x y : ℕ) → lib.core_sub (encode x) (encode y) ≡ ok (encode (sub_mod x y order))

-- `random_scalar`, over the 32 bytes that `os.urandom` returned.
unfoldable pub random_scalar : Bytes → ℕ
random_scalar entropy = le_value entropy % order

-- `s.to_bytes(32, 'little')`
unfoldable pub scalar_to_bytes : ℕ → Result Bytes
scalar_to_bytes s = if leb (256 ^ 32) s then err overflow_error else ok (le_bytes 32 s)

unfoldable pub bytes_to_scalar : Bytes → ℕ
bytes_to_scalar b = le_value b % order

-- The parts, one after the other, as the hash object is fed.
abbrev pub joined : List Bytes → Bytes
joined [] = []
joined (x ∷ xs) = x ++ joined xs

module _ (lib : Library) where
  unfoldable pub point_mul : ℕ → Bytes → Result Bytes
  point_mul scalar point = do lib.scalarmult_noclamp (← scalar_to_bytes scalar) point

  unfoldable pub point_base_mul : ℕ → Result Bytes
  point_base_mul scalar = do lib.scalarmult_base_noclamp (← scalar_to_bytes scalar)

  unfoldable pub hash_to_scalar : List Bytes → ℕ
  hash_to_scalar args = le_value (lib.sha512 (joined args)) % order
