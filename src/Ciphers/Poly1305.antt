-- ===== src/Ciphers/Poly1305.antt =====
-- tlslite/utils/poly1305.py: the authenticator Poly1305.
use Prim.Native.Nat.{bit_and}
use tls_dvnizk.Base.{
  ℕ, zero, suc, ◌+◌, ◌*◌, ◌/◌, ◌%◌, ◌^◌, [], ◌∷◌, ◌++◌, not, ◌==◌, if◌then◌else◌, length, take,
  drop, Result, ok, value_error,
}
use tls_dvnizk.Base.Bytes.{Bytes}
use tls_dvnizk.Base.Fallible.{◌>>◌, fail_if}

-- The class constant `P`, which is 2 ^ 130 - 5.
abbrev pub modulus : ℕ
modulus = 0x3fffffffffffffffffffffffffffffffb

-- From the last byte to the first.
unfoldable pub le_bytes_to_num : Bytes → ℕ
le_bytes_to_num [] = 0
le_bytes_to_num (b ∷ rest) = le_bytes_to_num rest * 2 ^ 8 + b

-- `n` bytes, each the low one of what is left.
unfoldable pub low_bytes : ℕ → ℕ → Bytes
low_bytes zero num = []
low_bytes (suc n) num = (num % 2 ^ 8) ∷ low_bytes n (num / 2 ^ 8)

unfoldable pub num_to_16_le_bytes : ℕ → Bytes
num_to_16_le_bytes num = low_bytes 16 num

pub record Poly1305 : Type 0 where
  pub acc : ℕ
  pub r : ℕ
  pub s : ℕ

unfoldable pub new_poly1305 : Bytes → Result Poly1305
new_poly1305 key =
    fail_if (not (length key == 32)) value_error
    >> ok (record {
      acc = 0;
      r = bit_and (le_bytes_to_num (take 16 key)) 0x0ffffffc0ffffffc0ffffffc0fffffff;
      s = le_bytes_to_num (take 16 (drop 16 key));
    })

-- `divceil`
unfoldable pub divceil : ℕ → ℕ → ℕ
divceil divident divisor = divident / divisor + (if divident % divisor == 0 then 0 else 1)

-- `count` blocks of 16 bytes, each with a 1 behind.
unfoldable pub absorb : ℕ → ℕ → ℕ → Bytes → ℕ
absorb zero r acc payload = acc
absorb (suc count) r acc payload =
    absorb count r (r * (acc + le_bytes_to_num (take 16 payload ++ (1 ∷ []))) % modulus)
      (drop 16 payload)

unfoldable pub create_tag : Poly1305 → Bytes → Bytes
create_tag p payload =
    num_to_16_le_bytes (absorb (divceil (length payload) 16) p.r p.acc payload + p.s)
