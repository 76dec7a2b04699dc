-- ===== src/Ciphers/Rc4.antt =====
-- tlslite/utils/python_rc4.py and rc4.py: the stream cipher RC4.
use Prim.Native.Nat.{bit_xor}
use tls_dvnizk.Base.{
  ℕ, zero, suc, ◌+◌, ◌%◌, List, [], ◌∷◌, ◌||◌, ltb, length, set, Result, ok, value_error,
}
use tls_dvnizk.Base.Bytes.{Bytes, byte_at}
use tls_dvnizk.Base.Fallible.{◌>>◌, fail_if}

pub record Rc4 : Type 0 where
  pub table : List ℕ
  pub i : ℕ
  pub j : ℕ

-- `S[i], S[j] = S[j], S[i]`
unfoldable pub swap : List ℕ → ℕ → ℕ → List ℕ
swap table i j = set (set table i (byte_at j table)) j (byte_at i table)

-- `list(range(first, first + count))`
unfoldable pub numbers : ℕ → ℕ → List ℕ
numbers first zero = []
numbers first (suc count) = first ∷ numbers (suc first) count

-- The key schedule from `i` on.
unfoldable pub schedule : ℕ → Bytes → ℕ → ℕ → List ℕ → List ℕ
schedule zero key i j table = table
schedule (suc count) key i j table =
    let next = (j + byte_at i table + byte_at (i % length key) key) % 256 in
    schedule count key (i + 1) next (swap table i next)

unfoldable pub new_rc4 : Bytes → Result Rc4
new_rc4 key =
    fail_if (ltb (length key) 16 || ltb 256 (length key)) value_error
    >> ok (record { table = schedule 256 key 0 0 (numbers 0 256); i = 0; j = 0 })

-- The state for the next byte.
unfoldable pub advance : Rc4 → Rc4
advance s =
    let i = (s.i + 1) % 256 in
    let j = (s.j + byte_at i s.table) % 256 in record { table = swap s.table i j; i = i; j = j }

-- The byte of the key stream.
unfoldable pub key_byte : Rc4 → ℕ
key_byte s = byte_at ((byte_at s.i s.table + byte_at s.j s.table) % 256) s.table

unfoldable pub encrypt : Bytes → Rc4 → Bytes × Rc4
encrypt [] s = ([], s)
encrypt (x ∷ text) s =
    let next = advance s in
    let (rest, after) = encrypt text next in (bit_xor x (key_byte next) ∷ rest, after)

unfoldable pub decrypt : Bytes → Rc4 → Bytes × Rc4
decrypt ciphertext s = encrypt ciphertext s
