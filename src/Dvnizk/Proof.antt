-- ===== src/Dvnizk/Proof.antt =====
-- tlslite/dvnizk.py: the three algorithms, and the proof as a string of 160 bytes. A proof's times
-- of generation and verification are left out.
use tls_dvnizk.Base.{
  ℕ, ◌+◌, ◌*◌, ◌%◌, [], ◌∷◌, ◌++◌, Bool, not, ◌&&◌, length, take, drop, ◌==◌, Result, ok,
  value_error,
}
use tls_dvnizk.Base.Bytes.{same_bytes, Bytes}
use tls_dvnizk.Base.Numbers.{sub_mod}
use tls_dvnizk.Base.Fallible.{◌>>=◌, ◌>>◌, fail_if}
use tls_dvnizk.Dvnizk.Curve.{
  Library, order, random_scalar, scalar_to_bytes, bytes_to_scalar, point_mul, point_base_mul,
  hash_to_scalar,
}

-- The dict of a proof.
pub record Proof : Type 0 where
  pub r1_point : Bytes
  pub r2_point : Bytes
  pub s1 : ℕ
  pub s2 : ℕ
  pub c2 : ℕ

-- b"DVNIZK-ECC"
abbrev pub domain : Bytes
domain = b'D' ∷ b'V' ∷ b'N' ∷ b'I' ∷ b'Z' ∷ b'K' ∷ b'-' ∷ b'E' ∷ b'C' ∷ b'C' ∷ []

module _ (lib : Library) where
  -- The global challenge of all three algorithms.
  unfoldable pub challenge : Bytes → Bytes → Bytes → Bytes → Bytes → ℕ
  challenge r1_point r2_point p_server p_client transcript_hash =
      hash_to_scalar lib (domain ∷ r1_point ∷ r2_point ∷ p_server ∷ p_client ∷ transcript_hash ∷ [])

  -- `entropy1`, `entropy2` and `entropy3` are what `os.urandom` returns for r1, c2 and s2.
  unfoldable pub generate_proof : Bytes → Bytes → Bytes → ℕ → Bytes → Bytes → Bytes → Result Proof
  generate_proof entropy1 entropy2 entropy3 x_server p_server p_client transcript_hash = do
    let r1 = random_scalar entropy1
    r1_point ← point_base_mul lib r1
    let c2 = random_scalar entropy2
    let s2 = random_scalar entropy3
    s2_base ← point_base_mul lib s2
    c2_client ← point_mul lib c2 p_client
    r2_point ← lib.core_sub s2_base c2_client
    let c = challenge r1_point r2_point p_server p_client transcript_hash
    let c1 = sub_mod c c2 order
    let s1 = (r1 + c1 * x_server) % order
    ok (record { r1_point = r1_point; r2_point = r2_point; s1 = s1; s2 = s2; c2 = c2 })

  unfoldable pub verify_proof : Proof → Bytes → Bytes → Bytes → Result Bool
  verify_proof proof p_server p_client transcript_hash = do
    let c = challenge proof.r1_point proof.r2_point p_server p_client transcript_hash
    let c1 = sub_mod c proof.c2 order
    lhs1 ← point_base_mul lib proof.s1
    c1_server ← point_mul lib c1 p_server
    rhs1 ← lib.core_add proof.r1_point c1_server
    lhs2 ← point_base_mul lib proof.s2
    c2_client ← point_mul lib proof.c2 p_client
    rhs2 ← lib.core_add proof.r2_point c2_client
    ok (same_bytes lhs1 rhs1 && same_bytes lhs2 rhs2)

  -- `entropy1`, `entropy2` and `entropy3` are what `os.urandom` returns for r2, c1 and s1.
  unfoldable pub simulate_proof : Bytes → Bytes → Bytes → ℕ → Bytes → Bytes → Bytes → Result Proof
  simulate_proof entropy1 entropy2 entropy3 x_client p_server p_client transcript_hash = do
    let r2 = random_scalar entropy1
    r2_point ← point_base_mul lib r2
    let c1 = random_scalar entropy2
    let s1 = random_scalar entropy3
    s1_base ← point_base_mul lib s1
    c1_server ← point_mul lib c1 p_server
    r1_point ← lib.core_sub s1_base c1_server
    let c = challenge r1_point r2_point p_server p_client transcript_hash
    let c2 = sub_mod c c1 order
    let s2 = (r2 + c2 * x_client) % order
    ok (record { r1_point = r1_point; r2_point = r2_point; s1 = s1; s2 = s2; c2 = c2 })

unfoldable pub serialize_proof : Proof → Result Bytes
serialize_proof proof = do
  s1_bytes ← scalar_to_bytes proof.s1
  s2_bytes ← scalar_to_bytes proof.s2
  c2_bytes ← scalar_to_bytes proof.c2
  ok (proof.r1_point ++ (proof.r2_point ++ (s1_bytes ++ (s2_bytes ++ c2_bytes))))

-- `data[from:from + 32]`
abbrev pub chunk : ℕ → Bytes → Bytes
chunk from bs = take 32 (drop from bs)

unfoldable pub deserialize_proof : Bytes → Result Proof
deserialize_proof bs = do
  fail_if (not (length bs == 160)) value_error
  ok (record {
    r1_point = chunk 0 bs;
    r2_point = chunk 32 bs;
    s1 = bytes_to_scalar (chunk 64 bs);
    s2 = bytes_to_scalar (chunk 96 bs);
    c2 = bytes_to_scalar (chunk 128 bs);
  })
