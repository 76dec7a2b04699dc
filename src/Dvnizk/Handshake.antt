-- ===== src/Dvnizk/Handshake.antt =====
-- tlslite/tlsconnection.py: the CertificateVerify of a TLS 1.3 server that uses the scheme
-- `dvnizk_ed25519`, and its check by the client.
use tls_dvnizk.Base.{
  ℕ, List, [], ◌∷◌, Bool, true, false, ◌&&◌, ◌==◌, if◌then◌else◌, Option, none, some, Result, ok,
  err, index_error,
}
use tls_dvnizk.Base.Bytes.{Bytes}
use tls_dvnizk.Base.Fallible.{◌>>=◌}
use tls_dvnizk.Dvnizk.Curve.{Library}
use tls_dvnizk.Dvnizk.Proof.{generate_proof, verify_proof, serialize_proof, deserialize_proof}
use tls_dvnizk.Dvnizk.Keys.{x25519_to_ed25519, eddsakey_to_scalar_and_pub}

-- `GroupName.x25519`
abbrev pub x25519 : ℕ
x25519 = 29

-- `SignatureScheme.dvnizk_ed25519`
abbrev pub dvnizk_ed25519 : ℕ × ℕ
dvnizk_ed25519 = (254, 0)

-- `KeyShareEntry`, as the client sends it.
pub record KeyShareEntry : Type 0 where
  pub group : ℕ
  pub key_exchange : Bytes

pub record CertificateVerify : Type 0 where
  pub signature_algorithm : ℕ × ℕ
  pub signature : Bytes

abbrev pub has_group : ℕ → List KeyShareEntry → Bool
has_group g [] = false
has_group g (s ∷ shares) = if s.group == g then true else has_group g shares

-- The first acceptable group for which the client sent a share; `none` is the internal error.
unfoldable pub select_group : List ℕ → List KeyShareEntry → Option ℕ
select_group [] shares = none
select_group (g ∷ acceptable) shares =
    if has_group g shares then some g else select_group acceptable shares

-- The point of a share, for the curve of the connection.
unfoldable pub point_of_share : ℕ → Bytes → Bytes
point_of_share ecdh_curve raw = if ecdh_curve == x25519 then x25519_to_ed25519 raw else raw

-- `share.client_shares[0].key_exchange`
unfoldable pub first_share : List KeyShareEntry → Result Bytes
first_share [] = err index_error
first_share (s ∷ shares) = ok s.key_exchange

-- How the client's check of the proof ends: it goes on, or it sends the alert decrypt_error and raises. For another
-- scheme the `else` branch is taken, the verification of a signature.
pub data Verdict : Type 0 where
  accepted decrypt_error_alert signature_verification : Verdict

-- The equality of two schemes, which are pairs.
abbrev pub same_scheme : ℕ × ℕ → ℕ × ℕ → Bool
same_scheme (hash, signature) (other_hash, other_signature) =
    (hash == other_hash) && (signature == other_signature)

-- Any exception and the answer False end in the alert.
abbrev pub verdict : Result Bool → Verdict
verdict (ok true) = accepted
verdict (ok false) = decrypt_error_alert
verdict (err e) = decrypt_error_alert

module _ (lib : Library) where
  -- The server's branch; the three strings of entropy are for `generate_proof`.
  unfoldable pub server_certificate_verify :
      Bytes
      → Bytes
      → Bytes
      → List KeyShareEntry
      → ℕ
      → Bytes
      → Bytes
      → Bytes
      → Result CertificateVerify
  server_certificate_verify entropy1 entropy2 entropy3 client_shares ecdh_curve seed public
        transcript_hash =
      do
        raw ← first_share client_shares
        let p_client = point_of_share ecdh_curve raw
        let (x_server, p_server) = eddsakey_to_scalar_and_pub lib seed public
        proof ←
            generate_proof lib entropy1 entropy2 entropy3 x_server p_server p_client transcript_hash
        signature ← serialize_proof proof
        ok (record { signature_algorithm = dvnizk_ed25519; signature = signature })

  -- The client's check of the proof, if the scheme is `dvnizk_ed25519`. The scheme that it records in `serverSigAlg`
  -- is left out; `own_public` is `kex.calc_public_value(cl_kex.private)`.
  unfoldable pub client_certificate_verify : CertificateVerify → Bytes → Bytes → ℕ → Bytes → Verdict
  client_certificate_verify message p_server own_public ecdh_curve transcript_hash =
      if same_scheme message.signature_algorithm dvnizk_ed25519
      then verdict (
          deserialize_proof message.signature >>= λ proof.
          verify_proof lib proof p_server (point_of_share ecdh_curve own_public) transcript_hash)
      else signature_verification
