-- ===== src/Dvnizk/KeyTests.antt =====
-- The theorems on keys and on the handshake at concrete inputs.
use tls_dvnizk.Base.{
  ◌+◌, ◌-◌, ◌*◌, ◌%◌, ◌^◌, ◌≤◌, ◌<◌, ◌≡◌, ◌≢◌, ◌⊎◌, refl, [], ◌∷◌, replicate, length, ok, err,
  value_error, some, arith,
}
use tls_dvnizk.Base.Bytes.{Bytes, le_bytes, le_value}
use tls_dvnizk.Base.Numbers.{sub_mod}
use tls_dvnizk.Base.Power.{pow_mod}
use tls_dvnizk.Dvnizk.Curve.{order, hash_to_scalar}
use tls_dvnizk.Dvnizk.Proof.{Proof, challenge, deserialize_proof}
use tls_dvnizk.Dvnizk.Honest.{
  Session, HasKeys, IsRegular, IsChecked, server_proof, verify_sound, verify-server_proof,
  first_challenge, challenge_in,
}
use tls_dvnizk.Dvnizk.Wire.{IsWellFormed, deserialize-serialize, deserialize_cases}
use tls_dvnizk.Dvnizk.Keys.{
  prime, edwards_y, x25519_to_ed25519, x25519_to_ed25519_range, x25519_to_ed25519_birational,
  decode_scalar22519, decode_scalar22519_range, eddsakey_to_scalar_and_pub,
}
use tls_dvnizk.Dvnizk.Handshake.{
  KeyShareEntry, CertificateVerify, accepted, dvnizk_ed25519, point_of_share, select_group,
  server_certificate_verify, client_certificate_verify,
}
use tls_dvnizk.Dvnizk.Agreement.{
  IsServerKey, client_accepts_server, Means, Solves, client_verdict, select_group_single,
}
use tls_dvnizk.Dvnizk.Tests.{
  toy, toy_laws, residue, coins, coins-AreScalars, coins-IsRegular, session, session-HasKeys,
  small-IsScalar, honest, honest-IsWellFormed,
}

-- The Montgomery coordinate of the base point.
abbrev nine : Bytes
nine = le_bytes 32 9

-- The converted base point has the Edwards coordinate 4/5.
base_point : (le_value (x25519_to_ed25519 nine) * 5) % (2 ^ 255 - 19) ≡ 4
unfolding x25519_to_ed25519 edwards_y sub_mod prime pow_mod le_bytes le_value
base_point = refl

x25519_to_ed25519_birational_example :
    (le_value (x25519_to_ed25519 nine) * (le_value nine % prime + 1)) % prime
    ≡ sub_mod (le_value nine % prime) 1 prime
unfolding prime le_bytes le_value pow_mod
x25519_to_ed25519_birational_example = x25519_to_ed25519_birational nine (omega arith) refl

x25519_to_ed25519_range_example :
    (length (x25519_to_ed25519 nine) ≡ 32)
    × (le_value (x25519_to_ed25519 nine) < prime)
    × (le_value (x25519_to_ed25519 nine) < 2 ^ 255)
x25519_to_ed25519_range_example = x25519_to_ed25519_range nine

decode_scalar22519_range_example :
    let x = decode_scalar22519 (replicate 32 255) in (x % 8 ≡ 0) × (2 ^ 254 ≤ x) × (x < 2 ^ 255)
decode_scalar22519_range_example = decode_scalar22519_range (replicate 32 255) refl (omega arith)

-- A session whose server scalar is derived from a seed, under the toy hash.
abbrev derived : Session
derived = record { x_server = 2 ^ 254 + 1000; x_client = 7; transcript_hash = 1 ∷ 2 ∷ [] }

derived-HasKeys : HasKeys derived
unfolding order
derived-HasKeys = record { server_key = omega arith; client_key = omega arith }

derived-IsRegular : IsRegular toy toy_laws derived coins
unfolding order challenge hash_to_scalar sub_mod le_bytes le_value
derived-IsRegular = record {
  challenge_part = small-IsScalar 987 (omega arith) (omega arith);
  response = record { positive = omega arith; reduced = omega arith };
}

abbrev share : KeyShareEntry
share = record { group = 23; key_exchange = residue 7 }

derived-IsServerKey : IsServerKey toy toy_laws derived (9 ∷ []) (residue (2 ^ 254 + 1000))
unfolding eddsakey_to_scalar_and_pub le_bytes le_value
derived-IsServerKey = refl

share_point : point_of_share 23 share.key_exchange ≡ residue 7
unfolding point_of_share
share_point = refl

client_accepts_server_example :
    (message : CertificateVerify) × (server_certificate_verify toy
        (le_bytes 32 11)
        (le_bytes 32 13)
        (le_bytes 32 17)
        (share ∷ [])
        23
        (9 ∷ [])
        (residue (2 ^ 254 + 1000))
        (1 ∷ 2 ∷ [])
      ≡ ok message)
    × (message.signature_algorithm ≡ dvnizk_ed25519)
    × (length message.signature ≡ 160)
    × (client_certificate_verify toy message (residue (2 ^ 254 + 1000)) (residue 7) 23 (1 ∷ 2 ∷ [])
        ≡ accepted)
client_accepts_server_example =
    client_accepts_server toy toy_laws derived coins 23 share [] (9 ∷ []) (residue (2 ^ 254 + 1000))
      derived-HasKeys coins-AreScalars derived-IsRegular derived-IsServerKey share_point

abbrev short : CertificateVerify
short = record { signature_algorithm = dvnizk_ed25519; signature = 1 ∷ [] }

deserialize_cases_example :
    ((length short.signature ≢ 160) × (deserialize_proof short.signature ≡ err value_error))
    ⊎ ((length short.signature ≡ 160)
        × ((proof : Proof) × (deserialize_proof short.signature ≡ ok proof) × IsWellFormed proof))
deserialize_cases_example = deserialize_cases short.signature

session-IsChecked :
    IsChecked toy toy_laws session
      (server_proof toy toy_laws session coins)
      11
      (sub_mod 17 (13 * 7) order)
unfolding order challenge hash_to_scalar sub_mod le_bytes le_value
session-IsChecked = record {
  keys = session-HasKeys;
  first_point = refl;
  second_point = refl;
  s1_scalar = small-IsScalar 4946 (omega arith) (omega arith);
  s2_scalar = small-IsScalar 17 (omega arith) (omega arith);
  c2_scalar = small-IsScalar 13 (omega arith) (omega arith);
  c1_scalar = small-IsScalar 987 (omega arith) (omega arith);
}

verify_sound_example :
    let proof = server_proof toy toy_laws session coins in
    let c1 = first_challenge toy toy_laws session proof in
    (proof.s1 % order ≡ (11 + c1 * 5) % order)
    × (proof.s2 % order ≡ (sub_mod 17 (13 * 7) order + proof.c2 * 7) % order)
    × ((c1 + proof.c2) % order
        ≡ challenge_in toy toy_laws session proof.r1_point proof.r2_point % order)
verify_sound_example =
    verify_sound toy toy_laws session (server_proof toy toy_laws session coins) 11
      (sub_mod 17 (13 * 7) order) session-IsChecked
      (verify-server_proof toy toy_laws session coins session-HasKeys coins-AreScalars
        coins-IsRegular)

-- What the server sends in the session, under its scheme.
abbrev sent : CertificateVerify
sent = record {
  signature_algorithm = dvnizk_ed25519;
  signature = (deserialize-serialize honest honest-IsWellFormed).0;
}

session_point : point_of_share 23 (residue 7) ≡ residue 7
unfolding point_of_share
session_point = refl

client_verdict_example :
    Means
      (client_certificate_verify toy sent (residue 5) (residue 7) 23 (1 ∷ 2 ∷ []))
      (dvnizk_ed25519 ≡ dvnizk_ed25519)
      (Solves toy toy_laws session honest 11 (sub_mod 17 (13 * 7) order))
client_verdict_example =
    client_verdict toy toy_laws session sent honest 11 (sub_mod 17 (13 * 7) order) 23 (residue 7)
      (deserialize-serialize honest honest-IsWellFormed).3 session-IsChecked session_point

select_group_single_example : share.group ≡ 23
select_group_single_example = select_group_single (29 ∷ 23 ∷ []) share 23 selected
  where
    selected : select_group (29 ∷ 23 ∷ []) (share ∷ []) ≡ some 23
    selected = unfold select_group in refl
