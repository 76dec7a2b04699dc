-- ===== src/Dvnizk/Agreement.antt =====
-- The handshake's two sides together.
use tls_dvnizk.Base.{
  ℕ, ◌*◌, ◌≡◌, ◌≢◌, ◌↔◌, ◌⊎◌, inl, inr, refl, sym, ap, ◌∙◌, ◌+◌, ◌%◌, ◌&&◌, ◌==◌, Bool-cases, List,
  [], ◌∷◌, Bool, true, false, length, ok, some, arith,
}
use tls_dvnizk.Base.Bytes.{Bytes, le_bytes, same_bytes}
use tls_dvnizk.Base.Numbers.{sub_mod}
use tls_dvnizk.Dvnizk.Curve.{Library, Lawful, order, order_range}
use tls_dvnizk.Dvnizk.Proof.{Proof, deserialize_proof}
use tls_dvnizk.Dvnizk.Honest.{
  Session, HasKeys, Coins, IsChecked, first_challenge, verify, verify_lem, verify_sound, both_same,
  encode_of_mod, AreScalars, IsRegular, generate_lem, server_proof, verify-server_proof,
}
use tls_dvnizk.Dvnizk.Wire.{IsWellFormed, deserialize-serialize}
use tls_dvnizk.Dvnizk.Keys.{eddsakey_to_scalar_and_pub}
use tls_dvnizk.Dvnizk.Handshake.{
  KeyShareEntry, CertificateVerify, Verdict, accepted, decrypt_error_alert, signature_verification,
  same_scheme, dvnizk_ed25519, point_of_share, select_group, first_share, server_certificate_verify,
  client_certificate_verify,
}
use native.Mathlib.Nat.{mod-lt}

module _ (lib : Library) (laws : Lawful lib) where
  server_proof-IsWellFormed :
      (e : Session) (k : Coins) → AreScalars k → IsWellFormed (server_proof lib laws e k)
  server_proof-IsWellFormed e k h = record {
    length_r1 = laws.length-encode k.first;
    length_r2 = laws.length-encode (sub_mod k.third (k.second * e.x_client) order);
    s1_reduced = mod-lt _ (omega (arith, order_range));
    s2_reduced = h.third_scalar.reduced;
    c2_reduced = h.second_scalar.reduced;
  }

  -- A server key pair that fits the session: the scalar derived from the seed, and its public point.
  abbrev pub IsServerKey : Session → Bytes → Bytes → Type 0
  IsServerKey e seed public =
      eddsakey_to_scalar_and_pub lib seed public ≡ (e.x_server, laws.encode e.x_server)

  -- If the first share that the client sent is the one that the client computes its own point from,
  -- and the two sides have the same transcript, the client accepts what the server sends, for scalars
  -- that are not 0.
  pub client_accepts_server :
      (e : Session) (k : Coins) (ecdh_curve : ℕ) (share : KeyShareEntry)
      (others : List KeyShareEntry) (seed public : Bytes)
      → HasKeys e
      → AreScalars k
      → IsRegular lib laws e k
      → IsServerKey e seed public
      → point_of_share ecdh_curve share.key_exchange ≡ laws.encode e.x_client
      → (message : CertificateVerify) × (server_certificate_verify lib
            (le_bytes 32 k.first)
            (le_bytes 32 k.second)
            (le_bytes 32 k.third)
            (share ∷ others)
            ecdh_curve
            seed
            public
            e.transcript_hash
          ≡ ok message)
        × (message.signature_algorithm ≡ dvnizk_ed25519)
        × (length message.signature ≡ 160)
        × (client_certificate_verify lib message
              (laws.encode e.x_server)
              share.key_exchange
              ecdh_curve
              e.transcript_hash
            ≡ accepted)
  unfolding server_certificate_verify client_certificate_verify first_share
  client_accepts_server e k ecdh_curve share others seed public keys h regular pair point =
      let (bs, written, len, parsed) =
        deserialize-serialize (server_proof lib laws e k) (server_proof-IsWellFormed e k h) in
      (
        record { signature_algorithm = dvnizk_ed25519; signature = bs },
        rw (point, pair, generate_lem lib laws e k keys h, written),
        refl,
        len,
        rw (parsed, point, verify-server_proof lib laws e k keys h regular),
      )

-- Whether a scheme is `dvnizk_ed25519`, as the code's test finds it.
scheme_cases :
    (s : ℕ × ℕ)
    → ((same_scheme s dvnizk_ed25519 ≡ true) × (s ≡ dvnizk_ed25519))
      ⊎ ((same_scheme s dvnizk_ed25519 ≡ false) × (s ≢ dvnizk_ed25519))
scheme_cases (hash, signature) = elim (Bool-cases ((hash == 254) && (signature == 0))) [
  | inl e ↦ inl (e, ground arith)
  | inr e ↦ inr (
    e,
    λ same. absurd (ground (arith, ap (λ (t : ℕ × ℕ). t.0) same, ap (λ (t : ℕ × ℕ). t.1) same)),
  )
]

-- What the three ends mean, if the first two need `P`, and `Q` tells them apart.
abbrev pub Means : Verdict → Type 0 → Type 0 → Type 0
Means v P Q =
    ((v ≡ accepted) ↔ (P × Q))
    × ((v ≡ decrypt_error_alert) ↔ (P × (¬ Q)))
    × ((v ≡ signature_verification) ↔ (¬ P))

accepted-Means : {P Q : Type 0} → P → Q → Means accepted P Q
accepted-Means p q =
    ((λ e. (p, q), λ h. refl), (λ e. cc, λ h. absurd (h.1 q)), (λ e. cc, λ h. absurd (h p)))

alert-Means : {P Q : Type 0} → P → (¬ Q) → Means decrypt_error_alert P Q
alert-Means p n =
    ((λ e. cc, λ h. absurd (n (h.1))), (λ e. (p, n), λ h. refl), (λ e. cc, λ h. absurd (h p)))

other-Means : {P Q : Type 0} → (¬ P) → Means signature_verification P Q
other-Means n =
    ((λ e. cc, λ h. absurd (n (h.0))), (λ e. cc, λ h. absurd (n (h.0))), (λ e. n, λ h. refl))

module _ (lib : Library) (laws : Lawful lib) where
  -- The two equations between exponents that a proof over a·G and b·G is checked for.
  abbrev pub Solves : Session → Proof → ℕ → ℕ → Type 0
  Solves e proof a b =
      (proof.s1 % order ≡ (a + first_challenge lib laws e proof * e.x_server) % order)
      × (proof.s2 % order ≡ (b + proof.c2 * e.x_client) % order)

  -- The check answers, and true exactly on the solutions.
  verify_cases :
      (e : Session) (proof : Proof) (a b : ℕ)
      → IsChecked lib laws e proof a b
      → ((verify lib laws e proof ≡ ok true) × Solves e proof a b)
        ⊎ ((verify lib laws e proof ≡ ok false) × (¬ Solves e proof a b))
  verify_cases e proof a b h = elim (Bool-cases both) [
    | inl yes_both ↦ inl (answer ∙ ap ok yes_both, sound (answer ∙ ap ok yes_both))
    | inr not_both ↦
        inr (
          answer ∙ ap ok not_both,
          λ solved. true_ne_false (sym (complete solved) ∙ ap ok not_both),
        )
  ]
    where
      both : Bool
      both =
          same_bytes (laws.encode proof.s1)
            (laws.encode (a + first_challenge lib laws e proof * e.x_server))
          && same_bytes (laws.encode proof.s2) (laws.encode (b + proof.c2 * e.x_client))

      answer : verify lib laws e proof ≡ ok both
      answer =
          verify_lem lib laws e proof a b h.keys h.first_point h.second_point h.s1_scalar
            h.s2_scalar h.c2_scalar h.c1_scalar

      sound : verify lib laws e proof ≡ ok true → Solves e proof a b
      sound accepted_proof =
          let (first, second, sum) = verify_sound lib laws e proof a b h accepted_proof in
          (first, second)

      complete : Solves e proof a b → ok both ≡ ok true
      complete (first, second) =
          both_same _ _ _ _ (encode_of_mod lib laws _ _ first) (encode_of_mod lib laws _ _ second)

      true_ne_false : ok true ≡ ok false → ⊥
      true_ne_false q = cc

  -- Of a CertificateVerify whose signature is read as a proof over a·G and b·G, none of whose scalars and challenge
  -- parts is 0, in a session whose keys are not 0 and with the client's own point: the client accepts it exactly if its
  -- scheme is `dvnizk_ed25519` and s1 = a + c1·x_server and s2 = b + c2·x_client modulo the order. It alerts exactly
  -- if the scheme is this one and one of the equations fails, and goes on to verify a signature exactly if the scheme is
  -- another.
  pub client_verdict :
      (e : Session) (message : CertificateVerify) (proof : Proof) (a b ecdh_curve : ℕ)
      (own_public : Bytes)
      → deserialize_proof message.signature ≡ ok proof
      → IsChecked lib laws e proof a b
      → point_of_share ecdh_curve own_public ≡ laws.encode e.x_client
      → Means
          (client_certificate_verify lib message
            (laws.encode e.x_server)
            own_public
            ecdh_curve
            e.transcript_hash)
          (message.signature_algorithm ≡ dvnizk_ed25519)
          (Solves e proof a b)
  unfolding client_certificate_verify
  client_verdict e message proof a b ecdh_curve own_public parsed h point =
      elim (scheme_cases message.signature_algorithm) [
        | inr (test, other) ↦ rw test (other-Means other)
        | inl (test, same) ↦ elim (verify_cases e proof a b h) [
          | inl (answer, solved) ↦ rw (test, parsed, point, answer) (accepted-Means same solved)
          | inr (answer, unsolved) ↦ rw (test, parsed, point, answer) (alert-Means same unsolved)
        ]
      ]

-- A client that sent one share: if the server selects a group at all, the first share is for it.
pub select_group_single :
    (acceptable : List ℕ) (share : KeyShareEntry) (g : ℕ)
    → select_group acceptable (share ∷ []) ≡ some g
    → share.group ≡ g
unfolding select_group
select_group_single [] share g e = cc
select_group_single (a ∷ acceptable) share g e =
    ground (arith, select_group_single acceptable share g)

-- With two shares the server may select the group of the second one: its proof is then not made for
-- the key of the selected group.
pub select_group_second :
    (g h : ℕ) (first second : KeyShareEntry)
    → first.group ≡ g
    → second.group ≡ h
    → g ≢ h
    → (select_group (h ∷ g ∷ []) (first ∷ second ∷ []) ≡ some h)
      × (first_share (first ∷ second ∷ []) ≡ ok first.key_exchange)
unfolding select_group first_share
select_group_second g h first second eg eh ne = ground arith
