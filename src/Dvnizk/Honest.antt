-- ===== src/Dvnizk/Honest.antt =====
-- The algorithms over points that are multiples of the generator: what an honest server makes, and
-- what the verifier accepts.
use tls_dvnizk.Base.{
  ℕ, ◌+◌, ◌*◌, ◌%◌, ◌<◌, ◌≡◌, refl, sym, ap, ap₂, ◌∙◌, Bool, true, ◌&&◌, Result, ok, arith,
}
use tls_dvnizk.Base.Bytes.{
  same_bytes, same_bytes_refl, same_bytes→eq, Bytes, le_bytes, le_value-le_bytes,
}
use tls_dvnizk.Base.Numbers.{sub_mod, sub_mod-add}
use tls_dvnizk.Dvnizk.Curve.{
  Library, Lawful, order, order_range, random_scalar, scalar_to_bytes, point_mul, point_base_mul,
}
use tls_dvnizk.Dvnizk.Proof.{Proof, challenge, generate_proof, verify_proof}
use native.Mathlib.Nat.{mod-eq_of_lt}

-- A scalar that is not 0.
pub record IsScalar (s : ℕ) : Type 0 where
  pub positive : 0 < s
  pub reduced : s < order

-- The server's private scalar, the client's, and the transcript's hash.
pub record Session : Type 0 where
  pub x_server : ℕ
  pub x_client : ℕ
  pub transcript_hash : Bytes

pub record HasKeys (e : Session) : Type 0 where
  pub server_key : 0 < e.x_server % order
  pub client_key : 0 < e.x_client % order

-- The random scalars of a run, in the order in which they are drawn.
pub record Coins : Type 0 where
  pub first : ℕ
  pub second : ℕ
  pub third : ℕ

pub record AreScalars (k : Coins) : Type 0 where
  pub first_scalar : IsScalar k.first
  pub second_scalar : IsScalar k.second
  pub third_scalar : IsScalar k.third

-- Both comparisons of the verifier succeed.
pub both_same : (p q r s : Bytes) → p ≡ q → r ≡ s → ok (same_bytes p q && same_bytes r s) ≡ ok true
both_same p q r s e f =
    ap₂ (λ (u v : Bytes). ok (same_bytes u q && same_bytes v s)) e f
    ∙ rw (same_bytes_refl q, same_bytes_refl s)

pub both_same→eq :
    (p q r s : Bytes) → ok (same_bytes p q && same_bytes r s) ≡ ok true → (p ≡ q) × (r ≡ s)
both_same→eq p q r s h = ground (arith, same_bytes→eq p q, same_bytes→eq r s)

pub scalar_to_bytes_lem : (s : ℕ) → s < order → scalar_to_bytes s ≡ ok (le_bytes 32 s)
unfolding scalar_to_bytes
scalar_to_bytes_lem s h = ground (arith, order_range)

-- Entropy that spells out a scalar draws it.
pub random_scalar-le_bytes : (s : ℕ) → s < order → random_scalar (le_bytes 32 s) ≡ s
unfolding random_scalar
random_scalar-le_bytes s h =
    rw (le_value-le_bytes 32 s (omega (arith, order_range))) (mod-eq_of_lt h)

module _ (lib : Library) (laws : Lawful lib) where
  pub encode_of_mod : (a b : ℕ) → a % order ≡ b % order → laws.encode a ≡ laws.encode b
  encode_of_mod a b e = sym (laws.encode-mod a) ∙ ap laws.encode e ∙ laws.encode-mod b

  pub point_base_mul_lem : (s : ℕ) → IsScalar s → point_base_mul lib s ≡ ok (laws.encode s)
  unfolding point_base_mul
  point_base_mul_lem s h =
      rw (scalar_to_bytes_lem s h.reduced) (laws.base_mul s h.positive h.reduced)

  pub point_mul_lem :
      (s x : ℕ)
      → IsScalar s
      → 0 < x % order
      → point_mul lib s (laws.encode x) ≡ ok (laws.encode (s * x))
  unfolding point_mul
  point_mul_lem s x h p = rw (scalar_to_bytes_lem s h.reduced) (laws.mul s x h.positive h.reduced p)

  -- The challenge in a session, over two commitments.
  abbrev pub challenge_in : Session → Bytes → Bytes → ℕ
  challenge_in e r1_point r2_point =
      challenge lib r1_point r2_point (laws.encode e.x_server) (laws.encode e.x_client)
        e.transcript_hash

  -- The server's commitments are r1·G and (s2 - c2·x_client)·G.
  abbrev pub server_challenge : Session → Coins → ℕ
  server_challenge e k =
      challenge_in e (laws.encode k.first)
        (laws.encode (sub_mod k.third (k.second * e.x_client) order))

  abbrev pub server_proof : Session → Coins → Proof
  server_proof e k =
      let c1 = sub_mod (server_challenge e k) k.second order in
      record {
        r1_point = laws.encode k.first;
        r2_point = laws.encode (sub_mod k.third (k.second * e.x_client) order);
        s1 = (k.first + c1 * e.x_server) % order;
        s2 = k.third;
        c2 = k.second;
      }

  -- `generate_proof` in a session, at entropy that draws these coins.
  abbrev pub generate : Session → Coins → Result Proof
  generate e k =
      generate_proof lib (le_bytes 32 k.first) (le_bytes 32 k.second) (le_bytes 32 k.third)
        e.x_server (laws.encode e.x_server) (laws.encode e.x_client) e.transcript_hash

  abbrev pub verify : Session → Proof → Result Bool
  verify e proof =
      verify_proof lib proof (laws.encode e.x_server) (laws.encode e.x_client) e.transcript_hash

  pub generate_lem :
      (e : Session) (k : Coins) → HasKeys e → AreScalars k → generate e k ≡ ok (server_proof e k)
  unfolding generate_proof
  generate_lem e k keys h = rw (
    random_scalar-le_bytes k.first h.first_scalar.reduced,
    random_scalar-le_bytes k.second h.second_scalar.reduced,
    random_scalar-le_bytes k.third h.third_scalar.reduced,
    point_base_mul_lem k.first h.first_scalar,
    point_base_mul_lem k.third h.third_scalar,
    point_mul_lem k.second e.x_client h.second_scalar keys.client_key,
    laws.sub k.third (k.second * e.x_client),
  )

  -- The two equations that the verifier checks, between multiples of the generator.
  pub verify_lem :
      (e : Session) (proof : Proof) (a b : ℕ)
      → HasKeys e
      → proof.r1_point ≡ laws.encode a
      → proof.r2_point ≡ laws.encode b
      → IsScalar proof.s1
      → IsScalar proof.s2
      → IsScalar proof.c2
      → let c1 = sub_mod (challenge_in e proof.r1_point proof.r2_point) proof.c2 order in
        IsScalar c1
        → verify e proof
          ≡ ok (
              same_bytes (laws.encode proof.s1) (laws.encode (a + c1 * e.x_server))
              && same_bytes (laws.encode proof.s2) (laws.encode (b + proof.c2 * e.x_client)))
  unfolding verify_proof
  verify_lem e proof a b keys ea eb h1 h2 hc hc1 = rw (
    point_base_mul_lem proof.s1 h1,
    point_mul_lem (sub_mod (challenge_in e proof.r1_point proof.r2_point) proof.c2 order) e.x_server
        hc1 keys.server_key,
    sum proof.r1_point a
        (sub_mod (challenge_in e proof.r1_point proof.r2_point) proof.c2 order * e.x_server) ea,
    point_base_mul_lem proof.s2 h2,
    point_mul_lem proof.c2 e.x_client hc keys.client_key,
    sum proof.r2_point b (proof.c2 * e.x_client) eb,
  )
    where
      sum :
          (p : Bytes) (x y : ℕ)
          → p ≡ laws.encode x
          → lib.core_add p (laws.encode y) ≡ ok (laws.encode (x + y))
      sum p x y q = ap (λ (t : Bytes). lib.core_add t (laws.encode y)) q ∙ laws.add x y

  -- No later division by zero: the scalars that the verifier multiplies by are not 0.
  pub record IsRegular (e : Session) (k : Coins) : Type 0 where
    pub challenge_part : IsScalar (sub_mod (server_challenge e k) k.second order)
    pub response : IsScalar (server_proof e k).s1

  pub verify-server_proof :
      (e : Session) (k : Coins)
      → HasKeys e
      → AreScalars k
      → IsRegular e k
      → verify e (server_proof e k) ≡ ok true
  verify-server_proof e k keys h regular =
      verify_lem e (server_proof e k) k.first (sub_mod k.third (k.second * e.x_client) order) keys
        refl refl regular.response h.third_scalar h.second_scalar regular.challenge_part
      ∙ both_same _ _ _ _ first_branch second_branch
    where
      first_branch :
          laws.encode (server_proof e k).s1
          ≡ laws.encode (k.first + sub_mod (server_challenge e k) k.second order * e.x_server)
      first_branch = laws.encode-mod _

      second_branch :
          laws.encode k.third
          ≡ laws.encode (sub_mod k.third (k.second * e.x_client) order + k.second * e.x_client)
      second_branch =
          encode_of_mod _ _
            (sym (sub_mod-add k.third (k.second * e.x_client) order (omega (arith, order_range))))

  -- For coins that are not 0, and unless a challenge part or a response happens to be 0, the server
  -- makes a proof and the client's check of it answers true.
  pub verify-generate :
      (e : Session) (k : Coins)
      → HasKeys e
      → AreScalars k
      → IsRegular e k
      → (proof : Proof) × (generate e k ≡ ok proof) × (verify e proof ≡ ok true)
  verify-generate e k keys h regular =
      (server_proof e k, generate_lem e k keys h, verify-server_proof e k keys h regular)

-- A proof over commitments a·G and b·G, none of whose scalars is 0, is checked as two equations
-- between exponents.
module _ (lib : Library) (laws : Lawful lib) where
  pub record IsChecked (e : Session) (proof : Proof) (a b : ℕ) : Type 0 where
    pub keys : HasKeys e
    pub first_point : proof.r1_point ≡ laws.encode a
    pub second_point : proof.r2_point ≡ laws.encode b
    pub s1_scalar : IsScalar proof.s1
    pub s2_scalar : IsScalar proof.s2
    pub c2_scalar : IsScalar proof.c2
    pub c1_scalar :
        IsScalar (sub_mod (challenge_in lib laws e proof.r1_point proof.r2_point) proof.c2 order)

  -- c1 of a proof.
  abbrev pub first_challenge : Session → Proof → ℕ
  first_challenge e proof =
      sub_mod (challenge_in lib laws e proof.r1_point proof.r2_point) proof.c2 order

  -- An accepted proof solves s1 = a + c1·x_server and s2 = b + c2·x_client modulo the order, and its
  -- two challenge parts sum to the hash of the session.
  pub verify_sound :
      (e : Session) (proof : Proof) (a b : ℕ)
      → IsChecked e proof a b
      → verify lib laws e proof ≡ ok true
      → (proof.s1 % order ≡ (a + first_challenge e proof * e.x_server) % order)
        × (proof.s2 % order ≡ (b + proof.c2 * e.x_client) % order)
        × ((first_challenge e proof + proof.c2) % order
            ≡ challenge_in lib laws e proof.r1_point proof.r2_point % order)
  verify_sound e proof a b h accepted = (
    laws.encode_inj _ _ equations.0,
    laws.encode_inj _ _ equations.1,
    sub_mod-add (challenge_in lib laws e proof.r1_point proof.r2_point) proof.c2 order
        (omega (arith, order_range)),
  )
    where
      equations :
          (laws.encode proof.s1 ≡ laws.encode (a + first_challenge e proof * e.x_server))
          × (laws.encode proof.s2 ≡ laws.encode (b + proof.c2 * e.x_client))
      equations = both_same→eq _ _ _ _ (
          sym (
            verify_lem lib laws e proof a b h.keys h.first_point h.second_point h.s1_scalar
              h.s2_scalar h.c2_scalar h.c1_scalar)
          ∙ accepted)
