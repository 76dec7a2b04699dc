-- ===== src/Dvnizk/Tests.antt =====
-- A library that meets the laws, and the theorems on proofs at concrete sessions.
use tls_dvnizk.Base.{
  ℕ, ◌+◌, ◌*◌, ◌%◌, ◌^◌, ◌<◌, ◌≡◌, ◌≢◌, ◌↔◌, refl, sym, ap, ◌∙◌, [], ◌∷◌, length, ok, arith, true,
}
use tls_dvnizk.Base.Bytes.{Bytes, le_bytes, le_value, length-le_bytes, le_value-le_bytes}
use tls_dvnizk.Base.Numbers.{sub_mod, sub_mod-mod_left, sub_mod-mod_right}
use tls_dvnizk.Base.Power.{mul-mod}
use tls_dvnizk.Dvnizk.Curve.{Library, Lawful, order, order_range, hash_to_scalar}
use tls_dvnizk.Dvnizk.Honest.{
  Session, HasKeys, Coins, AreScalars, IsScalar, IsRegular, verify-generate, generate, verify,
  server_proof,
}
use tls_dvnizk.Dvnizk.Simulation.{simulate, to_simulator, to_server, simulate-generate}
use tls_dvnizk.Dvnizk.Correspondence.{simulator_bijection}
use tls_dvnizk.Dvnizk.Proof.{Proof, challenge, deserialize_proof, serialize_proof}
use tls_dvnizk.Dvnizk.Wire.{IsWellFormed, deserialize-serialize, deserialize_malleable}
use native.Mathlib.Nat.{mod-lt, mod-mod, mod-add-mod, add-mod-mod}

-- The integers modulo the order in the place of the points.
abbrev pub residue : ℕ → Bytes
residue x = le_bytes 32 (x % order)

abbrev pub toy : Library
toy = record {
  scalarmult_base_noclamp = λ s. ok (residue (le_value s));
  scalarmult_noclamp = λ s p. ok (residue (le_value s * le_value p));
  core_add = λ p q. ok (residue (le_value p + le_value q));
  core_sub = λ p q. ok (residue (sub_mod (le_value p) (le_value q) order));
  sha512 = λ m. le_bytes 64 1000;
}

small : (s : ℕ) → s < order → s < 256 ^ 32
small s h = omega (arith, order_range)

pub residue_value : (x : ℕ) → le_value (residue x) ≡ x % order
residue_value x = le_value-le_bytes 32 (x % order) (small _ (mod-lt x (omega (arith, order_range))))

pub residue_of_mod : (a b : ℕ) → a % order ≡ b % order → residue a ≡ residue b
residue_of_mod a b e = ap (le_bytes 32) e

pub scalar_value : (s : ℕ) → s < order → le_value (le_bytes 32 s) ≡ s
scalar_value s h = le_value-le_bytes 32 s (small s h)

pub toy_mul :
    (s x : ℕ)
    → s < order
    → toy.scalarmult_noclamp (le_bytes 32 s) (residue x) ≡ ok (residue (s * x))
toy_mul s x h = ap ok (
    residue_of_mod _ _ (
      ap (λ (t : ℕ). (t * le_value (residue x)) % order) (scalar_value s h)
      ∙ ap (λ (t : ℕ). (s * t) % order) (residue_value x)
      ∙ mul-mod s x order))

pub toy_add : (x y : ℕ) → toy.core_add (residue x) (residue y) ≡ ok (residue (x + y))
toy_add x y = ap ok (
    residue_of_mod _ _ (
      ap (λ (t : ℕ). (t + le_value (residue y)) % order) (residue_value x)
      ∙ ap (λ (t : ℕ). (x % order + t) % order) (residue_value y)
      ∙ mod-add-mod x order (y % order)
      ∙ add-mod-mod x y order))

pub toy_sub : (x y : ℕ) → toy.core_sub (residue x) (residue y) ≡ ok (residue (sub_mod x y order))
toy_sub x y =
    ap (λ (t : ℕ). ok (residue t))
      (ap (λ (t : ℕ). sub_mod t (le_value (residue y)) order) (residue_value x)
        ∙ ap (λ (t : ℕ). sub_mod (x % order) t order) (residue_value y)
        ∙ sub_mod-mod_left x (y % order) order
        ∙ sub_mod-mod_right x y order)

abbrev pub toy_laws : Lawful toy
toy_laws = record {
  encode = residue;
  length-encode = λ x. length-le_bytes 32 (x % order);
  encode-mod = λ x. residue_of_mod (x % order) x (mod-mod x order);
  encode_inj = λ x y e. sym (residue_value x) ∙ ap le_value e ∙ residue_value y;
  base_mul = λ s p h. ap (λ (t : ℕ). ok (residue t)) (scalar_value s h);
  mul = λ s x p h q. toy_mul s x h;
  add = λ x y. toy_add x y;
  sub = λ x y. toy_sub x y;
}

abbrev pub session : Session
session = record { x_server = 5; x_client = 7; transcript_hash = 1 ∷ 2 ∷ [] }

abbrev pub coins : Coins
coins = record { first = 11; second = 13; third = 17 }

pub session-HasKeys : HasKeys session
unfolding order
session-HasKeys = record { server_key = omega arith; client_key = omega arith }

pub small-IsScalar : (s : ℕ) → 0 < s → s < 10000 → IsScalar s
unfolding order
small-IsScalar s p h = record { positive = p; reduced = omega arith }

pub coins-AreScalars : AreScalars coins
coins-AreScalars = record {
  first_scalar = small-IsScalar 11 (omega arith) (omega arith);
  second_scalar = small-IsScalar 13 (omega arith) (omega arith);
  third_scalar = small-IsScalar 17 (omega arith) (omega arith);
}

-- The hash is 1000, so c1 is 987 and s1 is 11 + 987 * 5.
pub coins-IsRegular : IsRegular toy toy_laws session coins
unfolding order challenge hash_to_scalar sub_mod le_bytes le_value
coins-IsRegular = record {
  challenge_part = small-IsScalar 987 (omega arith) (omega arith);
  response = small-IsScalar 4946 (omega arith) (omega arith);
}

-- The simulator's scalars are 17 - 13 * 7 modulo the order, 987 and 4946.
simulator_coins-AreScalars : AreScalars (to_simulator toy toy_laws session coins)
unfolding to_simulator order challenge hash_to_scalar sub_mod le_bytes le_value
simulator_coins-AreScalars = record {
  first_scalar = record { positive = omega arith; reduced = omega arith };
  second_scalar = small-IsScalar 987 (omega arith) (omega arith);
  third_scalar = small-IsScalar 4946 (omega arith) (omega arith);
}

verify-generate_example :
    (proof : Proof) × (generate toy toy_laws session coins ≡ ok proof)
    × (verify toy toy_laws session proof ≡ ok true)
verify-generate_example =
    verify-generate toy toy_laws session coins session-HasKeys coins-AreScalars coins-IsRegular

simulate-generate_example :
    simulate toy toy_laws session (to_simulator toy toy_laws session coins)
    ≡ generate toy toy_laws session coins
simulate-generate_example =
    simulate-generate toy toy_laws session coins session-HasKeys coins-AreScalars
      simulator_coins-AreScalars

simulator_bijection_example :
    let there = to_simulator toy toy_laws session coins in
    ((simulate toy toy_laws session there ≡ generate toy toy_laws session coins) ↔ (there ≡ there))
    × ((simulate toy toy_laws session there ≡ generate toy toy_laws session coins)
        ↔ (to_server toy toy_laws session there ≡ coins))
simulator_bijection_example =
    simulator_bijection toy toy_laws session coins (to_simulator toy toy_laws session coins)
      session-HasKeys coins-AreScalars simulator_coins-AreScalars

abbrev pub honest : Proof
honest = server_proof toy toy_laws session coins

pub honest-IsWellFormed : IsWellFormed honest
unfolding order le_bytes
honest-IsWellFormed = record {
  length_r1 = refl;
  length_r2 = refl;
  s1_reduced = omega arith;
  s2_reduced = omega arith;
  c2_reduced = omega arith;
}

deserialize-serialize_example :
    (bs : Bytes) × (serialize_proof honest ≡ ok bs)
    × (length bs ≡ 160)
    × (deserialize_proof bs ≡ ok honest)
deserialize-serialize_example = deserialize-serialize honest honest-IsWellFormed

deserialize_malleable_example :
    (bs : Bytes) × (serialize_proof honest ≢ ok bs) × (deserialize_proof bs ≡ ok honest)
deserialize_malleable_example = deserialize_malleable honest honest-IsWellFormed
