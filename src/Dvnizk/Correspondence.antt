-- ===== src/Dvnizk/Correspondence.antt =====
-- The random scalars of `generate_proof` and of `simulate_proof` that give the same proof correspond one to one.
use tls_dvnizk.Base.{ℕ, ◌%◌, ◌<◌, ◌≡◌, ◌↔◌, sym, ap, ap₂, ◌∙◌, ok}
use tls_dvnizk.Base.Numbers.{sub_mod, sub_mod_involutive}
use tls_dvnizk.Dvnizk.Curve.{Library, Lawful, order}
use tls_dvnizk.Dvnizk.Proof.{Proof}
use tls_dvnizk.Dvnizk.Honest.{
  Session, HasKeys, Coins, AreScalars, challenge_in, generate, generate_lem, server_proof,
}
use tls_dvnizk.Dvnizk.Simulation.{
  simulate, client_challenge, client_proof, simulate_lem, to_simulator, to_server, pos, coins_path,
  Reduced, to_server-to_simulator, to_simulator-to_server, same_proof,
}
use native.Mathlib.Nat.{mod-eq_of_lt, mod-lt}

ok_inj : (p q : Proof) → ok p ≡ ok q → p ≡ q
ok_inj p q e = cc

same_residue : (a b : ℕ) → a < order → b < order → a % order ≡ b % order → a ≡ b
same_residue a b p q e = sym (mod-eq_of_lt p) ∙ e ∙ mod-eq_of_lt q

module _ (lib : Library) (laws : Lawful lib) where
  AreScalars-Reduced : (k : Coins) → AreScalars k → Reduced lib laws k
  AreScalars-Reduced k h = (h.first_scalar.reduced, h.second_scalar.reduced, h.third_scalar.reduced)

  to_simulator-Reduced : (e : Session) (k : Coins) → Reduced lib laws (to_simulator lib laws e k)
  unfolding to_simulator sub_mod
  to_simulator-Reduced e k =
      (mod-lt _ (pos lib laws), mod-lt _ (pos lib laws), mod-lt _ (pos lib laws))

  -- The simulator's scalars can be read off its proof.
  client_proof_inj :
      (e : Session) (j k : Coins)
      → Reduced lib laws j
      → Reduced lib laws k
      → client_proof lib laws e j ≡ client_proof lib laws e k
      → j ≡ k
  client_proof_inj e j k (h1, h2, h3) (m1, m2, m3) same =
      coins_path lib laws j k
        (same_residue j.first k.first h1 m1
          (laws.encode_inj j.first k.first (ap (λ (p : Proof). p.r2_point) same)))
        second (ap (λ (p : Proof). p.s1) same)
    where
      challenges : client_challenge lib laws e j ≡ client_challenge lib laws e k
      challenges = ap (λ (p : Proof). challenge_in lib laws e p.r1_point p.r2_point) same

      second : j.second ≡ k.second
      second =
          sym (sub_mod_involutive (client_challenge lib laws e j) j.second order (pos lib laws) h2)
          ∙ ap₂ (λ (c part : ℕ). sub_mod c part order) challenges (ap (λ (p : Proof). p.c2) same)
          ∙ sub_mod_involutive (client_challenge lib laws e k) k.second order (pos lib laws) m2

  -- At scalars that are not 0, in a session whose keys are not 0, `simulate_proof` gives the proof that
  -- `generate_proof` gives exactly if its scalars are those that correspond to the server's, and exactly if the
  -- server's are those that correspond to them: each side's scalars are determined by the other's.
  pub simulator_bijection :
      (e : Session) (k j : Coins)
      → HasKeys e
      → AreScalars k
      → AreScalars j
      → ((simulate lib laws e j ≡ generate lib laws e k) ↔ (to_simulator lib laws e k ≡ j))
        × ((simulate lib laws e j ≡ generate lib laws e k) ↔ (to_server lib laws e j ≡ k))
  simulator_bijection e k j keys hk hj = (
    (found, gives),
    (
      λ same. ap (to_server lib laws e) (sym (found same)) ∙ to_server-to_simulator lib laws e k rk,
      λ q. gives (ap (to_simulator lib laws e) (sym q) ∙ to_simulator-to_server lib laws e j rj),
    ),
  )
    where
      rk : Reduced lib laws k
      rk = AreScalars-Reduced k hk

      rj : Reduced lib laws j
      rj = AreScalars-Reduced j hj

      found : simulate lib laws e j ≡ generate lib laws e k → to_simulator lib laws e k ≡ j
      found same = client_proof_inj e (to_simulator lib laws e k) j (to_simulator-Reduced e k) rj (
          same_proof lib laws e k rk
          ∙ ok_inj (server_proof lib laws e k) (client_proof lib laws e j) (
              sym (generate_lem lib laws e k keys hk)
              ∙ sym same
              ∙ simulate_lem lib laws e j keys hj))

      gives : to_simulator lib laws e k ≡ j → simulate lib laws e j ≡ generate lib laws e k
      gives q =
          simulate_lem lib laws e j keys hj
          ∙ ap ok (ap (client_proof lib laws e) (sym q) ∙ same_proof lib laws e k rk)
          ∙ sym (generate_lem lib laws e k keys hk)
