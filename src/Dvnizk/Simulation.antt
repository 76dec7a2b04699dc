-- ===== src/Dvnizk/Simulation.antt =====
-- Non-transferability: the client, from its own key, makes every proof that the server can make.
use tls_dvnizk.Base.{ℕ, ◌+◌, ◌*◌, ◌%◌, ◌<◌, ◌≡◌, refl, sym, ap, ◌∙◌, Result, ok, arith}
use tls_dvnizk.Base.Bytes.{le_bytes}
use tls_dvnizk.Base.Numbers.{
  sub_mod, sub_mod-add, sub_mod-mod_left, add-sub_mod, sub_mod_involutive,
}
use tls_dvnizk.Dvnizk.Curve.{Library, Lawful, order, order_range}
use tls_dvnizk.Dvnizk.Proof.{Proof, simulate_proof}
use tls_dvnizk.Dvnizk.Honest.{
  Session, HasKeys, Coins, AreScalars, random_scalar-le_bytes, point_base_mul_lem, point_mul_lem,
  challenge_in, generate, generate_lem, server_challenge, server_proof,
}
use native.Mathlib.Nat.{mod-eq_of_lt}

module _ (lib : Library) (laws : Lawful lib) where
  -- `simulate_proof` in a session, at entropy that draws these coins.
  abbrev pub simulate : Session → Coins → Result Proof
  simulate e k =
      simulate_proof lib (le_bytes 32 k.first) (le_bytes 32 k.second) (le_bytes 32 k.third)
        e.x_client (laws.encode e.x_server) (laws.encode e.x_client) e.transcript_hash

  -- The client's commitments are (s1 - c1·x_server)·G and r2·G.
  abbrev pub client_challenge : Session → Coins → ℕ
  client_challenge e k =
      challenge_in lib laws e (laws.encode (sub_mod k.third (k.second * e.x_server) order))
        (laws.encode k.first)

  abbrev pub client_proof : Session → Coins → Proof
  client_proof e k =
      let c2 = sub_mod (client_challenge e k) k.second order in
      record {
        r1_point = laws.encode (sub_mod k.third (k.second * e.x_server) order);
        r2_point = laws.encode k.first;
        s1 = k.third;
        s2 = (k.first + c2 * e.x_client) % order;
        c2 = c2;
      }

  pub simulate_lem :
      (e : Session) (k : Coins) → HasKeys e → AreScalars k → simulate e k ≡ ok (client_proof e k)
  unfolding simulate_proof
  simulate_lem e k keys h = rw (
    random_scalar-le_bytes k.first h.first_scalar.reduced,
    random_scalar-le_bytes k.second h.second_scalar.reduced,
    random_scalar-le_bytes k.third h.third_scalar.reduced,
    point_base_mul_lem lib laws k.first h.first_scalar,
    point_base_mul_lem lib laws k.third h.third_scalar,
    point_mul_lem lib laws k.second e.x_server h.second_scalar keys.server_key,
    laws.sub k.third (k.second * e.x_server),
  )

  -- The simulator's scalars (r2, c1, s1) for the server's (r1, c2, s2), and back.
  unfoldable pub to_simulator : Session → Coins → Coins
  to_simulator e k =
      let c1 = sub_mod (server_challenge lib laws e k) k.second order in
      record {
        first = sub_mod k.third (k.second * e.x_client) order;
        second = c1;
        third = (k.first + c1 * e.x_server) % order;
      }

  unfoldable pub to_server : Session → Coins → Coins
  to_server e k =
      let c2 = sub_mod (client_challenge e k) k.second order in
      record {
        first = sub_mod k.third (k.second * e.x_server) order;
        second = c2;
        third = (k.first + c2 * e.x_client) % order;
      }

  pub pos : 0 < order
  pos = omega (arith, order_range)

  -- r1 is found again from s1.
  undo : (r c x : ℕ) → r < order → sub_mod ((r + c * x) % order) (c * x) order ≡ r
  undo r c x h =
      sub_mod-mod_left (r + c * x) (c * x) order ∙ add-sub_mod r (c * x) order pos ∙ mod-eq_of_lt h

  -- s2 is found again from r2.
  redo : (s c x : ℕ) → s < order → (sub_mod s (c * x) order + c * x) % order ≡ s
  redo s c x h = sub_mod-add s (c * x) order pos ∙ mod-eq_of_lt h

  same_challenge :
      (e : Session) (k : Coins)
      → k.first < order
      → client_challenge e (to_simulator e k) ≡ server_challenge lib laws e k
  unfolding to_simulator
  same_challenge e k h =
      ap
        (λ (t : ℕ).
          challenge_in lib laws e (laws.encode t)
            (laws.encode (sub_mod k.third (k.second * e.x_client) order)))
        (undo k.first (sub_mod (server_challenge lib laws e k) k.second order) e.x_server h)

  same_challenge_back :
      (e : Session) (k : Coins)
      → k.first < order
      → server_challenge lib laws e (to_server e k) ≡ client_challenge e k
  unfolding to_server
  same_challenge_back e k h =
      ap
        (λ (t : ℕ).
          challenge_in lib laws e (laws.encode (sub_mod k.third (k.second * e.x_server) order))
            (laws.encode t))
        (undo k.first (sub_mod (client_challenge e k) k.second order) e.x_client h)

  pub coins_path :
      (j k : Coins) → j.first ≡ k.first → j.second ≡ k.second → j.third ≡ k.third → j ≡ k
  coins_path j k p q r = λ i. record { first = p i; second = q i; third = r i }

  abbrev pub Reduced : Coins → Type 0
  Reduced k = (k.first < order) × (k.second < order) × (k.third < order)

  -- The second part of the coins is found again: one challenge part is the challenge less the other.
  found_again :
      (c c' part : ℕ) → c' ≡ c → part < order → sub_mod c' (sub_mod c part order) order ≡ part
  found_again c c' part e h =
      ap (λ (t : ℕ). sub_mod t (sub_mod c part order) order) e
      ∙ sub_mod_involutive c part order pos h

  pub to_server-to_simulator :
      (e : Session) (k : Coins) → Reduced k → to_server e (to_simulator e k) ≡ k
  unfolding to_server to_simulator
  to_server-to_simulator e k (h1, h2, h3) =
      coins_path (to_server e (to_simulator e k)) k
        (undo k.first (sub_mod (server_challenge lib laws e k) k.second order) e.x_server h1) second
        (ap (λ (t : ℕ). (sub_mod k.third (k.second * e.x_client) order + t * e.x_client) % order)
            second
          ∙ redo k.third k.second e.x_client h3)
    where
      second :
          sub_mod
            (client_challenge e (to_simulator e k))
            (sub_mod (server_challenge lib laws e k) k.second order)
            order
          ≡ k.second
      second =
          found_again (server_challenge lib laws e k) (client_challenge e (to_simulator e k))
            k.second (same_challenge e k h1) h2

  pub to_simulator-to_server :
      (e : Session) (k : Coins) → Reduced k → to_simulator e (to_server e k) ≡ k
  unfolding to_server to_simulator
  to_simulator-to_server e k (h1, h2, h3) =
      coins_path (to_simulator e (to_server e k)) k
        (undo k.first (sub_mod (client_challenge e k) k.second order) e.x_client h1) second
        (ap (λ (t : ℕ). (sub_mod k.third (k.second * e.x_server) order + t * e.x_server) % order)
            second
          ∙ redo k.third k.second e.x_server h3)
    where
      second :
          sub_mod
            (server_challenge lib laws e (to_server e k))
            (sub_mod (client_challenge e k) k.second order)
            order
          ≡ k.second
      second =
          found_again (client_challenge e k) (server_challenge lib laws e (to_server e k)) k.second
            (same_challenge_back e k h1) h2

  proof_path :
      (p q : Proof)
      → p.r1_point ≡ q.r1_point
      → p.r2_point ≡ q.r2_point
      → p.s1 ≡ q.s1
      → p.s2 ≡ q.s2
      → p.c2 ≡ q.c2
      → p ≡ q
  proof_path p q a b c d f =
      λ i. record { r1_point = a i; r2_point = b i; s1 = c i; s2 = d i; c2 = f i }

  pub same_proof :
      (e : Session) (k : Coins)
      → Reduced k
      → client_proof e (to_simulator e k) ≡ server_proof lib laws e k
  unfolding to_simulator
  same_proof e k (h1, h2, h3) =
      proof_path (client_proof e (to_simulator e k)) (server_proof lib laws e k)
        (ap laws.encode
          (undo k.first (sub_mod (server_challenge lib laws e k) k.second order) e.x_server h1))
        refl refl
        (ap (λ (t : ℕ). (sub_mod k.third (k.second * e.x_client) order + t * e.x_client) % order)
            second
          ∙ redo k.third k.second e.x_client h3)
        second
    where
      second :
          sub_mod
            (client_challenge e (to_simulator e k))
            (sub_mod (server_challenge lib laws e k) k.second order)
            order
          ≡ k.second
      second =
          found_again (server_challenge lib laws e k) (client_challenge e (to_simulator e k))
            k.second (same_challenge e k h1) h2

  -- Where neither the server's scalars nor those that correspond to them are 0, `simulate_proof` gives
  -- at the corresponding scalars the very proof that `generate_proof` gives.
  pub simulate-generate :
      (e : Session) (k : Coins)
      → HasKeys e
      → AreScalars k
      → AreScalars (to_simulator e k)
      → simulate e (to_simulator e k) ≡ generate lib laws e k
  simulate-generate e k keys h h' =
      simulate_lem e (to_simulator e k) keys h'
      ∙ ap ok
          (same_proof e k (h.first_scalar.reduced, h.second_scalar.reduced, h.third_scalar.reduced))
      ∙ sym (generate_lem lib laws e k keys h)
