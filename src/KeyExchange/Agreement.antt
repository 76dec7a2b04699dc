-- ===== src/KeyExchange/Agreement.antt =====
-- tlslite/keyexchange.py: Diffie-Hellman over finite fields, the same secret on both sides.
use tls_dvnizk.Base.{
  ℕ, ◌-◌, ◌^◌, ◌≤◌, ◌<◌, ◌≡◌, refl, sym, ap, subst, ◌∙◌, ltb, leb, ◌==◌, ◌&&◌, not, Bool-cases,
  true, false, if◌then◌else◌, none, some, Result, ok, err, illegal_parameter, insufficient_security,
  inl, inr, arith,
}
use tls_dvnizk.Base.Bytes.{Bytes, be_value-be_bytes, length-be_bytes}
use tls_dvnizk.Base.Fallible.{◌>>=◌, value_or, if_ok, step_ok}
use tls_dvnizk.Base.Power.{pow_mod, pow_mod_swap, pow_mod-lt}
use tls_dvnizk.Numbers.ByteStrings.{byte_length, byte_length-lt, number_to_byte_array-enough}
use tls_dvnizk.Messages.Kinds.{before_3_4}
use tls_dvnizk.KeyExchange.Ffdh.{
  Ffdh, Share, with_params, new_ffdh, get_random_private_key, is_captured, as_share,
  calc_public_value, normalise_peer_share, as_secret, secret_of, calc_shared_key, adh_server_share,
  adh_client, adh_server,
}

normalise_lem : (k : Ffdh) (y : ℕ) → y < k.prime → normalise_peer_share k (as_share k y) ≡ ok y
unfolding normalise_peer_share
normalise_lem k y h = elim (Bool-cases (before_3_4 k.version)) [
  | inl early ↦ rw early refl
  | inr late ↦
      rw
        (
          late,
          number_to_byte_array-enough y (byte_length k.prime) fits,
          length-be_bytes (byte_length k.prime) y,
        )
        (rw (same (byte_length k.prime)) (ap ok (be_value-be_bytes (byte_length k.prime) y fits)))
]
  where
    fits : y < 256 ^ byte_length k.prime
    fits = omega (arith, byte_length-lt k.prime, h)

    same : (n : ℕ) → not (n == n) ≡ false
    same n = ground arith

-- What a public value says.
module _ (k : Ffdh) (a : ℕ) (share : Share) where
  public_lem :
      calc_public_value k a ≡ ok share
      → (is_captured k.prime (pow_mod k.generator a k.prime) ≡ false)
        × (as_share k (pow_mod k.generator a k.prime) ≡ share)
  unfolding calc_public_value value_or
  public_lem e =
      let (free, same) =
        if_ok (is_captured k.prime (pow_mod k.generator a k.prime)) illegal_parameter
          (ok (as_share k (pow_mod k.generator a k.prime))) share e in
      (free, ap (value_or share) same)

in_range :
    (p y : ℕ) → 1 ≤ y → y < p → is_captured p y ≡ false → not (leb 2 y && ltb y (p - 1)) ≡ false
in_range p y pos h e = ground arith

-- The secret from the share of the other side.
module _ (k : Ffdh) (a b : ℕ) (other : Share) where
  shared_lem :
      1 ≤ k.prime
      → 1 ≤ pow_mod k.generator b k.prime
      → calc_public_value k b ≡ ok other
      → calc_shared_key k a other ≡ (
          let s = pow_mod (pow_mod k.generator b k.prime) a k.prime in
          if is_captured k.prime s then err illegal_parameter else ok (as_secret k s))
  unfolding calc_shared_key secret_of
  shared_lem pos nonzero e =
      let y : ℕ = pow_mod k.generator b k.prime in
      let small : y < k.prime = pow_mod-lt k.generator b k.prime pos in
      let (free, same) = public_lem k b other e in
      subst
        (λ (s : Share). (normalise_peer_share k s >>= secret_of k a) ≡ (
          let s = pow_mod y a k.prime in
          if is_captured k.prime s then err illegal_parameter else ok (as_secret k s)))
        same (rw (normalise_lem k y small) (rw (in_range k.prime y nonzero small free) refl))

-- Two sides with an object of the same parameters, whose public values are made and are not 0, come to the same end:
-- calc_shared_key gives both the same secret, or raises the same exception on both sides.
pub calc_shared_key_agrees :
    (k : Ffdh) (a b : ℕ) (share_a share_b : Share)
    → 1 ≤ k.prime
    → 1 ≤ pow_mod k.generator a k.prime
    → 1 ≤ pow_mod k.generator b k.prime
    → calc_public_value k a ≡ ok share_a
    → calc_public_value k b ≡ ok share_b
    → calc_shared_key k a share_b ≡ calc_shared_key k b share_a
calc_shared_key_agrees k a b share_a share_b pos na nb ea eb =
    shared_lem k a b share_b pos nb eb
    ∙ ap (λ (s : ℕ). if is_captured k.prime s then err illegal_parameter else ok (as_secret k s))
        (pow_mod_swap k.generator b a k.prime)
    ∙ sym (shared_lem k b a share_a pos na ea)

in_order : (a b : ℕ) → 1 < a → a < b → (ltb 1 a && ltb a b) ≡ true
in_order a b h g = ground arith

made_lem :
    (q : Ffdh)
    → 1 < q.generator
    → q.generator < q.prime
    → new_ffdh none q.version (some (q.generator, q.prime)) ≡ ok q
unfolding new_ffdh with_params
made_lem q low high = rw (in_order q.generator q.prime low high) refl

-- In the anonymous exchange, with a generator above 1 and below the prime, if the server's share is made and the client
-- comes to a share and a premaster secret from it, and the powers that are shared are not 0, the server comes to the same
-- premaster secret from the client's share.
pub adh_agrees :
    (k : Ffdh) (random_bytes : ℕ → Bytes) (private : ℕ) (server_share client_share : Share)
    (secret : Bytes)
    → 1 < k.generator
    → k.generator < k.prime
    → 1 ≤ pow_mod k.generator private k.prime
    → 1 ≤ pow_mod k.generator (get_random_private_key random_bytes k) k.prime
    → adh_server_share k.version (k.generator, k.prime) private ≡ ok server_share
    → adh_client k.version (k.generator, k.prime) random_bytes server_share
      ≡ ok (client_share, secret)
    → adh_server k.version (k.generator, k.prime) private client_share ≡ ok secret
unfolding adh_server_share adh_client adh_server value_or
adh_agrees k random_bytes private server_share client_share secret low high ns nc es ec =
    let pos : 1 ≤ k.prime = omega (arith, high) in
    let xc : ℕ = get_random_private_key random_bytes k in
    let made : new_ffdh none k.version (some (k.generator, k.prime)) ≡ ok k = made_lem k low high in
    let es' : calc_public_value k private ≡ ok server_share =
      sym (ap (λ (r : Result Ffdh). r >>= λ q. calc_public_value q private) made) ∙ es in
    let (big, ec') =
      if_ok (ltb k.prime (2 ^ 1023)) insufficient_security _ (client_share, secret) ec in
    let run : (calc_public_value k xc >>= λ own.
    calc_shared_key k xc server_share >>= λ s. ok (own, s))
        ≡ ok (client_share, secret) =
      sym (
        ap
          (λ (r : Result Ffdh). r >>= λ q.
            calc_public_value q (get_random_private_key random_bytes q) >>= λ own.
            calc_shared_key q (get_random_private_key random_bytes q) server_share >>= λ s.
            ok (own, s))
          made)
      ∙ ec' in
    let (own, public, more) = step_ok (calc_public_value k xc) _ (client_share, secret) run in
    let (s, shared, pair) =
      step_ok (calc_shared_key k xc server_share) _ (client_share, secret) more in
    let same : (own, s) ≡ (client_share, secret) = ap (value_or (own, s)) pair in
    ap (λ (r : Result Ffdh). r >>= λ q. calc_shared_key q private client_share) made
    ∙ ap (calc_shared_key k private) (sym (ap (λ (t : Share × Bytes). t.0) same))
    ∙ calc_shared_key_agrees k private xc server_share own pos ns nc es' public
    ∙ shared
    ∙ ap (λ (t : Share × Bytes). ok (t.1)) same
