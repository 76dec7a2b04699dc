-- ===== src/KeyExchange/SrpAgreement.antt =====
-- tlslite/keyexchange.py: SRP, the same premaster secret on both sides.
use tls_dvnizk.Base.{
  ℕ, ◌+◌, ◌*◌, ◌%◌, ◌≤◌, ◌<◌, ◌≡◌, refl, sym, ap, ap₂, subst, ◌∙◌, ltb, ◌==◌, not, false, none,
  some, ok, illegal_parameter, insufficient_security, arith,
}
use tls_dvnizk.Base.Bytes.{Bytes}
use tls_dvnizk.Base.Fallible.{value_or, step_ok, test_ok}
use tls_dvnizk.Base.Numbers.{sub_mod, sub_mod-mod_left, add-sub_mod}
use tls_dvnizk.Base.Power.{pow_mod, pow_mod-mul, pow_mod-add, pow_mod-lt}
use tls_dvnizk.Numbers.ByteStrings.{bit_length, number_to_byte_array}
use tls_dvnizk.KeyExchange.Groups.{good_group_parameters}
use tls_dvnizk.KeyExchange.Srp.{
  Entry, ServerSrp, is_good, group_of, make_x, make_verifier, make_u, make_k,
  make_server_key_exchange, process_client_key_exchange, process_server_key_exchange,
}
use native.Mathlib.Nat.{mod-eq_of_lt, mul_comm}

module _ (g n a b x u k : ℕ) (pos : 1 ≤ n) where
  -- The client takes the verifier's part off.
  client_base :
      sub_mod ((pow_mod g b n + k * pow_mod g x n) % n) (k * pow_mod g x n) n ≡ pow_mod g b n
  client_base =
      sub_mod-mod_left (pow_mod g b n + k * pow_mod g x n) (k * pow_mod g x n) n
      ∙ add-sub_mod (pow_mod g b n) (k * pow_mod g x n) n pos
      ∙ mod-eq_of_lt (pow_mod-lt g b n pos)

  client_secret :
      pow_mod
        (sub_mod ((pow_mod g b n + k * pow_mod g x n) % n) (k * pow_mod g x n) n)
        (a + u * x)
        n
      ≡ pow_mod g (b * (a + u * x)) n
  client_secret =
      ap (λ (t : ℕ). pow_mod t (a + u * x) n) client_base ∙ pow_mod-mul g b (a + u * x) n

  server_secret :
      pow_mod (pow_mod g a n * pow_mod (pow_mod g x n) u n % n) b n ≡ pow_mod g ((a + x * u) * b) n
  server_secret =
      ap (λ (t : ℕ). pow_mod (pow_mod g a n * t % n) b n) (pow_mod-mul g x u n)
      ∙ ap (λ (t : ℕ). pow_mod t b n) (pow_mod-add g a (x * u) n)
      ∙ pow_mod-mul g (a + x * u) b n

  exponents : (a + x * u) * b ≡ b * (a + u * x)
  exponents = mul_comm (a + x * u) b ∙ ap (λ (t : ℕ). b * (a + t)) (mul_comm x u)

  secrets :
      pow_mod (pow_mod g a n * pow_mod (pow_mod g x n) u n % n) b n
      ≡ pow_mod
          (sub_mod ((pow_mod g b n + k * pow_mod g x n) % n) (k * pow_mod g x n) n)
          (a + u * x)
          n
  secrets = server_secret ∙ ap (λ (t : ℕ). pow_mod g t n) exponents ∙ sym client_secret

module _ (sha1 : Bytes → Bytes) (username password : Bytes) (a x : ℕ) where
  -- What the client ends with, where it ends with a secret.
  client_lem :
      (min_key_size max_key_size srp_a : ℕ) (secret : Bytes) (s : ServerSrp)
      → make_x sha1 s.srp_s username password ≡ ok x
      → process_server_key_exchange sha1 min_key_size max_key_size username password a s
        ≡ ok (srp_a, secret)
      → (pow_mod s.srp_g a s.srp_n ≡ srp_a)
        × (number_to_byte_array
              (pow_mod
                (sub_mod s.srp_b (make_k sha1 s.srp_n s.srp_g * pow_mod s.srp_g x s.srp_n) s.srp_n)
                (a + make_u sha1 s.srp_n (pow_mod s.srp_g a s.srp_n) s.srp_b * x)
                s.srp_n)
              none
            ≡ secret)
  unfolding process_server_key_exchange value_or
  client_lem min_key_size max_key_size srp_a secret s ex e =
      let y : ℕ × Bytes = (srp_a, secret) in
      let (c1, e1) =
        test_ok (not (is_good good_group_parameters s.srp_g s.srp_n)) insufficient_security _ y e in
      let (c2, e2) = test_ok (ltb (bit_length s.srp_n) min_key_size) insufficient_security _ y e1 in
      let (c3, e3) = test_ok (ltb max_key_size (bit_length s.srp_n)) insufficient_security _ y e2 in
      let (c4, e4) = test_ok (s.srp_b % s.srp_n == 0) illegal_parameter _ y e3 in
      let (x', ex', e5) = step_ok (make_x sha1 s.srp_s username password) _ y e4 in
      let same : x ≡ x' = ap (value_or x) (sym ex ∙ ex') in
      let pair = ap (value_or y) e5 in
      (
        ap (λ (t : ℕ × Bytes). t.0) pair,
        ap
              (λ (z : ℕ).
                number_to_byte_array
                  (pow_mod
                    (sub_mod s.srp_b (make_k sha1 s.srp_n s.srp_g * pow_mod s.srp_g z s.srp_n)
                      s.srp_n)
                    (a + make_u sha1 s.srp_n (pow_mod s.srp_g a s.srp_n) s.srp_b * z) s.srp_n)
                  none)
              same
            ∙ ap (λ (t : ℕ × Bytes). t.1) pair,
      )

module _ (sha1 : Bytes → Bytes) (n g v a b x : ℕ) (s0 : Bytes) (pos : 1 ≤ n) where
  -- What the server sends.
  entry_of : Entry
  entry_of = record { modulus = n; generator = g; salt = s0; verifier = v }

  b_of : ℕ
  b_of = (pow_mod g b n + make_k sha1 n g * v) % n

  share_of : ServerSrp
  share_of = record { srp_n = n; srp_g = g; srp_s = s0; srp_b = b_of }

  server_lem :
      (srp_a : ℕ)
      → 1 ≤ srp_a
      → srp_a < n
      → process_client_key_exchange sha1 entry_of b b_of srp_a
        ≡ ok (
            number_to_byte_array
              (pow_mod (srp_a * pow_mod v (make_u sha1 n srp_a b_of) n % n) b n)
              none)
  unfolding process_client_key_exchange entry_of
  server_lem srp_a low high = rw (no_zero srp_a n low high) refl
    where
      no_zero : (y m : ℕ) → 1 ≤ y → y < m → (y % m == 0) ≡ false
      no_zero y m h k = ground (arith, mod-eq_of_lt k)

module _ (sha1 : Bytes → Bytes) (n g a b x : ℕ) (s0 username password : Bytes) (pos : 1 ≤ n) where
  agreed :
      (min_key_size max_key_size srp_a : ℕ) (secret : Bytes)
      → make_x sha1 s0 username password ≡ ok x
      → process_server_key_exchange sha1 min_key_size max_key_size username password a
          (share_of sha1 n g (pow_mod g x n) a b x s0 pos)
        ≡ ok (srp_a, secret)
      → 1 ≤ srp_a
      → process_client_key_exchange sha1
          (entry_of sha1 n g (pow_mod g x n) a b x s0 pos)
          b
          (b_of sha1 n g (pow_mod g x n) a b x s0 pos)
          srp_a
        ≡ ok secret
  unfolding share_of b_of
  agreed min_key_size max_key_size srp_a secret ex e low =
      let v : ℕ = pow_mod g x n in
      let sb : ℕ = b_of sha1 n g v a b x s0 pos in
      let (same, end) =
        client_lem sha1 username password a x min_key_size max_key_size srp_a secret
          (share_of sha1 n g v a b x s0 pos) ex e in
      let small : srp_a < n = subst (λ (t : ℕ). t < n) same (pow_mod-lt g a n pos) in
      server_lem sha1 n g v a b x s0 pos srp_a low small
      ∙ ap
          (λ (t : ℕ).
            ok (number_to_byte_array (pow_mod (t * pow_mod v (make_u sha1 n t sb) n % n) b n) none))
          (sym same)
      ∙ ap (λ (t : ℕ). ok (number_to_byte_array t none))
          (secrets g n a b x (make_u sha1 n (pow_mod g a n) sb) (make_k sha1 n g) pos)
      ∙ ap ok end

-- With a verifier that makeVerifier made for a name and a password, if the client with the same name and password comes
-- to its share and a premaster secret from what the server sends, and its share is not 0, the server comes to the same
-- premaster secret from the client's share.
pub srp_agrees :
    (sha1 : Bytes → Bytes) (entry : Entry) (username password random_salt : Bytes)
    (bits a b min_key_size max_key_size srp_a : ℕ) (s : ServerSrp) (secret : Bytes)
    → make_verifier sha1 random_salt username password bits ≡ ok entry
    → 1 ≤ entry.modulus
    → make_server_key_exchange sha1 (some entry) b ≡ ok s
    → process_server_key_exchange sha1 min_key_size max_key_size username password a s
      ≡ ok (srp_a, secret)
    → 1 ≤ srp_a
    → process_client_key_exchange sha1 entry b s.srp_b srp_a ≡ ok secret
unfolding make_verifier make_server_key_exchange value_or share_of entry_of b_of
srp_agrees sha1 entry username password random_salt bits a b min_key_size max_key_size srp_a s
      secret made pos sent ended low =
    let (group, eg, made_1) = step_ok (group_of sha1 bits) _ entry made in
    let (x, ex, made_2) = step_ok (make_x sha1 random_salt username password) _ entry made_1 in
    let is_entry = ap (value_or entry) made_2 in
    let is_share = ap (value_or s) sent in
    let same_g : group.0 ≡ entry.generator = ap (λ (t : Entry). t.generator) is_entry in
    let same_n : group.1 ≡ entry.modulus = ap (λ (t : Entry). t.modulus) is_entry in
    let same_s : random_salt ≡ entry.salt = ap (λ (t : Entry). t.salt) is_entry in
    let v : ℕ = pow_mod entry.generator x entry.modulus in
    let same_v : v ≡ entry.verifier =
      ap₂ (λ (g n : ℕ). pow_mod g x n) (sym same_g) (sym same_n)
      ∙ ap (λ (t : Entry). t.verifier) is_entry in
    let server : Entry = entry_of sha1 entry.modulus entry.generator v a b x entry.salt pos in
    let whole : server ≡ entry =
      ap
        (λ (t : ℕ). record {
          modulus = entry.modulus;
          generator = entry.generator;
          salt = entry.salt;
          verifier = t;
        })
        same_v in
    let sent' : share_of sha1 entry.modulus entry.generator v a b x entry.salt pos ≡ s =
      ap
        (λ (t : ℕ). record {
          srp_n = entry.modulus;
          srp_g = entry.generator;
          srp_s = entry.salt;
          srp_b =
              (pow_mod entry.generator b entry.modulus
                + make_k sha1 entry.modulus entry.generator * t)
              % entry.modulus;
        })
        same_v
      ∙ is_share in
    ap₂ (λ (e : Entry) (t : ServerSrp). process_client_key_exchange sha1 e b t.srp_b srp_a)
      (sym whole) (sym sent')
    ∙ agreed sha1 entry.modulus entry.generator a b x entry.salt username password pos min_key_size
        max_key_size srp_a secret
        (subst (λ (t : Bytes). make_x sha1 t username password ≡ ok x) same_s ex)
        (subst
          (λ (t : ServerSrp).
            process_server_key_exchange sha1 min_key_size max_key_size username password a t
            ≡ ok (srp_a, secret))
          (sym sent') ended)
        low
