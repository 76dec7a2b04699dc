-- ===== src/KeyExchange/Srp.antt =====
-- tlslite/keyexchange.py: SRPKeyExchange, and its helpers in tlslite/mathtls.py. SHA-1 is a parameter.
use tls_dvnizk.Base.{
  ℕ, ◌+◌, ◌-◌, ◌*◌, ◌%◌, List, [], ◌∷◌, ◌++◌, length, replicate, ltb, leb, ◌==◌, ◌||◌, ◌&&◌, not,
  Bool, false, if◌then◌else◌, Option, none, some, Result, ok, err, value_error, key_error,
  illegal_parameter, insufficient_security, unknown_psk_identity,
}
use tls_dvnizk.Base.Bytes.{Bytes}
use tls_dvnizk.Base.Fallible.{◌>>=◌, ◌>>◌, fail_if}
use tls_dvnizk.Base.Numbers.{sub_mod}
use tls_dvnizk.Base.Power.{pow_mod}
use tls_dvnizk.Numbers.ByteStrings.{bit_length, number_to_byte_array, bytes_to_number}
use tls_dvnizk.KeyExchange.Groups.{
  good_group_parameters, rfc5054_1024, rfc5054_1536, rfc5054_2048, rfc5054_3072, rfc5054_4096,
  rfc5054_6144, rfc5054_8192,
}

-- An entry of the verifier database: N, g, the salt and the verifier.
pub record Entry : Type 0 where
  pub modulus : ℕ
  pub generator : ℕ
  pub salt : Bytes
  pub verifier : ℕ

-- The parameters of a ServerKeyExchange.
pub record ServerSrp : Type 0 where
  pub srp_n : ℕ
  pub srp_g : ℕ
  pub srp_s : Bytes
  pub srp_b : ℕ

-- `(g, N) in goodGroupParameters`
abbrev pub is_good : List (ℕ × ℕ) → ℕ → ℕ → Bool
is_good [] g n = false
is_good ((generator, prime) ∷ groups) g n = is_good groups g n || ((generator == g) && (prime == n))

unfoldable pub pad : ℕ → ℕ → Bytes
pad n x = padded (length (number_to_byte_array n none)) (number_to_byte_array x none)
  where
    padded : ℕ → Bytes → Bytes
    padded n_length b =
        if ltb (length b) n_length then replicate (n_length - length b) 0 ++ b else b

module _ (sha1 : Bytes → Bytes) where
  unfoldable pub make_x : Bytes → Bytes → Bytes → Result ℕ
  make_x salt username password =
      fail_if (leb 256 (length username)) value_error
      >> (fail_if (leb 256 (length salt)) value_error
          >> ok (bytes_to_number (sha1 (salt ++ sha1 (username ++ ((58 ∷ []) ++ password))))))

  -- The group for a number of bits, and the entry.
  abbrev pub group_of : ℕ → Result (ℕ × ℕ)
  group_of bits =
      if bits == 1024
      then ok rfc5054_1024
      else (if bits == 1536
          then ok rfc5054_1536
          else (if bits == 2048
              then ok rfc5054_2048
              else (if bits == 3072
                  then ok rfc5054_3072
                  else (if bits == 4096
                      then ok rfc5054_4096
                      else (if bits == 6144
                          then ok rfc5054_6144
                          else (if bits == 8192 then ok rfc5054_8192 else err key_error))))))

  unfoldable pub make_verifier : Bytes → Bytes → Bytes → ℕ → Result Entry
  make_verifier random_salt username password bits = group_of bits >>= λ group.
      make_x random_salt username password >>= λ x. ok (record {
        modulus = group.1;
        generator = group.0;
        salt = random_salt;
        verifier = pow_mod (group.0) x (group.1);
      })

  unfoldable pub make_u : ℕ → ℕ → ℕ → ℕ
  make_u n a b = bytes_to_number (sha1 (pad n a ++ pad n b))

  unfoldable pub make_k : ℕ → ℕ → ℕ
  make_k n g = bytes_to_number (sha1 (number_to_byte_array n none ++ pad n g))

  -- `B` of makeServerKeyExchange, and the parameters that it sends; the entry is None for a name that is unknown.
  unfoldable pub make_server_key_exchange : Option Entry → ℕ → Result ServerSrp
  make_server_key_exchange none b = err unknown_psk_identity
  make_server_key_exchange (some entry) b =
      let k = make_k entry.modulus entry.generator in
      ok (record {
        srp_n = entry.modulus;
        srp_g = entry.generator;
        srp_s = entry.salt;
        srp_b = (pow_mod entry.generator b entry.modulus + k * entry.verifier) % entry.modulus;
      })

  -- processClientKeyExchange, on the server with its entry, its `b` and its `B`.
  unfoldable pub process_client_key_exchange : Entry → ℕ → ℕ → ℕ → Result Bytes
  process_client_key_exchange entry b server_b srp_a =
      let n = entry.modulus in
      let u = make_u n srp_a server_b in
      fail_if (srp_a % n == 0) illegal_parameter
      >> ok (number_to_byte_array (pow_mod (srp_a * pow_mod entry.verifier u n % n) b n) none)

  -- processServerKeyExchange, on the client with the sizes of its settings and its `a`: `A`, and the premaster secret.
  unfoldable pub process_server_key_exchange :
      ℕ → ℕ → Bytes → Bytes → ℕ → ServerSrp → Result (ℕ × Bytes)
  process_server_key_exchange min_key_size max_key_size username password a s =
      let n = s.srp_n in
      fail_if (not (is_good good_group_parameters s.srp_g n)) insufficient_security
      >> (fail_if (ltb (bit_length n) min_key_size) insufficient_security
          >> (fail_if (ltb max_key_size (bit_length n)) insufficient_security
              >> (fail_if (s.srp_b % n == 0) illegal_parameter
                  >> (make_x s.srp_s username password >>= λ x.
                      let own = pow_mod s.srp_g a n in
                      let v = pow_mod s.srp_g x n in
                      let u = make_u n own s.srp_b in
                      let k = make_k n s.srp_g in
                      ok (
                        own,
                        number_to_byte_array (pow_mod (sub_mod s.srp_b (k * v) n) (a + u * x) n)
                            none,
                      )))))
