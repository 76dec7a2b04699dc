-- ===== src/Messages/Exchanges.antt =====
-- tlslite/messages.py: the key exchange messages, written and read.
use tls_dvnizk.Base.{
  ℕ, zero, suc, ◌+◌, ◌-◌, ◌%◌, ◌≤◌, ◌≡◌, sym, subst, [], length, length-replicate, replicate, All,
  ◌==◌, ◌||◌, Bool, true, false, not, Option, none, some, pure, assertion_error, decode_error,
  arith,
}
use tls_dvnizk.Base.Bytes.{Bytes, IsByte}
use tls_dvnizk.Codec.Writer.{add_var_seq}
use tls_dvnizk.Codec.Writing.{Fits}
use tls_dvnizk.Codec.Coded.{Coded, coded_then, coded_last, coded_pure}
use tls_dvnizk.Codec.Parts.{number_coded}
use tls_dvnizk.Numbers.ByteStrings.{default_length}
use tls_dvnizk.Messages.Kinds.{
  ServerParams, srp_params, dh_params, ecdh_params, ClientShare, srp_share, dh_share, rsa_share,
  ecdh_share, certificate_verify_msg, server_key_exchange_msg, next_protocol_msg, Family,
  srp_family, cert_family, dh_family, ecdh_family, no_family,
}
use tls_dvnizk.Messages.Frames.{
  Framed, framed_of, framed_last, coded_tests, coded_checked, rest_framed,
}
use tls_dvnizk.Messages.Bodies.{put_params, get_params}
use tls_dvnizk.Messages.Handshakes.{
  put_verify, get_verify, put_signed, get_signed, put_signature, get_signature, put_client_share,
  get_client_share, put_protocol, get_protocol,
}
use tls_dvnizk.Messages.Fields.{
  IsString, string_coded, IsPair, pair_coded, IsSized, measured, sized_coded, number_array_coded,
  number_array_tested,
}

-- What the key exchange messages can carry, by the family of the suite.
abbrev pub AreParams : Family → ServerParams → Type 0
AreParams srp_family (srp_params n g salt b) = IsSized n × IsSized g × IsString 1 salt × IsSized b
AreParams dh_family (dh_params p g ys) = IsSized p × IsSized g × IsSized ys
AreParams ecdh_family (ecdh_params curve_type named_curve ys) =
    (curve_type ≡ 3) × Fits 2 named_curve × IsString 1 ys
AreParams _ _ = ⊥

-- The parameters with the lengths of their numbers.
abbrev pub measured_params : ServerParams → ServerParams
measured_params (srp_params n g salt b) = srp_params (measured n) (measured g) salt (measured b)
measured_params (dh_params p g ys) = dh_params (measured p) (measured g) (measured ys)
measured_params (ecdh_params curve_type named_curve ys) = ecdh_params curve_type named_curve ys

is_three : (k : ℕ) → k ≡ 3 → not (k == 3) ≡ false
is_three k h = ground arith

pub params_coded :
    (f : Family) (x : ServerParams)
    → AreParams f x
    → Coded (put_params f x) (get_params f) (measured_params x)
unfolding put_params get_params
params_coded srp_family (srp_params n g salt b) (hn, hg, hs, hb) =
    coded_then _ _ _ _ (measured n) (measured_params (srp_params n g salt b)) (sized_coded n hn) (
      coded_then _ _ _ _ (measured g) (measured_params (srp_params n g salt b)) (sized_coded g hg) (
        coded_then _ _ _ _ salt (measured_params (srp_params n g salt b)) (string_coded 1 salt hs) (
          coded_last _ _ (srp_params (measured n) (measured g) salt) (measured b)
            (sized_coded b hb))))
params_coded srp_family (dh_params p g ys) h = absurd h
params_coded srp_family (ecdh_params t c ys) h = absurd h
params_coded dh_family (dh_params p g ys) (hp, hg, hy) =
    coded_then _ _ _ _ (measured p) (measured_params (dh_params p g ys)) (sized_coded p hp) (
      coded_then _ _ _ _ (measured g) (measured_params (dh_params p g ys)) (sized_coded g hg)
        (coded_last _ _ (dh_params (measured p) (measured g)) (measured ys) (sized_coded ys hy)))
params_coded dh_family (srp_params n g salt b) h = absurd h
params_coded dh_family (ecdh_params t c ys) h = absurd h
params_coded ecdh_family (ecdh_params t c ys) (three, hc, hy) =
    coded_then _ _ _ _ t (ecdh_params t c ys) (number_coded t 1 (omega (arith, three))) (
      coded_tests _ _ (ecdh_params t c ys) (not (t == 3)) (not (t == 3)) assertion_error
        assertion_error (is_three t three) (is_three t three)
        (coded_then _ _ _ _ c (ecdh_params t c ys) (number_coded c 2 hc)
          (coded_last _ _ (ecdh_params t c) ys (string_coded 1 ys hy))))
params_coded ecdh_family (srp_params n g salt b) h = absurd h
params_coded ecdh_family (dh_params p g ys) h = absurd h
params_coded cert_family x h = absurd h
params_coded no_family x h = absurd h

-- Whether a signature names its algorithm.
abbrev pub HasAlgorithm : Bool → Option (ℕ × ℕ) → Type 0
HasAlgorithm true (some (hash_alg, sign_alg)) = Fits 1 hash_alg × Fits 1 sign_alg
HasAlgorithm false none = Unit {0}
HasAlgorithm _ _ = ⊥

pub verify_coded :
    (named : Bool) (algorithm : Option (ℕ × ℕ)) (signature : Bytes)
    → HasAlgorithm named algorithm
    → IsString 2 signature
    → Coded
        (put_verify named algorithm signature)
        (get_verify named)
        (certificate_verify_msg algorithm signature)
unfolding put_verify get_verify
verify_coded true (some pair) signature g h =
    coded_then _ _ _ _ pair (certificate_verify_msg (some pair) signature) (pair_coded pair g)
      (coded_last _ _ (certificate_verify_msg (some pair)) signature (string_coded 2 signature h))
verify_coded true none signature g h = absurd g
verify_coded false none signature g h =
    coded_last _ _ (certificate_verify_msg none) signature (string_coded 2 signature h)
verify_coded false (some algorithm) signature g h = absurd g

-- What a signature can be where there is one, and what it is where there is none.
abbrev pub IsSigned : Bool → Bool → ℕ × ℕ → Bytes → Type 0
IsSigned true true algorithm signature =
    IsPair algorithm × (1 ≤ algorithm.0) × (1 ≤ algorithm.1) × IsString 2 signature
IsSigned true false algorithm signature = (algorithm ≡ (0, 0)) × IsString 2 signature
IsSigned false named algorithm signature = (algorithm ≡ (0, 0)) × (signature ≡ [])

pub signature_coded :
    (signed named : Bool) (params : ServerParams) (algorithm : ℕ × ℕ) (signature : Bytes)
    → IsSigned signed named algorithm signature
    → Coded
        (put_signature signed named algorithm signature)
        (get_signature signed named params)
        (server_key_exchange_msg params algorithm signature)
unfolding put_signed get_signed
signature_coded true true params (x, y) signature (h, a, b, g) =
    coded_then _ _ _ _ (x, y) (server_key_exchange_msg params (x, y) signature)
      (coded_checked _ _ (x, y) ((x == 0) || (y == 0)) assertion_error (ground (arith, a, b))
        (pair_coded (x, y) h))
      (coded_last _ _ (server_key_exchange_msg params (x, y)) signature
        (string_coded 2 signature g))
signature_coded true false params algorithm signature (e, g) =
    subst
      (λ (a : ℕ × ℕ).
        Coded (add_var_seq signature 1 2) (get_signature true false params)
          (server_key_exchange_msg params a signature))
      (sym e)
      (coded_last _ _ (server_key_exchange_msg params (0, 0)) signature
        (string_coded 2 signature g))
signature_coded false named params algorithm signature (e, g) =
    subst
      (λ (a : ℕ × ℕ).
        Coded (pure tt) (get_signature false named params)
          (server_key_exchange_msg params a signature))
      (sym e)
      (subst
        (λ (s : Bytes).
          Coded (pure tt) (get_signature false named params)
            (server_key_exchange_msg params (0, 0) s))
        (sym g) (coded_pure (server_key_exchange_msg params (0, 0) [])))

-- An encrypted premaster secret, which SSL 3 writes without its length.
abbrev pub IsSecret : Bool → Bool → Bytes → Type 0
IsSecret true ssl3 secret = IsString 2 secret
IsSecret false true secret = Unit {0}
IsSecret false false secret = ⊥

-- A ClientKeyExchange, by the family and by whether the version is SSL 3.
abbrev pub IsShare : Family → Bool → Bool → ClientShare → Type 0
IsShare srp_family tls ssl3 (srp_share a) = Fits 2 (default_length a)
IsShare cert_family tls ssl3 (rsa_share secret) = IsSecret tls ssl3 secret
IsShare dh_family tls ssl3 (dh_share yc) = Fits 2 (default_length yc)
IsShare ecdh_family tls ssl3 (ecdh_share yc) = IsString 1 yc
IsShare _ _ _ _ = ⊥

pub share_framed :
    (f : Family) (tls ssl3 : Bool) (x : ClientShare)
    → IsShare f tls ssl3 x
    → Framed (put_client_share f tls ssl3 x) (get_client_share f tls ssl3) x
unfolding put_client_share get_client_share
share_framed srp_family tls ssl3 (srp_share a) h =
    framed_of _ _ (srp_share a) (number_array_coded srp_share a h)
share_framed cert_family true ssl3 (rsa_share secret) h =
    framed_of _ _ (rsa_share secret) (coded_last _ _ rsa_share secret (string_coded 2 secret h))
share_framed cert_family false true (rsa_share secret) h =
    framed_last _ _ rsa_share secret (rest_framed secret)
share_framed dh_family tls ssl3 (dh_share yc) h =
    framed_of _ _ (dh_share yc) (number_array_tested dh_share yc h decode_error)
share_framed ecdh_family tls ssl3 (ecdh_share yc) h =
    framed_of _ _ (ecdh_share yc) (coded_last _ _ ecdh_share yc (string_coded 1 yc h))
share_framed srp_family tls ssl3 (dh_share yc) h = absurd h
share_framed srp_family tls ssl3 (rsa_share secret) h = absurd h
share_framed srp_family tls ssl3 (ecdh_share yc) h = absurd h
share_framed cert_family false false (rsa_share secret) h = absurd h
share_framed cert_family tls ssl3 (srp_share a) h = absurd h
share_framed cert_family tls ssl3 (dh_share a) h = absurd h
share_framed cert_family tls ssl3 (ecdh_share a) h = absurd h
share_framed dh_family tls ssl3 (srp_share a) h = absurd h
share_framed dh_family tls ssl3 (rsa_share a) h = absurd h
share_framed dh_family tls ssl3 (ecdh_share a) h = absurd h
share_framed ecdh_family tls ssl3 (srp_share a) h = absurd h
share_framed ecdh_family tls ssl3 (dh_share a) h = absurd h
share_framed ecdh_family tls ssl3 (rsa_share a) h = absurd h
share_framed no_family tls ssl3 x h = absurd h

-- The name that NextProtocol carries, and its padding.
pub protocol_coded :
    (name : Bytes)
    → IsString 1 name
    → Coded (put_protocol name) get_protocol (next_protocol_msg name)
unfolding put_protocol get_protocol
protocol_coded name h =
    let padding : Bytes = replicate (32 - (length name + 2) % 32) 0 in
    coded_then _ _ _ _ name (next_protocol_msg name) (string_coded 1 name h) (
      coded_last _ _ (λ (x : Bytes). next_protocol_msg name) padding
        (string_coded 1 padding (
          zeros (32 - (length name + 2) % 32),
          omega (arith, length-replicate {A = ℕ} (32 - (length name + 2) % 32) 0),
        )))
  where
    zeros : (n : ℕ) → All IsByte (replicate n 0)
    zeros zero = tt
    zeros (suc n) = (omega arith, zeros n)
