-- ===== src/KeyExchange/Ffdh.antt =====
-- tlslite/keyexchange.py: FFDHKeyExchange, and ADHKeyExchange that uses it.
use tls_dvnizk.Base.{
  ℕ, ◌+◌, ◌-◌, ◌*◌, ◌^◌, get_elem?, length, ltb, leb, ◌==◌, ◌||◌, ◌&&◌, not, Bool, true, false,
  if◌then◌else◌, Option, none, some, Result, ok, err, value_error, type_error, index_error,
  illegal_parameter, insufficient_security,
}
use tls_dvnizk.Base.Bytes.{Bytes}
use tls_dvnizk.Base.Fallible.{◌>>=◌}
use tls_dvnizk.Base.Power.{pow_mod}
use tls_dvnizk.Ciphers.Poly1305.{divceil}
use tls_dvnizk.ConstantTime.Cbc.{Version}
use tls_dvnizk.Numbers.ByteStrings.{byte_length, number_to_byte_array, bytes_to_number}
use tls_dvnizk.Messages.Kinds.{before_3_4}
use tls_dvnizk.KeyExchange.Groups.{rfc7919_groups, param_strength}

pub record Ffdh : Type 0 where
  pub version : Version
  pub generator : ℕ
  pub prime : ℕ

-- A share is a number before TLS 1.3, and a byte string from then on.
pub data Share : Type 0 where
  number_share : ℕ → Share
  bytes_share : Bytes → Share

-- `RFC7919_GROUPS[group - 256]`, where an index below 0 counts from the end.
unfoldable pub group_params : ℕ → Result (ℕ × ℕ)
group_params group =
    at
      (get_elem? rfc7919_groups
        (if leb 256 group then group - 256 else group + length rfc7919_groups - 256))
      (leb 256 (group + length rfc7919_groups))
  where
    at : Option (ℕ × ℕ) → Bool → Result (ℕ × ℕ)
    at (some params) true = ok params
    at _ _ = err index_error

-- The check at the end of the constructor.
unfoldable pub with_params : Version → ℕ × ℕ → Result Ffdh
with_params version (generator, prime) =
    if ltb 1 generator && ltb generator prime
    then ok (record { version = version; generator = generator; prime = prime })
    else err illegal_parameter

-- The constructor: a number of a group, or a generator and a prime; None and 0 both count as no group.
abbrev pub from_params : Version → Option (ℕ × ℕ) → Result Ffdh
from_params version none = err type_error
from_params version (some params) = with_params version params

unfoldable pub new_ffdh : Option ℕ → Version → Option (ℕ × ℕ) → Result Ffdh
new_ffdh none version params = from_params version params
new_ffdh (some group) version params =
    if group == 0
    then from_params version params
    else (if has_prime params
        then err value_error
        else (group_params group >>= with_params version))
  where
    has_prime : Option (ℕ × ℕ) → Bool
    has_prime none = false
    has_prime (some (generator, prime)) = not (prime == 0)

-- How many random bytes a private key takes, and the key that they are.
unfoldable pub needed_bytes : Ffdh → ℕ
needed_bytes k = divceil (param_strength k.prime * 2) 8

unfoldable pub get_random_private_key : (ℕ → Bytes) → Ffdh → ℕ
get_random_private_key random_bytes k = bytes_to_number (random_bytes (needed_bytes k))

-- `value in (1, self.prime - 1)`
abbrev pub is_captured : ℕ → ℕ → Bool
is_captured prime value = (value == 1) || (value == prime - 1)

-- A value as it leaves the object.
abbrev pub as_share : Ffdh → ℕ → Share
as_share k value =
    if before_3_4 k.version
    then number_share value
    else bytes_share (number_to_byte_array value (some (byte_length k.prime)))

unfoldable pub calc_public_value : Ffdh → ℕ → Result Share
calc_public_value k private =
    let y = pow_mod k.generator private k.prime in
    if is_captured k.prime y then err illegal_parameter else ok (as_share k y)

unfoldable pub normalise_peer_share : Ffdh → Share → Result ℕ
normalise_peer_share k (number_share value) = ok value
normalise_peer_share k (bytes_share bs) =
    if not (byte_length k.prime == length bs)
    then err illegal_parameter
    else ok (bytes_to_number bs)

-- A shared secret as it leaves the object.
abbrev pub as_secret : Ffdh → ℕ → Bytes
as_secret k value =
    number_to_byte_array value (if before_3_4 k.version then none else some (byte_length k.prime))

unfoldable pub secret_of : Ffdh → ℕ → ℕ → Result Bytes
secret_of k private peer =
    let s = pow_mod peer private k.prime in
    if not (leb 2 peer && ltb peer (k.prime - 1))
    then err illegal_parameter
    else (if is_captured k.prime s then err illegal_parameter else ok (as_secret k s))

unfoldable pub calc_shared_key : Ffdh → ℕ → Share → Result Bytes
calc_shared_key k private peer_share = normalise_peer_share k peer_share >>= secret_of k private

-- ADHKeyExchange.makeServerKeyExchange, once the group is chosen: generator, prime and the share of the server.
unfoldable pub adh_server_share : Version → ℕ × ℕ → ℕ → Result Share
adh_server_share version params private =
    new_ffdh none version (some params) >>= λ k. calc_public_value k private

-- ADHKeyExchange.processServerKeyExchange: the client's share and the premaster secret.
unfoldable pub adh_client : Version → ℕ × ℕ → (ℕ → Bytes) → Share → Result (Share × Bytes)
adh_client version (generator, prime) random_bytes server_share =
    if ltb prime (2 ^ 1023)
    then err insufficient_security
    else (new_ffdh none version (some (generator, prime)) >>= λ k.
        calc_public_value k (get_random_private_key random_bytes k) >>= λ own.
        calc_shared_key k (get_random_private_key random_bytes k) server_share >>= λ secret.
        ok (own, secret))

-- ADHKeyExchange.processClientKeyExchange
unfoldable pub adh_server : Version → ℕ × ℕ → ℕ → Share → Result Bytes
adh_server version params private client_share =
    new_ffdh none version (some params) >>= λ k. calc_shared_key k private client_share
