-- ===== src/KeyExchange/Tests.antt =====
-- The witnesses: small private keys in a group of 1024 bits, and a hash function that always gives the byte 5.
use tls_dvnizk.Base.{ℕ, ◌^◌, ◌≤◌, ◌≡◌, refl, [], ◌∷◌, ok, some, none, arith}
use tls_dvnizk.Base.Bytes.{Bytes, be_value}
use tls_dvnizk.Base.Numbers.{sub_mod}
use tls_dvnizk.Base.Power.{pow_mod}
use tls_dvnizk.Numbers.ByteStrings.{bit_length, number_to_byte_array}
use tls_dvnizk.KeyExchange.Groups.{rfc5054_1024}
use tls_dvnizk.KeyExchange.Ffdh.{
  Ffdh, number_share, new_ffdh, with_params, get_random_private_key, calc_public_value,
  calc_shared_key, normalise_peer_share, secret_of, adh_server_share, adh_client, adh_server,
}
use tls_dvnizk.KeyExchange.Agreement.{calc_shared_key_agrees, adh_agrees}
use tls_dvnizk.KeyExchange.Srp.{
  Entry, ServerSrp, make_x, make_u, make_k, make_verifier, make_server_key_exchange,
  process_client_key_exchange, process_server_key_exchange,
}
use tls_dvnizk.KeyExchange.SrpAgreement.{srp_agrees}

abbrev small : Ffdh
small = record { version = (3, 3); generator = 5; prime = 23 }

public_6 : calc_public_value small 6 ≡ ok (number_share 8)
unfolding calc_public_value pow_mod
public_6 = refl

public_15 : calc_public_value small 15 ≡ ok (number_share 19)
unfolding calc_public_value pow_mod
public_15 = refl

power_6 : 1 ≤ pow_mod 5 6 23
unfolding pow_mod
power_6 = omega arith

power_15 : 1 ≤ pow_mod 5 15 23
unfolding pow_mod
power_15 = omega arith

calc_shared_key_agrees_example :
    calc_shared_key small 6 (number_share 19) ≡ calc_shared_key small 15 (number_share 8)
calc_shared_key_agrees_example =
    calc_shared_key_agrees small 6 15 (number_share 8) (number_share 19) (omega arith) power_6
      power_15 public_6 public_15

abbrev large : Ffdh
large = record { version = (3, 3); generator = 2; prime = rfc5054_1024.1 }

abbrev three : ℕ → Bytes
three n = 3 ∷ []

power_2 : 1 ≤ pow_mod 2 2 large.prime
unfolding pow_mod
power_2 = omega arith

power_3 : 1 ≤ pow_mod 2 (get_random_private_key three large) large.prime
unfolding pow_mod get_random_private_key be_value
power_3 = omega arith

server_share : adh_server_share (3, 3) (2, large.prime) 2 ≡ ok (number_share 4)
unfolding adh_server_share new_ffdh with_params calc_public_value pow_mod
server_share = refl

client_end :
    adh_client (3, 3) (2, large.prime) three (number_share 4)
    ≡ ok (number_share 8, number_to_byte_array 64 none)
unfolding adh_client new_ffdh with_params calc_public_value calc_shared_key normalise_peer_share
    secret_of pow_mod get_random_private_key be_value
client_end = refl

adh_agrees_example :
    adh_server (3, 3) (2, large.prime) 2 (number_share 8) ≡ ok (number_to_byte_array 64 none)
adh_agrees_example =
    adh_agrees large three 2 (number_share 4) (number_share 8) (number_to_byte_array 64 none)
      (omega arith) (omega arith) power_2 power_3 server_share client_end

abbrev sha1_five : Bytes → Bytes
sha1_five bs = 5 ∷ []

abbrev alice : Entry
alice = record { modulus = rfc5054_1024.1; generator = 2; salt = 1 ∷ []; verifier = 32 }

alice_made : make_verifier sha1_five (1 ∷ []) (97 ∷ []) (98 ∷ []) 1024 ≡ ok alice
unfolding make_verifier make_x pow_mod be_value
alice_made = refl

abbrev sent : ServerSrp
sent = record { srp_n = rfc5054_1024.1; srp_g = 2; srp_s = 1 ∷ []; srp_b = 168 }

alice_share : make_server_key_exchange sha1_five (some alice) 3 ≡ ok sent
unfolding make_server_key_exchange make_k pow_mod be_value
alice_share = refl

alice_ended :
    process_server_key_exchange sha1_five 1 2000 (97 ∷ []) (98 ∷ []) 2 sent
    ≡ ok (4, number_to_byte_array (2 ^ 81) none)
unfolding process_server_key_exchange make_x make_u make_k pow_mod sub_mod bit_length be_value
alice_ended = refl

srp_agrees_example :
    process_client_key_exchange sha1_five alice 3 168 4 ≡ ok (number_to_byte_array (2 ^ 81) none)
srp_agrees_example =
    srp_agrees sha1_five alice (97 ∷ []) (98 ∷ []) (1 ∷ []) 1024 2 3 1 2000 4 sent
      (number_to_byte_array (2 ^ 81) none) alice_made (omega arith) alice_share alice_ended
      (omega arith)
