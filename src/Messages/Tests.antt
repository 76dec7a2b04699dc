-- ===== src/Messages/Tests.antt =====
-- The witnesses: a ServerKeyExchange with Diffie-Hellman parameters under TLS 1.2, which an RSA key has signed.
use tls_dvnizk.Base.{ℕ, ◌≡◌, refl, [], ◌∷◌, ok, none, some, arith}
use tls_dvnizk.Base.Bytes.{Bytes, be_bytes}
use tls_dvnizk.Codec.Parser.{new_parser}
use tls_dvnizk.Codec.Writer.{add, add_items, add_var_seq}
use tls_dvnizk.Codec.Writing.{Fits}
use tls_dvnizk.RecordLayer.Keys.{is_in}
use tls_dvnizk.Numbers.ByteStrings.{bit_length, byte_length, default_length, number_to_byte_array}
use tls_dvnizk.Messages.Bodies.{put_params, put_sized}
use tls_dvnizk.Messages.Kinds.{
  Context, Handshake, Sized, dh_params, server_key_exchange_msg, server_key_exchange_kind,
}
use tls_dvnizk.Messages.Handshakes.{
  put_body, put_server_key_exchange, put_signed, write_handshake, class_of, parse_handshake,
}
use tls_dvnizk.Messages.RoundTrip.{IsSendable, received, body_size, parse_handshake-write_handshake}

-- TLS_DHE_RSA_WITH_AES_128_CBC_SHA
abbrev dhe_rsa : Context
dhe_rsa = record { version = (3, 3); constructor_type = 51 }

abbrev own : ℕ → Sized
own n = record { number = n; size = none }

abbrev exchange : Handshake
exchange =
    server_key_exchange_msg (dh_params (own 2579) (own 2) (record { number = 8; size = some 2 }))
      (4, 1) (9 ∷ 200 ∷ [])

exchange-IsSendable : IsSendable dhe_rsa exchange
unfolding IsSendable is_in default_length byte_length bit_length
exchange-IsSendable = (
  (omega arith, omega arith, (omega arith, omega arith)),
  refl,
  (
    (omega arith, omega arith),
    omega arith,
    omega arith,
    ((omega arith, (omega arith, tt)), omega arith),
  ),
)

known : class_of (3, 3) 12 ≡ some server_key_exchange_kind
unfolding class_of
known = refl

exchange_short : Fits 3 (body_size dhe_rsa exchange)
unfolding put_body put_server_key_exchange put_params put_sized put_signed is_in default_length
    byte_length bit_length number_to_byte_array add_var_seq add add_items be_bytes
exchange_short = omega arith

parse_handshake-write_handshake_example :
    (bs : Bytes) × ((write_handshake dhe_rsa exchange ≡ ok bs)
      × ((parse_handshake dhe_rsa (new_parser bs)).0 ≡ ok (received exchange)))
parse_handshake-write_handshake_example =
    parse_handshake-write_handshake dhe_rsa exchange known exchange-IsSendable exchange_short
