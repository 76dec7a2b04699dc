-- ===== src/Messages/Handshakes.antt =====
-- tlslite/messages.py: the handshake messages, and tlslite/tlsrecordlayer.py: the choice of the class in `_getMsg`. The
-- messages with certificates and the ClientHello of SSL 2 are left out.
use tls_dvnizk.Base.{
  ℕ, ◌+◌, ◌-◌, ◌%◌, List, [], ◌∷◌, length, replicate, ltb, ◌==◌, ◌||◌, Bool, if◌then◌else◌, Option,
  none, some, Result, Method, pure, raise, raise_if, modify, ◌>>=◌, ◌>>◌, assertion_error,
  decode_error, type_error,
}
use tls_dvnizk.Base.Bytes.{Bytes}
use tls_dvnizk.Codec.Writer.{Writer, empty_writer, extend, add, add_var_seq}
use tls_dvnizk.Codec.Parser.{Parser, get, get_fix_bytes, get_var_bytes, get_remaining_length}
use tls_dvnizk.Numbers.ByteStrings.{number_to_byte_array, bytes_to_number}
use tls_dvnizk.ConstantTime.Cbc.{Version, same_version}
use tls_dvnizk.RecordLayer.State.{after_tls12}
use tls_dvnizk.Extensions.Kinds.{client_place}
use tls_dvnizk.Messages.Frames.{post_write, within}
use tls_dvnizk.Messages.Bodies.{
  put_pair, get_pair, put_extensions, get_extensions, put_client_hello, get_client_hello,
  put_server_hello, get_server_hello, put_ticket, get_ticket, put_params, get_params,
}
use tls_dvnizk.Messages.Kinds.{
  ServerParams, ClientShare, srp_share, dh_share, rsa_share, ecdh_share, Handshake,
  hello_request_msg, server_hello_done_msg, client_hello_msg, server_hello_msg,
  encrypted_extensions_msg, new_session_ticket_msg, new_session_ticket1_0_msg,
  certificate_verify_msg, server_key_exchange_msg, client_key_exchange_msg, finished_msg,
  next_protocol_msg, key_update_msg, HandshakeKind, hello_request_kind, server_hello_done_kind,
  client_hello_kind, server_hello_kind, encrypted_extensions_kind, new_session_ticket_kind,
  new_session_ticket1_0_kind, certificate_verify_kind, server_key_exchange_kind,
  client_key_exchange_kind, finished_kind, next_protocol_kind, key_update_kind, message_kind,
  handshake_type, Context, before_3_4, from_tls12, Family, srp_family, cert_family, dh_family,
  ecdh_family, no_family, client_family, server_family, is_signed,
}

-- `version in ((3, 1), (3, 2), (3, 3))`
abbrev pub is_tls : Version → Bool
is_tls version =
    same_version version (3, 1) || same_version version (3, 2) || same_version version (3, 3)

-- CertificateVerify; the signature has an algorithm from TLS 1.2 on.
abbrev pub put_algorithm : Option (ℕ × ℕ) → Method Writer (Unit {0})
put_algorithm none = raise type_error
put_algorithm (some algorithm) = put_pair algorithm

unfoldable pub put_verify : Bool → Option (ℕ × ℕ) → Bytes → Method Writer (Unit {0})
put_verify named algorithm signature =
    (if named then put_algorithm algorithm else pure tt) >> add_var_seq signature 1 2

unfoldable pub get_verify : Bool → Method Parser Handshake
get_verify named =
    if named
    then (get_pair >>= λ algorithm.
        get_var_bytes 2 >>= λ signed. pure (certificate_verify_msg (some algorithm) signed))
    else (get_var_bytes 2 >>= λ signed. pure (certificate_verify_msg none signed))

-- ServerKeyExchange; `hashAlg` and `signAlg` are 0 where they are not read.
unfoldable pub put_signed : Bool → ℕ × ℕ → Bytes → Method Writer (Unit {0})
put_signed named algorithm signature =
    (if named
      then (raise_if ((algorithm.0 == 0) || (algorithm.1 == 0)) assertion_error
          >> put_pair algorithm)
      else pure tt)
    >> add_var_seq signature 1 2

unfoldable pub get_signed : Bool → ServerParams → Method Parser Handshake
get_signed named params =
    if named
    then (get_pair >>= λ algorithm.
        get_var_bytes 2 >>= λ signed. pure (server_key_exchange_msg params algorithm signed))
    else (get_var_bytes 2 >>= λ signed. pure (server_key_exchange_msg params (0, 0) signed))

abbrev pub put_signature : Bool → Bool → ℕ × ℕ → Bytes → Method Writer (Unit {0})
put_signature signed named algorithm signature =
    if signed then put_signed named algorithm signature else pure tt

abbrev pub get_signature : Bool → Bool → ServerParams → Method Parser Handshake
get_signature signed named params =
    if signed then get_signed named params else pure (server_key_exchange_msg params (0, 0) [])

unfoldable pub put_server_key_exchange :
    Context → ServerParams → ℕ × ℕ → Bytes → Method Writer (Unit {0})
put_server_key_exchange c params algorithm signature =
    put_params (server_family c.constructor_type) params
    >> put_signature (is_signed c.constructor_type) (from_tls12 c.version) algorithm signature

unfoldable pub get_server_key_exchange : Context → Method Parser Handshake
get_server_key_exchange c =
    get_params (server_family c.constructor_type)
    >>= get_signature (is_signed c.constructor_type) (same_version c.version (3, 3))

-- ClientKeyExchange; the flags say whether the version is one from TLS 1.0 to TLS 1.2, and whether it is SSL 3.
unfoldable pub put_client_share : Family → Bool → Bool → ClientShare → Method Writer (Unit {0})
put_client_share srp_family tls ssl3 (srp_share a) = add_var_seq (number_to_byte_array a none) 1 2
put_client_share cert_family tls ssl3 (rsa_share secret) =
    if tls
    then add_var_seq secret 1 2
    else (if ssl3 then modify (extend secret) else raise assertion_error)
put_client_share dh_family tls ssl3 (dh_share yc) = add_var_seq (number_to_byte_array yc none) 1 2
put_client_share ecdh_family tls ssl3 (ecdh_share yc) = add_var_seq yc 1 1
put_client_share _ tls ssl3 _ = raise assertion_error

unfoldable pub get_client_share : Family → Bool → Bool → Method Parser ClientShare
get_client_share srp_family tls ssl3 =
    get_var_bytes 2 >>= λ bs. pure (srp_share (bytes_to_number bs))
get_client_share cert_family tls ssl3 =
    if tls
    then (get_var_bytes 2 >>= λ bs. pure (rsa_share bs))
    else (if ssl3
        then (get_remaining_length >>= get_fix_bytes >>= λ bs. pure (rsa_share bs))
        else raise assertion_error)
get_client_share dh_family tls ssl3 = get_var_bytes 2 >>= λ bs.
    raise_if (ltb (length bs) 1) decode_error >>= λ _. pure (dh_share (bytes_to_number bs))
get_client_share ecdh_family tls ssl3 = get_var_bytes 1 >>= λ bs. pure (ecdh_share bs)
get_client_share no_family tls ssl3 = raise assertion_error

-- NextProtocol, with the padding that hides the length of the name.
unfoldable pub put_protocol : Bytes → Method Writer (Unit {0})
put_protocol next_proto =
    add_var_seq next_proto 1 1 >> add_var_seq (replicate (32 - (length next_proto + 2) % 32) 0) 1 1

unfoldable pub get_protocol : Method Parser Handshake
get_protocol =
    get_var_bytes 1 >>= λ name. get_var_bytes 1 >>= λ padding. pure (next_protocol_msg name)

-- Finished: how long it is in a version, where it is in one.
abbrev pub finished_size : Context → Option ℕ
finished_size c =
    if same_version c.version (3, 0)
    then some 36
    else (if is_tls c.version
        then some 12
        else (if after_tls12 c.version then some c.constructor_type else none))

unfoldable pub get_finished : Option ℕ → Method Parser Handshake
get_finished none = raise assertion_error
get_finished (some size) = get_fix_bytes size >>= λ verify_data. pure (finished_msg verify_data)

-- EncryptedExtensions, NewSessionTicket1_0 and KeyUpdate
abbrev pub get_encrypted_extensions : Method Parser Handshake
get_encrypted_extensions = do
  left ← get_remaining_length
  raise_if (left == 0) decode_error
  exts ← get_extensions client_place
  pure (encrypted_extensions_msg exts)

abbrev pub put_ticket1_0 : ℕ → Bytes → Method Writer (Unit {0})
put_ticket1_0 lifetime ticket = add lifetime 4 >> add_var_seq ticket 1 2

abbrev pub get_ticket1_0 : Method Parser Handshake
get_ticket1_0 = get 4 >>= λ lifetime.
    get_var_bytes 2 >>= λ ticket. pure (new_session_ticket1_0_msg lifetime ticket)

abbrev pub get_key_update : Method Parser Handshake
get_key_update = get 1 >>= λ message_type. pure (key_update_msg message_type)

-- What `write` hands over to `postWrite`.
unfoldable pub put_body : Context → Handshake → Method Writer (Unit {0})
put_body c hello_request_msg = pure tt
put_body c server_hello_done_msg = pure tt
put_body c (client_hello_msg hello) = put_client_hello hello
put_body c (server_hello_msg hello) = put_server_hello hello
put_body c (encrypted_extensions_msg extensions) = put_extensions extensions
put_body c (new_session_ticket_msg ticket) = put_ticket ticket
put_body c (new_session_ticket1_0_msg lifetime ticket) = put_ticket1_0 lifetime ticket
put_body c (certificate_verify_msg algorithm signature) =
    put_verify (from_tls12 c.version) algorithm signature
put_body c (server_key_exchange_msg params algorithm signature) =
    put_server_key_exchange c params algorithm signature
put_body c (client_key_exchange_msg share) =
    put_client_share (client_family c.constructor_type) (is_tls c.version)
      (same_version c.version (3, 0)) share
put_body c (finished_msg verify_data) = modify (extend verify_data)
put_body c (next_protocol_msg next_proto) = put_protocol next_proto
put_body c (key_update_msg message_type) = add message_type 1

-- `write`
unfoldable pub write_handshake : Context → Handshake → Result Bytes
write_handshake c msg = post_write (handshake_type (message_kind msg)) (put_body c msg empty_writer)

-- What `parse` does between the start and the end of the length check.
unfoldable pub get_body : Context → HandshakeKind → Method Parser Handshake
get_body c hello_request_kind = pure hello_request_msg
get_body c server_hello_done_kind = pure server_hello_done_msg
get_body c client_hello_kind = get_client_hello >>= λ hello. pure (client_hello_msg hello)
get_body c server_hello_kind = get_server_hello >>= λ hello. pure (server_hello_msg hello)
get_body c encrypted_extensions_kind = get_encrypted_extensions
get_body c new_session_ticket_kind = get_ticket >>= λ ticket. pure (new_session_ticket_msg ticket)
get_body c new_session_ticket1_0_kind = get_ticket1_0
get_body c certificate_verify_kind = get_verify (from_tls12 c.version)
get_body c server_key_exchange_kind = get_server_key_exchange c
get_body c client_key_exchange_kind =
    get_client_share (client_family c.constructor_type) (is_tls c.version)
      (same_version c.version (3, 0))
    >>= λ share. pure (client_key_exchange_msg share)
get_body c finished_kind = get_finished (finished_size c)
get_body c next_protocol_kind = get_protocol
get_body c key_update_kind = get_key_update

-- The class that `_getMsg` chooses. HelloRequest is no class of its list: the client looks at its type alone.
abbrev class_entry : List (ℕ × HandshakeKind) → ℕ → Option HandshakeKind
class_entry [] type = none
class_entry ((key, kind) ∷ table) type = if type == key then some kind else class_entry table type

unfoldable pub class_of : Version → ℕ → Option HandshakeKind
class_of version type =
    class_entry
      ((1, client_hello_kind)
        ∷ (2, server_hello_kind)
        ∷ (15, certificate_verify_kind)
        ∷ (12, server_key_exchange_kind)
        ∷ (14, server_hello_done_kind)
        ∷ (16, client_key_exchange_kind)
        ∷ (20, finished_kind)
        ∷ (67, next_protocol_kind)
        ∷ (8, encrypted_extensions_kind)
        ∷ (4, (if before_3_4 version then new_session_ticket1_0_kind else new_session_ticket_kind))
        ∷ (24, key_update_kind)
        ∷ [])
      type

abbrev parse_as : Context → Option HandshakeKind → Method Parser Handshake
parse_as c none = raise assertion_error
parse_as c (some kind) = within (get_body c kind)

-- `subType = p.get(1)`, and the `parse` of the class. SyntaxError counts as the DecodeError below it.
unfoldable pub parse_handshake : Context → Method Parser Handshake
parse_handshake c = get 1 >>= λ type. parse_as c (class_of c.version type)
