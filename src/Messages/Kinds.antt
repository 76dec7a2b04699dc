-- ===== src/Messages/Kinds.antt =====
-- tlslite/messages.py: the handshake messages as data, with the fields that go over the wire.
use tls_dvnizk.Base.{ℕ, List, Bool, ◌==◌, ◌||◌, ◌&&◌, ltb, if◌then◌else◌, Option}
use tls_dvnizk.Base.Bytes.{Bytes}
use tls_dvnizk.Extensions.Kinds.{Extension}
use tls_dvnizk.ConstantTime.Cbc.{Version}
use tls_dvnizk.RecordLayer.Keys.{is_in}
use tls_dvnizk.Messages.Suites.{
  srp_all_suites, cert_suites, dh_all_suites, ecdh_all_suites, cert_all_suites, ecdhe_ecdsa_suites,
  dhe_dsa_suites,
}

pub record ClientHello : Type 0 where
  pub client_version : Version
  pub random : Bytes
  pub session_id : Bytes
  pub cipher_suites : List ℕ
  pub compression_methods : List ℕ
  pub extensions : Option (List Extension)

pub record ServerHello : Type 0 where
  pub server_version : Version
  pub random : Bytes
  pub session_id : Bytes
  pub cipher_suite : ℕ
  pub compression_method : ℕ
  pub extensions : Option (List Extension)

pub record NewSessionTicket : Type 0 where
  pub ticket_lifetime : ℕ
  pub ticket_age_add : ℕ
  pub ticket_nonce : Bytes
  pub ticket : Bytes
  pub extensions : List Extension

-- A number beside the length that it is written in, where it has one: `dh_p` and `dh_p_len`.
pub record Sized : Type 0 where
  pub number : ℕ
  pub size : Option ℕ

-- The parameters of a ServerKeyExchange.
pub data ServerParams : Type 0 where
  srp_params : Sized → Sized → Bytes → Sized → ServerParams
  dh_params : Sized → Sized → Sized → ServerParams
  ecdh_params : ℕ → ℕ → Bytes → ServerParams

-- What a ClientKeyExchange carries.
pub data ClientShare : Type 0 where
  srp_share dh_share : ℕ → ClientShare
  rsa_share ecdh_share : Bytes → ClientShare

-- An object of a handshake message's class.
pub data Handshake : Type 0 where
  hello_request_msg server_hello_done_msg : Handshake
  client_hello_msg : ClientHello → Handshake
  server_hello_msg : ServerHello → Handshake
  encrypted_extensions_msg : List Extension → Handshake
  new_session_ticket_msg : NewSessionTicket → Handshake
  new_session_ticket1_0_msg : ℕ → Bytes → Handshake
  certificate_verify_msg : Option (ℕ × ℕ) → Bytes → Handshake
  server_key_exchange_msg : ServerParams → ℕ × ℕ → Bytes → Handshake
  client_key_exchange_msg : ClientShare → Handshake
  finished_msg next_protocol_msg : Bytes → Handshake
  key_update_msg : ℕ → Handshake

-- The classes of the messages.
pub data HandshakeKind : Type 0 where
  hello_request_kind server_hello_done_kind client_hello_kind server_hello_kind
        encrypted_extensions_kind :
      HandshakeKind
  new_session_ticket_kind new_session_ticket1_0_kind certificate_verify_kind
        server_key_exchange_kind :
      HandshakeKind
  client_key_exchange_kind finished_kind next_protocol_kind key_update_kind : HandshakeKind

abbrev pub message_kind : Handshake → HandshakeKind
message_kind hello_request_msg = hello_request_kind
message_kind server_hello_done_msg = server_hello_done_kind
message_kind (client_hello_msg hello) = client_hello_kind
message_kind (server_hello_msg hello) = server_hello_kind
message_kind (encrypted_extensions_msg extensions) = encrypted_extensions_kind
message_kind (new_session_ticket_msg ticket) = new_session_ticket_kind
message_kind (new_session_ticket1_0_msg lifetime ticket) = new_session_ticket1_0_kind
message_kind (certificate_verify_msg algorithm signature) = certificate_verify_kind
message_kind (server_key_exchange_msg params algorithm signature) = server_key_exchange_kind
message_kind (client_key_exchange_msg share) = client_key_exchange_kind
message_kind (finished_msg verify_data) = finished_kind
message_kind (next_protocol_msg next_proto) = next_protocol_kind
message_kind (key_update_msg message_type) = key_update_kind

-- The `handshakeType` of a class.
abbrev pub handshake_type : HandshakeKind → ℕ
handshake_type hello_request_kind = 0
handshake_type client_hello_kind = 1
handshake_type server_hello_kind = 2
handshake_type new_session_ticket_kind = 4
handshake_type new_session_ticket1_0_kind = 4
handshake_type encrypted_extensions_kind = 8
handshake_type server_key_exchange_kind = 12
handshake_type server_hello_done_kind = 14
handshake_type certificate_verify_kind = 15
handshake_type client_key_exchange_kind = 16
handshake_type finished_kind = 20
handshake_type key_update_kind = 24
handshake_type next_protocol_kind = 67

-- What the constructors of the classes are given: the version, and the cipher suite or, for Finished, the size of the
-- hash.
pub record Context : Type 0 where
  pub version : Version
  pub constructor_type : ℕ

-- `version < (3, 4)`
abbrev pub before_3_4 : Version → Bool
before_3_4 (major, minor) = ltb major 3 || ((major == 3) && ltb minor 4)

-- `version >= (3, 3)`
abbrev pub from_tls12 : Version → Bool
from_tls12 (major, minor) = ltb 3 major || ((major == 3) && ltb 2 minor)

-- The families of suites in the order in which the key exchange messages ask for them.
pub data Family : Type 0 where
  srp_family cert_family dh_family ecdh_family no_family : Family

-- ClientKeyExchange asks for the RSA key transport, too.
abbrev pub client_family : ℕ → Family
client_family suite =
    if is_in suite srp_all_suites
    then srp_family
    else (if is_in suite cert_suites
        then cert_family
        else (if is_in suite dh_all_suites
            then dh_family
            else (if is_in suite ecdh_all_suites then ecdh_family else no_family)))

abbrev pub server_family : ℕ → Family
server_family suite =
    if is_in suite srp_all_suites
    then srp_family
    else (if is_in suite dh_all_suites
        then dh_family
        else (if is_in suite ecdh_all_suites then ecdh_family else no_family))

-- Whether a ServerKeyExchange is signed.
abbrev pub is_signed : ℕ → Bool
is_signed suite =
    is_in suite cert_all_suites || is_in suite ecdhe_ecdsa_suites || is_in suite dhe_dsa_suites
