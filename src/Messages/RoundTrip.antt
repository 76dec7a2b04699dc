-- ===== src/Messages/RoundTrip.antt =====
-- tlslite/messages.py: handshake messages, written and read.
use tls_dvnizk.Base.{
  ℕ, ◌≡◌, refl, sym, ap, subst, List, ◌++◌, length, ◌==◌, Bool, Option, some, Result, ok, pure,
  raise_if, modify, ◌>>=◌, decode_error, arith,
}
use tls_dvnizk.Base.Bytes.{Bytes, be_bytes}
use tls_dvnizk.Codec.Writer.{Writer, empty_writer, extend}
use tls_dvnizk.Codec.Parser.{new_parser, advance, get_remaining_length}
use tls_dvnizk.Codec.Writing.{Fits}
use tls_dvnizk.Codec.Reading.{IsAt, get_at, after_number}
use tls_dvnizk.Codec.Coded.{Coded, coded_then, coded_last, coded_pure}
use tls_dvnizk.Codec.Parts.{number_coded, fixed_coded}
use tls_dvnizk.ConstantTime.Cbc.{same_version}
use tls_dvnizk.Extensions.Kinds.{Extension, client_place}
use tls_dvnizk.Messages.Kinds.{
  ServerParams, Handshake, hello_request_msg, server_hello_done_msg, client_hello_msg,
  server_hello_msg, encrypted_extensions_msg, new_session_ticket_msg, new_session_ticket1_0_msg,
  certificate_verify_msg, server_key_exchange_msg, client_key_exchange_msg, finished_msg,
  next_protocol_msg, key_update_msg, HandshakeKind, message_kind, handshake_type, Context,
  from_tls12, hello_request_kind, server_hello_done_kind, client_hello_kind, server_hello_kind,
  encrypted_extensions_kind, new_session_ticket_kind, new_session_ticket1_0_kind,
  certificate_verify_kind, server_key_exchange_kind, client_key_exchange_kind, finished_kind,
  next_protocol_kind, key_update_kind, client_family, server_family, is_signed,
}
use tls_dvnizk.Messages.Frames.{
  Framed, framed_of, framed_last, some_left_framed, post_write_lem, within_lem,
}
use tls_dvnizk.Messages.Bodies.{get_extensions, put_extensions}
use tls_dvnizk.Messages.Handshakes.{
  is_tls, put_signature, get_signature, put_server_key_exchange, get_server_key_exchange,
  finished_size, get_finished, put_body, get_body, write_handshake, class_of, parse_handshake,
}
use tls_dvnizk.Messages.Hellos.{
  IsClientHello, IsServerHello, IsTicket, client_hello_framed, server_hello_framed, ticket_coded,
}
use tls_dvnizk.Messages.Exchanges.{
  AreParams, measured_params, params_coded, HasAlgorithm, verify_coded, IsSigned, signature_coded,
  IsShare, share_framed, protocol_coded,
}
use tls_dvnizk.Messages.Fields.{
  IsString, string_coded, AreListed, extensions_coded, extensions_long,
}

-- What a message can carry in a context.
unfoldable pub IsSendable : Context → Handshake → Type 0
IsSendable c hello_request_msg = Unit {0}
IsSendable c server_hello_done_msg = Unit {0}
IsSendable c (client_hello_msg hello) = IsClientHello hello
IsSendable c (server_hello_msg hello) = IsServerHello hello
IsSendable c (encrypted_extensions_msg extensions) = AreListed client_place extensions
IsSendable c (new_session_ticket_msg ticket) = IsTicket ticket
IsSendable c (new_session_ticket1_0_msg lifetime ticket) = Fits 4 lifetime × IsString 2 ticket
IsSendable c (certificate_verify_msg algorithm signature) =
    HasAlgorithm (from_tls12 c.version) algorithm × IsString 2 signature
IsSendable c (server_key_exchange_msg params algorithm signature) =
    AreParams (server_family c.constructor_type) params
    × (from_tls12 c.version ≡ same_version c.version (3, 3))
    × IsSigned (is_signed c.constructor_type) (from_tls12 c.version) algorithm signature
IsSendable c (client_key_exchange_msg share) =
    IsShare (client_family c.constructor_type) (is_tls c.version) (same_version c.version (3, 0))
      share
IsSendable c (finished_msg verify_data) = finished_size c ≡ some (length verify_data)
IsSendable c (next_protocol_msg next_proto) = IsString 1 next_proto
IsSendable c (key_update_msg message_type) = Fits 1 message_type

-- The message that the other side has: it knows the lengths of a ServerKeyExchange's numbers.
abbrev pub received : Handshake → Handshake
received (server_key_exchange_msg params algorithm signature) =
    server_key_exchange_msg (measured_params params) algorithm signature
received msg = msg

encrypted_framed :
    (xs : List Extension) (h : AreListed client_place xs)
    → Framed
        (put_extensions xs)
        (get_remaining_length >>= λ left. raise_if (left == 0) decode_error >>= λ _.
          get_extensions client_place >>= λ exts. pure (encrypted_extensions_msg exts))
        (encrypted_extensions_msg xs)
unfolding framed_of coded_last
encrypted_framed xs h =
    some_left_framed _ _ (encrypted_extensions_msg xs)
      (framed_of _ _ (encrypted_extensions_msg xs)
        (coded_last _ _ encrypted_extensions_msg xs (extensions_coded client_place xs h)))
      (extensions_long client_place xs h)

key_exchange_coded :
    (c : Context) (params : ServerParams) (algorithm : ℕ × ℕ) (signature : Bytes)
    → IsSendable c (server_key_exchange_msg params algorithm signature)
    → Coded
        (put_server_key_exchange c params algorithm signature)
        (get_server_key_exchange c)
        (server_key_exchange_msg (measured_params params) algorithm signature)
unfolding IsSendable put_server_key_exchange get_server_key_exchange
key_exchange_coded c params algorithm signature (p, e, s) =
    coded_then _ _ _ _ (measured_params params)
      (server_key_exchange_msg (measured_params params) algorithm signature)
      (params_coded (server_family c.constructor_type) params p)
      (subst
        (λ (b : Bool).
          Coded
            (put_signature (is_signed c.constructor_type) (from_tls12 c.version) algorithm
              signature)
            (get_signature (is_signed c.constructor_type) b (measured_params params))
            (server_key_exchange_msg (measured_params params) algorithm signature))
        e
        (signature_coded (is_signed c.constructor_type) (from_tls12 c.version)
          (measured_params params) algorithm signature s))

finished_coded :
    (size : Option ℕ) (verify_data : Bytes)
    → size ≡ some (length verify_data)
    → Coded (modify (extend verify_data)) (get_finished size) (finished_msg verify_data)
unfolding get_finished
finished_coded size verify_data e =
    subst
      (λ (n : Option ℕ).
        Coded (modify (extend verify_data)) (get_finished n) (finished_msg verify_data))
      (sym e)
      (coded_last _ _ finished_msg verify_data (fixed_coded verify_data (length verify_data) refl))

pub body_framed :
    (c : Context) (msg : Handshake)
    → IsSendable c msg
    → Framed (put_body c msg) (get_body c (message_kind msg)) (received msg)
unfolding IsSendable put_body get_body
body_framed c hello_request_msg h = framed_of _ _ hello_request_msg (coded_pure hello_request_msg)
body_framed c server_hello_done_msg h =
    framed_of _ _ server_hello_done_msg (coded_pure server_hello_done_msg)
body_framed c (client_hello_msg hello) h =
    framed_last _ _ client_hello_msg hello (client_hello_framed hello h)
body_framed c (server_hello_msg hello) h =
    framed_last _ _ server_hello_msg hello (server_hello_framed hello h)
body_framed c (encrypted_extensions_msg xs) h = encrypted_framed xs h
body_framed c (new_session_ticket_msg ticket) h =
    framed_of _ _ (new_session_ticket_msg ticket)
      (coded_last _ _ new_session_ticket_msg ticket (ticket_coded ticket h))
body_framed c (new_session_ticket1_0_msg lifetime ticket) (l, t) =
    framed_of _ _ (new_session_ticket1_0_msg lifetime ticket) (
      coded_then _ _ _ _ lifetime (new_session_ticket1_0_msg lifetime ticket)
        (number_coded lifetime 4 l)
        (coded_last _ _ (new_session_ticket1_0_msg lifetime) ticket (string_coded 2 ticket t)))
body_framed c (certificate_verify_msg algorithm signature) (g, h) =
    framed_of _ _ (certificate_verify_msg algorithm signature)
      (verify_coded (from_tls12 c.version) algorithm signature g h)
body_framed c (server_key_exchange_msg params algorithm signature) h =
    framed_of _ _ (server_key_exchange_msg (measured_params params) algorithm signature)
      (key_exchange_coded c params algorithm signature h)
body_framed c (client_key_exchange_msg share) h = framed_last _ _ client_key_exchange_msg share (
    share_framed (client_family c.constructor_type) (is_tls c.version)
      (same_version c.version (3, 0)) share h)
body_framed c (finished_msg verify_data) h =
    framed_of _ _ (finished_msg verify_data) (finished_coded (finished_size c) verify_data h)
body_framed c (next_protocol_msg next_proto) h =
    framed_of _ _ (next_protocol_msg next_proto) (protocol_coded next_proto h)
body_framed c (key_update_msg message_type) h =
    framed_of _ _ (key_update_msg message_type)
      (coded_last _ _ key_update_msg message_type (number_coded message_type 1 h))

type-Fits : (kind : HandshakeKind) → Fits 1 (handshake_type kind)
type-Fits hello_request_kind = omega arith
type-Fits server_hello_done_kind = omega arith
type-Fits client_hello_kind = omega arith
type-Fits server_hello_kind = omega arith
type-Fits encrypted_extensions_kind = omega arith
type-Fits new_session_ticket_kind = omega arith
type-Fits new_session_ticket1_0_kind = omega arith
type-Fits certificate_verify_kind = omega arith
type-Fits server_key_exchange_kind = omega arith
type-Fits client_key_exchange_kind = omega arith
type-Fits finished_kind = omega arith
type-Fits next_protocol_kind = omega arith
type-Fits key_update_kind = omega arith

-- How many bytes the body of a message is written as.
abbrev pub body_size : Context → Handshake → ℕ
body_size c msg = length ((put_body c msg empty_writer).1.buffer)

module _ (c : Context) (msg : Handshake)
    (f : Framed (put_body c msg) (get_body c (message_kind msg)) (received msg)) where
  length-body : length f.bytes ≡ body_size c msg
  length-body =
      ap (λ (r : Result (Unit {0}) × Writer). length (r.1.buffer)) (sym (f.writes empty_writer))

  whole : Bytes
  whole = be_bytes 1 (handshake_type (message_kind msg)) ++ (be_bytes 3 (length f.bytes) ++ f.bytes)

  read_whole :
      class_of c.version (handshake_type (message_kind msg)) ≡ some (message_kind msg)
      → Fits 3 (length f.bytes)
      → (parse_handshake c (new_parser whole)).0 ≡ ok (received msg)
  unfolding parse_handshake whole
  read_whole known fits =
      let type : ℕ = handshake_type (message_kind msg) in
      let rest : Bytes = be_bytes 3 (length f.bytes) ++ f.bytes in
      let at : IsAt (new_parser whole) (be_bytes 1 type ++ rest) = record {
        unread = refl;
        inside = omega arith;
      } in
      rw (get_at (new_parser whole) 1 type rest (type-Fits (message_kind msg)) at, known)
        (within_lem _ _ (received msg) f (advance 1 (new_parser whole)) fits
          (after_number (new_parser whole) 1 type rest at))

-- A handshake message whose class `_getMsg` chooses for its type in this version, whose fields the context allows and
-- their length fields hold, and whose body fits the three bytes of its length, has an encoding by `write`. From these
-- bytes `_getMsg` and `parse` make the same message; of a ServerKeyExchange, they also know the numbers' lengths.
pub parse_handshake-write_handshake :
    (c : Context) (msg : Handshake)
    → class_of c.version (handshake_type (message_kind msg)) ≡ some (message_kind msg)
    → IsSendable c msg
    → Fits 3 (body_size c msg)
    → (bs : Bytes) × ((write_handshake c msg ≡ ok bs)
        × ((parse_handshake c (new_parser bs)).0 ≡ ok (received msg)))
unfolding write_handshake whole
parse_handshake-write_handshake c msg known h fits =
    let f = body_framed c msg h in
    let short : Fits 3 (length f.bytes) = subst (Fits 3) (sym (length-body c msg f)) fits in
    (
      whole c msg f,
      (
        post_write_lem _ _ (received msg) (handshake_type (message_kind msg)) f
            (type-Fits (message_kind msg)) short,
        read_whole c msg f known short,
      ),
    )
