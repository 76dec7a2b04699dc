-- ===== src/Extensions/Extension.antt =====
-- tlslite/extensions.py: `extData`, `write` and `parse` of an extension of any class.
use tls_dvnizk.Base.{
  ℕ, ◌==◌, not, length, Option, none, some, Result, Method, pure, raise_if, modify, ◌>>=◌, ◌>>◌,
  assertion_error,
}
use tls_dvnizk.Base.Bytes.{Bytes}
use tls_dvnizk.Codec.Writer.{Writer, empty_writer, extend, add_two}
use tls_dvnizk.Codec.Parser.{Parser, new_parser, get, get_fix_bytes}
use tls_dvnizk.Codec.Nested.{inner}
use tls_dvnizk.Extensions.Shapes.{shape_of, write_value, written, parse_class}
use tls_dvnizk.Extensions.Kinds.{
  Extension, plain_ext, field_ext, sni_ext, srv_supported_versions_ext, srp_ext, npn_ext, tack_ext,
  padding_ext, alpn_ext, status_request_ext, client_key_share_ext, server_key_share_ext,
  hrr_key_share_ext, pre_shared_key_ext, session_ticket_ext, Kind, field_kind, sni_kind,
  srv_supported_versions_kind, srp_kind, npn_kind, tack_kind, padding_kind, alpn_kind,
  status_request_kind, client_key_share_kind, server_key_share_kind, hrr_key_share_kind,
  pre_shared_key_kind, session_ticket_kind, Place, handler, ext_type,
}
use tls_dvnizk.Extensions.Data.{
  sni_data, parse_sni, srv_supported_versions_data, parse_srv_supported_versions, srp_data,
  parse_srp, npn_data, parse_npn, tack_data, parse_tack, padding_data, parse_padding, alpn_data,
  parse_alpn, status_request_data, parse_status_request, client_key_share_data,
  parse_client_key_share, server_key_share_data, parse_server_key_share, hrr_key_share_data,
  parse_hrr_key_share, pre_shared_key_data, parse_pre_shared_key, session_ticket_data,
  parse_session_ticket,
}

-- What `extData` writes.
unfoldable pub payload : Extension → Method Writer (Unit {0})
payload (plain_ext type bs) = modify (extend bs)
payload (field_ext c none) = pure tt
payload (field_ext c (some value)) = write_value (shape_of c) value
payload (sni_ext content) = sni_data content
payload (srv_supported_versions_ext content) = srv_supported_versions_data content
payload (srp_ext content) = srp_data content
payload (npn_ext content) = npn_data content
payload (tack_ext tacks activation_flags) = tack_data tacks activation_flags
payload (padding_ext content) = padding_data content
payload (alpn_ext content) = alpn_data content
payload (status_request_ext content) = status_request_data content
payload (client_key_share_ext content) = client_key_share_data content
payload (server_key_share_ext content) = server_key_share_data content
payload (hrr_key_share_ext content) = hrr_key_share_data content
payload (pre_shared_key_ext content) = pre_shared_key_data content
payload (session_ticket_ext content) = session_ticket_data content

-- The whole of an extension's own writer.
unfoldable pub payload_bytes : Extension → Result Bytes
payload_bytes e = written (payload e empty_writer)

-- `write`, appended to the writer of a list of extensions.
unfoldable pub put_extension : Extension → Method Writer (Unit {0})
put_extension e =
    add_two (ext_type e)
    >> (inner (payload_bytes e) >>= λ data_bytes.
        add_two (length data_bytes) >> modify (extend data_bytes))

-- `parse` of a class.
unfoldable pub parse_payload : Kind → Method Parser Extension
parse_payload (field_kind c) = parse_class c >>= λ value. pure (field_ext c value)
parse_payload sni_kind = parse_sni
parse_payload srv_supported_versions_kind = parse_srv_supported_versions
parse_payload srp_kind = parse_srp
parse_payload npn_kind = parse_npn
parse_payload tack_kind = parse_tack
parse_payload padding_kind = parse_padding
parse_payload alpn_kind = parse_alpn
parse_payload status_request_kind = parse_status_request
parse_payload client_key_share_kind = parse_client_key_share
parse_payload server_key_share_kind = parse_server_key_share
parse_payload hrr_key_share_kind = parse_hrr_key_share
parse_payload pre_shared_key_kind = parse_pre_shared_key
parse_payload session_ticket_kind = parse_session_ticket

-- `parse` past the search for a class: with one, the payload has a parser of its own.
unfoldable pub parse_found : Option Kind → ℕ → ℕ → Method Parser Extension
parse_found none type ext_length = do
  bs ← get_fix_bytes ext_length
  raise_if (not (length bs == ext_length)) assertion_error
  pure (plain_ext type bs)
parse_found (some kind) type ext_length = do
  bs ← get_fix_bytes ext_length
  inner ((parse_payload kind (new_parser bs)).0)

-- `parse`, which turns a DecodeError into one with a longer text.
unfoldable pub parse_extension : Place → Method Parser Extension
parse_extension place = do
  type ← get 2
  ext_length ← get 2
  parse_found (handler place type) type ext_length
