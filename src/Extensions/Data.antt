-- ===== src/Extensions/Data.antt =====
-- tlslite/extensions.py: `extData` and `parse` of the classes with a form of their own.
use tls_dvnizk.Base.{
  ℕ, List, [], ◌==◌, not, length, Option, none, some, Method, pure, raise, raise_if, modify, ◌>>=◌,
  ◌>>◌, type_error, internal_error,
}
use tls_dvnizk.Base.Bytes.{Bytes}
use tls_dvnizk.Codec.Writer.{Writer, extend, add, add_two, add_four, add_fix_seq, add_var_bytes}
use tls_dvnizk.Codec.Parser.{
  Parser, get, get_fix_bytes, get_fix_list, get_var_bytes, get_remaining_length,
}
use tls_dvnizk.Codec.Nested.{nested, write_each, read_list, to_the_end, at_end, unless_empty}
use tls_dvnizk.Extensions.Kinds.{
  Extension, sni_ext, srv_supported_versions_ext, srp_ext, npn_ext, tack_ext, padding_ext, alpn_ext,
  status_request_ext, client_key_share_ext, server_key_share_ext, hrr_key_share_ext,
  pre_shared_key_ext, session_ticket_ext, KeyShareEntry, PskIdentity, ServerName, Tack,
  StatusRequest, PreSharedKeys,
}

-- The items of the lists.
unfoldable pub put_name : ServerName → Method Writer (Unit {0})
put_name server = add server.name_type 1 >> add_var_bytes server.name 2

unfoldable pub get_name : Method Parser ServerName
get_name = get 1 >>= λ sn_type.
    get_var_bytes 2 >>= λ sn_name. pure (record { name_type = sn_type; name = sn_name })

-- `w.add(len(bs), n); w.bytes += bs`
abbrev pub put_bytes : ℕ → Bytes → Method Writer (Unit {0})
put_bytes n bs = add_var_bytes bs n

-- `w.add(len(bs), 1); w.addFixSeq(bs, 1)`
unfoldable pub put_short : Bytes → Method Writer (Unit {0})
put_short bs = add (length bs) 1 >> add_fix_seq bs 1

unfoldable pub put_share : KeyShareEntry → Method Writer (Unit {0})
put_share share =
    add_two share.group
    >> (add_two (length share.key_exchange) >> modify (extend share.key_exchange))

unfoldable pub get_share : Method Parser KeyShareEntry
get_share = get 2 >>= λ named.
    get_var_bytes 2 >>= λ public. pure (record { group = named; key_exchange = public })

unfoldable pub put_identity : PskIdentity → Method Writer (Unit {0})
put_identity i =
    add_two (length i.identity) >> modify (extend i.identity) >> add_four i.obfuscated_ticket_age

unfoldable pub get_identity : Method Parser PskIdentity
get_identity = get_var_bytes 2 >>= λ label.
    get 4 >>= λ age. pure (record { identity = label; obfuscated_ticket_age = age })

abbrev pub put_exactly : ℕ → Bytes → Method Writer (Unit {0})
put_exactly n bs = raise_if (not (length bs == n)) internal_error >> modify (extend bs)

unfoldable pub put_tack : Tack → Method Writer (Unit {0})
put_tack t =
    put_exactly 64 t.public_key
    >> (add t.min_generation 1
        >> (add t.generation 1
            >> (add t.expiration 4
                >> (put_exactly 32 t.target_hash >> put_exactly 64 t.signature))))

unfoldable pub get_tack : Method Parser Tack
get_tack = get_fix_bytes 64 >>= λ key. get 1 >>= λ least. get 1 >>= λ current. get 4 >>= λ until.
    get_fix_bytes 32 >>= λ target. get_fix_bytes 64 >>= λ signed. pure (record {
      public_key = key;
      min_generation = least;
      generation = current;
      expiration = until;
      target_hash = target;
      signature = signed;
    })

-- SNIExtension
abbrev pub sni_data : Option (List ServerName) → Method Writer (Unit {0})
sni_data none = pure tt
sni_data (some names) = nested 2 (write_each put_name names)

abbrev pub parse_sni : Method Parser Extension
parse_sni =
    unless_empty (sni_ext none) (read_list 2 get_name >>= λ names. at_end (sni_ext (some names)))

-- SrvSupportedVersionsExtension
abbrev pub srv_supported_versions_data : Option (List ℕ) → Method Writer (Unit {0})
srv_supported_versions_data none = pure tt
srv_supported_versions_data (some version) = add_fix_seq version 1

abbrev pub parse_srv_supported_versions : Method Parser Extension
parse_srv_supported_versions =
    get_fix_list 1 2 >>= λ version. at_end (srv_supported_versions_ext (some version))

-- SRPExtension
abbrev pub srp_data : Option Bytes → Method Writer (Unit {0})
srp_data none = pure tt
srp_data (some identity) = put_short identity

abbrev pub parse_srp : Method Parser Extension
parse_srp = get_var_bytes 1 >>= λ identity. pure (srp_ext (some identity))

-- NPNExtension
abbrev pub npn_data : Option (List Bytes) → Method Writer (Unit {0})
npn_data none = pure tt
npn_data (some protocols) = write_each put_short protocols

abbrev pub parse_npn : Method Parser Extension
parse_npn = to_the_end (get_var_bytes 1) >>= λ protocols. pure (npn_ext (some protocols))

-- TACKExtension
abbrev pub tack_data : List Tack → ℕ → Method Writer (Unit {0})
tack_data tacks activation_flags = nested 2 (write_each put_tack tacks) >> add activation_flags 1

abbrev pub parse_tack : Method Parser Extension
parse_tack = read_list 2 get_tack >>= λ tacks. get 1 >>= λ flags. pure (tack_ext tacks flags)

-- PaddingExtension
abbrev pub padding_data : Bytes → Method Writer (Unit {0})
padding_data bs = modify (extend bs)

abbrev pub parse_padding : Method Parser Extension
parse_padding = get_remaining_length >>= get_fix_bytes >>= λ bs. pure (padding_ext bs)

-- ALPNExtension
abbrev pub alpn_data : Option (List Bytes) → Method Writer (Unit {0})
alpn_data none = pure tt
alpn_data (some protocol_names) = nested 2 (write_each (put_bytes 1) protocol_names)

abbrev pub parse_alpn : Method Parser Extension
parse_alpn = read_list 2 (get_var_bytes 1) >>= λ names. at_end (alpn_ext (some names))

-- StatusRequestExtension
abbrev pub status_request_data : Option StatusRequest → Method Writer (Unit {0})
status_request_data none = pure tt
status_request_data (some request) =
    add request.status_type 1
    >> (nested 2 (write_each (put_bytes 2) request.responder_id_list)
        >> put_bytes 2 request.request_extensions)

abbrev pub parse_status_request : Method Parser Extension
parse_status_request = unless_empty (status_request_ext none) (
    get 1 >>= λ type. read_list 2 (get_var_bytes 2) >>= λ ids. get_var_bytes 2 >>= λ more. at_end (
      status_request_ext
        (some (record { status_type = type; responder_id_list = ids; request_extensions = more }))))

-- ClientKeyShareExtension
abbrev pub client_key_share_data : Option (List KeyShareEntry) → Method Writer (Unit {0})
client_key_share_data none = raise type_error
client_key_share_data (some shares) = nested 2 (write_each put_share shares)

abbrev pub parse_client_key_share : Method Parser Extension
parse_client_key_share =
    unless_empty (client_key_share_ext none)
      (read_list 2 get_share >>= λ shares. at_end (client_key_share_ext (some shares)))

-- ServerKeyShareExtension
abbrev pub server_key_share_data : Option KeyShareEntry → Method Writer (Unit {0})
server_key_share_data none = pure tt
server_key_share_data (some share) = put_share share

abbrev pub parse_server_key_share : Method Parser Extension
parse_server_key_share =
    unless_empty (server_key_share_ext none)
      (get_share >>= λ share. at_end (server_key_share_ext (some share)))

-- HRRKeyShareExtension
abbrev pub hrr_key_share_data : Option ℕ → Method Writer (Unit {0})
hrr_key_share_data none = pure tt
hrr_key_share_data (some selected) = add selected 2

abbrev pub parse_hrr_key_share : Method Parser Extension
parse_hrr_key_share = get 2 >>= λ selected. at_end (hrr_key_share_ext (some selected))

-- PreSharedKeyExtension
abbrev pub pre_shared_key_data : Option PreSharedKeys → Method Writer (Unit {0})
pre_shared_key_data none = pure tt
pre_shared_key_data (some keys) =
    nested 2 (write_each put_identity keys.identities)
    >> nested 2 (write_each (put_bytes 1) keys.binders)

abbrev pub parse_pre_shared_key : Method Parser Extension
parse_pre_shared_key = unless_empty (pre_shared_key_ext none) (
    read_list 2 get_identity >>= λ ids. read_list 2 (get_var_bytes 1) >>= λ macs.
    at_end (pre_shared_key_ext (some (record { identities = ids; binders = macs }))))

-- SessionTicketExtension
abbrev pub session_ticket_data : Bytes → Method Writer (Unit {0})
session_ticket_data ticket = modify (extend ticket)

abbrev pub parse_session_ticket : Method Parser Extension
parse_session_ticket =
    unless_empty (session_ticket_ext [])
      (get_remaining_length >>= get_fix_bytes >>= λ bs. pure (session_ticket_ext bs))
