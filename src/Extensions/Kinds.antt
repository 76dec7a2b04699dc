-- ===== src/Extensions/Kinds.antt =====
-- tlslite/extensions.py: the extensions as data, and the tables of their classes at the end of the file. The tables of
-- the Certificate message, which stand before the others, are left out: `cert` is False here.
use tls_dvnizk.Base.{ℕ, List, [], ◌∷◌, ◌==◌, if◌then◌else◌, Option, none, some}
use tls_dvnizk.Base.Bytes.{Bytes}
use tls_dvnizk.Extensions.Shapes.{
  Class, supported_versions, client_cert_type, server_cert_type, supported_groups, ec_point_formats,
  delegated_credential, signature_algorithms, signature_algorithms_cert, renegotiation_info,
  heartbeat, srv_pre_shared_key, psk_key_exchange_modes, cookie, record_size_limit,
  compressed_certificate, Value, shape_of,
}

pub record KeyShareEntry : Type 0 where
  pub group : ℕ
  pub key_exchange : Bytes

pub record PskIdentity : Type 0 where
  pub identity : Bytes
  pub obfuscated_ticket_age : ℕ

pub record ServerName : Type 0 where
  pub name_type : ℕ
  pub name : Bytes

pub record Tack : Type 0 where
  pub public_key : Bytes
  pub min_generation : ℕ
  pub generation : ℕ
  pub expiration : ℕ
  pub target_hash : Bytes
  pub signature : Bytes

pub record StatusRequest : Type 0 where
  pub status_type : ℕ
  pub responder_id_list : List Bytes
  pub request_extensions : Bytes

pub record PreSharedKeys : Type 0 where
  pub identities : List PskIdentity
  pub binders : List Bytes

-- An object of `TLSExtension` or of a class below it, with what it carries; `none` stands for None.
pub data Extension : Type 0 where
  plain_ext : ℕ → Bytes → Extension
  field_ext : (c : Class) → Option (Value (shape_of c)) → Extension
  sni_ext : Option (List ServerName) → Extension
  srv_supported_versions_ext : Option (List ℕ) → Extension
  srp_ext : Option Bytes → Extension
  npn_ext : Option (List Bytes) → Extension
  tack_ext : List Tack → ℕ → Extension
  padding_ext : Bytes → Extension
  alpn_ext : Option (List Bytes) → Extension
  status_request_ext : Option StatusRequest → Extension
  client_key_share_ext : Option (List KeyShareEntry) → Extension
  server_key_share_ext : Option KeyShareEntry → Extension
  hrr_key_share_ext : Option ℕ → Extension
  pre_shared_key_ext : Option PreSharedKeys → Extension
  session_ticket_ext : Bytes → Extension

-- The class of an extension that is not plain.
pub data Kind : Type 0 where
  field_kind : Class → Kind
  sni_kind srv_supported_versions_kind srp_kind npn_kind tack_kind padding_kind alpn_kind
        status_request_kind :
      Kind
  client_key_share_kind server_key_share_kind hrr_key_share_kind pre_shared_key_kind
        session_ticket_kind :
      Kind

abbrev pub kind_of : Extension → Option Kind
kind_of (plain_ext type payload) = none
kind_of (field_ext c value) = some (field_kind c)
kind_of (sni_ext names) = some sni_kind
kind_of (srv_supported_versions_ext version) = some srv_supported_versions_kind
kind_of (srp_ext identity) = some srp_kind
kind_of (npn_ext protocols) = some npn_kind
kind_of (tack_ext tacks activation_flags) = some tack_kind
kind_of (padding_ext padding_data) = some padding_kind
kind_of (alpn_ext protocol_names) = some alpn_kind
kind_of (status_request_ext request) = some status_request_kind
kind_of (client_key_share_ext shares) = some client_key_share_kind
kind_of (server_key_share_ext share) = some server_key_share_kind
kind_of (hrr_key_share_ext selected) = some hrr_key_share_kind
kind_of (pre_shared_key_ext keys) = some pre_shared_key_kind
kind_of (session_ticket_ext ticket) = some session_ticket_kind

-- The `extType` that the constructor of a class sets.
abbrev pub class_type : Class → ℕ
class_type supported_versions = 43
class_type client_cert_type = 9
class_type server_cert_type = 9
class_type supported_groups = 10
class_type ec_point_formats = 11
class_type delegated_credential = 34
class_type signature_algorithms = 13
class_type signature_algorithms_cert = 50
class_type renegotiation_info = 65281
class_type heartbeat = 15
class_type srv_pre_shared_key = 41
class_type psk_key_exchange_modes = 45
class_type cookie = 44
class_type record_size_limit = 28
class_type compressed_certificate = 27

abbrev pub ext_type : Extension → ℕ
ext_type (plain_ext type payload) = type
ext_type (field_ext c value) = class_type c
ext_type (sni_ext names) = 0
ext_type (srv_supported_versions_ext version) = 43
ext_type (srp_ext identity) = 12
ext_type (npn_ext protocols) = 13172
ext_type (tack_ext tacks activation_flags) = 62208
ext_type (padding_ext padding_data) = 21
ext_type (alpn_ext protocol_names) = 16
ext_type (status_request_ext request) = 5
ext_type (client_key_share_ext shares) = 51
ext_type (server_key_share_ext share) = 51
ext_type (hrr_key_share_ext selected) = 51
ext_type (pre_shared_key_ext keys) = 41
ext_type (session_ticket_ext ticket) = 35

abbrev Table : Type 0
Table = List (ℕ × Kind)

-- `_universalExtensions`
abbrev pub universal_extensions : Table
universal_extensions =
    (0, sni_kind)
    ∷ (5, status_request_kind)
    ∷ (9, field_kind client_cert_type)
    ∷ (10, field_kind supported_groups)
    ∷ (11, field_kind ec_point_formats)
    ∷ (12, srp_kind)
    ∷ (13, field_kind signature_algorithms)
    ∷ (16, alpn_kind)
    ∷ (13172, npn_kind)
    ∷ (21, padding_kind)
    ∷ (65281, field_kind renegotiation_info)
    ∷ (15, field_kind heartbeat)
    ∷ (43, field_kind supported_versions)
    ∷ (51, client_key_share_kind)
    ∷ (50, field_kind signature_algorithms_cert)
    ∷ (41, pre_shared_key_kind)
    ∷ (45, field_kind psk_key_exchange_modes)
    ∷ (44, field_kind cookie)
    ∷ (28, field_kind record_size_limit)
    ∷ (35, session_ticket_kind)
    ∷ (27, field_kind compressed_certificate)
    ∷ (34, field_kind delegated_credential)
    ∷ []

-- `_serverExtensions`
abbrev pub server_extensions : Table
server_extensions =
    (9, field_kind server_cert_type)
    ∷ (62208, tack_kind)
    ∷ (51, server_key_share_kind)
    ∷ (43, srv_supported_versions_kind)
    ∷ (41, field_kind srv_pre_shared_key)
    ∷ []

-- `_hrrExtensions`
abbrev pub hrr_extensions : Table
hrr_extensions = (51, hrr_key_share_kind) ∷ (43, srv_supported_versions_kind) ∷ []

-- What stands under a type in a table, else in what comes next.
abbrev pub entry : Table → ℕ → Option Kind → Option Kind
entry [] type next = next
entry ((key, kind) ∷ table) type next = if type == key then some kind else entry table type next

-- The flags `serverType` and `hrr` of the object that parses.
pub data Place : Type 0 where
  client_place server_place hrr_place : Place

-- The tables in the order of `parse`.
abbrev pub handler : Place → ℕ → Option Kind
handler client_place type = entry universal_extensions type none
handler server_place type = entry server_extensions type (entry universal_extensions type none)
handler hrr_place type = entry hrr_extensions type (entry universal_extensions type none)
