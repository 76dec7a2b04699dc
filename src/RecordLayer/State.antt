-- ===== src/RecordLayer/State.antt =====
-- tlslite/recordlayer.py: `ConnectionState` and what the protection of a record reads of the
-- settings; tlslite/constants.py: `ContentType`.
use tls_dvnizk.Base.{
  ℕ, ◌+◌, List, [], ◌∷◌, Bool, false, ◌&&◌, ◌||◌, ltb, leb, ◌==◌, if◌then◌else◌, Option, none, some,
  Method, Result, ok, err,
}
use tls_dvnizk.Base.Bytes.{Bytes}
use tls_dvnizk.Codec.Writer.{Writer, empty_writer, add}
use tls_dvnizk.ConstantTime.Cbc.{Mac, Version, same_version}

-- A cipher object of `cipherfactory`. What a call answers depends on the inputs of the calls before it,
-- the latest first.
pub record Cipher : Type 0 where
  pub is_block_cipher : Bool
  pub is_aead : Bool
  -- `"aes" in name`
  pub is_aes : Bool
  -- `name == "chacha20-poly1305"`
  pub is_chacha20 : Bool
  pub block_size : ℕ
  pub tag_length : ℕ
  pub nonce_length : ℕ
  pub encrypt_after : List Bytes → Bytes → Bytes
  pub decrypt_after : List Bytes → Bytes → Bytes
  pub seal : Bytes → Bytes → Bytes → Bytes
  pub unseal : Bytes → Bytes → Bytes → Option Bytes
  pub history : List Bytes

pub record ConnectionState : Type 0 where
  pub mac_context : Option Mac
  pub enc_context : Option Cipher
  pub fixed_nonce : Bytes
  pub seqnum : ℕ
  pub encrypt_then_mac : Bool

abbrev pub new_state : ConnectionState
new_state = record {
  mac_context = none;
  enc_context = none;
  fixed_nonce = [];
  seqnum = 0;
  encrypt_then_mac = false;
}

abbrev pub next_seqnum : ConnectionState → ConnectionState
next_seqnum s = record s { seqnum = s.seqnum + 1 }

abbrev pub counted : Result (Unit {0}) × Writer → ConnectionState → Result Bytes × ConnectionState
counted (ok nothing, writer) s = (ok writer.buffer, next_seqnum s)
counted (err problem, writer) s = (err problem, s)

-- `Writer.add` raises for a sequence number of more than 8 bytes, before it is incremented.
unfoldable pub get_seq_num_bytes : Method ConnectionState Bytes
get_seq_num_bytes s = counted (add s.seqnum 8 empty_writer) s

abbrev pub with_cipher : Cipher → ConnectionState → ConnectionState
with_cipher c s = record s { enc_context = some c }

-- The cipher after a call with this input.
abbrev pub after_call : Bytes → Cipher → Cipher
after_call input c = record c { history = input ∷ c.history }

-- `self.encContext.encrypt(data)`
abbrev pub encrypt : Cipher → Bytes → Method ConnectionState Bytes
encrypt c text s = (ok (c.encrypt_after c.history text), with_cipher (after_call text c) s)

-- `self.encContext.decrypt(data)`
abbrev pub decrypt : Cipher → Bytes → Method ConnectionState Bytes
decrypt c text s = (ok (c.decrypt_after c.history text), with_cipher (after_call text c) s)

abbrev pub change_cipher_spec : ℕ
change_cipher_spec = 20

abbrev pub alert : ℕ
alert = 21

abbrev pub handshake : ℕ
handshake = 22

abbrev pub application_data : ℕ
application_data = 23

abbrev pub heartbeat : ℕ
heartbeat = 24

-- `version > (3, 3)`, for pairs in the order of Python.
abbrev pub after_tls12 : Version → Bool
after_tls12 (major, minor) = ltb 3 major || ((major == 3) && ltb 3 minor)

-- `version >= (3, 2)`
abbrev pub from_tls11 : Version → Bool
from_tls11 (major, minor) = ltb 3 major || ((major == 3) && leb 2 minor)

-- `version in ((0, 2), (2, 0))`
abbrev pub is_ssl2 : Version → Bool
is_ssl2 v = same_version v (0, 2) || same_version v (2, 0)

-- The fields of `RecordLayer` that the protection of a record reads. `fixedIVBlock` is None before TLS 1.1.
pub record Settings : Type 0 where
  pub version : Version
  pub tls13record : Bool
  pub fixed_iv_block : Option Bytes

-- `_is_tls13_plus`
unfoldable pub is_tls13_plus : Settings → Bool
is_tls13_plus own = after_tls12 own.version && own.tls13record

-- `_handle_tls13_record`: the version of `RecordSocket`, for records on the wire.
unfoldable pub handle_tls13_record : Settings → Version
handle_tls13_record own = if is_tls13_plus own then (3, 3) else own.version
