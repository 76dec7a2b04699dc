-- ===== src/RecordLayer/Pending.antt =====
-- tlslite/recordlayer.py: the computation of the pending states, the changes to them, and key updates.
use tls_dvnizk.Base.{
  ℕ, ◌+◌, ◌*◌, [], ◌∷◌, Bool, not, ◌&&◌, ltb, ◌==◌, if◌then◌else◌, Option, none, some, length,
  Method, pure, raise_if, gets, modify, ◌>>=◌, ◌>>◌, Result, ok, err, decode_error,
}
use tls_dvnizk.Base.Bytes.{Bytes}
use tls_dvnizk.ConstantTime.Cbc.{Version}
use tls_dvnizk.RecordLayer.State.{ConnectionState, new_state, is_ssl2, from_tls11}
use tls_dvnizk.RecordLayer.Suites.{sha384_prf_suites}
use tls_dvnizk.RecordLayer.Keys.{
  is_in, CipherMethod, CipherSettings, MacMethod, Digest, sha256, sha384, get_cipher_settings,
  get_mac_settings, get_hmac_method, Factory, slice_key_block, Layer, side_state, assign_pending,
}

-- A step that raises or answers, as a method.
abbrev pub from_result : {A : Type 0} → Result A → Method Layer A
from_result outcome layer = (outcome, layer)

-- How the MACs are made, if there are any.
unfoldable pub mac_of : Version → Option Digest → Result (Option (MacMethod × Digest))
mac_of version none = ok none
mac_of version (some digest) = elim (get_hmac_method version) [
  | err problem ↦ err problem
  | ok method ↦ ok (some (method, digest))
]

-- `calcPendingStates`: `derive` is `calc_key` with its other arguments, and is given the length;
-- `random` is `getRandomBytes`.
unfoldable pub calc_pending_states :
    Factory → (ℕ → Bytes) → (ℕ → Bytes) → ℕ → Method Layer (Unit {0})
calc_pending_states factory derive random cipher_suite = do
  cipher ← from_result (get_cipher_settings cipher_suite)
  mac_settings ← from_result (get_mac_settings cipher_suite)
  let (key_length, iv_length, method) = cipher
  let (mac_length, digest) = mac_settings
  version ← gets (λ layer. layer.version)
  mac ← from_result (mac_of version digest)
  let block = derive (mac_length * 2 + key_length * 2 + iv_length * 2)
  raise_if (ltb (length block) (mac_length * 2 + key_length * 2 + iv_length * 2)) decode_error
  let keys = slice_key_block mac_length key_length iv_length block
  modify (
      assign_pending (side_state factory mac method keys.client_mac keys.client_key keys.client_iv)
        (side_state factory mac method keys.server_mac keys.server_key keys.server_iv))
  modify (λ layer. record layer {
    fixed_iv_block =
        if from_tls11 layer.version && not (iv_length == 0)
        then some (random iv_length)
        else layer.fixed_iv_block;
  })

-- The labels of HKDF, in bytes.
abbrev pub key_label : Bytes
key_label = b'k' ∷ b'e' ∷ b'y' ∷ []

abbrev pub iv_label : Bytes
iv_label = b'i' ∷ b'v' ∷ []

abbrev pub traffic_upd_label : Bytes
traffic_upd_label = b't' ∷ b'r' ∷ b'a' ∷ b'f' ∷ b'f' ∷ b'i' ∷ b'c' ∷ b' ' ∷ b'u' ∷ b'p' ∷ b'd' ∷ []

-- The hash function of the suite's PRF, and the length of its output.
unfoldable pub prf_of : ℕ → Digest × ℕ
prf_of cipher_suite = if is_in cipher_suite sha384_prf_suites then (sha384, 48) else (sha256, 32)

-- The state that a traffic secret gives.
unfoldable pub traffic_state : Factory → Digest → ℕ → CipherMethod → Bytes → ConnectionState
traffic_state factory prf key_length method secret = record new_state {
  enc_context =
      factory.create_cipher method (factory.expand_label secret key_label key_length prf) [];
  fixed_nonce = factory.expand_label secret iv_label 12 prf;
}

unfoldable pub calc_tls13_pending_state : Factory → ℕ → Bytes → Bytes → Method Layer (Unit {0})
calc_tls13_pending_state factory cipher_suite cl_traffic_secret sr_traffic_secret = do
  cipher ← from_result (get_cipher_settings cipher_suite)
  let (key_length, iv_length, method) = cipher
  let client_state =
      traffic_state factory ((prf_of cipher_suite).0) key_length method cl_traffic_secret
  let server_state =
      traffic_state factory ((prf_of cipher_suite).0) key_length method sr_traffic_secret
  modify (λ layer.
      if layer.client
      then record layer { pending_write_state = client_state; pending_read_state = server_state }
      else record layer { pending_write_state = server_state; pending_read_state = client_state })

-- `_calcTLS1_3KeyUpdate`, with the settings of the suite: the next secret and the state that it gives.
abbrev pub updated_from :
    Factory → ℕ → Bytes → Result CipherSettings → Result (Bytes × ConnectionState)
updated_from factory cipher_suite app_secret (err problem) = err problem
updated_from factory cipher_suite app_secret (ok cipher) =
    let (key_length, iv_length, method) = cipher in
    let (prf, prf_length) = prf_of cipher_suite in
    let new_app_secret = factory.expand_label app_secret traffic_upd_label prf_length prf in
    ok (new_app_secret, traffic_state factory prf key_length method new_app_secret)

unfoldable pub calc_tls13_key_update : Factory → ℕ → Bytes → Result (Bytes × ConnectionState)
calc_tls13_key_update factory cipher_suite app_secret =
    updated_from factory cipher_suite app_secret (get_cipher_settings cipher_suite)

-- `calcTLS1_3KeyUpdate_sender`: the other side has announced new keys, the read state is replaced.
unfoldable pub calc_tls13_key_update_sender :
    Factory → ℕ → Bytes → Bytes → Method Layer (Bytes × Bytes)
calc_tls13_key_update_sender factory cipher_suite cl_app_secret sr_app_secret = do
  client ← gets (λ layer. layer.client)
  update ←
      from_result (
        calc_tls13_key_update factory cipher_suite
          (if client then sr_app_secret else cl_app_secret))
  modify (λ layer. record layer { read_state = update.1 })
  pure (if client then (cl_app_secret, update.0) else (update.0, sr_app_secret))

-- `calcTLS1_3KeyUpdate_reciever`: the write state is replaced.
unfoldable pub calc_tls13_key_update_reciever :
    Factory → ℕ → Bytes → Bytes → Method Layer (Bytes × Bytes)
calc_tls13_key_update_reciever factory cipher_suite cl_app_secret sr_app_secret = do
  client ← gets (λ layer. layer.client)
  update ←
      from_result (
        calc_tls13_key_update factory cipher_suite
          (if client then cl_app_secret else sr_app_secret))
  modify (λ layer. record layer { write_state = update.1 })
  pure (if client then (update.0, sr_app_secret) else (cl_app_secret, update.0))

-- In SSL 2 the sequence number goes on.
abbrev pub carried : Version → ConnectionState → ConnectionState → ConnectionState
carried version old pending =
    if is_ssl2 version then record pending { seqnum = old.seqnum } else pending

unfoldable pub change_write_state : Layer → Layer
change_write_state layer = record layer {
  write_state = carried layer.version layer.write_state layer.pending_write_state;
  pending_write_state = new_state;
}

unfoldable pub change_read_state : Layer → Layer
change_read_state layer = record layer {
  read_state = carried layer.version layer.read_state layer.pending_read_state;
  pending_read_state = new_state;
}

-- `shutdown`
unfoldable pub shutdown : Layer → Layer
shutdown layer = record layer {
  write_state = new_state;
  read_state = new_state;
  pending_write_state = new_state;
  pending_read_state = new_state;
}

-- The setter of `encryptThenMAC`, for the parameters after the next change.
unfoldable pub set_encrypt_then_mac : Bool → Layer → Layer
set_encrypt_then_mac value layer = record layer {
  pending_write_state = record (layer.pending_write_state) { encrypt_then_mac = value };
  pending_read_state = record (layer.pending_read_state) { encrypt_then_mac = value };
}
