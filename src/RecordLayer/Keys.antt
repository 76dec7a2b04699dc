-- ===== src/RecordLayer/Keys.antt =====
-- tlslite/recordlayer.py: the settings of a cipher suite, the pending states and the changes of state.
use tls_dvnizk.Base.{
  ℕ, ◌*◌, List, [], ◌∷◌, Bool, false, ◌||◌, not, ◌==◌, if◌then◌else◌, Option, none, some, take,
  drop, Result, ok, err, assertion_error,
}
use tls_dvnizk.Base.Bytes.{Bytes}
use tls_dvnizk.ConstantTime.Cbc.{Mac, Version, is_ssl3, before_tls13}
use tls_dvnizk.RecordLayer.State.{Cipher, ConnectionState, new_state}
use tls_dvnizk.RecordLayer.Suites.{
  aes256_gcm_suites, aes128_gcm_suites, aes256_ccm_8_suites, aes256_ccm_suites, aes128_ccm_8_suites,
  aes128_ccm_suites, chacha20_suites, chacha20_draft00_suites, aes128_suites, aes256_suites,
  rc4_suites, triple_des_suites, null_suites, aead_suites, sha_suites, sha256_suites, sha384_suites,
  md5_suites,
}

-- `suite in suites`
unfoldable pub is_in : ℕ → List ℕ → Bool
is_in suite [] = false
is_in suite (s ∷ suites) = is_in suite suites || (s == suite)

-- The functions of `cipherfactory` that create a cipher.
pub data CipherMethod : Type 0 where
  aes_gcm aes_ccm_8 aes_ccm chacha20 aes rc4 triple_des no_cipher : CipherMethod

abbrev pub CipherSettings : Type 0
CipherSettings = ℕ × ℕ × CipherMethod

-- The `if` chain of `_getCipherSettings`, as the list of its tests.
abbrev pub cipher_choices : List (List ℕ × CipherSettings)
cipher_choices =
    (aes256_gcm_suites, (32, 4, aes_gcm))
    ∷ (aes128_gcm_suites, (16, 4, aes_gcm))
    ∷ (aes256_ccm_8_suites, (32, 4, aes_ccm_8))
    ∷ (aes256_ccm_suites, (32, 4, aes_ccm))
    ∷ (aes128_ccm_8_suites, (16, 4, aes_ccm_8))
    ∷ (aes128_ccm_suites, (16, 4, aes_ccm))
    ∷ (chacha20_suites, (32, 12, chacha20))
    ∷ (chacha20_draft00_suites, (32, 4, chacha20))
    ∷ (aes128_suites, (16, 16, aes))
    ∷ (aes256_suites, (32, 16, aes))
    ∷ (rc4_suites, (16, 0, rc4))
    ∷ (triple_des_suites, (24, 8, triple_des))
    ∷ (null_suites, (0, 0, no_cipher))
    ∷ []

pub data Digest : Type 0 where
  md5 sha1 sha256 sha384 : Digest

abbrev pub MacSettings : Type 0
MacSettings = ℕ × Option Digest

-- The `if` chain of `_getMacSettings`.
abbrev pub mac_choices : List (List ℕ × MacSettings)
mac_choices =
    (aead_suites, (0, none))
    ∷ (sha_suites, (20, some sha1))
    ∷ (sha256_suites, (32, some sha256))
    ∷ (sha384_suites, (48, some sha384))
    ∷ (md5_suites, (16, some md5))
    ∷ []

-- The first choice whose list has the suite.
unfoldable pub choose {ℓ} : {A : Type ℓ} → ℕ → List (List ℕ × A) → Result A
choose suite [] = err assertion_error
choose suite ((suites, setting) ∷ rest) =
    if is_in suite suites then ok setting else choose suite rest

unfoldable pub get_cipher_settings : ℕ → Result CipherSettings
get_cipher_settings cipher_suite = choose cipher_suite cipher_choices

unfoldable pub get_mac_settings : ℕ → Result MacSettings
get_mac_settings cipher_suite = choose cipher_suite mac_choices

-- `createMAC_SSL` and `createHMAC`
pub data MacMethod : Type 0 where
  mac_ssl hmac : MacMethod

unfoldable pub get_hmac_method : Version → Result MacMethod
get_hmac_method version =
    if not (before_tls13 version)
    then err assertion_error
    else (if is_ssl3 version then ok mac_ssl else ok hmac)

-- What creates the objects: the cipher libraries and `hashlib`. A cipher with associated data has no
-- initialisation vector.
pub record Factory : Type 0 where
  pub create_cipher : CipherMethod → Bytes → Bytes → Option Cipher
  pub create_mac : MacMethod → Digest → Bytes → Mac
  pub expand_label : Bytes → Bytes → ℕ → Digest → Bytes

-- `getFixBytes` of the parser over the key block, six times.
pub record KeyBlock : Type 0 where
  pub client_mac : Bytes
  pub server_mac : Bytes
  pub client_key : Bytes
  pub server_key : Bytes
  pub client_iv : Bytes
  pub server_iv : Bytes

unfoldable pub slice_key_block : ℕ → ℕ → ℕ → Bytes → KeyBlock
slice_key_block mac_length key_length iv_length block =
    let keys = drop (2 * mac_length) block in
    let ivs = drop (2 * key_length) keys in
    record {
      client_mac = take mac_length block;
      server_mac = take mac_length (drop mac_length block);
      client_key = take key_length keys;
      server_key = take key_length (drop key_length keys);
      client_iv = take iv_length ivs;
      server_iv = take iv_length (drop iv_length ivs);
    }

-- The fields of `RecordLayer` that the changes of state write.
pub record Layer : Type 0 where
  pub version : Version
  pub client : Bool
  pub write_state : ConnectionState
  pub read_state : ConnectionState
  pub pending_write_state : ConnectionState
  pub pending_read_state : ConnectionState
  pub fixed_iv_block : Option Bytes

-- The state of one side.
unfoldable pub side_state :
    Factory → Option (MacMethod × Digest) → CipherMethod → Bytes → Bytes → Bytes → ConnectionState
side_state factory (some (mac_method, digest)) method mac_key key iv = record new_state {
  mac_context = some (factory.create_mac mac_method digest mac_key);
  enc_context = factory.create_cipher method key iv;
}
side_state factory none method mac_key key iv = record new_state {
  enc_context = factory.create_cipher method key [];
  fixed_nonce = iv;
}

abbrev pub keep_etm : ConnectionState → ConnectionState → ConnectionState
keep_etm old new = record new { encrypt_then_mac = old.encrypt_then_mac }

-- The client writes with the client's state, the server with the server's.
unfoldable pub assign_pending : ConnectionState → ConnectionState → Layer → Layer
assign_pending client_state server_state layer =
    if layer.client
    then record layer {
      pending_write_state = keep_etm layer.pending_write_state client_state;
      pending_read_state = keep_etm layer.pending_read_state server_state;
    }
    else record layer {
      pending_write_state = keep_etm layer.pending_write_state server_state;
      pending_read_state = keep_etm layer.pending_read_state client_state;
    }
