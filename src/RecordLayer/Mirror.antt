-- ===== src/RecordLayer/Mirror.antt =====
-- tlslite/recordlayer.py: the two sides of a connection compute the same states.
use tls_dvnizk.Base.{
  ℕ, ◌*◌, ◌+◌, ◌≤◌, ◌<◌, ◌≡◌, refl, sym, ap, ◌∙◌, Bool, true, false, not, ◌&&◌, ltb, ◌==◌,
  if◌then◌else◌, Option, some, length, ok, arith,
}
use tls_dvnizk.Base.Bytes.{Bytes}
use tls_dvnizk.ConstantTime.Cbc.{Version}
use tls_dvnizk.RecordLayer.State.{ConnectionState, from_tls11}
use tls_dvnizk.RecordLayer.Blocks.{IsDrawn}
use tls_dvnizk.RecordLayer.Keys.{
  CipherSettings, MacSettings, MacMethod, Digest, get_cipher_settings, get_mac_settings, Factory,
  Layer, KeyBlock, slice_key_block, side_state, assign_pending,
}
use tls_dvnizk.RecordLayer.Pending.{
  traffic_upd_label, mac_of, prf_of, traffic_state, calc_pending_states, updated_from,
  calc_tls13_key_update, calc_tls13_key_update_sender, calc_tls13_key_update_reciever,
}

next_secret : Factory → ℕ → Bytes → Bytes
next_secret factory cipher_suite secret =
    factory.expand_label secret traffic_upd_label ((prf_of cipher_suite).1)
      ((prf_of cipher_suite).0)

-- Each side writes with the state that the other reads with.
pub record Mirrors (client server : Layer) : Type 0 where
  pub upward : client.pending_write_state ≡ server.pending_read_state
  pub downward : client.pending_read_state ≡ server.pending_write_state

-- From the same key block, for a suite that has both settings, if a client and a server agree on the version and on
-- encrypt-then-MAC, the key block is as long as it is asked for, and the version is one from SSL 3 to TLS 1.2 or the
-- suite has no MAC of its own, both get pending states that mirror each other, whatever random bytes each draws.
pub calc_pending_states-Mirrors :
    (factory : Factory) (derive random other_random : ℕ → Bytes) (cipher_suite : ℕ)
    (settings : CipherSettings) (mac_settings : MacSettings) (mac : Option (MacMethod × Digest))
    (client server : Layer)
    → get_cipher_settings cipher_suite ≡ ok settings
    → get_mac_settings cipher_suite ≡ ok mac_settings
    → mac_of client.version (mac_settings.1) ≡ ok mac
    → mac_settings.0 * 2 + settings.0 * 2 + settings.1 * 2
      ≤ length (derive (mac_settings.0 * 2 + settings.0 * 2 + settings.1 * 2))
    → client.version ≡ server.version
    → client.pending_write_state.encrypt_then_mac ≡ server.pending_read_state.encrypt_then_mac
    → client.pending_read_state.encrypt_then_mac ≡ server.pending_write_state.encrypt_then_mac
    → client.client ≡ true
    → server.client ≡ false
    → Mirrors
        ((calc_pending_states factory derive random cipher_suite client).1)
        ((calc_pending_states factory derive other_random cipher_suite server).1)
unfolding calc_pending_states assign_pending
calc_pending_states-Mirrors factory derive random other_random cipher_suite settings mac_settings
      mac client server known known_mac made enough same up down e f =
    rw (known, known_mac, made, made_too, not_short, e, f)
      record {
        upward =
            ap
              (λ (b : Bool).
                record (side_state factory mac (settings.2) keys.client_mac keys.client_key
                  keys.client_iv) { encrypt_then_mac = b })
              up;
        downward =
            ap
              (λ (b : Bool).
                record (side_state factory mac (settings.2) keys.server_mac keys.server_key
                  keys.server_iv) { encrypt_then_mac = b })
              down;
      }
  where
    made_too : mac_of server.version (mac_settings.1) ≡ ok mac
    made_too = ap (λ (v : Version). mac_of v (mac_settings.1)) (sym same) ∙ made

    block : Bytes
    block = derive (mac_settings.0 * 2 + settings.0 * 2 + settings.1 * 2)

    not_short : ltb (length block) (mac_settings.0 * 2 + settings.0 * 2 + settings.1 * 2) ≡ false
    not_short = ground arith

    keys : KeyBlock
    keys = slice_key_block (mac_settings.0) (settings.0) (settings.1) block

assign_pending-version :
    (a b : ConnectionState) (layer : Layer) → (assign_pending a b layer).version ≡ layer.version
unfolding assign_pending
assign_pending-version a b layer = ground arith

new_block-IsDrawn :
    (u v : Version) (n : ℕ) (random : ℕ → Bytes) (old : Option Bytes)
    → u ≡ v
    → 0 < n
    → length (random n) ≡ n
    → IsDrawn (from_tls11 v) (if from_tls11 u && not (n == 0) then some (random n) else old) n
new_block-IsDrawn u v n random old e positive sized = rw (e, has_iv) (by_version (from_tls11 v))
  where
    has_iv : (n == 0) ≡ false
    has_iv = ground arith

    by_version : (b : Bool) → IsDrawn b (if b && true then some (random n) else old) n
    by_version true = sized
    by_version false = tt

-- From TLS 1.1 on, a suite with an initialisation vector has the fixed block drawn, of its length.
pub calc_pending_states-IsDrawn :
    (factory : Factory) (derive random : ℕ → Bytes) (cipher_suite : ℕ) (settings : CipherSettings)
    (mac_settings : MacSettings) (mac : Option (MacMethod × Digest)) (layer : Layer)
    → get_cipher_settings cipher_suite ≡ ok settings
    → get_mac_settings cipher_suite ≡ ok mac_settings
    → mac_of layer.version (mac_settings.1) ≡ ok mac
    → mac_settings.0 * 2 + settings.0 * 2 + settings.1 * 2
      ≤ length (derive (mac_settings.0 * 2 + settings.0 * 2 + settings.1 * 2))
    → 0 < settings.1
    → ((n : ℕ) → length (random n) ≡ n)
    → IsDrawn
        (from_tls11 layer.version)
        ((calc_pending_states factory derive random cipher_suite layer).1).fixed_iv_block
        (settings.1)
unfolding calc_pending_states
calc_pending_states-IsDrawn factory derive random cipher_suite settings mac_settings mac layer known
      known_mac made enough positive sized =
    rw (known, known_mac, made, not_short)
      (new_block-IsDrawn _ layer.version (settings.1) random _ (assign_pending-version _ _ layer)
        positive (sized (settings.1)))
  where
    block : Bytes
    block = derive (mac_settings.0 * 2 + settings.0 * 2 + settings.1 * 2)

    not_short : ltb (length block) (mac_settings.0 * 2 + settings.0 * 2 + settings.1 * 2) ≡ false
    not_short = ground arith

key_update_known :
    (factory : Factory) (cipher_suite : ℕ) (secret : Bytes) (settings : CipherSettings)
    → get_cipher_settings cipher_suite ≡ ok settings
    → calc_tls13_key_update factory cipher_suite secret
      ≡ ok (
        next_secret factory cipher_suite secret,
        traffic_state factory
            ((prf_of cipher_suite).0)
            (settings.0)
            (settings.2)
            (next_secret factory cipher_suite secret),
      )
unfolding calc_tls13_key_update next_secret
key_update_known factory cipher_suite secret settings known =
    ap (updated_from factory cipher_suite secret) known

-- When one side announces new keys and the other takes them over, both get the same new secrets, and the state
-- that the first writes with is the one that the second reads with.
pub key_update_agrees :
    (factory : Factory) (cipher_suite : ℕ) (cl_secret sr_secret : Bytes) (settings : CipherSettings)
    (client server : Layer)
    → get_cipher_settings cipher_suite ≡ ok settings
    → client.client ≡ true
    → server.client ≡ false
    → ((calc_tls13_key_update_reciever factory cipher_suite cl_secret sr_secret client).0
        ≡ (calc_tls13_key_update_sender factory cipher_suite cl_secret sr_secret server).0)
      × ((calc_tls13_key_update_reciever factory cipher_suite cl_secret sr_secret
            client).1.write_state
          ≡ (calc_tls13_key_update_sender factory cipher_suite cl_secret sr_secret
              server).1.read_state)
unfolding calc_tls13_key_update_reciever calc_tls13_key_update_sender calc_tls13_key_update
key_update_agrees factory cipher_suite cl_secret sr_secret settings client server known e f =
    rw (e, f, key_update_known factory cipher_suite cl_secret settings known) (refl, refl)
