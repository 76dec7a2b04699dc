-- ===== src/RecordLayer/Tests.antt =====
-- The record layer at concrete inputs, with a toy cipher that adds a tag of one byte.
use tls_dvnizk.Base.{
  ℕ, ◌-◌, ◌^◌, ◌≤◌, ◌≡◌, refl, ap, ◌∙◌, [], ◌∷◌, ◌++◌, Bool, true, false, Option, some, length,
  length-append, take, take-append, replicate, ok, arith, none,
}
use tls_dvnizk.Base.Bytes.{Bytes}
use tls_dvnizk.RecordLayer.State.{
  Cipher, ConnectionState, new_state, next_seqnum, application_data, Settings, is_tls13_plus,
}
use tls_dvnizk.RecordLayer.Header.{Header, create3}
use tls_dvnizk.RecordLayer.Protect.{encrypt_then_seal, inner_plaintext}
use tls_dvnizk.RecordLayer.Open.{decrypt_and_unseal, tls13_de_pad, decrypt_stream_then_mac}
use tls_dvnizk.RecordLayer.Sealing.{
  IsAead, decrypt_and_unseal-encrypt_then_seal, decrypt_and_unseal-encrypt_then_seal_aes,
}
use tls_dvnizk.RecordLayer.Padding.{tls13_de_pad-inner_plaintext}
use tls_dvnizk.RecordLayer.Receive.{
  Reader, Limits, recv_record, recv_step, unprotect, retyped, finish_record, within_limit,
  open_record, accepted,
}
use tls_dvnizk.RecordLayer.Limits.{recv_record_within}
use tls_dvnizk.RecordLayer.Keys.{
  is_in, choose, get_cipher_settings, get_mac_settings, get_hmac_method, aes, sha1, hmac, Factory,
  Layer,
}
use tls_dvnizk.RecordLayer.Pending.{mac_of, calc_pending_states}
use tls_dvnizk.RecordLayer.Mirror.{Mirrors, calc_pending_states-Mirrors}
use tls_dvnizk.RecordLayer.SuiteSettings.{cipher_suites, left_out, FitsTogether, suite_settings_fit}

abbrev toy : Cipher
toy = record {
  is_block_cipher = false;
  is_aead = true;
  is_aes = true;
  is_chacha20 = false;
  block_size = 16;
  tag_length = 1;
  nonce_length = 12;
  encrypt_after = λ past text. text;
  decrypt_after = λ past text. text;
  seal = λ nonce text aad. text ++ (7 ∷ []);
  unseal = λ nonce text aad. some (take (length text - 1) text);
  history = [];
}

one_less : (text : Bytes) → length (text ++ (7 ∷ [])) - 1 ≡ length text
one_less text = omega (arith, length-append text (7 ∷ []))

toy-IsAead : IsAead toy
toy-IsAead = record {
  opens = λ nonce text aad size.
      ap (λ (n : ℕ). let o : Option Bytes = some (take n (text ++ (7 ∷ []))) in o) (one_less text)
      ∙ ap (λ (t : Bytes). let o : Option Bytes = some t in o) (take-append text (7 ∷ []));
  grows = λ nonce text aad size. omega (arith, length-append text (7 ∷ []));
}

abbrev tls13 : Settings
tls13 = record { version = (3, 4); tls13record = true; fixed_iv_block = none }

abbrev tls12 : Settings
tls12 = record { version = (3, 3); tls13record = false; fixed_iv_block = none }

abbrev long_nonce : Bytes
long_nonce = 1 ∷ 2 ∷ 3 ∷ 4 ∷ 5 ∷ 6 ∷ 7 ∷ 8 ∷ 9 ∷ 10 ∷ 11 ∷ 12 ∷ []

abbrev state13 : ConnectionState
state13 = record new_state { enc_context = some toy; fixed_nonce = long_nonce; seqnum = 5 }

abbrev state12 : ConnectionState
state12 = record new_state { enc_context = some toy; fixed_nonce = 1 ∷ 2 ∷ 3 ∷ 4 ∷ []; seqnum = 5 }

abbrev hello : Bytes
hello = 104 ∷ 105 ∷ []

is_new : is_tls13_plus tls13 ≡ true
unfolding is_tls13_plus
is_new = refl

is_old : is_tls13_plus tls12 ≡ false
unfolding is_tls13_plus
is_old = refl

decrypt_and_unseal-encrypt_then_seal_example :
    (sealed : Bytes) × ((length sealed ≡ 3)
      × ((encrypt_then_seal tls13 toy hello application_data state13
            ≡ (ok sealed, next_seqnum state13))
          × (decrypt_and_unseal tls13 toy
                (create3 (3, 3) application_data (length sealed))
                sealed
                state13
              ≡ (ok hello, next_seqnum state13))))
decrypt_and_unseal-encrypt_then_seal_example =
    decrypt_and_unseal-encrypt_then_seal tls13 toy hello state13 toy-IsAead is_new (omega arith)
      (omega arith) (omega arith) refl

decrypt_and_unseal-encrypt_then_seal_aes_example :
    (sealed : Bytes) × ((length sealed ≡ 11)
      × ((encrypt_then_seal tls12 toy hello 22 state12 ≡ (ok sealed, next_seqnum state12))
          × (decrypt_and_unseal tls12 toy (create3 (3, 3) 22 (length sealed)) sealed state12
              ≡ (ok hello, next_seqnum state12))))
decrypt_and_unseal-encrypt_then_seal_aes_example =
    decrypt_and_unseal-encrypt_then_seal_aes tls12 toy hello 22 state12 toy-IsAead is_old refl refl
      (omega arith) (omega arith) (omega arith) refl

tls13_de_pad-inner_plaintext_example :
    tls13_de_pad (inner_plaintext (some (λ len type limit. 3)) 100 hello 22) ≡ ok (hello, 22)
tls13_de_pad-inner_plaintext_example =
    tls13_de_pad-inner_plaintext (some (λ len type limit. 3)) 100 hello 22 (omega arith)

abbrev limits : Limits
limits = record {
  own = tls12;
  handshake_finished = true;
  max_early_data = 0;
  recv_record_limit = 2 ^ 14;
}

abbrev reader : Reader
reader = record { read_state = new_state; early_data_ok = true; early_data_processed = 0 }

abbrev taken : Reader
taken = record { read_state = new_state; early_data_ok = false; early_data_processed = 0 }

abbrev plain : Header
plain = record {
  type = 22;
  version = (3, 3);
  len = 2;
  ssl2 = false;
  padding = 0;
  security_escape = false;
}

abbrev layer_of : Bool → Layer
layer_of client = record {
  version = (3, 3);
  client = client;
  write_state = new_state;
  read_state = new_state;
  pending_write_state = new_state;
  pending_read_state = new_state;
  fixed_iv_block = none;
}

abbrev factory : Factory
factory = record {
  create_cipher = λ method key iv. some toy;
  create_mac =
      λ method digest key. record { digest = λ text. key; digest_size = 20; block_size = 64 };
  expand_label = λ secret label len prf. secret;
}

takes_plain : recv_record limits ((plain, hello) ∷ []) reader ≡ (ok (some (plain, hello)), taken)
unfolding recv_record recv_step unprotect retyped finish_record within_limit open_record
    decrypt_stream_then_mac accepted is_tls13_plus
takes_plain = refl

recv_record_within_example : (2 ≤ 2 ^ 14) × ((false ≡ false) × (taken.early_data_processed ≡ 0))
recv_record_within_example =
    recv_record_within limits ((plain, hello) ∷ []) reader plain hello taken takes_plain

cbc_cipher : get_cipher_settings 47 ≡ ok (16, 16, aes)
unfolding get_cipher_settings choose is_in
cbc_cipher = refl

cbc_mac : get_mac_settings 47 ≡ ok (20, some sha1)
unfolding get_mac_settings choose is_in
cbc_mac = refl

cbc_made : mac_of (3, 3) (some sha1) ≡ ok (some (hmac, sha1))
unfolding mac_of get_hmac_method
cbc_made = refl

calc_pending_states_example :
    Mirrors
      ((calc_pending_states factory (λ n. replicate n 9) (λ n. replicate n 1) 47 (layer_of true)).1)
      ((calc_pending_states factory
        (λ n. replicate n 9)
        (λ n. replicate n 2)
        47
        (layer_of false)).1)
calc_pending_states_example =
    calc_pending_states-Mirrors factory (λ n. replicate n 9) (λ n. replicate n 1)
      (λ n. replicate n 2) 47 (16, 16, aes) (20, some sha1) (some (hmac, sha1)) (layer_of true)
      (layer_of false) cbc_cipher cbc_mac cbc_made (omega arith) refl refl refl refl refl

-- TLS_ECDHE_ECDSA_WITH_CHACHA20_POLY1305_draft_00
draft_suite_is_in : is_in 52386 cipher_suites ≡ true
unfolding is_in
draft_suite_is_in = refl

draft_suite_is_kept : is_in 52386 left_out ≡ false
unfolding is_in
draft_suite_is_kept = refl

suite_settings_fit_example : FitsTogether (get_cipher_settings 52386) (get_mac_settings 52386)
suite_settings_fit_example = suite_settings_fit 52386 draft_suite_is_in draft_suite_is_kept
