-- ===== src/RecordLayer/ChaChaTests.antt =====
-- The witness of the record under the cipher written in Python.
use tls_dvnizk.Base.{◌≡◌, refl, [], ◌∷◌, true, length, ok, arith, replicate, none}
use tls_dvnizk.Base.Bytes.{Bytes}
use tls_dvnizk.RecordLayer.State.{
  ConnectionState, new_state, next_seqnum, application_data, Settings, is_tls13_plus,
}
use tls_dvnizk.RecordLayer.Header.{create3}
use tls_dvnizk.RecordLayer.Protect.{encrypt_then_seal}
use tls_dvnizk.RecordLayer.Open.{decrypt_and_unseal}
use tls_dvnizk.RecordLayer.ChaChaRecords.{chacha20_poly1305, chacha_record}

abbrev tls13 : Settings
tls13 = record { version = (3, 4); tls13record = true; fixed_iv_block = none }

abbrev key : Bytes
key = replicate 32 7

abbrev state : ConnectionState
state = record new_state { fixed_nonce = replicate 12 3; seqnum = 5 }

is_new : is_tls13_plus tls13 ≡ true
unfolding is_tls13_plus
is_new = refl

chacha_record_example :
    (sealed : Bytes) × ((length sealed ≡ 18)
      × ((encrypt_then_seal tls13 (chacha20_poly1305 key) (104 ∷ 105 ∷ []) application_data state
            ≡ (ok sealed, next_seqnum state))
          × (decrypt_and_unseal tls13
                (chacha20_poly1305 key)
                (create3 (3, 3) application_data (length sealed))
                sealed
                state
              ≡ (ok (104 ∷ 105 ∷ []), next_seqnum state))))
chacha_record_example =
    chacha_record tls13 key (104 ∷ 105 ∷ []) state (omega arith) is_new (omega arith) (omega arith)
      (omega arith)
