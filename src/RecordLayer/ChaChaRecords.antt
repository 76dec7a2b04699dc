-- ===== src/RecordLayer/ChaChaRecords.antt =====
-- tlslite/recordlayer.py with tlslite/utils/chacha20_poly1305.py: records of TLS 1.3 under the cipher that is
-- written in Python.
use tls_dvnizk.Base.{
  ◌+◌, ◌^◌, ◌<◌, ◌≡◌, ap, [], true, false, Option, none, length, Result, ok, err, arith,
}
use tls_dvnizk.Base.Bytes.{Bytes}
use tls_dvnizk.Ciphers.ChaCha20Poly1305.{seal, open_sealed}
use tls_dvnizk.Ciphers.Aead.{open_sealed-seal, seal_total}
use tls_dvnizk.RecordLayer.State.{
  Cipher, ConnectionState, next_seqnum, application_data, Settings, is_tls13_plus,
}
use tls_dvnizk.RecordLayer.Header.{create3}
use tls_dvnizk.RecordLayer.Protect.{encrypt_then_seal}
use tls_dvnizk.RecordLayer.Open.{decrypt_and_unseal}
use tls_dvnizk.RecordLayer.Sealing.{IsAead, decrypt_and_unseal-encrypt_then_seal}

-- What a call gives where it does not raise.
abbrev bytes_of : Result Bytes → Bytes
bytes_of (ok b) = b
bytes_of (err problem) = []

abbrev text_of : Result (Option Bytes) → Option Bytes
text_of (ok o) = o
text_of (err problem) = none

-- The object that `CHACHA20_POLY1305` makes of a key.
unfoldable pub chacha20_poly1305 : Bytes → Cipher
chacha20_poly1305 key = record {
  is_block_cipher = false;
  is_aead = true;
  is_aes = false;
  is_chacha20 = true;
  block_size = 0;
  tag_length = 16;
  nonce_length = 12;
  encrypt_after = λ past text. text;
  decrypt_after = λ past text. text;
  seal = λ nonce text aad. bytes_of (seal key nonce text aad);
  unseal = λ nonce text aad. text_of (open_sealed key nonce text aad);
  history = [];
}

pub chacha20_poly1305-IsAead : (key : Bytes) → length key ≡ 32 → IsAead (chacha20_poly1305 key)
unfolding chacha20_poly1305
chacha20_poly1305-IsAead key h = record {
  opens = λ nonce text aad size.
      let (sealed, made, long) = seal_total key nonce text aad h size in
      rw made (ap text_of ((open_sealed-seal key nonce sealed aad text h size).1 made));
  grows = λ nonce text aad size.
      let (sealed, made, long) = seal_total key nonce text aad h size in rw made long;
}

-- In TLS 1.3, under ChaCha20-Poly1305 with a key of 32 bytes and a nonce of 12, at a sequence number below 2^64, a
-- record below 2^16 bytes with its tag is sealed and opened again from the same state, with 16 bytes more on the wire,
-- and both sequence numbers go on by one.
pub chacha_record :
    (own : Settings) (key buf : Bytes) (s : ConnectionState)
    → length key ≡ 32
    → is_tls13_plus own ≡ true
    → s.seqnum < 256 ^ 8
    → length buf + 16 < 2 ^ 16
    → length s.fixed_nonce ≡ 12
    → (sealed : Bytes) × ((length sealed ≡ length buf + 16)
        × ((encrypt_then_seal own (chacha20_poly1305 key) buf application_data s
              ≡ (ok sealed, next_seqnum s))
            × (decrypt_and_unseal own
                  (chacha20_poly1305 key)
                  (create3 (3, 3) application_data (length sealed))
                  sealed
                  s
                ≡ (ok buf, next_seqnum s))))
unfolding chacha20_poly1305
chacha_record own key buf s key_size new small fits nonce_size =
    decrypt_and_unseal-encrypt_then_seal own (chacha20_poly1305 key) buf s
      (chacha20_poly1305-IsAead key key_size) new small fits (omega arith) nonce_size
