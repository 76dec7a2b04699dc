-- ===== src/RecordLayer/MacTests.antt =====
-- A record under encrypt-then-MAC at a concrete input, with a toy block cipher and a checksum.
use tls_dvnizk.Base.{◌≡◌, refl, [], ◌∷◌, true, false, none, some, ok, arith}
use tls_dvnizk.Base.Bytes.{Bytes}
use tls_dvnizk.ConstantTime.Cbc.{Mac}
use tls_dvnizk.RecordLayer.State.{Cipher, Settings}
use tls_dvnizk.RecordLayer.Protect.{encrypt_then_mac}
use tls_dvnizk.RecordLayer.Open.{mac_then_decrypt}
use tls_dvnizk.RecordLayer.EncryptThenMac.{
  etm_state, peer, IsBlockPair, mac_then_decrypt-encrypt_then_mac,
}

abbrev blocks : Cipher
blocks = record {
  is_block_cipher = true;
  is_aead = false;
  is_aes = true;
  is_chacha20 = false;
  block_size = 4;
  tag_length = 0;
  nonce_length = 0;
  encrypt_after = λ past text. text;
  decrypt_after = λ past text. text;
  seal = λ nonce text aad. text;
  unseal = λ nonce text aad. none;
  history = [];
}

blocks-IsBlockPair : IsBlockPair blocks blocks
blocks-IsBlockPair = record {
  same_block = refl;
  block_positive = omega arith;
  decrypts = λ text e. refl;
  keeps_length = λ text. refl;
}

abbrev constant : Mac
constant = record { digest = λ text. 9 ∷ 9 ∷ []; digest_size = 2; block_size = 64 }

abbrev tls11 : Settings
tls11 = record { version = (3, 2); tls13record = false; fixed_iv_block = some (1 ∷ 2 ∷ 3 ∷ 4 ∷ []) }

abbrev three : Bytes
three = 5 ∷ 6 ∷ 7 ∷ []

mac_then_decrypt-encrypt_then_mac_example :
    (sealed : Bytes) × (((encrypt_then_mac tls11 three 23 (etm_state constant blocks [] 8)).0
        ≡ ok sealed)
      × ((mac_then_decrypt (peer tls11 none) 23 sealed (etm_state constant blocks [] 8)).0
          ≡ ok three))
mac_then_decrypt-encrypt_then_mac_example =
    mac_then_decrypt-encrypt_then_mac tls11 none blocks blocks constant three [] 8 23
      blocks-IsBlockPair refl (omega arith) (omega arith) refl (omega arith) (omega arith)
      (omega arith) (λ text. refl)
