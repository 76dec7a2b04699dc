-- ===== src/Ciphers/ChaCha20Poly1305.antt =====
-- tlslite/utils/chacha20_poly1305.py: the AEAD of ChaCha20 and Poly1305.
use tls_dvnizk.Base.{
  ◌-◌, ◌%◌, [], ◌++◌, not, ltb, ◌==◌, if◌then◌else◌, length, take, drop, replicate, Option, none,
  some, Result, ok, value_error,
}
use tls_dvnizk.Base.Bytes.{Bytes, le_bytes}
use tls_dvnizk.Base.Fallible.{◌>>=◌, ◌>>◌, fail_if}
use tls_dvnizk.ConstantTime.Cbc.{ct_compare_digest}
use tls_dvnizk.Ciphers.ChaCha.{new_chacha, encrypt, decrypt}
use tls_dvnizk.Ciphers.Poly1305.{new_poly1305, create_tag}

unfoldable pub poly1305_key_gen : Bytes → Bytes → Result Bytes
poly1305_key_gen key nonce = do poly ← new_chacha key nonce 0; ok (encrypt poly (replicate 32 0))

unfoldable pub pad16 : Bytes → Bytes
pad16 payload = if length payload % 16 == 0 then [] else replicate (16 - length payload % 16) 0

-- What is authenticated: the data, the ciphertext, both padded, and their lengths in 8 bytes, which they fit.
unfoldable pub mac_input : Bytes → Bytes → Bytes
mac_input payload ciphertext =
    (payload ++ pad16 payload)
    ++ ((ciphertext ++ pad16 ciphertext)
        ++ (le_bytes 8 (length payload) ++ le_bytes 8 (length ciphertext)))

-- The tag under a key of its own.
unfoldable pub tag_of : Bytes → Bytes → Bytes → Result Bytes
tag_of otk payload ciphertext = do
  poly ← new_poly1305 otk
  ok (create_tag poly (mac_input payload ciphertext))

unfoldable pub seal : Bytes → Bytes → Bytes → Bytes → Result Bytes
seal key nonce plaintext payload = do
  fail_if (not (length nonce == 12)) value_error
  otk ← poly1305_key_gen key nonce
  chacha ← new_chacha key nonce 1
  let ciphertext = encrypt chacha plaintext
  tag ← tag_of otk payload ciphertext
  ok (ciphertext ++ tag)

unfoldable pub open_sealed : Bytes → Bytes → Bytes → Bytes → Result (Option Bytes)
open_sealed key nonce sealed payload =
    fail_if (not (length nonce == 12)) value_error
    >> (if ltb (length sealed) 16
        then ok none
        else (poly1305_key_gen key nonce >>= λ otk.
            let expected_tag = drop (length sealed - 16) sealed in
            let ciphertext = take (length sealed - 16) sealed in
            tag_of otk payload ciphertext >>= λ tag.
            if not (ct_compare_digest tag expected_tag)
            then ok none
            else (new_chacha key nonce 1 >>= λ chacha. ok (some (decrypt chacha ciphertext)))))
