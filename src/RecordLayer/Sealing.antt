-- ===== src/RecordLayer/Sealing.antt =====
-- tlslite/recordlayer.py: records under a cipher with associated data, from `_encryptThenSeal` to
-- `_decryptAndUnseal`.
use tls_dvnizk.Base.{
  ℕ, suc, ◌+◌, ◌-◌, ◌/◌, ◌%◌, ◌^◌, ◌≤◌, ◌<◌, ◌≡◌, refl, ap, [], ◌∷◌, ◌++◌, true, false, some,
  length, length-append, length-replicate, replicate, take_by, drop_by, Result, ok, arith,
}
use tls_dvnizk.Base.Bytes.{Bytes, be_bytes, length-be_bytes}
use tls_dvnizk.Codec.Writer.{Writer, empty_writer}
use tls_dvnizk.Codec.Writing.{add-Fits}
use tls_dvnizk.Ciphers.Stream.{xor_bytes}
use tls_dvnizk.RecordLayer.State.{
  Cipher, ConnectionState, get_seq_num_bytes, counted, next_seqnum, application_data, Settings,
  is_tls13_plus, handle_tls13_record,
}
use tls_dvnizk.RecordLayer.Header.{Header, create3}
use tls_dvnizk.RecordLayer.Headers.{write3_lem, header_bytes_lem}
use tls_dvnizk.RecordLayer.Protect.{get_nonce, auth_data, encrypt_then_seal}
use tls_dvnizk.RecordLayer.Open.{decrypt_and_unseal, nonce_and_rest, opening_data, write_header}

-- What the documentation of a cipher with associated data says: under a nonce of its
-- length, what it seals, it opens, and a tag is added.
pub record IsAead (c : Cipher) : Type 0 where
  pub opens :
      (nonce text aad : Bytes)
      → length nonce ≡ c.nonce_length
      → c.unseal nonce (c.seal nonce text aad) aad ≡ some text
  pub grows :
      (nonce text aad : Bytes)
      → length nonce ≡ c.nonce_length
      → length (c.seal nonce text aad) ≡ length text + c.tag_length

pub get_seq_num_bytes_lem :
    (s : ConnectionState)
    → s.seqnum < 256 ^ 8
    → get_seq_num_bytes s ≡ (ok (be_bytes 8 s.seqnum), next_seqnum s)
unfolding get_seq_num_bytes
get_seq_num_bytes_lem s h =
    ap (λ (r : Result (Unit {0}) × Writer). counted r s) (add-Fits s.seqnum 8 empty_writer h)

pub length-xor_bytes :
    (xs ys : Bytes) → length xs ≡ length ys → length (xor_bytes xs ys) ≡ length ys
unfolding xor_bytes
length-xor_bytes [] [] h = refl
length-xor_bytes [] (y ∷ ys) h = absurd (omega arith)
length-xor_bytes (x ∷ xs) [] h = refl
length-xor_bytes (x ∷ xs) (y ∷ ys) h = ap suc (length-xor_bytes xs ys (omega arith))

-- The nonce of TLS 1.3.
unfoldable pub tls13_nonce : Bytes → Bytes → Bytes
tls13_nonce fixed_nonce seqnum =
    xor_bytes (replicate (length fixed_nonce - length seqnum) 0 ++ seqnum) fixed_nonce

length-tls13_nonce :
    (fixed_nonce seqnum : Bytes)
    → length seqnum ≤ length fixed_nonce
    → length (tls13_nonce fixed_nonce seqnum) ≡ length fixed_nonce
unfolding tls13_nonce
length-tls13_nonce fixed_nonce seqnum h =
    length-xor_bytes (replicate (length fixed_nonce - length seqnum) 0 ++ seqnum) fixed_nonce (
      omega (
        arith,
        length-append (replicate (length fixed_nonce - length seqnum) 0) seqnum,
        length-replicate {A = ℕ} (length fixed_nonce - length seqnum) 0,
      ))

get_nonce_tls13 :
    (own : Settings) (c : Cipher) (fixed_nonce seqnum : Bytes) (s : ConnectionState)
    → is_tls13_plus own ≡ true
    → length seqnum ≤ length fixed_nonce
    → get_nonce own c fixed_nonce seqnum s ≡ (ok (tls13_nonce fixed_nonce seqnum), s)
unfolding get_nonce tls13_nonce
get_nonce_tls13 own c fixed_nonce seqnum s new long = ground arith

seal_tls13 :
    (own : Settings) (c : Cipher) (buf : Bytes) (content_type : ℕ) (s : ConnectionState)
    → is_tls13_plus own ≡ true
    → s.seqnum < 256 ^ 8
    → content_type < 256
    → length buf + c.tag_length < 2 ^ 16
    → 8 ≤ length s.fixed_nonce
    → length s.fixed_nonce ≡ c.nonce_length
    → encrypt_then_seal own c buf content_type s ≡ (
      ok (
          c.seal
            (tls13_nonce s.fixed_nonce (be_bytes 8 s.seqnum))
            buf
            (auth_data own (be_bytes 8 s.seqnum) content_type (length buf) c)),
      next_seqnum s,
    )
unfolding encrypt_then_seal
seal_tls13 own c buf content_type s new small byte fits long nonce =
    rw (get_seq_num_bytes_lem s small, new) ground
      (
        arith,
        get_nonce_tls13 own c s.fixed_nonce (be_bytes 8 s.seqnum) (next_seqnum s) new,
        length-be_bytes 8 s.seqnum,
        length-tls13_nonce s.fixed_nonce (be_bytes 8 s.seqnum),
      )

-- The header of the record on the wire.
abbrev pub sealed_header : Settings → ℕ → Bytes → Header
sealed_header own content_type sealed =
    create3 (handle_tls13_record own) content_type (length sealed)

-- In TLS 1.3 the authenticated data is the header.
opening_data_tls13 :
    (own : Settings) (c : Cipher) (seqnum_bytes buf sealed : Bytes) (s : ConnectionState)
    → is_tls13_plus own ≡ true
    → length sealed ≡ length buf + c.tag_length
    → length sealed < 2 ^ 16
    → opening_data own c (create3 (3, 3) application_data (length sealed)) seqnum_bytes sealed s
      ≡ (ok (auth_data own seqnum_bytes application_data (length buf) c), s)
unfolding opening_data auth_data handle_tls13_record write_header create3
opening_data_tls13 own c seqnum_bytes buf sealed s new grown fits = ground (
  arith,
  write3_lem application_data 3 3 (length sealed) empty_writer,
  header_bytes_lem application_data 3 3 (length sealed),
)

opens_tls13 :
    (own : Settings) (c : Cipher) (buf nonce aad : Bytes) (s : ConnectionState)
    → IsAead c
    → is_tls13_plus own ≡ true
    → s.seqnum < 256 ^ 8
    → length buf + c.tag_length < 2 ^ 16
    → 8 ≤ length s.fixed_nonce
    → length nonce ≡ c.nonce_length
    → nonce ≡ tls13_nonce s.fixed_nonce (be_bytes 8 s.seqnum)
    → aad ≡ auth_data own (be_bytes 8 s.seqnum) application_data (length buf) c
    → decrypt_and_unseal own c
        (create3 (3, 3) application_data (length (c.seal nonce buf aad)))
        (c.seal nonce buf aad)
        s
      ≡ (ok buf, next_seqnum s)
unfolding decrypt_and_unseal nonce_and_rest
opens_tls13 own c buf nonce aad s aead new small fits long sized e f =
    rw (get_seq_num_bytes_lem s small, new) ground
      (
        arith,
        get_nonce_tls13 own c s.fixed_nonce (be_bytes 8 s.seqnum) (next_seqnum s) new,
        length-be_bytes 8 s.seqnum,
        aead.grows nonce buf aad sized,
        aead.opens nonce buf aad sized,
        opening_data_tls13 own c (be_bytes 8 s.seqnum) buf (c.seal nonce buf aad) (next_seqnum s)
            new,
      )

-- In TLS 1.3, with a lawful cipher, a nonce of its length and at least 8 bytes and a sequence number below 2^64, a
-- record of application data below 2^16 bytes with its tag is sealed and opened again from the same state, and both
-- sequence numbers go on by one.
pub decrypt_and_unseal-encrypt_then_seal :
    (own : Settings) (c : Cipher) (buf : Bytes) (s : ConnectionState)
    → IsAead c
    → is_tls13_plus own ≡ true
    → s.seqnum < 256 ^ 8
    → length buf + c.tag_length < 2 ^ 16
    → 8 ≤ length s.fixed_nonce
    → length s.fixed_nonce ≡ c.nonce_length
    → (sealed : Bytes) × ((length sealed ≡ length buf + c.tag_length)
        × ((encrypt_then_seal own c buf application_data s ≡ (ok sealed, next_seqnum s))
            × (decrypt_and_unseal own c (create3 (3, 3) application_data (length sealed)) sealed s
                ≡ (ok buf, next_seqnum s))))
decrypt_and_unseal-encrypt_then_seal own c buf s aead new small fits long nonce = (
  c.seal (tls13_nonce s.fixed_nonce (be_bytes 8 s.seqnum)) buf
      (auth_data own (be_bytes 8 s.seqnum) application_data (length buf) c),
  (
    aead.grows (tls13_nonce s.fixed_nonce (be_bytes 8 s.seqnum)) buf
        (auth_data own (be_bytes 8 s.seqnum) application_data (length buf) c) sized,
    (
      seal_tls13 own c buf application_data s new small (omega arith) fits long nonce,
      opens_tls13 own c buf (tls13_nonce s.fixed_nonce (be_bytes 8 s.seqnum))
          (auth_data own (be_bytes 8 s.seqnum) application_data (length buf) c) s aead new small
          fits long sized refl refl,
    ),
  ),
)
  where
    sized : length (tls13_nonce s.fixed_nonce (be_bytes 8 s.seqnum)) ≡ c.nonce_length
    sized = omega (
      arith,
      length-tls13_nonce s.fixed_nonce (be_bytes 8 s.seqnum),
      length-be_bytes 8 s.seqnum,
      nonce,
      long,
    )

minus_tag : (n m tag : ℕ) → n ≡ m + tag → n - tag ≡ m
minus_tag n m tag e = omega arith

-- Before TLS 1.3, with a lawful AES cipher whose nonce has the fixed part and 8 bytes, at a sequence number below
-- 2^64, a record of any type of one byte and of less than 2^16 bytes is sealed and opened again from the same state,
-- and both sequence numbers go on by one.
pub decrypt_and_unseal-encrypt_then_seal_aes :
    (own : Settings) (c : Cipher) (buf : Bytes) (content_type : ℕ) (s : ConnectionState)
    → IsAead c
    → is_tls13_plus own ≡ false
    → c.is_aes ≡ true
    → c.is_chacha20 ≡ false
    → content_type < 256
    → s.seqnum < 256 ^ 8
    → length buf < 2 ^ 16
    → length s.fixed_nonce + 8 ≡ c.nonce_length
    → (sealed : Bytes) × ((length sealed ≡ 8 + length buf + c.tag_length)
        × ((encrypt_then_seal own c buf content_type s ≡ (ok sealed, next_seqnum s))
            × (decrypt_and_unseal own c (create3 own.version content_type (length sealed)) sealed s
                ≡ (ok buf, next_seqnum s))))
unfolding encrypt_then_seal decrypt_and_unseal nonce_and_rest get_nonce opening_data auth_data
    create3
decrypt_and_unseal-encrypt_then_seal_aes own c buf content_type s aead old aes plain byte small fits
      nonce =
    let seqnum = be_bytes 8 s.seqnum in
    let aad =
      seqnum
      ++ (content_type
          ∷ own.version.0
          ∷ own.version.1
          ∷ length buf / 256
          ∷ length buf % 256
          ∷ []) in
    let sized : length (s.fixed_nonce ++ seqnum) ≡ c.nonce_length =
      omega (arith, length-append s.fixed_nonce seqnum, length-be_bytes 8 s.seqnum, nonce) in
    let inner = c.seal (s.fixed_nonce ++ seqnum) buf aad in
    (
      seqnum ++ inner,
      (
        omega (
          arith,
          length-append seqnum inner,
          length-be_bytes 8 s.seqnum,
          aead.grows (s.fixed_nonce ++ seqnum) buf aad sized,
        ),
        (
          rw (get_seq_num_bytes_lem s small, old, aes, plain) ground
              (arith, length-append s.fixed_nonce seqnum, length-be_bytes 8 s.seqnum),
          rw (get_seq_num_bytes_lem s small, old, aes) ground
              (
                arith,
                take_by 8 seqnum inner (length-be_bytes 8 s.seqnum),
                drop_by 8 seqnum inner (length-be_bytes 8 s.seqnum),
                length-append seqnum inner,
                length-be_bytes 8 s.seqnum,
                aead.grows (s.fixed_nonce ++ seqnum) buf aad sized,
                minus_tag (length inner) (length buf) c.tag_length
                    (aead.grows (s.fixed_nonce ++ seqnum) buf aad sized),
                aead.opens (s.fixed_nonce ++ seqnum) buf aad sized,
              ),
        ),
      ),
    )
