-- ===== src/RecordLayer/EncryptThenMac.antt =====
-- tlslite/recordlayer.py: records under encrypt-then-MAC, from `_encryptThenMAC` to `_macThenDecrypt`.
use native.Mathlib.Nat.{div-add-mod}
use tls_dvnizk.Base.{
  ℕ, ◌+◌, ◌*◌, ◌%◌, ◌^◌, ◌≤◌, ◌<◌, ◌≡◌, refl, ap, ◌∙◌, ◌++◌, true, ◌==◌, if◌then◌else◌, Option,
  some, length, drop, ok, arith,
}
use tls_dvnizk.Base.Bytes.{Bytes, be_bytes}
use tls_dvnizk.ConstantTime.Cbc.{Mac, before_tls13, mac_header}
use tls_dvnizk.RecordLayer.State.{
  Cipher, ConnectionState, next_seqnum, with_cipher, after_call, from_tls11, Settings,
}
use tls_dvnizk.RecordLayer.Protect.{add_fixed_block, encrypt_blocks, append_mac, encrypt_then_mac}
use tls_dvnizk.RecordLayer.Blocks.{
  padded_text, add_padding_lem, padded_length, padded_text-whole, IsDrawn, begun_with, begins,
  pad_of, rest_of, begun_with_le,
}
use tls_dvnizk.RecordLayer.Open.{strip_padding, mac_then_decrypt}
use tls_dvnizk.RecordLayer.Sealing.{get_seq_num_bytes_lem}
use tls_dvnizk.RecordLayer.Stripping.{calculate_mac_lem, check_mac_lem, strip_padding_lem}

-- What the documentation says of the two ends of a block cipher, at the histories that they have: whole
-- blocks are decrypted to what was encrypted, and keep their length.
pub record IsBlockPair (c d : Cipher) : Type 0 where
  pub same_block : d.block_size ≡ c.block_size
  pub block_positive : 0 < c.block_size
  pub decrypts :
      (text : Bytes)
      → length text % c.block_size ≡ 0
      → d.decrypt_after d.history (c.encrypt_after c.history text) ≡ text
  pub keeps_length : (text : Bytes) → length (c.encrypt_after c.history text) ≡ length text

-- The state of one end, on which the two agree but for their ciphers.
abbrev pub etm_state : Mac → Cipher → Bytes → ℕ → ConnectionState
etm_state mac c fixed_nonce seqnum = record {
  mac_context = some mac;
  enc_context = some c;
  fixed_nonce = fixed_nonce;
  seqnum = seqnum;
  encrypt_then_mac = true;
}

-- What the sender encrypts, less its padding.
abbrev with_iv : Settings → Bytes → Bytes
with_iv own buf = begun_with (from_tls11 own.version) own.fixed_iv_block buf

sent_block : Settings → Cipher → Bytes → Bytes
sent_block own c buf = c.encrypt_after c.history (padded_text c.block_size (with_iv own buf))

code_of : Settings → Mac → ℕ → ℕ → Bytes → Bytes
code_of own mac seqnum content_type text =
    mac.digest (mac_header (be_bytes 8 seqnum) content_type own.version (length text) ++ text)

encrypt_blocks_lem :
    (own : Settings) (c : Cipher) (buf : Bytes) (s : ConnectionState)
    → IsDrawn (from_tls11 own.version) own.fixed_iv_block c.block_size
    → 0 < c.block_size
    → c.block_size ≤ 256
    → encrypt_blocks own c buf s ≡ (
      ok (sent_block own c buf),
      with_cipher (after_call (padded_text c.block_size (with_iv own buf)) c) s,
    )
unfolding encrypt_blocks add_fixed_block sent_block
encrypt_blocks_lem own c buf s drawn positive bounded = rw (
  begins (from_tls11 own.version) own.fixed_iv_block c.block_size buf s drawn,
  add_padding_lem c.block_size (with_iv own buf) s positive bounded,
)

sends :
    (own : Settings) (c : Cipher) (mac : Mac) (buf fixed_nonce : Bytes) (seqnum content_type : ℕ)
    → IsDrawn (from_tls11 own.version) own.fixed_iv_block c.block_size
    → 0 < c.block_size
    → c.block_size ≤ 256
    → content_type < 256
    → before_tls13 own.version ≡ true
    → seqnum < 256 ^ 8
    → length (sent_block own c buf) < 2 ^ 16
    → (encrypt_then_mac own buf content_type (etm_state mac c fixed_nonce seqnum)).0
      ≡ ok (sent_block own c buf ++ code_of own mac seqnum content_type (sent_block own c buf))
unfolding encrypt_then_mac append_mac code_of
sends own c mac buf fixed_nonce seqnum content_type drawn positive bounded byte old small fits =
    rw
      (
        encrypt_blocks_lem own c buf (etm_state mac c fixed_nonce seqnum) drawn positive bounded,
        get_seq_num_bytes_lem
            (etm_state mac (after_call (padded_text c.block_size (with_iv own buf)) c) fixed_nonce
              seqnum)
            small,
        calculate_mac_lem own mac (be_bytes 8 seqnum) content_type (sent_block own c buf)
            (next_seqnum (
              etm_state mac (after_call (padded_text c.block_size (with_iv own buf)) c) fixed_nonce
                seqnum))
            byte old fits,
      )
      refl

-- The other end has the same version, and a fixed block of its own.
abbrev pub peer : Settings → Option Bytes → Settings
peer own fixed = record own { fixed_iv_block = fixed }

opened :
    (own : Settings) (theirs : Option Bytes) (own_block block : ℕ) (plain buf : Bytes)
    (s : ConnectionState)
    → own_block ≡ block
    → IsDrawn (from_tls11 own.version) own.fixed_iv_block block
    → plain ≡ padded_text block (with_iv own buf)
    → strip_padding
        (peer own theirs)
        (if from_tls11 own.version then drop own_block plain else plain)
        s
      ≡ (ok buf, s)
opened own theirs own_block block plain buf s same drawn e =
    ap
      (λ (k : ℕ).
        strip_padding (peer own theirs) (if from_tls11 own.version then drop k plain else plain) s)
      same
    ∙ ap (λ (t : Bytes). strip_padding (peer own theirs) t s)
        (ap (λ (t : Bytes). if from_tls11 own.version then drop block t else t) e
          ∙ rest_of (from_tls11 own.version) own.fixed_iv_block block buf drawn)
    ∙ strip_padding_lem (peer own theirs) buf (pad_of block (with_iv own buf)) s

receives :
    (own : Settings) (theirs : Option Bytes) (c d : Cipher) (mac : Mac)
    (buf fixed_nonce code : Bytes) (seqnum content_type : ℕ)
    → IsBlockPair c d
    → IsDrawn (from_tls11 own.version) own.fixed_iv_block c.block_size
    → content_type < 256
    → before_tls13 own.version ≡ true
    → seqnum < 256 ^ 8
    → length (sent_block own c buf) < 2 ^ 16
    → 0 < mac.digest_size
    → length code ≡ mac.digest_size
    → code ≡ code_of own mac seqnum content_type (sent_block own c buf)
    → (mac_then_decrypt
        (peer own theirs)
        content_type
        (sent_block own c buf ++ code)
        (etm_state mac d fixed_nonce seqnum)).0
      ≡ ok buf
unfolding mac_then_decrypt code_of sent_block
receives own theirs c d mac buf fixed_nonce code seqnum content_type pair drawn byte old small fits
      positive len right =
    rw
      (
        check_mac_lem (peer own theirs) mac content_type (sent_block own c buf) code
            (etm_state mac d fixed_nonce seqnum) byte old fits small positive len right,
        whole,
        opened own theirs d.block_size c.block_size
            (d.decrypt_after d.history (sent_block own c buf)) buf
            (next_seqnum (etm_state mac (after_call (sent_block own c buf) d) fixed_nonce seqnum))
            pair.same_block drawn
            (pair.decrypts (padded_text c.block_size (with_iv own buf))
              (padded_text-whole c.block_size (with_iv own buf) pair.block_positive)),
      )
      refl
  where
    remainder : length (sent_block own c buf) % d.block_size ≡ 0
    remainder =
        ap (λ (k : ℕ). length (sent_block own c buf) % k) pair.same_block
        ∙ ap (λ (k : ℕ). k % c.block_size)
            (pair.keeps_length (padded_text c.block_size (with_iv own buf)))
        ∙ padded_text-whole c.block_size (with_iv own buf) pair.block_positive

    whole : (length (sent_block own c buf) % d.block_size == 0) ≡ true
    whole = ground (arith, remainder)

-- Under encrypt-then-MAC, for a version from SSL 3 to TLS 1.2, a sequence number below 2^64, a content type of one
-- byte, a MAC of its positive size and a pair of ciphers of the same block size, from 1 to 256, that undo each other
-- on whole blocks and keep lengths: if from TLS 1.1 on the fixed block of the sender is drawn and has that size, the
-- record that it protects is opened by the other end, with any fixed block of its own, at the same sequence number,
-- to the same text, if that with two blocks has less than 2^16 bytes.
pub mac_then_decrypt-encrypt_then_mac :
    (own : Settings) (theirs : Option Bytes) (c d : Cipher) (mac : Mac) (buf fixed_nonce : Bytes)
    (seqnum content_type : ℕ)
    → IsBlockPair c d
    → IsDrawn (from_tls11 own.version) own.fixed_iv_block c.block_size
    → c.block_size ≤ 256
    → content_type < 256
    → before_tls13 own.version ≡ true
    → seqnum < 256 ^ 8
    → length buf + 2 * c.block_size < 2 ^ 16
    → 0 < mac.digest_size
    → ((text : Bytes) → length (mac.digest text) ≡ mac.digest_size)
    → (sealed : Bytes) × (((encrypt_then_mac own buf content_type
            (etm_state mac c fixed_nonce seqnum)).0
          ≡ ok sealed)
        × ((mac_then_decrypt
              (peer own theirs)
              content_type
              sealed
              (etm_state mac d fixed_nonce seqnum)).0
            ≡ ok buf))
unfolding code_of sent_block
mac_then_decrypt-encrypt_then_mac own theirs c d mac buf fixed_nonce seqnum content_type pair drawn
      bounded byte old small fits positive sized =
    (
      sent_block own c buf ++ code_of own mac seqnum content_type (sent_block own c buf),
      (
        sends own c mac buf fixed_nonce seqnum content_type drawn pair.block_positive bounded byte
            old small within,
        receives own theirs c d mac buf fixed_nonce
            (code_of own mac seqnum content_type (sent_block own c buf)) seqnum content_type pair
            drawn byte old small within positive
            (sized (
              mac_header (be_bytes 8 seqnum) content_type own.version
                (length (sent_block own c buf))
              ++ sent_block own c buf))
            refl,
      ),
    )
  where
    within : length (sent_block own c buf) < 2 ^ 16
    within = omega (
      arith,
      pair.keeps_length (padded_text c.block_size (with_iv own buf)),
      padded_length c.block_size (with_iv own buf) pair.block_positive,
      div-add-mod (length (with_iv own buf)) c.block_size,
      begun_with_le (from_tls11 own.version) own.fixed_iv_block c.block_size buf drawn,
    )
