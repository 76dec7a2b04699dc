-- ===== src/RecordLayer/Open.antt =====
-- tlslite/recordlayer.py: the methods of `RecordLayer` that take the protection off a received record. They
-- run on the read state.
use tls_dvnizk.Base.{
  ℕ, ◌+◌, ◌-◌, ◌/◌, ◌%◌, ◌^◌, [], ◌∷◌, ◌++◌, Bool, true, ◌&&◌, ◌||◌, not, ltb, leb, ◌==◌,
  if◌then◌else◌, Option, none, some, length, take, drop, Method, pure, raise, raise_if, gets, ◌>>=◌,
  ◌>>◌, Result, ok, err, assertion_error, bad_record_mac, decryption_failed, unexpected_message,
  illegal_parameter, value_error,
}
use tls_dvnizk.Base.Bytes.{Bytes, byte_at, same_bytes}
use tls_dvnizk.Codec.Writer.{Writer, empty_writer}
use tls_dvnizk.ConstantTime.Cbc.{
  Mac, is_ssl3, same_version, before_tls13, ct_compare_digest, ct_check_cbc_mac_and_pad,
}
use tls_dvnizk.RecordLayer.State.{
  Cipher, ConnectionState, get_seq_num_bytes, decrypt, application_data, from_tls11, Settings,
  is_tls13_plus,
}
use tls_dvnizk.RecordLayer.Header.{Header, write3}
use tls_dvnizk.RecordLayer.Protect.{calculate_mac, get_nonce, last_four}

-- `xs[:-n]`
abbrev pub without_last : ℕ → Bytes → Bytes
without_last n xs = if n == 0 then [] else take (length xs - n) xs

-- `xs[-n:]`
abbrev pub last_bytes : ℕ → Bytes → Bytes
last_bytes n xs = if n == 0 then xs else drop (length xs - n) xs

-- The MAC at the end is checked and taken off.
unfoldable pub check_mac : Settings → Mac → ℕ → Bytes → Method ConnectionState Bytes
check_mac own mac record_type text = do
  raise_if (ltb (length text) mac.digest_size) bad_record_mac
  let check_bytes = last_bytes mac.digest_size text
  let rest = without_last mac.digest_size text
  seqnum_bytes ← get_seq_num_bytes
  mac_bytes ← calculate_mac own mac seqnum_bytes record_type rest
  raise_if (not (ct_compare_digest mac_bytes check_bytes)) bad_record_mac
  pure rest

unfoldable pub decrypt_stream_then_mac : Settings → ℕ → Bytes → Method ConnectionState Bytes
decrypt_stream_then_mac own record_type text = do
  cipher ← gets (λ s. s.enc_context)
  plain ← elim cipher [
    | none ↦ pure text
    | some c ↦ raise_if (not (before_tls13 own.version)) assertion_error >> decrypt c text
  ]
  context ← gets (λ s. s.mac_context)
  elim context [ none ↦ pure plain | some mac ↦ check_mac own mac record_type plain ]

-- The exception of the check itself is passed on.
unfoldable pub checked : Result Bool → Method ConnectionState (Unit {0})
checked (ok good) = raise_if (not good) bad_record_mac
checked (err problem) = raise problem

unfoldable pub decrypt_block_then_mac :
    Settings → ℕ → Cipher → Mac → Bytes → Method ConnectionState Bytes
decrypt_block_then_mac own record_type c mac text = do
  raise_if (not (length text % c.block_size == 0)) decryption_failed
  plain ← decrypt c text
  let rest = if from_tls11 own.version then drop c.block_size plain else plain
  seqnum_bytes ← get_seq_num_bytes
  checked (ct_check_cbc_mac_and_pad rest mac seqnum_bytes record_type own.version c.block_size)
  pure (without_last (byte_at (length rest - 1) rest + 1 + mac.digest_size) rest)

unfoldable pub decrypt_then_mac : Settings → ℕ → Bytes → Method ConnectionState Bytes
decrypt_then_mac own record_type text = do
  cipher ← gets (λ s. s.enc_context)
  context ← gets (λ s. s.mac_context)
  elim cipher [
    | none ↦ pure text
    | some c ↦
        raise_if (not (before_tls13 own.version)) assertion_error
        >> raise_if (not c.is_block_cipher) assertion_error
        >> elim context [
          | none ↦ raise assertion_error
          | some mac ↦ decrypt_block_then_mac own record_type c mac text
        ]
  ]

-- Whether all bytes are the same as the given one.
unfoldable pub all_are : ℕ → Bytes → Bool
all_are value [] = true
all_are value (b ∷ bs) = all_are value bs && (b == value)

-- The padding is checked and taken off.
unfoldable pub strip_padding : Settings → Bytes → Method ConnectionState Bytes
strip_padding own buf = do
  raise_if (length buf == 0) bad_record_mac
  let padding_length = byte_at (length buf - 1) buf
  raise_if (ltb (length buf) (padding_length + 1)) bad_record_mac
  let padding_bytes = take padding_length (last_bytes (padding_length + 1) buf)
  raise_if (not (is_ssl3 own.version) && not (all_are padding_length padding_bytes)) bad_record_mac
  pure (without_last (padding_length + 1) buf)

unfoldable pub mac_then_decrypt : Settings → ℕ → Bytes → Method ConnectionState Bytes
mac_then_decrypt own record_type buf = do
  context ← gets (λ s. s.mac_context)
  verified ← elim context [ none ↦ pure buf | some mac ↦ check_mac own mac record_type buf ]
  cipher ← gets (λ s. s.enc_context)
  elim cipher [
    | none ↦ pure verified
    | some c ↦
        raise_if (not (length verified % c.block_size == 0)) decryption_failed
        >> (decrypt c verified >>= λ plain.
            strip_padding own (if from_tls11 own.version then drop c.block_size plain else plain))
  ]

-- The nonce and what remains of the record.
unfoldable pub nonce_and_rest :
    Settings → Cipher → Bytes → Bytes → Method ConnectionState (Bytes × Bytes)
nonce_and_rest own c seqnum_bytes buf = do
  fixed_nonce ← gets (λ s. s.fixed_nonce)
  if c.is_aes && not (is_tls13_plus own)
      then (raise_if (ltb (length buf) 8) bad_record_mac
          >> pure (fixed_nonce ++ take 8 buf, drop 8 buf))
      else (get_nonce own c fixed_nonce seqnum_bytes >>= λ nonce. pure (nonce, buf))

abbrev pub written : Result (Unit {0}) × Writer → ConnectionState → Result Bytes × ConnectionState
written (ok nothing, writer) s = (ok writer.buffer, s)
written (err problem, writer) s = (err problem, s)

-- `header.write()`
unfoldable pub write_header : Header → Method ConnectionState Bytes
write_header header s = written (write3 header empty_writer) s

unfoldable pub opening_data :
    Settings → Cipher → Header → Bytes → Bytes → Method ConnectionState Bytes
opening_data own c header seqnum_bytes buf =
    if not (is_tls13_plus own)
    then (let plaintext_len = length buf - c.tag_length in
        raise_if (leb 256 header.type || leb (2 ^ 16) plaintext_len) value_error
        >> pure (
            seqnum_bytes
            ++ (header.type
                ∷ own.version.0
                ∷ own.version.1
                ∷ plaintext_len / 256
                ∷ plaintext_len % 256
                ∷ [])))
    else (raise_if (not (header.type == application_data)) unexpected_message
        >> raise_if (not (same_version header.version (3, 3))) illegal_parameter
        >> raise_if (not (header.len == length buf)) bad_record_mac
        >> write_header header)

unfoldable pub decrypt_and_unseal :
    Settings → Cipher → Header → Bytes → Method ConnectionState Bytes
decrypt_and_unseal own c header buf = do
  seqnum_bytes ← get_seq_num_bytes
  split ← nonce_and_rest own c seqnum_bytes buf
  let (nonce, rest) = split
  raise_if (ltb (length rest) c.tag_length) bad_record_mac
  aad ← opening_data own c header seqnum_bytes rest
  elim (c.unseal nonce rest aad) [ none ↦ raise bad_record_mac | some plain ↦ pure plain ]

-- The MAC of SSL 2 is the first 16 bytes.
unfoldable pub ssl2_verified : Option Mac → Bytes → Bytes → Method ConnectionState Bytes
ssl2_verified none seqnum_bytes text = pure text
ssl2_verified (some mac) seqnum_bytes text =
    raise_if (not (same_bytes (take 16 text) (mac.digest (drop 16 text ++ last_four seqnum_bytes))))
      bad_record_mac
    >> pure (drop 16 text)

unfoldable pub decrypt_ssl2 : Bytes → ℕ → Method ConnectionState Bytes
decrypt_ssl2 text padding = do
  seqnum_bytes ← get_seq_num_bytes
  cipher ← gets (λ s. s.enc_context)
  plain ← elim cipher [
    | none ↦ pure text
    | some c ↦
        raise_if (c.is_block_cipher && not (length text % c.block_size == 0)) decryption_failed
        >> decrypt c text
  ]
  context ← gets (λ s. s.mac_context)
  verified ← ssl2_verified context seqnum_bytes plain
  pure (if padding == 0 then verified else without_last padding verified)

-- From the end, the first byte that is not 0 is the content type.
unfoldable pub tls13_de_pad : Bytes → Result (Bytes × ℕ)
tls13_de_pad [] = err unexpected_message
tls13_de_pad (value ∷ rest) = elim (tls13_de_pad rest) [
  | ok found ↦ let (text, content_type) = found in ok (value ∷ text, content_type)
  | err problem ↦ if value == 0 then err problem else ok ([], value)
]
