-- ===== src/RecordLayer/Protect.antt =====
-- tlslite/recordlayer.py: the methods of `RecordLayer` that protect a record to be sent. They run on the write
-- state.
use tls_dvnizk.Base.{
  ℕ, ◌+◌, ◌-◌, ◌/◌, ◌%◌, ◌^◌, [], ◌∷◌, ◌++◌, Bool, true, false, ◌&&◌, ◌||◌, not, ltb, leb, ◌==◌,
  if◌then◌else◌, Option, none, some, length, replicate, drop, Method, pure, raise, raise_if, gets,
  ◌>>=◌, ◌>>◌, value_error, assertion_error, type_error, zero_division,
}
use tls_dvnizk.Base.Bytes.{Bytes}
use tls_dvnizk.ConstantTime.Cbc.{Mac, before_tls13, mac_header}
use tls_dvnizk.Ciphers.Stream.{xor_bytes}
use tls_dvnizk.RecordLayer.State.{
  Cipher, ConnectionState, get_seq_num_bytes, encrypt, change_cipher_spec, application_data,
  after_tls12, from_tls11, is_ssl2, Settings, is_tls13_plus, handle_tls13_record,
}

-- The value that chooses the branch of `if self._writeState.encContext:`.
abbrev pub is_some {ℓ} : {A : Type ℓ} → Option A → Bool
is_some none = false
is_some (some a) = true

-- A padding length that is no byte has no `bytearray`.
unfoldable pub add_padding : ℕ → Bytes → Method ConnectionState Bytes
add_padding block_length text = do
  raise_if (block_length == 0) zero_division
  let padding_length = block_length - 1 - length text % block_length
  raise_if (leb 256 padding_length) value_error
  pure (text ++ replicate (padding_length + 1) padding_length)

-- `self.fixedIVBlock + data`: None and bytes have no sum.
unfoldable pub prepend_block : Option Bytes → Bytes → Method ConnectionState Bytes
prepend_block none text = raise type_error
prepend_block (some block) text = pure (block ++ text)

-- `if self.version >= (3, 2):` with the fixed block put before the text.
unfoldable pub add_fixed_block : Settings → Bytes → Method ConnectionState Bytes
add_fixed_block own text =
    if from_tls11 own.version then prepend_block own.fixed_iv_block text else pure text

-- The fixed block and the padding of a block cipher, and the call of the cipher.
unfoldable pub encrypt_blocks : Settings → Cipher → Bytes → Method ConnectionState Bytes
encrypt_blocks own c text = do
  begun ← add_fixed_block own text
  padded ← add_padding c.block_size begun
  encrypt c padded

-- A length or a content type that is no byte has no `bytearray`.
unfoldable pub calculate_mac : Settings → Mac → Bytes → ℕ → Bytes → Method ConnectionState Bytes
calculate_mac own mac seqnum_bytes content_type text = do
  raise_if (leb 256 content_type) value_error
  raise_if (not (before_tls13 own.version)) assertion_error
  raise_if (leb 256 (length text / 256)) value_error
  pure (mac.digest (mac_header seqnum_bytes content_type own.version (length text) ++ text))

-- `if self._writeState.macContext:` with the bytes of the MAC appended.
unfoldable pub append_mac : Settings → ℕ → Bytes → Method ConnectionState Bytes
append_mac own content_type text = do
  context ← gets (λ s. s.mac_context)
  elim context [
    | none ↦ pure text
    | some mac ↦ get_seq_num_bytes >>= λ seqnum_bytes.
        calculate_mac own mac seqnum_bytes content_type text >>= λ mac_bytes.
        pure (text ++ mac_bytes)
  ]

unfoldable pub mac_then_encrypt : Settings → Bytes → ℕ → Method ConnectionState Bytes
mac_then_encrypt own text content_type = do
  signed ← append_mac own content_type text
  context ← gets (λ s. s.enc_context)
  elim context [
    | none ↦ pure signed
    | some c ↦ if c.is_block_cipher then encrypt_blocks own c signed else encrypt c signed
  ]

unfoldable pub encrypt_then_mac : Settings → Bytes → ℕ → Method ConnectionState Bytes
encrypt_then_mac own buf content_type = do
  context ← gets (λ s. s.enc_context)
  sealed ← elim context [ none ↦ pure buf | some c ↦ encrypt_blocks own c buf ]
  append_mac own content_type sealed

unfoldable pub get_nonce : Settings → Cipher → Bytes → Bytes → Method ConnectionState Bytes
get_nonce own c fixed_nonce seqnum =
    if (c.is_chacha20 && (length fixed_nonce == 12)) || is_tls13_plus own
    then (if ltb (length fixed_nonce) (length seqnum)
        then raise value_error
        else pure
            (xor_bytes (replicate (length fixed_nonce - length seqnum) 0 ++ seqnum) fixed_nonce))
    else pure (fixed_nonce ++ seqnum)

-- The data that a cipher with associated data authenticates besides the text.
unfoldable pub auth_data : Settings → Bytes → ℕ → ℕ → Cipher → Bytes
auth_data own seqnum_bytes content_type len c =
    if not (is_tls13_plus own)
    then seqnum_bytes ++ (content_type ∷ own.version.0 ∷ own.version.1 ∷ len / 256 ∷ len % 256 ∷ [])
    else (let out_len = len + c.tag_length in
        let (major, minor) = handle_tls13_record own in
        content_type ∷ major ∷ minor ∷ out_len / 256 ∷ out_len % 256 ∷ [])

unfoldable pub encrypt_then_seal : Settings → Cipher → Bytes → ℕ → Method ConnectionState Bytes
encrypt_then_seal own c buf content_type = do
  seq_num_bytes ← get_seq_num_bytes
  raise_if
      (leb 256 content_type
        || leb (2 ^ 16) (length buf + (if is_tls13_plus own then c.tag_length else 0)))
      value_error
  fixed_nonce ← gets (λ s. s.fixed_nonce)
  nonce ← get_nonce own c fixed_nonce seq_num_bytes
  raise_if (not (length nonce == c.nonce_length)) assertion_error
  let sealed = c.seal nonce buf (auth_data own seq_num_bytes content_type (length buf) c)
  pure (if c.is_aes && not (is_tls13_plus own) then (seq_num_bytes ++ sealed) else sealed)

-- The last four bytes.
abbrev pub last_four : Bytes → Bytes
last_four seqnum = drop (length seqnum - 4) seqnum

-- Only a block cipher has its text padded.
unfoldable pub ssl2_padded : Option Cipher → Bytes → Method ConnectionState Bytes
ssl2_padded none text = pure text
ssl2_padded (some c) text = if c.is_block_cipher then add_padding c.block_size text else pure text

-- In SSL 2 the MAC stands before the text.
unfoldable pub ssl2_signed : Option Mac → Bytes → Bytes → Bytes
ssl2_signed none seqnum_bytes text = text
ssl2_signed (some mac) seqnum_bytes text = mac.digest (text ++ last_four seqnum_bytes) ++ text

unfoldable pub ssl2_encrypt : Bytes → Method ConnectionState (Bytes × ℕ)
ssl2_encrypt text = do
  seqnum_bytes ← get_seq_num_bytes
  cipher ← gets (λ s. s.enc_context)
  mac_context ← gets (λ s. s.mac_context)
  padded ← ssl2_padded cipher text
  let padding = length padded - length text
  let signed = ssl2_signed mac_context seqnum_bytes padded
  sealed ← elim cipher [ none ↦ pure signed | some c ↦ encrypt c signed ]
  pure (sealed, padding)

unfoldable pub seal_or_mac :
    Settings → Option Cipher → Bool → Bytes → ℕ → Method ConnectionState Bytes
seal_or_mac own none etm inner content_type =
    if etm then encrypt_then_mac own inner content_type else mac_then_encrypt own inner content_type
seal_or_mac own (some c) etm inner content_type =
    if c.is_aead
    then encrypt_then_seal own c inner content_type
    else (if etm
        then encrypt_then_mac own inner content_type
        else mac_then_encrypt own inner content_type)

-- The branches of `sendRecord`: the data and the padding that `RecordSocket.send` is given.
unfoldable pub protect :
    Settings → Option Cipher → Bool → Bytes → ℕ → Method ConnectionState (Bytes × ℕ)
protect own cipher etm inner content_type =
    if is_ssl2 own.version
    then ssl2_encrypt inner
    else (if after_tls12 own.version && (content_type == change_cipher_spec)
        then pure (inner, 0)
        else (seal_or_mac own cipher etm inner content_type >>= λ sealed. pure (sealed, 0)))

-- The plaintext of TLS 1.3: the content type at the end, then as many zeros as the callback says. The callback
-- stands for the Python one with the `max_padding` that it is given computed from the limit.
unfoldable pub inner_plaintext : Option (ℕ → ℕ → ℕ → ℕ) → ℕ → Bytes → ℕ → Bytes
inner_plaintext none limit text msg_type = text ++ (msg_type ∷ [])
inner_plaintext (some padding_cb) limit text msg_type =
    (text ++ (msg_type ∷ []))
    ++ replicate (padding_cb (length (text ++ (msg_type ∷ []))) msg_type limit) 0

-- `sendRecord` up to the call of `RecordSocket.send`: the content type, the data and the padding.
unfoldable pub send_record :
    Settings → Option (ℕ → ℕ → ℕ → ℕ) → ℕ → Bytes → ℕ → Method ConnectionState (ℕ × Bytes × ℕ)
send_record own padding_cb send_record_limit text msg_type = do
  cipher ← gets (λ s. s.enc_context)
  etm ← gets (λ s. s.encrypt_then_mac)
  let hidden = is_tls13_plus own && is_some cipher && not (msg_type == change_cipher_spec)
  let content_type = if hidden then application_data else msg_type
  let inner = if hidden then inner_plaintext padding_cb send_record_limit text msg_type else text
  sent ← protect own cipher etm inner content_type
  pure (content_type, sent.0, sent.1)
