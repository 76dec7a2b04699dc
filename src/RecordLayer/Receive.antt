-- ===== src/RecordLayer/Receive.antt =====
-- tlslite/recordlayer.py: `RecordSocket.recv` past the reading of the socket, and `RecordLayer.recvRecord`.
use tls_dvnizk.Base.{
  ℕ, ◌+◌, ◌%◌, List, [], ◌∷◌, Bool, false, ◌&&◌, ◌||◌, not, ltb, ◌==◌, if◌then◌else◌, Option, none,
  some, length, Method, Result, ok, err, Error, bad_record_mac, record_overflow, illegal_parameter,
}
use tls_dvnizk.Base.Bytes.{Bytes}
use tls_dvnizk.RecordLayer.State.{
  Cipher, ConnectionState, change_cipher_spec, alert, application_data, Settings, is_tls13_plus,
}
use tls_dvnizk.RecordLayer.Header.{Header, create3}
use tls_dvnizk.RecordLayer.Protect.{is_some}
use tls_dvnizk.RecordLayer.Open.{
  decrypt_stream_then_mac, decrypt_then_mac, mac_then_decrypt, decrypt_and_unseal, decrypt_ssl2,
  tls13_de_pad,
}

-- What of `RecordLayer` receiving changes.
pub record Reader : Type 0 where
  pub read_state : ConnectionState
  pub early_data_ok : Bool
  pub early_data_processed : ℕ

-- What of `RecordLayer` receiving reads only.
pub record Limits : Type 0 where
  pub own : Settings
  pub handshake_finished : Bool
  pub max_early_data : ℕ
  pub recv_record_limit : ℕ

-- The test of `_recvHeader` on a header of SSL 2.
unfoldable pub check_header2 : Header → Result (Unit {0})
check_header2 h =
    if ltb h.len h.padding || (not (h.padding == 0) && not (h.len % 8 == 0))
    then err illegal_parameter
    else ok tt

-- The test of `RecordSocket.recv` on the length in the header.
unfoldable pub check_length : Bool → ℕ → Header → Result (Unit {0})
check_length tls13record recv_record_limit h =
    if ltb (recv_record_limit + 1024 + 1024) h.len
      || (tls13record && ltb (recv_record_limit + 256) h.len)
    then err record_overflow
    else ok tt

-- An alert that was sent before the other side had its keys.
abbrev pub early_alert : Settings → Header → Bytes → ConnectionState → Bool
early_alert own header text s =
    is_tls13_plus own
    && (header.type == alert)
    && ltb (length text) 3
    && is_some s.enc_context
    && (s.seqnum == 0)

-- The last branches, by the cipher.
unfoldable pub open_record :
    Settings → Header → Bytes → Option Cipher → Bool → Method ConnectionState Bytes
open_record own header text none etm =
    if etm
    then mac_then_decrypt own header.type text
    else decrypt_stream_then_mac own header.type text
open_record own header text (some c) etm =
    if c.is_aead
    then decrypt_and_unseal own c header text
    else (if etm
        then mac_then_decrypt own header.type text
        else (if c.is_block_cipher
            then decrypt_then_mac own header.type text
            else decrypt_stream_then_mac own header.type text))

-- The `try` block: the branches by which the protection is taken off.
unfoldable pub unprotect : Settings → Header → Bytes → Method ConnectionState Bytes
unprotect own header text s =
    if header.ssl2
    then decrypt_ssl2 text header.padding s
    else (if is_tls13_plus own && (header.type == change_cipher_spec)
        then (ok text, s)
        else (if early_alert own header text s
            then (ok text, s)
            else open_record own header text s.enc_context s.encrypt_then_mac s))

-- `header.type = ContentType.application_data` for SSL 2.
unfoldable pub retyped : Limits → Header → Header
retyped limits header =
    if header.ssl2 && limits.handshake_finished
    then record header { type = application_data }
    else header

-- RFC 5246, section 6.2.1
unfoldable pub within_limit : ℕ → Header → Bytes → Result (Header × Bytes)
within_limit limit header text =
    if ltb limit (length text) then err record_overflow else ok (header, text)

-- The header of the inner plaintext of TLS 1.3.
unfoldable pub inner_record : ℕ → Result (Bytes × ℕ) → Result (Header × Bytes)
inner_record limit (ok (text, content_type)) =
    within_limit limit (create3 (3, 4) content_type (length text)) text
inner_record limit (err problem) = err problem

-- After the `try` block: what is too long is refused, the inner content type of TLS 1.3 is found.
unfoldable pub finish_record : Limits → Bool → Header → Bytes → Result (Header × Bytes)
finish_record limits encrypted header text =
    if is_tls13_plus limits.own && encrypted && (header.type == application_data)
    then (if ltb (limits.recv_record_limit + 1) (length text)
        then err record_overflow
        else inner_record limits.recv_record_limit (tls13_de_pad text))
    else within_limit limits.recv_record_limit header text

-- What one record that was read from the socket leads to.
pub data Outcome : Type 0 where
  again : Outcome
  delivered : Header → Bytes → Outcome

-- The `except` block: while early data may be skipped, the record is, and the read state is put back.
unfoldable pub skip_or_raise : Limits → Reader → ConnectionState → ℕ → Result Outcome × Reader
skip_or_raise limits before after len =
    if before.early_data_ok && ltb (before.early_data_processed + len) limits.max_early_data
    then (ok again, record before { early_data_processed = before.early_data_processed + len })
    else (err bad_record_mac, record before { read_state = after })

-- An exception other than the one of a bad MAC passes.
unfoldable pub refused : Limits → Reader → ConnectionState → ℕ → Error → Result Outcome × Reader
refused limits before after len bad_record_mac = skip_or_raise limits before after len
refused limits before after len problem = (err problem, record before { read_state = after })

-- Protected data that is not expected yet.
abbrev pub unexpected_early_data : Reader → ConnectionState → Header → Bool
unexpected_early_data before after header =
    not (is_some after.enc_context)
    && not (is_some after.mac_context)
    && before.early_data_ok
    && (header.type == application_data)

-- A record is taken: early data is over.
unfoldable pub accepted : Result (Header × Bytes) → ConnectionState → Result Outcome × Reader
accepted (ok (header, text)) after = (
  ok (delivered header text),
  record { read_state = after; early_data_ok = false; early_data_processed = 0 },
)
accepted (err problem) after =
    (err problem, record { read_state = after; early_data_ok = false; early_data_processed = 0 })

-- One turn of the loop of `recvRecord`.
unfoldable pub recv_step : Limits → Header → Bytes → Method Reader Outcome
recv_step limits header text before =
    let (outcome, after) = unprotect limits.own header text before.read_state in
    elim outcome [
      | err problem ↦ refused limits before after (length text) problem
      | ok plain ↦
          if unexpected_early_data before after (retyped limits header)
          then skip_or_raise limits before after (length plain)
          else accepted
              (finish_record limits (is_some after.enc_context) (retyped limits header) plain) after
    ]

-- `recvRecord` on the records that the socket gives, up to the first that is delivered: that one, if any, and
-- the records behind it.
unfoldable pub recv_record :
    Limits → List (Header × Bytes) → Method Reader (Option (Header × Bytes))
recv_record limits [] before = (ok none, before)
recv_record limits ((header, text) ∷ records) before =
    let (outcome, after) = recv_step limits header text before in
    let rest = recv_record limits records after in
    elim outcome [
      | err problem ↦ (err problem, after)
      | ok result ↦ elim result [ again ↦ rest | delivered h t ↦ (ok (some (h, t)), after) ]
    ]
