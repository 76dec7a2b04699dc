-- ===== src/Fragments/Sending.antt =====
-- tlslite/messagesocket.py: the sending side of class `MessageSocket`. A record that is handed to `sendRecord` is an
-- element of the list that a method gives.
use tls_dvnizk.Base.{
  ℕ, zero, suc, ◌^◌, List, [], ◌∷◌, ◌++◌, Bool, false, ◌==◌, if◌then◌else◌, Option, none, some,
  length, take, drop, Method, ok, err, pure, modify, ◌>>=◌, ◌>>◌, assertion_error,
}
use tls_dvnizk.Base.Bytes.{Bytes}
use tls_dvnizk.Fragments.Message.{Message, write}

pub record Sender : Type 0 where
  pub send_buffer : Bytes
  pub send_buffer_type : Option ℕ
  pub record_size : ℕ

abbrev pub new_sender : Sender
new_sender = record { send_buffer = []; send_buffer_type = none; record_size = 2 ^ 14 }

-- The content type of a record that is sent; the buffer is empty where there is none.
abbrev pub type_of : Option ℕ → ℕ
type_of none = 0
type_of (some t) = t

-- The loop of `flush`: the records, and what is left in the buffer.
unfoldable pub flush_loop : ℕ → ℕ → ℕ → Bytes → List Message × Bytes
flush_loop zero record_size t buffer = ([], buffer)
flush_loop (suc fuel) record_size t [] = ([], [])
flush_loop (suc fuel) record_size t (b ∷ buffer) =
    let payload = take record_size (b ∷ buffer) in
    let (rest, left) = flush_loop fuel record_size t (drop record_size (b ∷ buffer)) in
    (record { content_type = t; data_bytes = payload } ∷ rest, left)

-- A round takes a byte at least, so that the length of the buffer is fuel enough.
unfoldable pub flush : Method Sender (List Message)
flush s =
    let (records, left) =
      flush_loop (length s.send_buffer) s.record_size (type_of s.send_buffer_type) s.send_buffer in
    if length left == 0
    then (ok records, record s { send_buffer = left; send_buffer_type = none })
    else (err assertion_error, record s { send_buffer = left })

abbrev pub is_type : ℕ → Option ℕ → Bool
is_type t none = false
is_type t (some u) = t == u

-- `if self._sendBufferType is None: self._sendBufferType = msg.contentType`
abbrev pub set_type : ℕ → Sender → Sender
set_type t s = record s {
  send_buffer_type = elim s.send_buffer_type [ none ↦ some t | some u ↦ some u ];
}

abbrev pub append_message : Message → Sender → Sender
append_message msg s = record s { send_buffer = s.send_buffer ++ write msg }

-- The flush before a message of another type.
unfoldable pub flush_and_queue : Message → Method Sender (List Message)
flush_and_queue msg = do
  records ← flush
  modify (λ s. append_message msg (record s { send_buffer_type = some msg.content_type }))
  pure records

unfoldable pub queue_message : Message → Method Sender (List Message)
queue_message msg s =
    let typed = set_type msg.content_type s in
    if is_type msg.content_type typed.send_buffer_type
    then (ok [], append_message msg typed)
    else flush_and_queue msg typed

unfoldable pub send_message : Message → Method Sender (List Message)
send_message msg = do first ← queue_message msg; second ← flush; pure (first ++ second)

-- A run of `queueMessage` and a `flush` at the end, as the handshake sends its flights.
unfoldable pub send_flight : List Message → Method Sender (List Message)
send_flight [] = flush
send_flight (msg ∷ messages) = do
  first ← queue_message msg
  rest ← send_flight messages
  pure (first ++ rest)
