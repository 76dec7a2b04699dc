-- ===== src/Fragments/Channel.antt =====
-- tlslite/messagesocket.py with defragmenter.py: a sender and a receiver together.
use tls_dvnizk.Base.{
  ℕ, zero, suc, ◌≤◌, ◌≡◌, refl, sym, ap, ap₂, subst, ◌∙◌, List, [], ◌∷◌, ◌++◌, false, Option, none,
  some, length, ok, arith, All, map,
}
use tls_dvnizk.Base.Bytes.{Bytes}
use tls_dvnizk.Fragments.Message.{Message}
use tls_dvnizk.Fragments.Defragmenter.{Handler, Defragmenter}
use tls_dvnizk.Fragments.Handlers.{IsWhole}
use tls_dvnizk.Fragments.Sending.{Sender, send_flight}
use tls_dvnizk.Fragments.Flights.{tag_bytes, tagged, Fits, send_flight-SendsAll}
use tls_dvnizk.Fragments.Receiving.{Arrival, Receiver, Received, message, recv_message}
use tls_dvnizk.Fragments.Delivery.{payloads, IsOf, IsListening, receiver, recv_message-Delivers}

-- A run of calls of `recvMessageBlocking`.
abbrev pub recv_messages : ℕ → Receiver → List Arrival → List Received × (Receiver × List Arrival)
recv_messages zero r arrivals = ([], (r, arrivals))
recv_messages (suc n) r arrivals =
    let (received, (next, left)) = recv_message r arrivals in
    let (others, state) = recv_messages n next left in (received ∷ others, state)

-- A record as it comes in on the other side.
abbrev pub arrive : ℕ × ℕ → Message → Arrival
arrive version msg = record {
  content_type = msg.content_type;
  version = version;
  ssl2 = false;
  payload = msg.data_bytes;
}

-- The type and the bytes of what has come in.
abbrev pub content : Received → Option (ℕ × Bytes)
content (message version t bs) = some (t, bs)
content _ = none

abbrev pub contents : List Message → List (Option (ℕ × Bytes))
contents messages = map (λ msg. some (msg.content_type, msg.data_bytes)) messages

bytes_of : List (ℕ × ℕ) → Bytes
bytes_of tags = map (λ tag. tag.1) tags

bytes_of-append : (xs ys : List (ℕ × ℕ)) → bytes_of (xs ++ ys) ≡ bytes_of xs ++ bytes_of ys
unfolding bytes_of
bytes_of-append [] ys = refl
bytes_of-append (x ∷ xs) ys = ap (λ (l : Bytes). x.1 ∷ l) (bytes_of-append xs ys)

bytes_of-tag_bytes : (t : ℕ) (bs : Bytes) → bytes_of (tag_bytes t bs) ≡ bs
unfolding bytes_of
bytes_of-tag_bytes t [] = refl
bytes_of-tag_bytes t (b ∷ bs) = ap (λ (l : Bytes). b ∷ l) (bytes_of-tag_bytes t bs)

-- The bytes of all messages.
abbrev joined : List Message → Bytes
joined [] = []
joined (msg ∷ messages) = msg.data_bytes ++ joined messages

bytes_of-tagged : (messages : List Message) → bytes_of (tagged messages) ≡ joined messages
unfolding bytes_of
bytes_of-tagged [] = refl
bytes_of-tagged (msg ∷ messages) =
    bytes_of-append (tag_bytes msg.content_type msg.data_bytes) (tagged messages)
    ∙ ap₂ (λ (x y : Bytes). x ++ y) (bytes_of-tag_bytes msg.content_type msg.data_bytes)
        (bytes_of-tagged messages)

payloads-joined :
    (version : ℕ × ℕ) (records : List Message)
    → payloads (map (arrive version) records) ≡ joined records
payloads-joined version [] = refl
payloads-joined version (msg ∷ records) =
    ap (λ (l : Bytes). msg.data_bytes ++ l) (payloads-joined version records)

-- Tags of one type.
IsTag : ℕ → ℕ × ℕ → Type 0
IsTag t tag = tag.0 ≡ t

tag_bytes-IsTag : (t : ℕ) (bs : Bytes) → All (IsTag t) (tag_bytes t bs)
unfolding IsTag
tag_bytes-IsTag t [] = tt
tag_bytes-IsTag t (b ∷ bs) = (refl, tag_bytes-IsTag t bs)

All-append_left : (t : ℕ) (xs ys : List (ℕ × ℕ)) → All (IsTag t) (xs ++ ys) → All (IsTag t) xs
All-append_left t [] ys h = tt
All-append_left t (x ∷ xs) ys (p, h) = (p, All-append_left t xs ys h)

All-append_right : (t : ℕ) (xs ys : List (ℕ × ℕ)) → All (IsTag t) (xs ++ ys) → All (IsTag t) ys
All-append_right t [] ys h = h
All-append_right t (x ∷ xs) ys (p, h) = All-append_right t xs ys h

-- A message of the type `t` that is whole for its decoder.
abbrev pub IsSendable : ℕ → Handler → Message → Type 0
IsSendable t h msg = (msg.content_type ≡ t) × IsWhole h msg.data_bytes

tagged-IsTag :
    (t : ℕ) (h : Handler) (messages : List Message)
    → All (IsSendable t h) messages
    → All (IsTag t) (tagged messages)
tagged-IsTag t h [] all = tt
tagged-IsTag t h (msg ∷ messages) ((kind, whole), all) =
    All-append_both (tag_bytes msg.content_type msg.data_bytes) (tagged messages)
      (subst (λ (u : ℕ). All (IsTag u) (tag_bytes msg.content_type msg.data_bytes)) kind
        (tag_bytes-IsTag msg.content_type msg.data_bytes))
      (tagged-IsTag t h messages all)
  where
    All-append_both :
        (xs ys : List (ℕ × ℕ)) → All (IsTag t) xs → All (IsTag t) ys → All (IsTag t) (xs ++ ys)
    All-append_both [] ys p q = q
    All-append_both (x ∷ xs) ys (p, ps) q = (p, All-append_both xs ys ps q)

-- A record that is not empty shows its type by its first byte.
first_tag : (t u : ℕ) (bs : Bytes) → 1 ≤ length bs → All (IsTag t) (tag_bytes u bs) → u ≡ t
unfolding IsTag
first_tag t u [] h all = absurd (omega arith)
first_tag t u (b ∷ bs) h (p, all) = p

arrive-IsOf :
    (t size : ℕ) (version : ℕ × ℕ) (records : List Message)
    → All (Fits size) records
    → All (IsTag t) (tagged records)
    → All (IsOf t) (map (arrive version) records)
arrive-IsOf t size version [] fits tags = tt
arrive-IsOf t size version (msg ∷ records) ((positive, small), fits) tags = (
  (
    first_tag t msg.content_type msg.data_bytes positive
        (All-append_left t (tag_bytes msg.content_type msg.data_bytes) (tagged records) tags),
    refl,
  ),
  arrive-IsOf t size version records fits
      (All-append_right t (tag_bytes msg.content_type msg.data_bytes) (tagged records) tags),
)

nothing_left : (xs ys : Bytes) → xs ++ ys ≡ [] → (xs ≡ []) × (ys ≡ [])
nothing_left [] ys e = (refl, e)
nothing_left (x ∷ xs) ys e = absurd (omega (arith, ap (λ (l : Bytes). length l) e))

module _ (t : ℕ) (h : Handler) (higher lower : Defragmenter) where
  -- A run of calls has given the messages, and no byte is left, in the buffer or in a record.
  pub record Collects (messages : List Message) (r : List Received × (Receiver × List Arrival))
      : Type 0 where
    pub version : ℕ × ℕ
    pub arrivals : List Arrival
    pub given : map content (r.0) ≡ contents messages
    pub state : r.1 ≡ (receiver t h higher lower version [], arrivals)
    pub exhausted : payloads arrivals ≡ []

  recv_messages-Collects :
      (messages : List Message) (arrivals : List Arrival) (version : ℕ × ℕ) (buf : Bytes)
      → IsListening t h higher lower
      → All (IsOf t) arrivals
      → buf ++ payloads arrivals ≡ joined messages
      → All (IsSendable t h) messages
      → Collects messages
          (recv_messages (length messages) (receiver t h higher lower version buf) arrivals)
  recv_messages-Collects [] arrivals version buf listening typed e all =
      let (no_buf, no_more) = nothing_left buf (payloads arrivals) e in
      record {
        version = version;
        arrivals = arrivals;
        given = refl;
        state = ap (λ (b : Bytes). (receiver t h higher lower version b, arrivals)) no_buf;
        exhausted = no_more;
      }
  recv_messages-Collects (msg ∷ messages) arrivals version buf listening typed e
        ((kind, whole), all) =
      let first =
        recv_message-Delivers t h higher lower arrivals version buf msg.data_bytes (joined messages)
          listening typed e whole in
      let rest =
        recv_messages-Collects messages first.arrivals first.version first.buf listening first.typed
          first.stream all in
      record {
        version = rest.version;
        arrivals = rest.arrivals;
        given = rw (first.result) (
            ap₂ (λ (m : Option (ℕ × Bytes)) (ms : List (Option (ℕ × Bytes))). m ∷ ms)
              (ap (λ (u : ℕ). let o : Option (ℕ × Bytes) = some (u, msg.data_bytes) in o)
                (sym kind))
              rest.given);
        state = rw (first.result, recv_messages) rest.state;
        exhausted = rest.exhausted;
      }

  -- Whole messages of one fragmented type, sent in a flight from an empty buffer with any record size from 1 on, come
  -- out of as many calls of the other side one by one, where the defragmenter knows the type with its decoder, its
  -- buffer is empty and the buffers of the other types hold no whole message; no byte is left over.
  pub recv_messages-send_flight :
      (size : ℕ) (version seen : ℕ × ℕ) (messages : List Message)
      → 1 ≤ size
      → IsListening t h higher lower
      → All (IsSendable t h) messages
      → (records : List Message) × (after : Sender) × ((send_flight messages
              (record { send_buffer = []; send_buffer_type = none; record_size = size })
            ≡ (ok records, after))
          × Collects messages (
              recv_messages
                (length messages)
                (receiver t h higher lower seen [])
                (map (arrive version) records)))
  recv_messages-send_flight size version seen messages p listening all =
      let sent =
        send_flight-SendsAll messages
          (record { send_buffer = []; send_buffer_type = none; record_size = size }) p
          (λ e. refl) in
      let in_order : joined sent.records ≡ joined messages =
        sym (bytes_of-tagged sent.records) ∙ ap bytes_of sent.order ∙ bytes_of-tagged messages in
      (
        sent.records,
        record { send_buffer = []; send_buffer_type = none; record_size = size },
        (
          sent.result,
          recv_messages-Collects messages (map (arrive version) sent.records) seen [] listening
              (arrive-IsOf t size version sent.records sent.sizes
                (subst (All (IsTag t)) (sym sent.order) (tagged-IsTag t h messages all)))
              (payloads-joined version sent.records ∙ in_order) all,
        ),
      )
