-- ===== src/Fragments/Flights.antt =====
-- tlslite/messagesocket.py: what the sending side makes of a run of messages.
use tls_dvnizk.Base.{
  ℕ, zero, suc, ◌≤◌, ◌≡◌, refl, sym, ap, subst, ◌∙◌, List, [], ◌∷◌, ◌++◌, true, ◌==◌, Option, none,
  some, length, take, drop, Result, ok, arith, All, All-append, length-take, length-drop,
  take-append-drop, append-nil, append_assoc, map, Bool-cases, inl, inr,
}
use tls_dvnizk.Base.Bytes.{Bytes}
use tls_dvnizk.Fragments.Message.{Message, write}
use tls_dvnizk.Fragments.Sending.{
  Sender, type_of, flush_loop, flush, flush_and_queue, queue_message, send_flight,
}

-- Bytes, each under its content type.
abbrev pub tag_bytes : ℕ → Bytes → List (ℕ × ℕ)
tag_bytes t bs = map (λ b. (t, b)) bs

abbrev pub tagged : List Message → List (ℕ × ℕ)
tagged [] = []
tagged (msg ∷ messages) = tag_bytes msg.content_type msg.data_bytes ++ tagged messages

-- What waits to be sent.
abbrev pub pending : Sender → List (ℕ × ℕ)
pending s = tag_bytes (type_of s.send_buffer_type) s.send_buffer

pub tag_bytes-append :
    (t : ℕ) (xs ys : Bytes) → tag_bytes t (xs ++ ys) ≡ tag_bytes t xs ++ tag_bytes t ys
tag_bytes-append t [] ys = refl
tag_bytes-append t (x ∷ xs) ys = ap (λ (l : List (ℕ × ℕ)). (t, x) ∷ l) (tag_bytes-append t xs ys)

pub tagged-append : (xs ys : List Message) → tagged (xs ++ ys) ≡ tagged xs ++ tagged ys
tagged-append [] ys = refl
tagged-append (x ∷ xs) ys =
    ap (λ (l : List (ℕ × ℕ)). tag_bytes x.content_type x.data_bytes ++ l) (tagged-append xs ys)
    ∙ sym (append_assoc (tag_bytes x.content_type x.data_bytes) (tagged xs) (tagged ys))

-- A record that is neither empty nor longer than allowed.
abbrev pub Fits : ℕ → Message → Type 0
Fits size msg = (1 ≤ length msg.data_bytes) × (length msg.data_bytes ≤ size)

-- What the loop of `flush` gives.
record IsFlushed (size t : ℕ) (buffer : Bytes) (r : List Message × Bytes) : Type 0 where
  emptied : r.1 ≡ []
  order : tagged (r.0) ≡ tag_bytes t buffer
  sizes : All (Fits size) (r.0)

flush_loop-IsFlushed :
    (fuel size t : ℕ) (buffer : Bytes)
    → 1 ≤ size
    → length buffer ≤ fuel
    → IsFlushed size t buffer (flush_loop fuel size t buffer)
unfolding flush_loop
flush_loop-IsFlushed zero size t [] p h = record { emptied = refl; order = refl; sizes = tt }
flush_loop-IsFlushed zero size t (b ∷ buffer) p h = absurd (omega arith)
flush_loop-IsFlushed (suc fuel) size t [] p h = record { emptied = refl; order = refl; sizes = tt }
flush_loop-IsFlushed (suc fuel) size t (b ∷ buffer) p h =
    let rest =
      flush_loop-IsFlushed fuel size t (drop size (b ∷ buffer)) p
        (omega (arith, length-drop size (b ∷ buffer))) in
    record {
      emptied = rest.emptied;
      order =
          ap (λ (l : List (ℕ × ℕ)). tag_bytes t (take size (b ∷ buffer)) ++ l) rest.order
          ∙ sym (tag_bytes-append t (take size (b ∷ buffer)) (drop size (b ∷ buffer)))
          ∙ ap (tag_bytes t) (take-append-drop size (b ∷ buffer));
      sizes = (
        (
          omega (arith, length-take size (b ∷ buffer)),
          omega (arith, length-take size (b ∷ buffer)),
        ),
        rest.sizes,
      );
    }

-- Nothing waits without a content type.
abbrev pub IsTyped : Sender → Type 0
IsTyped s = s.send_buffer_type ≡ none → s.send_buffer ≡ []

-- A method has sent the first part of a stream of bytes in fitting records, and the rest of it waits.
pub record Sends (size : ℕ) (stream : List (ℕ × ℕ)) (r : Result (List Message) × Sender)
    : Type 0 where
  pub records : List Message
  pub after : Sender
  pub result : r ≡ (ok records, after)
  pub order : tagged records ++ pending after ≡ stream
  pub sizes : All (Fits size) records
  pub typed : IsTyped after
  pub same_size : after.record_size ≡ size

-- The same, and nothing waits.
pub record SendsAll (size : ℕ) (stream : List (ℕ × ℕ)) (r : Result (List Message) × Sender)
    : Type 0 where
  pub records : List Message
  pub result :
      r ≡ (ok records, record { send_buffer = []; send_buffer_type = none; record_size = size })
  pub order : tagged records ≡ stream
  pub sizes : All (Fits size) records

flush-SendsAll : (s : Sender) → 1 ≤ s.record_size → SendsAll s.record_size (pending s) (flush s)
unfolding flush
flush-SendsAll s p =
    let done =
      flush_loop-IsFlushed (length s.send_buffer) s.record_size (type_of s.send_buffer_type)
        s.send_buffer p (omega arith) in
    record {
      records =
          (flush_loop (length s.send_buffer) s.record_size (type_of s.send_buffer_type)
            s.send_buffer).0;
      result = rw (done.emptied) refl;
      order = done.order;
      sizes = done.sizes;
    }

abbrev sender : Bytes → Option ℕ → ℕ → Sender
sender buffer type size = record {
  send_buffer = buffer;
  send_buffer_type = type;
  record_size = size;
}

-- The message joins what waits.
joined :
    (t size : ℕ) (buffer : Bytes) (msg : Message)
    → msg.content_type ≡ t
    → Sends size
        (tag_bytes t buffer ++ tag_bytes msg.content_type msg.data_bytes)
        (ok [], sender (buffer ++ msg.data_bytes) (some t) size)
joined t size buffer msg e = record {
  records = [];
  after = sender (buffer ++ msg.data_bytes) (some t) size;
  result = refl;
  order =
      tag_bytes-append t buffer msg.data_bytes
      ∙ ap (λ (u : ℕ). tag_bytes t buffer ++ tag_bytes u msg.data_bytes) (sym e);
  sizes = tt;
  typed = λ h. cc;
  same_size = refl;
}

-- The message waits alone, after a flush.
flush_and_queue-Sends :
    (msg : Message) (s : Sender)
    → 1 ≤ s.record_size
    → Sends s.record_size
        (pending s ++ tag_bytes msg.content_type msg.data_bytes)
        (flush_and_queue msg s)
unfolding flush_and_queue write
flush_and_queue-Sends msg s p =
    let done = flush-SendsAll s p in
    record {
      records = done.records;
      after = sender msg.data_bytes (some msg.content_type) s.record_size;
      result = rw (done.result) refl;
      order = ap (λ (l : List (ℕ × ℕ)). l ++ tag_bytes msg.content_type msg.data_bytes) done.order;
      sizes = done.sizes;
      typed = λ h. cc;
      same_size = refl;
    }

queue_typed :
    (msg : Message) (buffer : Bytes) (t size : ℕ)
    → 1 ≤ size
    → Sends size
        (tag_bytes t buffer ++ tag_bytes msg.content_type msg.data_bytes)
        (queue_message msg (sender buffer (some t) size))
unfolding queue_message write
queue_typed msg buffer t size p = elim (Bool-cases (msg.content_type == t)) [
  | inl e ↦ rw e (joined t size buffer msg (ground arith))
  | inr e ↦ rw e (flush_and_queue-Sends msg (sender buffer (some t) size) p)
]

queue_untyped :
    (msg : Message) (size : ℕ)
    → Sends size
        (tag_bytes msg.content_type msg.data_bytes)
        (queue_message msg (sender [] none size))
unfolding queue_message write
queue_untyped msg size = rw (same msg.content_type) (joined msg.content_type size [] msg refl)
  where
    same : (t : ℕ) → (t == t) ≡ true
    same t = ground arith

queue_cases :
    (msg : Message) (buffer : Bytes) (type : Option ℕ) (size : ℕ)
    → 1 ≤ size
    → IsTyped (sender buffer type size)
    → Sends size
        (pending (sender buffer type size) ++ tag_bytes msg.content_type msg.data_bytes)
        (queue_message msg (sender buffer type size))
queue_cases msg buffer none size p typed =
    subst
      (λ (b : Bytes).
        Sends size (tag_bytes 0 b ++ tag_bytes msg.content_type msg.data_bytes)
          (queue_message msg (sender b none size)))
      (sym (typed refl)) (queue_untyped msg size)
queue_cases msg buffer (some t) size p typed = queue_typed msg buffer t size p

queue_message-Sends :
    (msg : Message) (s : Sender)
    → 1 ≤ s.record_size
    → IsTyped s
    → Sends s.record_size
        (pending s ++ tag_bytes msg.content_type msg.data_bytes)
        (queue_message msg s)
queue_message-Sends msg s p typed =
    queue_cases msg s.send_buffer s.send_buffer_type s.record_size p typed

-- The records of a flight carry the bytes of what waited and of the messages, in order and each under its content
-- type; no record is empty or longer than allowed, and nothing waits afterwards.
pub send_flight-SendsAll :
    (messages : List Message) (s : Sender)
    → 1 ≤ s.record_size
    → IsTyped s
    → SendsAll s.record_size (pending s ++ tagged messages) (send_flight messages s)
unfolding send_flight
send_flight-SendsAll [] s p typed = rw append-nil (flush-SendsAll s p)
send_flight-SendsAll (msg ∷ messages) s p typed =
    let first = queue_message-Sends msg s p typed in
    let rest =
      send_flight-SendsAll messages first.after (omega (arith, first.same_size)) first.typed in
    record {
      records = first.records ++ rest.records;
      result = rw (first.result, rest.result, first.same_size) refl;
      order =
          tagged-append first.records rest.records
          ∙ ap (λ (l : List (ℕ × ℕ)). tagged first.records ++ l) rest.order
          ∙ sym (append_assoc (tagged first.records) (pending first.after) (tagged messages))
          ∙ ap (λ (l : List (ℕ × ℕ)). l ++ tagged messages) first.order
          ∙ append_assoc (pending s) (tag_bytes msg.content_type msg.data_bytes) (tagged messages);
      sizes =
          All-append (Fits s.record_size) first.records rest.records first.sizes
            (subst (λ (n : ℕ). All (Fits n) rest.records) first.same_size rest.sizes);
    }
