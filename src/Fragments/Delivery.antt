-- ===== src/Fragments/Delivery.antt =====
-- tlslite/messagesocket.py with defragmenter.py: records that come in, and the messages in them.
use tls_dvnizk.Base.{
  ℕ, zero, suc, ◌≤◌, ◌≡◌, refl, sym, ap, subst, ◌∙◌, List, [], ◌∷◌, ◌++◌, false, none, some,
  Option-cases, inl, inr, length, take, drop, ok, arith, All, append-nil, append_assoc, take_by,
  drop_by,
}
use tls_dvnizk.Base.Bytes.{Bytes}
use tls_dvnizk.Fragments.Defragmenter.{Handler, Defragmenter, add_data}
use tls_dvnizk.Fragments.Handlers.{message_end, message_end_inside, message_end-append, IsWhole}
use tls_dvnizk.Fragments.Slots.{
  IsIdle, IsOther, with_buffer, get_message_whole, get_message-none, add_data_lem,
}
use tls_dvnizk.Fragments.Receiving.{
  Arrival, Receiver, Received, message, is_unfragmented, take_message, take_record, recv_message,
}

take_inside : (n : ℕ) (xs ys : Bytes) → n ≤ length xs → take n (xs ++ ys) ≡ take n xs
take_inside zero xs ys h = refl
take_inside (suc n) [] ys h = absurd (omega arith)
take_inside (suc n) (x ∷ xs) ys h = ap (λ (t : Bytes). x ∷ t) (take_inside n xs ys (omega arith))

drop_inside : (n : ℕ) (xs ys : Bytes) → n ≤ length xs → drop n (xs ++ ys) ≡ drop n xs ++ ys
drop_inside zero xs ys h = refl
drop_inside (suc n) [] ys h = absurd (omega arith)
drop_inside (suc n) (x ∷ xs) ys h = drop_inside n xs ys (omega arith)

abbrev pub payloads : List Arrival → Bytes
payloads [] = []
payloads (arrival ∷ arrivals) = arrival.payload ++ payloads arrivals

-- A record of TLS of the type `t`.
abbrev pub IsOf : ℕ → Arrival → Type 0
IsOf t arrival = (arrival.content_type ≡ t) × (arrival.ssl2 ≡ false)

take_record_lem :
    (r : Receiver) (arrival : Arrival) (arrivals : List Arrival) (d : Defragmenter)
    (later : Received × (Receiver × List Arrival))
    → is_unfragmented arrival.content_type ≡ false
    → arrival.ssl2 ≡ false
    → take_record r arrival arrivals (ok tt, d) later ≡ later
unfolding take_record
take_record_lem r arrival arrivals d later p q = ground arith

-- A defragmenter in which the type `t` has the decoder `h`, and no other type has a whole message.
module _ (t : ℕ) (h : Handler) (higher lower : Defragmenter) where
  pub record IsListening : Type 0 where
    pub fragmented : is_unfragmented t ≡ false
    pub others : All (IsOther t) higher
    pub idle_higher : All IsIdle higher
    pub idle_lower : All IsIdle lower

  abbrev pub receiver : ℕ × ℕ → Bytes → Receiver
  receiver version buf = record {
    defragmenter = with_buffer t h higher lower buf;
    last_record_version = version;
  }

  -- A call has given the message, and the rest is in the buffer and the records that are still to come.
  pub record Delivers (msg rest : Bytes) (r : Received × (Receiver × List Arrival)) : Type 0 where
    pub version : ℕ × ℕ
    pub buf : Bytes
    pub arrivals : List Arrival
    pub result : r ≡ (message version t msg, (receiver version buf, arrivals))
    pub stream : buf ++ payloads arrivals ≡ rest
    pub typed : All (IsOf t) arrivals

  -- A whole message at the start of the stream is what the buffer ends at.
  same_end :
      (buf more msg rest : Bytes) (n : ℕ)
      → buf ++ more ≡ msg ++ rest
      → IsWhole h msg
      → message_end h buf ≡ some n
      → n ≡ length msg
  same_end buf more msg rest n e whole found = some-injective (
      sym (message_end-append h buf more n found)
      ∙ ap (message_end h) e
      ∙ message_end-append h msg rest (length msg) whole)
    where
      some-injective : {a b : ℕ} → some a ≡ some b → a ≡ b
      some-injective p = ground arith

  cut_here :
      (version : ℕ × ℕ) (buf msg rest : Bytes) (arrivals : List Arrival) (n : ℕ)
      (later : Received × (Receiver × List Arrival))
      → IsListening
      → All (IsOf t) arrivals
      → buf ++ payloads arrivals ≡ msg ++ rest
      → IsWhole h msg
      → message_end h buf ≡ some n
      → Delivers msg rest (
          take_message
            (ok (some (t, take n buf)), with_buffer t h higher lower (drop n buf))
            (receiver version buf)
            arrivals
            later)
  unfolding take_message
  cut_here version buf msg rest arrivals n later listening typed e whole found =
      let same : n ≡ length msg = same_end buf (payloads arrivals) msg rest n e whole found in
      let inside : n ≤ length buf = message_end_inside h buf n found in
      record {
        version = version;
        buf = drop n buf;
        arrivals = arrivals;
        result =
            ap (λ (m : Bytes). (message version t m, (receiver version (drop n buf), arrivals)))
              (sym (take_inside n buf (payloads arrivals) inside)
                ∙ ap (take n) e
                ∙ take_by n msg rest (sym same));
        stream =
            sym (drop_inside n buf (payloads arrivals) inside)
            ∙ ap (drop n) e
            ∙ drop_by n msg rest (sym same);
        typed = typed;
      }

  added :
      (arrival : Arrival) (buf : Bytes)
      → IsListening
      → arrival.content_type ≡ t
      → add_data arrival.content_type arrival.payload (with_buffer t h higher lower buf)
        ≡ (ok tt, with_buffer t h higher lower (buf ++ arrival.payload))
  added arrival buf listening kind =
      ap (λ (u : ℕ). add_data u arrival.payload (with_buffer t h higher lower buf)) kind
      ∙ add_data_lem t h higher lower buf arrival.payload listening.others

  -- A record after which the loop goes on.
  go_on :
      (arrival : Arrival) (arrivals : List Arrival) (version : ℕ × ℕ) (buf : Bytes)
      → IsListening
      → IsOf t arrival
      → message_end h buf ≡ none
      → recv_message (receiver arrival.version (buf ++ arrival.payload)) arrivals
        ≡ recv_message (receiver version buf) (arrival ∷ arrivals)
  unfolding recv_message take_message
  go_on arrival arrivals version buf listening (kind, tls) found =
      rw
        (
          get_message-none t h higher lower buf listening.idle_higher listening.idle_lower found,
          added arrival buf listening kind,
        )
        (sym (
          take_record_lem (receiver version buf) arrival arrivals
            (with_buffer t h higher lower (buf ++ arrival.payload)) _
            (ap is_unfragmented kind ∙ listening.fragmented) tls))

  pub recv_message-Delivers :
      (arrivals : List Arrival) (version : ℕ × ℕ) (buf msg rest : Bytes)
      → IsListening
      → All (IsOf t) arrivals
      → buf ++ payloads arrivals ≡ msg ++ rest
      → IsWhole h msg
      → Delivers msg rest (recv_message (receiver version buf) arrivals)
  unfolding recv_message
  recv_message-Delivers [] version buf msg rest listening typed e whole =
      elim (Option-cases (message_end h buf)) [
        | inl found ↦ absurd (
            empty_handed (
              sym found
              ∙ ap (message_end h) (sym (append-nil buf) ∙ e)
              ∙ message_end-append h msg rest (length msg) whole))
        | inr (n, found) ↦
            rw (get_message_whole t h higher lower buf n listening.idle_higher found)
              (cut_here version buf msg rest [] n _ listening typed e whole found)
      ]
    where
      empty_handed : {n : ℕ} → none ≡ some n → ⊥
      empty_handed p = ground arith
  recv_message-Delivers (arrival ∷ arrivals) version buf msg rest listening ((kind, tls), typed) e
        whole =
      elim (Option-cases (message_end h buf)) [
        | inl found ↦
            subst (Delivers msg rest)
              (go_on arrival arrivals version buf listening (kind, tls) found)
              (recv_message-Delivers arrivals arrival.version (buf ++ arrival.payload) msg rest
                listening typed (append_assoc buf arrival.payload (payloads arrivals) ∙ e) whole)
        | inr (n, found) ↦
            rw (get_message_whole t h higher lower buf n listening.idle_higher found) (
              cut_here version buf msg rest (arrival ∷ arrivals) n _ listening ((kind, tls), typed)
                e whole found)
      ]
