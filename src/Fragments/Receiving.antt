-- ===== src/Fragments/Receiving.antt =====
-- tlslite/messagesocket.py: the receiving side of class `MessageSocket`. What `recvRecord` gives, one record after the
-- other, is the list of records to come.
use tls_dvnizk.Base.{
  ℕ, List, [], ◌∷◌, ◌||◌, Bool, ◌==◌, if◌then◌else◌, Option, none, some, Result, ok, err, Error,
}
use tls_dvnizk.Base.Bytes.{Bytes}
use tls_dvnizk.Fragments.Defragmenter.{Defragmenter, add_data, get_message}

-- A header and the bytes behind it, as `recvRecord` gives them.
pub record Arrival : Type 0 where
  pub content_type : ℕ
  pub version : ℕ × ℕ
  pub ssl2 : Bool
  pub payload : Bytes

pub record Receiver : Type 0 where
  pub defragmenter : Defragmenter
  pub last_record_version : ℕ × ℕ

-- What a call ends with.
pub data Received : Type 0 where
  message : ℕ × ℕ → ℕ → Bytes → Received
  unfragmented : Arrival → Received
  waiting : Received
  failed : Error → Received

-- `self.unfragmentedDataTypes`: application_data and heartbeat.
unfoldable pub is_unfragmented : ℕ → Bool
is_unfragmented t = (t == 23) || (t == 24)

-- The turn of the loop that `get_message` ends, or else `later`.
unfoldable pub take_message :
    Result (Option (ℕ × Bytes)) × Defragmenter
    → Receiver
    → List Arrival
    → Received × (Receiver × List Arrival)
    → Received × (Receiver × List Arrival)
take_message (err problem, d) r arrivals later =
    (failed problem, (record r { defragmenter = d }, arrivals))
take_message (ok (some (t, bs)), d) r arrivals later =
    (message r.last_record_version t bs, (record r { defragmenter = d }, arrivals))
take_message (ok none, d) r arrivals later = later

-- A record that has come in, after a turn without a message: what is passed on as it is, or the bytes added and then
-- `later`.
unfoldable pub take_record :
    Receiver
    → Arrival
    → List Arrival
    → Result (Unit {0}) × Defragmenter
    → Received × (Receiver × List Arrival)
    → Received × (Receiver × List Arrival)
take_record r arrival arrivals added later =
    if is_unfragmented arrival.content_type || arrival.ssl2
    then (unfragmented arrival, (r, arrivals))
    else (let (outcome, d) = added in
        elim outcome [
          | err problem ↦ (failed problem, (record r { defragmenter = d }, arrivals))
          | ok done ↦ later
        ])

-- `recvMessageBlocking`: a new generator `recvMessage` up to what it yields first.
unfoldable pub recv_message : Receiver → List Arrival → Received × (Receiver × List Arrival)
recv_message r [] = take_message (get_message r.defragmenter) r [] (waiting, (r, []))
recv_message r (arrival ∷ arrivals) =
    let added = add_data arrival.content_type arrival.payload r.defragmenter in
    let later =
      recv_message (record { defragmenter = added.1; last_record_version = arrival.version })
        arrivals in
    take_message (get_message r.defragmenter) r (arrival ∷ arrivals)
      (take_record r arrival arrivals added later)
