-- ===== src/Fragments/Tests.antt =====
-- The witnesses: two alerts and a handshake message of four and two bytes, in records of three.
use tls_dvnizk.Base.{◌≡◌, refl, List, [], ◌∷◌, none, ok, arith, All, map, ◌++◌}
use tls_dvnizk.Base.Bytes.{be_value}
use tls_dvnizk.Fragments.Message.{Message}
use tls_dvnizk.Fragments.Defragmenter.{dynamic_size, static_size, new_slot, Defragmenter}
use tls_dvnizk.Fragments.Handlers.{message_end}
use tls_dvnizk.Fragments.Sending.{Sender, new_sender, send_flight}
use tls_dvnizk.Fragments.Flights.{tagged, pending, SendsAll, send_flight-SendsAll}
use tls_dvnizk.Fragments.Receiving.{is_unfragmented}
use tls_dvnizk.Fragments.Delivery.{IsListening, receiver}
use tls_dvnizk.Fragments.Channel.{
  arrive, recv_messages, Collects, IsSendable, recv_messages-send_flight,
}

-- A `Finished` of two bytes and a `ServerHelloDone`.
abbrev flight : List Message
flight =
    record { content_type = 22; data_bytes = 20 ∷ 0 ∷ 0 ∷ 2 ∷ 7 ∷ 9 ∷ [] }
    ∷ record { content_type = 22; data_bytes = 14 ∷ 0 ∷ 0 ∷ 0 ∷ [] }
    ∷ []

abbrev alerts : Defragmenter
alerts = new_slot 21 (static_size 2) ∷ []

listening : IsListening 22 (dynamic_size 1 3) alerts []
unfolding is_unfragmented message_end
listening = record {
  fragmented = refl;
  others = (omega arith, tt);
  idle_higher = (refl, tt);
  idle_lower = tt;
}

sendable : All (IsSendable 22 (dynamic_size 1 3)) flight
unfolding message_end be_value
sendable = ((refl, refl), ((refl, refl), tt))

recv_messages-send_flight_example :
    (records : List Message) × (after : Sender) × ((send_flight flight
          (record { send_buffer = []; send_buffer_type = none; record_size = 3 })
        ≡ (ok records, after))
      × Collects 22 (dynamic_size 1 3) alerts [] flight (
          recv_messages 2
            (receiver 22 (dynamic_size 1 3) alerts [] (0, 0) [])
            (map (arrive (3, 3)) records)))
recv_messages-send_flight_example =
    recv_messages-send_flight 22 (dynamic_size 1 3) alerts [] 3 (3, 3) (0, 0) flight (omega arith)
      listening sendable

send_flight-SendsAll_example :
    SendsAll new_sender.record_size
      (pending new_sender ++ tagged flight)
      (send_flight flight new_sender)
send_flight-SendsAll_example = send_flight-SendsAll flight new_sender (omega arith) (λ e. refl)
