-- ===== src/Fragments/Slots.antt =====
-- tlslite/defragmenter.py: adding and taking where one message type is being received and the buffers of the others
-- hold no whole message.
use tls_dvnizk.Base.{
  ℕ, ◌≡◌, ◌≢◌, refl, ap, ◌∙◌, [], ◌∷◌, ◌++◌, true, Option, none, some, take, drop, Result, ok,
  arith, All,
}
use tls_dvnizk.Base.Bytes.{Bytes}
use tls_dvnizk.Fragments.Defragmenter.{
  Handler, Slot, Defragmenter, defined, append_to, add_data, try_slot, get_message,
}
use tls_dvnizk.Fragments.Handlers.{message_end, size_handler_lem}

-- No whole message is in the buffer.
abbrev pub IsIdle : Slot → Type 0
IsIdle slot = message_end slot.decoder slot.buffer ≡ none

abbrev pub IsOther : ℕ → Slot → Type 0
IsOther t slot = slot.msg_type ≢ t

-- The rounds by what the specification of a decoder says.
round_lem :
    (slot : Slot) (slots : Defragmenter)
    → get_message (slot ∷ slots)
      ≡ try_slot slot slots (ok (message_end slot.decoder slot.buffer)) (get_message slots)
unfolding get_message
round_lem slot slots =
    ap (λ (r : Result (Option ℕ)). try_slot slot slots r (get_message slots))
      (size_handler_lem slot.decoder slot.buffer)

pub idle_round :
    (slot : Slot) (slots : Defragmenter)
    → IsIdle slot
    → get_message (slot ∷ slots) ≡ ((get_message slots).0, slot ∷ (get_message slots).1)
unfolding try_slot
idle_round slot slots idle =
    round_lem slot slots
    ∙ ap (λ (o : Option ℕ). try_slot slot slots (ok o) (get_message slots)) idle

abbrev pub slot_of : ℕ → Handler → Bytes → Slot
slot_of t h buf = record { msg_type = t; decoder = h; buffer = buf }

pub all_idle : (slots : Defragmenter) → All IsIdle slots → get_message slots ≡ (ok none, slots)
unfolding get_message
all_idle [] idle = refl
all_idle (slot ∷ slots) (p, idle) = idle_round slot slots p ∙ rw (all_idle slots idle) refl

-- The slot of the type `t`, with those of a higher and of a lower priority.
module _ (t : ℕ) (h : Handler) (higher lower : Defragmenter) where
  abbrev pub with_buffer : Bytes → Defragmenter
  with_buffer buf = higher ++ (slot_of t h buf ∷ lower)

pub get_message_whole :
    (t : ℕ) (h : Handler) (higher lower : Defragmenter) (buf : Bytes) (n : ℕ)
    → All IsIdle higher
    → message_end h buf ≡ some n
    → get_message (with_buffer t h higher lower buf)
      ≡ (ok (some (t, take n buf)), with_buffer t h higher lower (drop n buf))
unfolding try_slot
get_message_whole t h [] lower buf n idle e =
    round_lem (slot_of t h buf) lower
    ∙ ap (λ (o : Option ℕ). try_slot (slot_of t h buf) lower (ok o) (get_message lower)) e
get_message_whole t h (slot ∷ higher) lower buf n (p, idle) e =
    idle_round slot (with_buffer t h higher lower buf) p
    ∙ rw (get_message_whole t h higher lower buf n idle e) refl

pub get_message-none :
    (t : ℕ) (h : Handler) (higher lower : Defragmenter) (buf : Bytes)
    → All IsIdle higher
    → All IsIdle lower
    → message_end h buf ≡ none
    → get_message (with_buffer t h higher lower buf) ≡ (ok none, with_buffer t h higher lower buf)
get_message-none t h [] lower buf idle idle_lower e =
    all_idle (slot_of t h buf ∷ lower) (e, idle_lower)
get_message-none t h (slot ∷ higher) lower buf (p, idle) idle_lower e =
    idle_round slot (with_buffer t h higher lower buf) p
    ∙ rw (get_message-none t h higher lower buf idle idle_lower e) refl

defined_lem :
    (t : ℕ) (h : Handler) (higher lower : Defragmenter) (buf : Bytes)
    → defined t (with_buffer t h higher lower buf) ≡ true
unfolding defined
defined_lem t h [] lower buf = ground arith
defined_lem t h (slot ∷ higher) lower buf = ground (arith, defined_lem t h higher lower buf)

append_to_lem :
    (t : ℕ) (h : Handler) (higher lower : Defragmenter) (buf more : Bytes)
    → All (IsOther t) higher
    → append_to t more (with_buffer t h higher lower buf)
      ≡ with_buffer t h higher lower (buf ++ more)
unfolding append_to
append_to_lem t h [] lower buf more others = ground arith
append_to_lem t h (slot ∷ higher) lower buf more (p, others) =
    ground (arith, append_to_lem t h higher lower buf more others, p)

pub add_data_lem :
    (t : ℕ) (h : Handler) (higher lower : Defragmenter) (buf more : Bytes)
    → All (IsOther t) higher
    → add_data t more (with_buffer t h higher lower buf)
      ≡ (ok tt, with_buffer t h higher lower (buf ++ more))
unfolding add_data
add_data_lem t h higher lower buf more others =
    rw (defined_lem t h higher lower buf)
      (ap (λ (d : Defragmenter). (ok tt, d)) (append_to_lem t h higher lower buf more others))
