-- ===== src/Fragments/Draining.antt =====
-- tlslite/defragmenter.py: `get_message` on any object, and the loop of `recvMessage` that calls it until no message is
-- left.
use tls_dvnizk.Base.{
  ℕ, zero, suc, ◌+◌, ◌≤◌, ◌≡◌, refl, sym, ap, subst, ◌∙◌, List, [], ◌∷◌, ◌++◌, Option, none, some,
  Option-cases, ◌⊎◌, inl, inr, length, take, drop, Result, ok, err, arith, All, All-append,
  length-drop,
}
use tls_dvnizk.Base.Bytes.{Bytes}
use tls_dvnizk.Fragments.Defragmenter.{
  static_size, dynamic_size, Slot, Defragmenter, get_message, new_slot, add_static_size,
  add_dynamic_size, append_to, add_data, clear_buffers,
}
use tls_dvnizk.Fragments.Handlers.{message_end, message_end_inside, message_end_positive, IsProper}
use tls_dvnizk.Fragments.Slots.{IsIdle, get_message_whole, all_idle, idle_round}

-- The first slot with a whole message gives it and keeps the rest; no other changes.
pub record Takes (d : Defragmenter) : Type 0 where
  pub higher : Defragmenter
  pub slot : Slot
  pub lower : Defragmenter
  pub size : ℕ
  pub shape : d ≡ higher ++ (slot ∷ lower)
  pub idle : All IsIdle higher
  pub whole : message_end slot.decoder slot.buffer ≡ some size
  pub result : get_message d ≡ (
    ok (some (slot.msg_type, take size slot.buffer)),
    higher ++ (record slot { buffer = drop size slot.buffer } ∷ lower),
  )

behind_idle :
    (slot : Slot) (slots : Defragmenter) → IsIdle slot → Takes slots → Takes (slot ∷ slots)
behind_idle slot slots idle later = record {
  higher = slot ∷ later.higher;
  slot = later.slot;
  lower = later.lower;
  size = later.size;
  shape = ap (λ (d : Defragmenter). slot ∷ d) later.shape;
  idle = (idle, later.idle);
  whole = later.whole;
  result = idle_round slot slots idle ∙ rw (later.result) refl;
}

-- `get_message` never raises: it gives the whole message at the start of the buffer of highest priority that has one,
-- and takes it out there, or else gives nothing and changes nothing.
pub get_message_lem : (d : Defragmenter) → (All IsIdle d × (get_message d ≡ (ok none, d))) ⊎ Takes d
get_message_lem [] = inl (tt, all_idle [] tt)
get_message_lem (slot ∷ slots) = elim (Option-cases (message_end slot.decoder slot.buffer)) [
  | inr (n, found) ↦ inr (record {
    higher = [];
    slot = slot;
    lower = slots;
    size = n;
    shape = refl;
    idle = tt;
    whole = found;
    result = get_message_whole slot.msg_type slot.decoder [] slots slot.buffer n tt found;
  })
  | inl idle ↦ elim (get_message_lem slots) [
    | inl (rest, nothing) ↦ inl ((idle, rest), all_idle (slot ∷ slots) (idle, rest))
    | inr later ↦ inr (behind_idle slot slots idle later)
  ]
]

-- The calls that change the object.
pub data Call : Defragmenter → Defragmenter → Type 0 where
  statically : (d : Defragmenter) (t size : ℕ) → Call d ((add_static_size t size d).1)
  dynamically :
      (d : Defragmenter) (t offset size : ℕ) → Call d ((add_dynamic_size t offset size d).1)
  adding : (d : Defragmenter) (t : ℕ) (bs : Bytes) → Call d ((add_data t bs d).1)
  getting : (d : Defragmenter) → Call d ((get_message d).1)
  clearing : (d : Defragmenter) → Call d (clear_buffers d)

-- What a new object can become.
pub data Reachable : Defragmenter → Type 0 where
  new : (d : Defragmenter) → d ≡ [] → Reachable d
  after : (d e : Defragmenter) → Reachable d → Call d e → Reachable e

abbrev IsSound : Slot → Type 0
IsSound slot = IsProper slot.decoder

append_to-IsSound :
    (t : ℕ) (bs : Bytes) (d : Defragmenter) → All IsSound d → All IsSound (append_to t bs d)
unfolding append_to
append_to-IsSound t bs [] h = tt
append_to-IsSound t bs (slot ∷ slots) (p, h) = ground (arith, append_to-IsSound t bs slots h)

clear_buffers-IsSound : (d : Defragmenter) → All IsSound d → All IsSound (clear_buffers d)
unfolding clear_buffers
clear_buffers-IsSound [] h = tt
clear_buffers-IsSound (slot ∷ slots) (p, h) = (p, clear_buffers-IsSound slots h)

other_buffer-IsSound :
    (higher : Defragmenter) (slot : Slot) (lower : Defragmenter) (buf : Bytes)
    → All IsSound (higher ++ (slot ∷ lower))
    → All IsSound (higher ++ (record slot { buffer = buf } ∷ lower))
other_buffer-IsSound [] slot lower buf h = h
other_buffer-IsSound (first ∷ higher) slot lower buf (p, h) =
    (p, other_buffer-IsSound higher slot lower buf h)

get_message-IsSound : (d : Defragmenter) → All IsSound d → All IsSound ((get_message d).1)
get_message-IsSound d h = elim (get_message_lem d) [
  | inl (idle, nothing) ↦ rw nothing h
  | inr takes ↦ rw (takes.result) (
      other_buffer-IsSound takes.higher takes.slot takes.lower (drop takes.size takes.slot.buffer)
        (subst (All IsSound) takes.shape h))
]

Call-IsSound : (d e : Defragmenter) → Call d e → All IsSound d → All IsSound e
unfolding add_static_size add_dynamic_size add_data IsProper
Call-IsSound d _ (statically _ t size) h =
    ground
      (arith, λ (p : 1 ≤ size). All-append IsSound d (new_slot t (static_size size) ∷ []) h (p, tt))
Call-IsSound d _ (dynamically _ t offset size) h = ground (
  arith,
  λ (p : 1 ≤ size). All-append IsSound d (new_slot t (dynamic_size offset size) ∷ []) h (p, tt),
)
Call-IsSound d _ (adding _ t bs) h = ground (arith, append_to-IsSound t bs d h)
Call-IsSound d _ (getting _) h = get_message-IsSound d h
Call-IsSound d _ (clearing _) h = clear_buffers-IsSound d h

Reachable-IsSound : (d : Defragmenter) → Reachable d → All IsSound d
Reachable-IsSound d (new _ e) = subst (All IsSound) (sym e) tt
Reachable-IsSound e (after d _ before call) = Call-IsSound d e call (Reachable-IsSound d before)

-- All bytes in the buffers.
abbrev pub total : Defragmenter → ℕ
total [] = 0
total (slot ∷ slots) = length slot.buffer + total slots

total_taken :
    (higher : Defragmenter) (slot : Slot) (lower : Defragmenter) (n : ℕ)
    → n ≤ length slot.buffer
    → total (higher ++ (record slot { buffer = drop n slot.buffer } ∷ lower)) + n
      ≡ total (higher ++ (slot ∷ lower))
total_taken [] slot lower n h = omega (arith, length-drop n slot.buffer)
total_taken (first ∷ higher) slot lower n h = omega (arith, total_taken higher slot lower n h)

-- A turn of the loop, by what `get_message` has ended with; `later` is what the turns after it come to.
unfoldable pub drain_turn :
    Result (Option (ℕ × Bytes)) × Defragmenter
    → List (ℕ × Bytes) × Defragmenter
    → List (ℕ × Bytes) × Defragmenter
drain_turn (err problem, d) later = ([], d)
drain_turn (ok none, d) later = ([], d)
drain_turn (ok (some msg), d) (rest, left) = (msg ∷ rest, left)

-- The inner loop of `recvMessage`: the messages, and the object after them.
unfoldable pub drain : ℕ → Defragmenter → List (ℕ × Bytes) × Defragmenter
drain zero d = ([], d)
drain (suc fuel) d = drain_turn (get_message d) (drain fuel ((get_message d).1))

total-get_message :
    (d : Defragmenter) (takes : Takes d) → All IsSound d → total ((get_message d).1) + 1 ≤ total d
total-get_message d takes sound = omega (
  arith,
  ap (λ (r : Result (Option (ℕ × Bytes)) × Defragmenter). total (r.1)) takes.result,
  ap total takes.shape,
  total_taken takes.higher takes.slot takes.lower takes.size
      (message_end_inside takes.slot.decoder takes.slot.buffer takes.size takes.whole),
  message_end_positive takes.slot.decoder takes.slot.buffer takes.size
      (sound_slot takes.slot takes.lower takes.higher (subst (All IsSound) takes.shape sound))
      takes.whole,
)
  where
    sound_slot :
        (slot : Slot) (lower higher : Defragmenter)
        → All IsSound (higher ++ (slot ∷ lower))
        → IsProper slot.decoder
    sound_slot slot lower [] (p, h) = p
    sound_slot slot lower (first ∷ higher) (p, h) = sound_slot slot lower higher h

drain_ends :
    (fuel : ℕ) (d : Defragmenter)
    → All IsSound d
    → total d + 1 ≤ fuel
    → All IsIdle ((drain fuel d).1)
unfolding drain drain_turn
drain_ends zero d sound h = absurd (omega arith)
drain_ends (suc fuel) d sound h = elim (get_message_lem d) [
  | inl (idle, nothing) ↦
      subst
        (λ (r : Result (Option (ℕ × Bytes)) × Defragmenter).
          All IsIdle ((drain_turn r (drain fuel (r.1))).1))
        (sym nothing) idle
  | inr takes ↦
      let next = (get_message d).1 in
      let rest : All IsIdle ((drain fuel next).1) =
        drain_ends fuel next (get_message-IsSound d sound)
          (omega (arith, total-get_message d takes sound)) in
      let turn : ((drain_turn (get_message d) (drain fuel next)).1) ≡ (drain fuel next).1 =
        ap (λ (r : Result (Option (ℕ × Bytes)) × Defragmenter). (drain_turn r (drain fuel next)).1)
          takes.result in
      subst (All IsIdle) (sym turn) rest
]

-- From whatever calls on a new object, the loop that takes messages ends: after as many rounds as bytes are in the
-- buffers, and one that finds nothing, no buffer has a whole message left.
pub drain-Reachable : (d : Defragmenter) → Reachable d → All IsIdle ((drain (suc (total d)) d).1)
drain-Reachable d reachable =
    drain_ends (suc (total d)) d (Reachable-IsSound d reachable) (omega arith)
