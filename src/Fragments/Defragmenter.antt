-- ===== src/Fragments/Defragmenter.antt =====
-- tlslite/defragmenter.py: class `Defragmenter`. The list of priorities and the two dictionaries always have the
-- same keys, so that one list in the order of `priorities` holds the three: a slot is a key with its buffer and
-- its decoder.
use tls_dvnizk.Base.{
  ℕ, ◌+◌, List, [], ◌∷◌, ◌++◌, ◌||◌, ◌&&◌, Bool, true, false, not, ltb, ◌==◌, if◌then◌else◌, Option,
  none, some, length, take, drop, Method, Result, ok, err, pure, ◌>>=◌, ◌>>◌, value_error,
}
use tls_dvnizk.Base.Bytes.{Bytes}
use tls_dvnizk.Codec.Parser.{Parser, new_parser, get, skip_bytes, get_remaining_length}

-- The two closures named `size_handler`, with what they close over.
pub data Handler : Type 0 where
  static_size : ℕ → Handler
  dynamic_size : ℕ → ℕ → Handler

pub record Slot : Type 0 where
  pub msg_type : ℕ
  pub decoder : Handler
  pub buffer : Bytes

abbrev pub Defragmenter : Type 0
Defragmenter = List Slot

-- `size_handler` of `add_dynamic_size` past its first test.
unfoldable pub header_size : ℕ → ℕ → Method Parser (Option ℕ)
header_size size_offset size_of_size = do
  skip_bytes size_offset
  payload_length ← get size_of_size
  remaining ← get_remaining_length
  pure (
      if ltb remaining payload_length
      then none
      else some (size_offset + size_of_size + payload_length))

unfoldable pub size_handler : Handler → Bytes → Result (Option ℕ)
size_handler (static_size size) bs = ok (if ltb (length bs) size then none else some size)
size_handler (dynamic_size size_offset size_of_size) bs =
    if ltb (length bs) (size_offset + size_of_size)
    then ok none
    else (header_size size_offset size_of_size (new_parser bs)).0

-- `msg_type in self.priorities`
unfoldable pub defined : ℕ → Defragmenter → Bool
defined msg_type [] = false
defined msg_type (slot ∷ slots) = (slot.msg_type == msg_type) || defined msg_type slots

abbrev pub new_slot : ℕ → Handler → Slot
new_slot msg_type decoder = record { msg_type = msg_type; decoder = decoder; buffer = [] }

unfoldable pub add_static_size : ℕ → ℕ → Method Defragmenter (Unit {0})
add_static_size msg_type size d =
    if defined msg_type d
    then (err value_error, d)
    else (if ltb size 1
        then (err value_error, d)
        else (ok tt, d ++ (new_slot msg_type (static_size size) ∷ [])))

-- An offset is a number here, so that the test of a negative one is none.
unfoldable pub add_dynamic_size : ℕ → ℕ → ℕ → Method Defragmenter (Unit {0})
add_dynamic_size msg_type size_offset size_of_size d =
    if defined msg_type d
    then (err value_error, d)
    else (if ltb size_of_size 1
        then (err value_error, d)
        else (ok tt, d ++ (new_slot msg_type (dynamic_size size_offset size_of_size) ∷ [])))

-- `self.buffers[msg_type] += data`
unfoldable pub append_to : ℕ → Bytes → Defragmenter → Defragmenter
append_to msg_type new_data [] = []
append_to msg_type new_data (slot ∷ slots) =
    if slot.msg_type == msg_type
    then record slot { buffer = slot.buffer ++ new_data } ∷ slots
    else slot ∷ append_to msg_type new_data slots

unfoldable pub add_data : ℕ → Bytes → Method Defragmenter (Unit {0})
add_data msg_type new_data d =
    if not (defined msg_type d)
    then (err value_error, d)
    else (ok tt, append_to msg_type new_data d)

-- A round of the loop of `get_message`, by what the decoder says; `later` is what the rounds after it come to.
unfoldable pub try_slot :
    Slot
    → Defragmenter
    → Result (Option ℕ)
    → Result (Option (ℕ × Bytes)) × Defragmenter
    → Result (Option (ℕ × Bytes)) × Defragmenter
try_slot slot slots (err problem) later = (err problem, slot ∷ slots)
try_slot slot slots (ok none) (result, rest) = (result, slot ∷ rest)
try_slot slot slots (ok (some n)) later = (
  ok (some (slot.msg_type, take n slot.buffer)),
  record slot { buffer = drop n slot.buffer } ∷ slots,
)

unfoldable pub get_message : Method Defragmenter (Option (ℕ × Bytes))
get_message [] = (ok none, [])
get_message (slot ∷ slots) =
    try_slot slot slots (size_handler slot.decoder slot.buffer) (get_message slots)

unfoldable pub clear_buffers : Defragmenter → Defragmenter
clear_buffers [] = []
clear_buffers (slot ∷ slots) = record slot { buffer = [] } ∷ clear_buffers slots

unfoldable pub is_empty : Defragmenter → Bool
is_empty [] = true
is_empty (slot ∷ slots) = (length slot.buffer == 0) && is_empty slots
