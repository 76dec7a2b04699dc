-- ===== src/Fragments/Handlers.antt =====
-- tlslite/defragmenter.py: what a decoder says of a buffer.
use tls_dvnizk.Base.{
  ℕ, zero, suc, ◌+◌, ◌-◌, ◌≤◌, ◌≡◌, refl, ap, [], ◌∷◌, ◌++◌, ltb, if◌then◌else◌, Option, none, some,
  length, take, drop, ok, arith, length-append,
}
use tls_dvnizk.Base.Bytes.{Bytes, be_value}
use tls_dvnizk.Codec.Parser.{new_parser, get, get_fix_bytes, skip_bytes, get_remaining_length}
use tls_dvnizk.Fragments.Defragmenter.{
  Handler, static_size, dynamic_size, header_size, size_handler,
}

-- The length that stands in the header.
abbrev pub stated : ℕ → ℕ → Bytes → ℕ
stated offset k bs = be_value (take k (drop offset bs))

-- Where a message ends that starts a string, if it is whole there.
unfoldable pub message_end : Handler → Bytes → Option ℕ
message_end (static_size size) bs = if ltb (length bs) size then none else some size
message_end (dynamic_size offset k) bs =
    if ltb (length bs) (offset + k)
    then none
    else (if ltb (length bs - (offset + k)) (stated offset k bs)
        then none
        else some (offset + k + stated offset k bs))

header_size_lem :
    (offset k : ℕ) (bs : Bytes)
    → offset + k ≤ length bs
    → (header_size offset k (new_parser bs)).0
      ≡ ok (
          if ltb (length bs - (offset + k)) (stated offset k bs)
          then none
          else some (offset + k + stated offset k bs))
unfolding header_size skip_bytes get get_fix_bytes get_remaining_length
header_size_lem offset k bs h = ground arith

pub size_handler_lem : (h : Handler) (bs : Bytes) → size_handler h bs ≡ ok (message_end h bs)
unfolding size_handler message_end
size_handler_lem (static_size size) bs = refl
size_handler_lem (dynamic_size offset k) bs = ground (arith, header_size_lem offset k bs)

pub message_end_inside :
    (h : Handler) (bs : Bytes) (n : ℕ) → message_end h bs ≡ some n → n ≤ length bs
unfolding message_end
message_end_inside (static_size size) bs n e = ground arith
message_end_inside (dynamic_size offset k) bs n e = ground arith

take-take-append :
    (k offset : ℕ) (bs more : Bytes)
    → offset + k ≤ length bs
    → take k (drop offset (bs ++ more)) ≡ take k (drop offset bs)
take-take-append zero offset bs more h = refl
take-take-append (suc k) offset [] more h = absurd (omega arith)
take-take-append (suc k) zero (x ∷ bs) more h =
    ap (λ (t : Bytes). x ∷ t) (take-take-append k zero bs more (omega arith))
take-take-append (suc k) (suc offset) (x ∷ bs) more h =
    take-take-append (suc k) offset bs more (omega arith)

header_inside :
    (offset k : ℕ) (bs : Bytes) (n : ℕ)
    → message_end (dynamic_size offset k) bs ≡ some n
    → offset + k ≤ length bs
unfolding message_end
header_inside offset k bs n e = ground arith

pub message_end-append :
    (h : Handler) (bs more : Bytes) (n : ℕ)
    → message_end h bs ≡ some n
    → message_end h (bs ++ more) ≡ some n
unfolding message_end
message_end-append (static_size size) bs more n e = ground (arith, length-append bs more)
message_end-append (dynamic_size offset k) bs more n e = ground (
  arith,
  length-append bs more,
  ap be_value (take-take-append k offset bs more (header_inside offset k bs n e)),
)

-- Bounds that the constructors of the decoders check.
unfoldable pub IsProper : Handler → Type 0
IsProper (static_size size) = 1 ≤ size
IsProper (dynamic_size offset k) = 1 ≤ k

pub message_end_nil : (h : Handler) → IsProper h → message_end h [] ≡ none
unfolding message_end IsProper
message_end_nil (static_size size) h = ground arith
message_end_nil (dynamic_size offset k) h = ground arith

pub message_end_positive :
    (h : Handler) (bs : Bytes) (n : ℕ) → IsProper h → message_end h bs ≡ some n → 1 ≤ n
unfolding message_end IsProper
message_end_positive (static_size size) bs n h e = ground arith
message_end_positive (dynamic_size offset k) bs n h e = ground arith

-- A string that is one message.
abbrev pub IsWhole : Handler → Bytes → Type 0
IsWhole h msg = message_end h msg ≡ some (length msg)
