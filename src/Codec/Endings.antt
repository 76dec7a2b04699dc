-- ===== src/Codec/Endings.antt =====
-- tlslite/utils/codec.py: how payloads end.
use tls_dvnizk.Base.{
  ℕ, ◌-◌, ◌≤◌, ◌≡◌, refl, sym, ap, ◌∙◌, [], ◌∷◌, true, false, ◌==◌, length, Result, ok, Method,
  pure, modify, ◌>>=◌, arith,
}
use tls_dvnizk.Base.Bytes.{Bytes}
use tls_dvnizk.Codec.Writer.{Writer, extend}
use tls_dvnizk.Codec.Parser.{Parser, get_fix_bytes, get_remaining_length}
use tls_dvnizk.Codec.Writing.{extend_nil}
use tls_dvnizk.Codec.Reading.{IsAt, get_fix_bytes_at, unread_length}
use tls_dvnizk.Codec.Coded.{Ends, nothing_more-IsAt, ends_tail}
use tls_dvnizk.Codec.Nested.{at_end, unless_empty}
use tls_dvnizk.Codec.Items.{}

pub nothing_left : (p : Parser) → IsAt p [] → (length p.buffer - p.index == 0) ≡ true
nothing_left p at = ground (arith, unread_length p [] at)

pub something_left :
    (p : Parser) (bs : Bytes) → 1 ≤ length bs → IsAt p bs → (length p.buffer - p.index == 0) ≡ false
something_left p bs h at = ground (arith, unread_length p bs at)

-- The end of a payload.
pub end_coded {ℓ} : {A : Type ℓ} (v : A) → Ends (pure tt) (at_end v) v
unfolding at_end get_remaining_length
end_coded v = record {
  bytes = [];
  writes = λ w. ap (λ (x : Writer). (ok tt, x)) (sym (extend_nil w));
  reads = λ p at. rw (nothing_left p at) refl;
}

-- A payload that may be missing, where it is not.
pub present_coded {ℓ} :
    {A : Type ℓ} (m : Method Writer (Unit {0})) (default v : A) (r : Method Parser A)
    (e : Ends m r v)
    → 1 ≤ length e.bytes
    → Ends m (unless_empty default r) v
unfolding unless_empty get_remaining_length
present_coded m default v r e h = record {
  bytes = e.bytes;
  writes = e.writes;
  reads = λ p at. rw (something_left p e.bytes h at) (e.reads p at);
}

-- The same where it is missing.
pub missing_coded {ℓ} :
    {A : Type ℓ} (default : A) (r : Method Parser A)
    → Ends (pure tt) (unless_empty default r) default
unfolding unless_empty get_remaining_length
missing_coded default r = record {
  bytes = [];
  writes = λ w. ap (λ (x : Writer). (ok tt, x)) (sym (extend_nil w));
  reads = λ p at. rw (nothing_left p at) refl;
}

-- What is left, whole.
unfoldable pub rest_coded :
    (bs : Bytes) → Ends (modify (extend bs)) (get_remaining_length >>= get_fix_bytes) bs
unfolding get_remaining_length
rest_coded bs = record {
  bytes = bs;
  writes = λ w. refl;
  reads = λ p at.
      ap (λ (n : ℕ). (get_fix_bytes n p).0) (left p at)
      ∙ ap (λ (r : Result Bytes × Parser). r.0)
          (get_fix_bytes_at p bs [] (nothing_more-IsAt p bs at));
}
  where
    left : (p : Parser) → IsAt p bs → length p.buffer - p.index ≡ length bs
    left p at = omega (arith, unread_length p bs at)

-- What is left, or a default that is written the same where nothing is left.
pub rest_or {ℓ} :
    {A : Type ℓ} (f : Bytes → A) (bs : Bytes)
    → Ends
        (modify (extend bs))
        (unless_empty (f []) (get_remaining_length >>= get_fix_bytes >>= λ x. pure (f x)))
        (f bs)
unfolding rest_coded ends_tail unless_empty get_remaining_length
rest_or f [] = record {
  bytes = [];
  writes = λ w. refl;
  reads = λ p at. rw (nothing_left p at) refl;
}
rest_or f (b ∷ bs) =
    present_coded (modify (extend (b ∷ bs))) (f []) (f (b ∷ bs))
      (get_remaining_length >>= get_fix_bytes >>= λ x. pure (f x))
      (ends_tail (modify (extend (b ∷ bs))) (get_remaining_length >>= get_fix_bytes) f (b ∷ bs)
        (rest_coded (b ∷ bs)))
      (one_more b bs)
  where
    one_more : (x : ℕ) (xs : Bytes) → 1 ≤ length (x ∷ xs)
    one_more x xs = omega arith
