-- ===== src/Codec/LengthChecks.antt =====
-- tlslite/utils/codec.py: where a parser's length check starts and ends.
use tls_dvnizk.Base.{ℕ, ◌+◌, ◌≤◌, ◌≡◌, refl, true, false, ◌++◌, ok, arith}
use tls_dvnizk.Base.Bytes.{Bytes, be_bytes}
use tls_dvnizk.Codec.Parser.{
  Parser, advance, start_length_check, stop_length_check, at_length_check,
}
use tls_dvnizk.Codec.Writing.{Fits}
use tls_dvnizk.Codec.Reading.{IsAt, get_at}

-- What `atLengthCheck` says before the end and at it.
pub not_done :
    (p : Parser) (n : ℕ)
    → p.index_check ≤ p.index
    → p.index + n ≡ p.index_check + p.length_check
    → 1 ≤ n
    → at_length_check p ≡ (ok false, p)
unfolding at_length_check
not_done p n h e k = ground arith

pub is_done :
    (p : Parser)
    → p.index_check ≤ p.index
    → p.index + 0 ≡ p.index_check + p.length_check
    → at_length_check p ≡ (ok true, p)
unfolding at_length_check
is_done p h e = ground arith

-- Where a length check starts.
abbrev pub checked : ℕ → Parser → Parser
checked n p = record p { length_check = n; index_check = p.index }

pub checked-IsAt : (p : Parser) (n : ℕ) (bs : Bytes) → IsAt p bs → IsAt (checked n p) bs
checked-IsAt p n bs at = record { unread = at.unread; inside = at.inside }

pub start_lem :
    (p : Parser) (n x : ℕ) (rest : Bytes)
    → Fits n x
    → IsAt p (be_bytes n x ++ rest)
    → start_length_check n p ≡ (ok tt, checked x (advance n p))
unfolding start_length_check
start_lem p n x rest fits at = rw (get_at p n x rest fits at) refl

pub stop_lem :
    (p : Parser) (n : ℕ)
    → stop_length_check (advance n (checked n p)) ≡ (ok tt, advance n (checked n p))
unfolding stop_length_check
stop_lem p n = ground arith
