-- ===== src/RecordLayer/Stripping.antt =====
-- tlslite/recordlayer.py: the MAC and the padding at the end of a record are taken off again.
use tls_dvnizk.Base.{
  ℕ, zero, suc, ◌+◌, ◌-◌, ◌^◌, ◌<◌, ◌≡◌, refl, sym, ap, ◌∙◌, ◌∷◌, ◌++◌, true, false, ltb, ◌==◌,
  length, length-append, length-replicate, replicate, take, drop, take-append, drop-append, ok,
  arith,
}
use tls_dvnizk.Base.Bytes.{Bytes, be_bytes, byte_at}
use tls_dvnizk.ConstantTime.Cbc.{Mac, before_tls13, mac_header}
use tls_dvnizk.ConstantTime.CbcCheck.{ct_compare_digest_lem}
use tls_dvnizk.ConstantTime.Loops.{byte_at-drop}
use tls_dvnizk.RecordLayer.State.{ConnectionState, next_seqnum, Settings}
use tls_dvnizk.RecordLayer.Protect.{calculate_mac}
use tls_dvnizk.RecordLayer.Open.{without_last, last_bytes, check_mac, all_are, strip_padding}
use tls_dvnizk.RecordLayer.Sealing.{get_seq_num_bytes_lem}

pub calculate_mac_lem :
    (own : Settings) (mac : Mac) (seqnum_bytes : Bytes) (content_type : ℕ) (text : Bytes)
    (s : ConnectionState)
    → content_type < 256
    → before_tls13 own.version ≡ true
    → length text < 2 ^ 16
    → calculate_mac own mac seqnum_bytes content_type text s ≡ (
      ok (mac.digest (mac_header seqnum_bytes content_type own.version (length text) ++ text)),
      s,
    )
unfolding calculate_mac
calculate_mac_lem own mac seqnum_bytes content_type text s byte old fits = rw old ground arith

before_end : (n : ℕ) (xs ys : Bytes) → length ys ≡ n → length (xs ++ ys) - n ≡ length xs
before_end n xs ys e = omega (arith, length-append xs ys)

nonzero : (n : ℕ) → 0 < n → (n == 0) ≡ false
nonzero n h = ground arith

last_of : (n : ℕ) (xs ys : Bytes) → length ys ≡ n → 0 < n → last_bytes n (xs ++ ys) ≡ ys
last_of n xs ys e p =
    rw (nonzero n p) (ap (λ (k : ℕ). drop k (xs ++ ys)) (before_end n xs ys e) ∙ drop-append xs ys)

before_last : (n : ℕ) (xs ys : Bytes) → length ys ≡ n → 0 < n → without_last n (xs ++ ys) ≡ xs
before_last n xs ys e p =
    rw (nonzero n p) (ap (λ (k : ℕ). take k (xs ++ ys)) (before_end n xs ys e) ∙ take-append xs ys)

-- A MAC at the end that is the right one is taken off.
pub check_mac_lem :
    (own : Settings) (mac : Mac) (record_type : ℕ) (text code : Bytes) (s : ConnectionState)
    → record_type < 256
    → before_tls13 own.version ≡ true
    → length text < 2 ^ 16
    → s.seqnum < 256 ^ 8
    → 0 < mac.digest_size
    → length code ≡ mac.digest_size
    → code
      ≡ mac.digest (mac_header (be_bytes 8 s.seqnum) record_type own.version (length text) ++ text)
    → check_mac own mac record_type (text ++ code) s ≡ (ok text, next_seqnum s)
unfolding check_mac
check_mac_lem own mac record_type text code s byte old fits small positive size right =
    rw
      (
        long_enough,
        last_of mac.digest_size text code size positive,
        before_last mac.digest_size text code size positive,
        get_seq_num_bytes_lem s small,
        calculate_mac_lem own mac (be_bytes 8 s.seqnum) record_type text (next_seqnum s) byte old
            fits,
        (ct_compare_digest_lem
              (mac.digest
                (mac_header (be_bytes 8 s.seqnum) record_type own.version (length text) ++ text))
              code).1
            (sym right),
      )
      refl
  where
    long_enough : ltb (length (text ++ code)) mac.digest_size ≡ false
    long_enough = ground (arith, length-append text code)

all_are-replicate : (n v : ℕ) → all_are v (replicate n v) ≡ true
unfolding all_are
all_are-replicate zero v = refl
all_are-replicate (suc n) v = ground (arith, all_are-replicate n v)

take-replicate : (n v : ℕ) → take n (replicate (suc n) v) ≡ replicate n v
take-replicate zero v = refl
take-replicate (suc n) v = ap (λ (t : Bytes). v ∷ t) (take-replicate n v)

byte_at-replicate : (n v : ℕ) → byte_at n (replicate (suc n) v) ≡ v
byte_at-replicate zero v = refl
byte_at-replicate (suc n) v = byte_at-replicate n v

last_item : (buf : Bytes) (n v : ℕ) → byte_at (length buf + n) (buf ++ replicate (suc n) v) ≡ v
last_item buf n v =
    sym (byte_at-drop (length buf) n (buf ++ replicate (suc n) v))
    ∙ ap (byte_at n) (drop-append buf (replicate (suc n) v))
    ∙ byte_at-replicate n v

strips :
    (own : Settings) (text buf : Bytes) (n : ℕ) (s : ConnectionState)
    → length text ≡ length buf + suc n
    → byte_at (length text - 1) text ≡ n
    → last_bytes (n + 1) text ≡ replicate (suc n) n
    → without_last (n + 1) text ≡ buf
    → strip_padding own text s ≡ (ok buf, s)
unfolding strip_padding
strips own text buf n s size last tail front =
    rw (last, tail, front, take-replicate n n, all_are-replicate n n) ground arith

-- Padding that `addPadding` added is taken off.
pub strip_padding_lem :
    (own : Settings) (buf : Bytes) (n : ℕ) (s : ConnectionState)
    → strip_padding own (buf ++ replicate (suc n) n) s ≡ (ok buf, s)
strip_padding_lem own buf n s =
    strips own (buf ++ replicate (suc n) n) buf n s size
      (ap (λ (k : ℕ). byte_at k (buf ++ replicate (suc n) n)) at_end ∙ last_item buf n n)
      (last_of (n + 1) buf (replicate (suc n) n) one_more (omega arith))
      (before_last (n + 1) buf (replicate (suc n) n) one_more (omega arith))
  where
    one_more : length (replicate (suc n) n) ≡ n + 1
    one_more = omega (arith, length-replicate (suc n) n)

    size : length (buf ++ replicate (suc n) n) ≡ length buf + suc n
    size = omega (arith, length-append buf (replicate (suc n) n), one_more)

    at_end : length (buf ++ replicate (suc n) n) - 1 ≡ length buf + n
    at_end = omega (arith, size)
