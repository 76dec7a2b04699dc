-- ===== src/RecordLayer/Headers.antt =====
-- tlslite/messages.py: `RecordHeader3` is read back from what it writes.
use tls_dvnizk.Base.{
  ℕ, ◌/◌, ◌%◌, ◌^◌, ◌<◌, ◌≡◌, refl, ap, ◌∙◌, [], ◌∷◌, ◌++◌, length, append_assoc, Result, ok, arith,
}
use tls_dvnizk.Base.Bytes.{Bytes, be_bytes}
use tls_dvnizk.Codec.Writer.{Writer, extend}
use tls_dvnizk.Codec.Parser.{Parser, advance}
use tls_dvnizk.Codec.Writing.{add-Fits}
use tls_dvnizk.Codec.Reading.{IsAt, get_at, after_number}
use tls_dvnizk.Codec.RoundTrip.{ReadsBack, reads_back}
use tls_dvnizk.RecordLayer.Header.{Header, create3, write3, parse3}

-- The five bytes of a header.
unfoldable pub header_bytes : ℕ → ℕ → ℕ → ℕ → Bytes
header_bytes type major minor len =
    be_bytes 1 type ++ (be_bytes 1 major ++ (be_bytes 1 minor ++ be_bytes 2 len))

pub header_bytes_lem :
    (type major minor len : ℕ)
    → type < 256
    → major < 256
    → minor < 256
    → len < 2 ^ 16
    → header_bytes type major minor len ≡ type ∷ major ∷ minor ∷ len / 256 ∷ len % 256 ∷ []
unfolding header_bytes be_bytes
header_bytes_lem type major minor len p q r f = ground arith

pub write3_lem :
    (type major minor len : ℕ) (w : Writer)
    → type < 256
    → major < 256
    → minor < 256
    → len < 2 ^ 16
    → write3 (create3 (major, minor) type len) w
      ≡ (ok tt, extend (header_bytes type major minor len) w)
unfolding write3 create3 header_bytes
write3_lem type major minor len w p q r f =
    rw
      (
        add-Fits type 1 w (omega arith),
        add-Fits major 1 (extend (be_bytes 1 type) w) (omega arith),
        add-Fits minor 1 (extend (be_bytes 1 major) (extend (be_bytes 1 type) w)) (omega arith),
        add-Fits len 2
            (extend (be_bytes 1 minor) (extend (be_bytes 1 major) (extend (be_bytes 1 type) w)))
            (omega arith),
        append_assoc,
        append_assoc,
        append_assoc,
      )
      refl

parse3_at :
    (type major minor len : ℕ) (p : Parser) (rest : Bytes)
    → type < 256
    → major < 256
    → minor < 256
    → len < 2 ^ 16
    → IsAt p
        (be_bytes 1 type ++ (be_bytes 1 major ++ (be_bytes 1 minor ++ (be_bytes 2 len ++ rest))))
    → parse3 p
      ≡ (ok (create3 (major, minor) type len), advance 2 (advance 1 (advance 1 (advance 1 p))))
unfolding parse3
parse3_at type major minor len p rest a b c d at =
    let second =
      after_number p 1 type (be_bytes 1 major ++ (be_bytes 1 minor ++ (be_bytes 2 len ++ rest)))
        at in
    let third =
      after_number (advance 1 p) 1 major (be_bytes 1 minor ++ (be_bytes 2 len ++ rest)) second in
    let fourth = after_number (advance 1 (advance 1 p)) 1 minor (be_bytes 2 len ++ rest) third in
    rw
      (
        get_at p 1 type (be_bytes 1 major ++ (be_bytes 1 minor ++ (be_bytes 2 len ++ rest)))
            (omega arith) at,
        get_at (advance 1 p) 1 major (be_bytes 1 minor ++ (be_bytes 2 len ++ rest)) (omega arith)
            second,
        get_at (advance 1 (advance 1 p)) 1 minor (be_bytes 2 len ++ rest) (omega arith) third,
        get_at (advance 1 (advance 1 (advance 1 p))) 2 len rest (omega arith) fourth,
      )
      refl

five :
    (p : Parser) (bs : Bytes)
    → length bs ≡ 5
    → advance 2 (advance 1 (advance 1 (advance 1 p))) ≡ advance (length bs) p
five p bs e = ground arith

-- A header of one byte each for the type and the version, and two for the length, is read back.
pub parse3-write3 :
    (type major minor len : ℕ) (w : Writer)
    → type < 256
    → major < 256
    → minor < 256
    → len < 2 ^ 16
    → ((write3 (create3 (major, minor) type len) w).0 ≡ ok tt)
      × ReadsBack w
          (write3 (create3 (major, minor) type len) w)
          parse3
          (create3 (major, minor) type len)
unfolding header_bytes
parse3-write3 type major minor len w a b c d =
    reads_back w (header_bytes type major minor len) (write3 (create3 (major, minor) type len) w)
      parse3 (create3 (major, minor) type len) (write3_lem type major minor len w a b c d)
      (λ p rest at.
        parse3_at type major minor len p rest a b c d (regrouped p rest at)
        ∙ ap
            (λ (q : Parser).
              let r : Result Header × Parser = (ok (create3 (major, minor) type len), q) in r)
            (five p (header_bytes type major minor len)
              (ap length (header_bytes_lem type major minor len a b c d))))
  where
    regrouped :
        (p : Parser) (rest : Bytes)
        → IsAt p (header_bytes type major minor len ++ rest)
        → IsAt p (
            be_bytes 1 type ++ (be_bytes 1 major ++ (be_bytes 1 minor ++ (be_bytes 2 len ++ rest))))
    regrouped p rest at = rw (append_assoc, append_assoc, append_assoc) at at
