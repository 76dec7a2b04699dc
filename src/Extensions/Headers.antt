-- ===== src/Extensions/Headers.antt =====
-- tlslite/extensions.py: `TLSExtension.write` and `TLSExtension.parse`, the type and the length before the payload.
use tls_dvnizk.Base.{
  ℕ, ◌≡◌, refl, sym, ap, subst, ◌++◌, length, Option, none, some, false, not, ◌==◌, Result, ok,
  modify, ◌>>=◌, ◌>>◌, arith,
}
use tls_dvnizk.Base.Bytes.{Bytes}
use tls_dvnizk.Codec.Writer.{Writer, empty_writer, extend, add_two}
use tls_dvnizk.Codec.Parser.{Parser, new_parser, advance, get}
use tls_dvnizk.Codec.Writing.{Fits}
use tls_dvnizk.Codec.Reading.{IsAt, get_fix_bytes_at}
use tls_dvnizk.Codec.Coded.{Coded, coded_then}
use tls_dvnizk.Codec.Parts.{add_two_coded, number_first}
use tls_dvnizk.Codec.Nested.{inner}
use tls_dvnizk.Codec.Items.{IsItem}
use tls_dvnizk.Extensions.Kinds.{Extension, Kind, Place, handler, ext_type, kind_of}
use tls_dvnizk.Extensions.Extension.{
  payload, payload_bytes, put_extension, parse_found, parse_extension,
}
use tls_dvnizk.Extensions.RoundTrip.{IsCarried, ReadBack, payload_coded}

-- A payload that is written, and read under its kind.
record IsBody (e : Extension) (kind : Option Kind) (bs : Bytes) : Type 0 where
  wrote : payload e empty_writer ≡ (ok tt, record { buffer = bs })
  found :
      (p : Parser) (rest : Bytes)
      → IsAt p (bs ++ rest)
      → parse_found kind (ext_type e) (length bs) p ≡ (ok e, advance (length bs) p)

payload-IsBody :
    (e : Extension) (kind : Option Kind) → ReadBack e kind → (bs : Bytes) × IsBody e kind bs
unfolding parse_found payload
payload-IsBody e none (type, bs, is_plain) = (
  bs,
  subst (λ (x : Extension). IsBody x none bs) (sym is_plain)
      (record {
        wrote = refl;
        found = λ p rest at. rw (get_fix_bytes_at p bs rest at, same (length bs)) refl;
      }),
)
  where
    same : (n : ℕ) → not (n == n) ≡ false
    same n = ground arith
payload-IsBody e (some kind) back = (
  back.bytes,
  record {
    wrote = back.writes empty_writer;
    found = λ p rest at.
        rw
          (
            get_fix_bytes_at p back.bytes rest at,
            back.reads (new_parser back.bytes) (record { unread = refl; inside = omega arith }),
          )
          refl;
  },
)

-- How many bytes a payload is written as.
abbrev pub payload_size : Extension → ℕ
payload_size e = length ((payload e empty_writer).1.buffer)

module _ (e : Extension) where
  body_size :
      (bs : Bytes)
      → payload e empty_writer ≡ (ok tt, record { buffer = bs })
      → payload_size e ≡ length bs
  body_size bs h = ap (λ (r : Result (Unit {0}) × Writer). length (r.1.buffer)) h

  body_only :
      (bs : Bytes)
      → IsBody e (kind_of e) bs
      → Coded (modify (extend bs)) (parse_found (kind_of e) (ext_type e) (length bs)) e
  body_only bs body = record { bytes = bs; writes = λ w. refl; reads = body.found }

  size_and_body :
      (bs : Bytes)
      → IsBody e (kind_of e) bs
      → Fits 2 (length bs)
      → Coded
          (inner (payload_bytes e) >>= λ data_bytes.
            add_two (length data_bytes) >> modify (extend data_bytes))
          (get 2 >>= parse_found (kind_of e) (ext_type e))
          e
  unfolding payload_bytes
  size_and_body bs body fits =
      let c =
        coded_then _ _ _ (parse_found (kind_of e) (ext_type e)) (length bs) e
          (add_two_coded (length bs) fits) (body_only bs body) in
      record { bytes = c.bytes; writes = λ w. rw body.wrote (c.writes w); reads = c.reads }

  pub extension_coded :
      (place : Place)
      → handler place (ext_type e) ≡ kind_of e
      → IsCarried e
      → Fits 2 (ext_type e)
      → Fits 2 (payload_size e)
      → Coded (put_extension e) (parse_extension place) e
  unfolding put_extension parse_extension
  extension_coded place known h fits fits' =
      let (bs, body) = payload-IsBody e (kind_of e) (payload_coded e h) in
      coded_then _ _ _ _ (ext_type e) e (add_two_coded (ext_type e) fits) (
        subst
          (λ (kind : Option Kind).
            Coded
              (inner (payload_bytes e) >>= λ data_bytes.
                add_two (length data_bytes) >> modify (extend data_bytes))
              (get 2 >>= parse_found kind (ext_type e)) e)
          (sym known) (size_and_body bs body (subst (Fits 2) (body_size bs body.wrote) fits')))

  pub extension_item :
      (place : Place)
      → handler place (ext_type e) ≡ kind_of e
      → IsCarried e
      → Fits 2 (ext_type e)
      → Fits 2 (payload_size e)
      → IsItem put_extension (parse_extension place) e
  unfolding extension_coded coded_then add_two_coded
  extension_item place known h fits fits' = record {
    coded = extension_coded place known h fits fits';
    some_bytes = number_first 2 (ext_type e) _ (omega arith);
  }

-- An extension that a list at this place can carry.
abbrev pub IsListed : Place → Extension → Type 0
IsListed place e =
    (handler place (ext_type e) ≡ kind_of e)
    × IsCarried e
    × Fits 2 (ext_type e)
    × Fits 2 (payload_size e)

-- An extension that the tables of a place know by the class it has, whose value the class can carry, and whose type and
-- payload fit two bytes each, is written by `write` behind what the writer has, and `parse` at that place, with
-- anything behind it, gives the extension back and stops at its end.
pub parse_extension-put_extension :
    (place : Place) (e : Extension) (w : Writer) (rest : Bytes)
    → IsListed place e
    → (bs : Bytes) × ((put_extension e w ≡ (ok tt, extend bs w))
        × (parse_extension place (new_parser (bs ++ rest))
            ≡ (ok e, advance (length bs) (new_parser (bs ++ rest)))))
parse_extension-put_extension place e w rest (known, h, fits, fits') =
    let c = extension_coded e place known h fits fits' in
    (
      c.bytes,
      (
        c.writes w,
        c.reads (new_parser (c.bytes ++ rest)) rest
            (record { unread = refl; inside = omega arith }),
      ),
    )
