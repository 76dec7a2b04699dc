-- ===== src/Codec/Items.antt =====
-- tlslite/utils/codec.py: lists of items, written by a writer of their own and read in a loop.
use tls_dvnizk.Base.{
  ℕ, zero, suc, ◌+◌, ◌-◌, ◌≤◌, ◌<◌, ◌≡◌, refl, sym, ap, subst, ◌∙◌, List, [], ◌∷◌, ◌++◌, true,
  false, ◌==◌, length, length-append, All, Result, ok, Method, ◌>>=◌, ◌>>◌, arith,
}
use tls_dvnizk.Base.Bytes.{Bytes, be_bytes}
use tls_dvnizk.Codec.Writer.{Writer, empty_writer, extend, add_var_bytes}
use tls_dvnizk.Codec.Parser.{Parser, new_parser, advance, get_var_bytes, get_remaining_length}
use tls_dvnizk.Codec.Writing.{Fits, extend-extend, extend_nil}
use tls_dvnizk.Codec.Reading.{
  IsAt, advance-IsAt, regroup_IsAt, two_steps, after_number, unread_length,
}
use tls_dvnizk.Codec.LengthChecks.{not_done, is_done, checked, checked-IsAt, start_lem, stop_lem}
use tls_dvnizk.Codec.Coded.{Coded, Ends}
use tls_dvnizk.Codec.Parts.{bytes_coded}
use tls_dvnizk.Codec.Nested.{
  nested, inner, write_each, size_of, until_checked, read_list, until_end, to_the_end, read_all,
}

module _ {ℓ} {A : Type ℓ} (put : A → Method Writer (Unit {0})) (item : Method Parser A) where
  -- An item of a list: it has a format, and takes a byte at least.
  pub record IsItem (x : A) : Type ℓ where
    pub coded : Coded (put x) item x
    pub some_bytes : 1 ≤ length coded.bytes

  abbrev pub item_bytes : (xs : List A) → All IsItem xs → Bytes
  item_bytes [] all = []
  item_bytes (x ∷ xs) (i, all) = i.coded.bytes ++ item_bytes xs all

  write_each_lem :
      (xs : List A) (all : All IsItem xs) (w : Writer)
      → write_each put xs w ≡ (ok tt, extend (item_bytes xs all) w)
  write_each_lem [] all w = ap (λ (x : Writer). (ok tt, x)) (sym (extend_nil w))
  write_each_lem (x ∷ xs) (i, all) w =
      rw (i.coded.writes w, write_each_lem xs all (extend i.coded.bytes w))
        (ap (λ (y : Writer). (ok tt, y)) (extend-extend w i.coded.bytes (item_bytes xs all)))

  count_bytes : (xs : List A) (all : All IsItem xs) → length xs ≤ length (item_bytes xs all)
  count_bytes [] all = omega arith
  count_bytes (x ∷ xs) (i, all) =
      omega
        (arith, count_bytes xs all, i.some_bytes, length-append i.coded.bytes (item_bytes xs all))

  some_left :
      (x : A) (xs : List A) (i : IsItem x) (all : All IsItem xs)
      → 1 ≤ length (item_bytes (x ∷ xs) (i, all))
  some_left x xs i all =
      omega (arith, i.some_bytes, length-append i.coded.bytes (item_bytes xs all))

  -- The loop up to a length check.
  until_checked_lem :
      (fuel : ℕ) (xs : List A) (all : All IsItem xs) (p : Parser) (rest : Bytes)
      → length xs < fuel
      → IsAt p (item_bytes xs all ++ rest)
      → p.index_check ≤ p.index
      → p.index + length (item_bytes xs all) ≡ p.index_check + p.length_check
      → until_checked fuel item p ≡ (ok xs, advance (length (item_bytes xs all)) p)
  unfolding until_checked
  until_checked_lem zero xs all p rest h at k e = absurd (omega arith)
  until_checked_lem (suc fuel) [] all p rest h at k e =
      rw (is_done p k e) (ap (λ (i : ℕ). (ok [], record p { index = i })) (omega arith))
  until_checked_lem (suc fuel) (x ∷ xs) (i, all) p rest h at k e =
      let first : IsAt p (i.coded.bytes ++ (item_bytes xs all ++ rest)) =
        regroup_IsAt p i.coded.bytes (item_bytes xs all) rest at in
      let after : Parser = advance (length i.coded.bytes) p in
      rw
        (
          not_done p (length (item_bytes (x ∷ xs) (i, all))) k e (some_left x xs i all),
          i.coded.reads p (item_bytes xs all ++ rest) first,
          until_checked_lem fuel xs all after rest (omega arith)
              (advance-IsAt p i.coded.bytes (item_bytes xs all ++ rest) first) (omega arith)
              (omega (arith, length-append i.coded.bytes (item_bytes xs all))),
        )
        (ap (λ (q : Parser). (ok (x ∷ xs), q))
          (two_steps (length i.coded.bytes) (length (item_bytes xs all))
            (length (i.coded.bytes ++ item_bytes xs all)) p
            (omega (arith, length-append i.coded.bytes (item_bytes xs all)))))

  -- The loop up to the end.
  until_end_lem :
      (fuel : ℕ) (xs : List A) (all : All IsItem xs) (p : Parser)
      → length xs < fuel
      → IsAt p (item_bytes xs all)
      → until_end fuel item p ≡ (ok xs, advance (length (item_bytes xs all)) p)
  unfolding until_end get_remaining_length
  until_end_lem zero xs all p h at = absurd (omega arith)
  until_end_lem (suc fuel) [] all p h at =
      rw (none_left (length p.buffer) p.index (omega (arith, unread_length p [] at)))
        (ap (λ (i : ℕ). (ok [], record p { index = i })) (omega arith))
    where
      none_left : (a b : ℕ) → a ≡ b → (a - b == 0) ≡ true
      none_left a b g = ground arith
  until_end_lem (suc fuel) (x ∷ xs) (i, all) p h at =
      let more : (length p.buffer - p.index == 0) ≡ false =
        nonzero (length p.buffer) p.index (
          omega (arith, unread_length p (item_bytes (x ∷ xs) (i, all)) at, some_left x xs i all)) in
      rw
        (
          more,
          i.coded.reads p (item_bytes xs all) at,
          until_end_lem fuel xs all (advance (length i.coded.bytes) p) (omega arith)
              (advance-IsAt p i.coded.bytes (item_bytes xs all) at),
        )
        (ap (λ (q : Parser). (ok (x ∷ xs), q))
          (two_steps (length i.coded.bytes) (length (item_bytes xs all))
            (length (i.coded.bytes ++ item_bytes xs all)) p
            (omega (arith, length-append i.coded.bytes (item_bytes xs all)))))
    where
      nonzero : (a b : ℕ) → suc b ≤ a → (a - b == 0) ≡ false
      nonzero a b g = ground arith

  pub read_all_lem : (xs : List A) (all : All IsItem xs) → read_all item (item_bytes xs all) ≡ ok xs
  read_all_lem xs all =
      ap (λ (r : Result (List A) × Parser). r.0)
        (until_end_lem (suc (length (item_bytes xs all))) xs all (new_parser (item_bytes xs all))
          (omega (arith, count_bytes xs all)) (record { unread = refl; inside = omega arith }))

  pub nested_lem :
      (n : ℕ) (xs : List A) (all : All IsItem xs) (w : Writer)
      → nested n (write_each put xs) w ≡ add_var_bytes (item_bytes xs all) n w
  nested_lem n xs all w = rw (write_each_lem xs all empty_writer) refl

  pub length-item_bytes :
      (xs : List A) (all : All IsItem xs) → length (item_bytes xs all) ≡ size_of put xs
  length-item_bytes xs all =
      ap (λ (r : Result (Unit {0}) × Writer). length (r.1.buffer))
        (sym (write_each_lem xs all empty_writer))

  pub size-Fits :
      (n : ℕ) (xs : List A) (all : All IsItem xs)
      → Fits n (size_of put xs)
      → Fits n (length (item_bytes xs all))
  size-Fits n xs all h = subst (Fits n) (sym (length-item_bytes xs all)) h

  -- A list that goes on to the end.
  pub to_the_end_coded :
      (xs : List A) (all : All IsItem xs) → Ends (write_each put xs) (to_the_end item) xs
  to_the_end_coded xs all = record {
    bytes = item_bytes xs all;
    writes = write_each_lem xs all;
    reads = λ p at.
        ap (λ (r : Result (List A) × Parser). r.0)
          (until_end_lem (suc (length p.buffer)) xs all p
            (omega (arith, count_bytes xs all, unread_length p (item_bytes xs all) at)) at);
  }

  -- A list under a length field, which a parser of its own reads.
  unfoldable pub nested_coded :
      (xs : List A) (all : All IsItem xs) (n : ℕ)
      → Fits n (length (item_bytes xs all))
      → Coded (nested n (write_each put xs)) (get_var_bytes n >>= λ bs. inner (read_all item bs)) xs
  nested_coded xs all n fits =
      let c = bytes_coded (item_bytes xs all) n fits in
      record {
        bytes = c.bytes;
        writes = λ w. nested_lem n xs all w ∙ c.writes w;
        reads = λ p rest at. rw (c.reads p rest at, read_all_lem xs all) refl;
      }

  pub read_list_lem :
      (xs : List A) (all : All IsItem xs) (n : ℕ) (p : Parser) (rest : Bytes)
      → Fits n (length (item_bytes xs all))
      → IsAt p (be_bytes n (length (item_bytes xs all)) ++ (item_bytes xs all ++ rest))
      → read_list n item p ≡ (
        ok xs,
        advance (length (item_bytes xs all)) (checked (length (item_bytes xs all)) (advance n p)),
      )
  unfolding read_list
  read_list_lem xs all n p rest fits at =
      let size : ℕ = length (item_bytes xs all) in
      let start : Parser = checked size (advance n p) in
      let here : IsAt start (item_bytes xs all ++ rest) =
        checked-IsAt (advance n p) size (item_bytes xs all ++ rest)
          (after_number p n size (item_bytes xs all ++ rest) at) in
      rw
        (
          start_lem p n size (item_bytes xs all ++ rest) fits at,
          until_checked_lem (suc (length p.buffer)) xs all start rest
              (omega (
                arith,
                count_bytes xs all,
                unread_length start (item_bytes xs all ++ rest) here,
                length-append (item_bytes xs all) rest,
              ))
              here (omega arith) (omega arith),
          stop_lem (advance n p) size,
        )
        refl

  -- A list under a length field that the same parser reads up to a length check, and what follows it.
  unfoldable pub list_then {κ} :
      {B : Type κ} (xs : List A) (all : All IsItem xs) (n : ℕ) (m : Method Writer (Unit {0}))
      (k : List A → Method Parser B) (u : B)
      → Fits n (length (item_bytes xs all))
      → Ends m (k xs) u
      → Ends (nested n (write_each put xs) >> m) (read_list n item >>= k) u
  unfolding bytes_coded
  list_then xs all n m k u fits e =
      let c = bytes_coded (item_bytes xs all) n fits in
      let size : ℕ = length (item_bytes xs all) in
      record {
        bytes = c.bytes ++ e.bytes;
        writes = λ w.
            rw (nested_lem n xs all w, c.writes w, e.writes (extend c.bytes w))
              (ap (λ (x : Writer). (ok tt, x)) (extend-extend w c.bytes e.bytes));
        reads = λ p at.
            let here : IsAt p (be_bytes n size ++ (item_bytes xs all ++ e.bytes)) =
              regroup_IsAt p (be_bytes n size) (item_bytes xs all) e.bytes at in
            rw (read_list_lem xs all n p e.bytes fits here) (
              e.reads (advance size (checked size (advance n p))) (
                advance-IsAt (checked size (advance n p)) (item_bytes xs all) e.bytes (
                  checked-IsAt (advance n p) size (item_bytes xs all ++ e.bytes)
                    (after_number p n size (item_bytes xs all ++ e.bytes) here))));
      }
