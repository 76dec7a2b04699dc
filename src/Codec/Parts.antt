-- ===== src/Codec/Parts.antt =====
-- Formats of numbers, byte strings and lists: what a method of `Writer` writes beside the method of `Parser` for it.
use tls_dvnizk.Base.{
  ℕ, ◌*◌, ◌≤◌, ◌<◌, ◌≡◌, refl, ap, ap₂, subst, ◌∙◌, List, ◌++◌, length, length-append, All, ok,
  modify, ◌>>◌, arith,
}
use tls_dvnizk.Base.Bytes.{Bytes, be_bytes, length-be_bytes, IsByte}
use tls_dvnizk.Codec.Writer.{
  Writer, extend, add, add_two, add_four, add_var_seq, add_fix_seq, add_var_bytes,
}
use tls_dvnizk.Codec.Parser.{
  Parser, advance, get, get_fix_bytes, get_var_bytes, get_fix_list, get_var_list,
}
use tls_dvnizk.Codec.Writing.{
  Fits, items, length-items, extend-extend, add-Fits, add_fix_seq-Fits, add_var_seq-Fits,
  add_var_bytes-Fits, items-one,
}
use tls_dvnizk.Codec.Reading.{
  get_fix_bytes_at, get_at, get_var_bytes_at, get_fix_list_at, get_var_list_at, regroup_IsAt,
  two_steps,
}
use tls_dvnizk.Codec.Coded.{Coded}

-- The parts that formats are made of.
unfoldable pub number_coded : (x n : ℕ) → Fits n x → Coded (add x n) (get n) x
number_coded x n fits = record {
  bytes = be_bytes n x;
  writes = λ w. add-Fits x n w fits;
  reads = λ p rest at. rw (length-be_bytes n x) (get_at p n x rest fits at);
}

unfoldable pub bytes_coded :
    (bs : Bytes) (n : ℕ) → Fits n (length bs) → Coded (add_var_bytes bs n) (get_var_bytes n) bs
bytes_coded bs n fits = record {
  bytes = be_bytes n (length bs) ++ bs;
  writes = λ w. add_var_bytes-Fits bs n w fits;
  reads = λ p rest at.
      get_var_bytes_at p n bs rest fits (regroup_IsAt p (be_bytes n (length bs)) bs rest at)
      ∙ ap (λ (q : Parser). (ok bs, q))
          (two_steps n (length bs) (length (be_bytes n (length bs) ++ bs)) p (
            omega
              (arith, length-append (be_bytes n (length bs)) bs, length-be_bytes n (length bs))));
}

unfoldable pub fixed_coded :
    (bs : Bytes) (n : ℕ) → length bs ≡ n → Coded (modify (extend bs)) (get_fix_bytes n) bs
fixed_coded bs n e = record {
  bytes = bs;
  writes = λ w. refl;
  reads = λ p rest at.
      subst (λ (k : ℕ). get_fix_bytes k p ≡ (ok bs, advance (length bs) p)) e
        (get_fix_bytes_at p bs rest at);
}

-- `addVarSeq(bytes, 1, n)`, which `getVarBytes` reads.
unfoldable pub seq_bytes_coded :
    (bs : Bytes) (n : ℕ)
    → All IsByte bs
    → Fits n (length bs)
    → Coded (add_var_seq bs 1 n) (get_var_bytes n) bs
unfolding bytes_coded
seq_bytes_coded bs n all fits =
    let c = bytes_coded bs n fits in
    record {
      bytes = c.bytes;
      writes = λ w.
          add_var_seq-Fits bs 1 n w all (subst (Fits n) (omega arith) fits)
          ∙ ap (λ (t : Bytes). (ok tt, extend t w))
              (ap₂ (λ (l : ℕ) (t : Bytes). be_bytes n l ++ t) (omega arith) (items-one bs all));
      reads = c.reads;
    }

pub fix_list_coded :
    (xs : List ℕ) (n : ℕ)
    → All (Fits n) xs
    → Coded (add_fix_seq xs n) (get_fix_list n (length xs)) xs
fix_list_coded xs n all = record {
  bytes = items n xs;
  writes = λ w. add_fix_seq-Fits xs n w all;
  reads = λ p rest at. rw (length-items n xs) (get_fix_list_at n xs p rest all at);
}

unfoldable pub list_coded :
    (xs : List ℕ) (n m : ℕ)
    → 0 < n
    → All (Fits n) xs
    → Fits m (length xs * n)
    → Coded (add_var_seq xs n m) (get_var_list n m) xs
list_coded xs n m pos all fits = record {
  bytes = be_bytes m (length xs * n) ++ items n xs;
  writes = λ w. add_var_seq-Fits xs n m w all fits;
  reads = λ p rest at.
      get_var_list_at n m xs p rest pos all fits
        (regroup_IsAt p (be_bytes m (length xs * n)) (items n xs) rest at)
      ∙ ap (λ (q : Parser). (ok xs, q))
          (two_steps m (length xs * n) (length (be_bytes m (length xs * n) ++ items n xs)) p (
            omega (
              arith,
              length-append (be_bytes m (length xs * n)) (items n xs),
              length-be_bytes m (length xs * n),
              length-items n xs,
            )));
}

-- `addFixSeq(bytes, 1)`, which `getFixBytes` reads.
pub fix_bytes_coded :
    (bs : Bytes) (n : ℕ)
    → length bs ≡ n
    → All IsByte bs
    → Coded (add_fix_seq bs 1) (get_fix_bytes n) bs
fix_bytes_coded bs n e all =
    let c = fixed_coded bs n e in
    record {
      bytes = c.bytes;
      writes = λ w.
          add_fix_seq-Fits bs 1 w all
          ∙ ap (λ (t : Bytes). (ok tt, extend t w)) (items-one bs all)
          ∙ c.writes w;
      reads = c.reads;
    }

-- `addTwo` and `addFour`, where what is written fits.
pub add_two-Fits : (x : ℕ) (w : Writer) → Fits 2 x → add_two x w ≡ (ok tt, extend (be_bytes 2 x) w)
unfolding add_two
add_two-Fits x w h = ground arith

pub add_four-Fits :
    (x : ℕ) (w : Writer) → Fits 4 x → add_four x w ≡ (ok tt, extend (be_bytes 4 x) w)
unfolding add_four
add_four-Fits x w h = ground arith

unfoldable pub add_two_coded : (x : ℕ) → Fits 2 x → Coded (add_two x) (get 2) x
unfolding number_coded
add_two_coded x fits = record {
  bytes = be_bytes 2 x;
  writes = λ w. add_two-Fits x w fits;
  reads = (number_coded x 2 fits).reads;
}

unfoldable pub add_four_coded : (x : ℕ) → Fits 4 x → Coded (add_four x) (get 4) x
unfolding number_coded
add_four_coded x fits = record {
  bytes = be_bytes 4 x;
  writes = λ w. add_four-Fits x w fits;
  reads = (number_coded x 4 fits).reads;
}

-- A length by `addTwo` and the bytes, which `getVarBytes` reads.
unfoldable pub two_bytes_coded :
    (bs : Bytes)
    → Fits 2 (length bs)
    → Coded (add_two (length bs) >> modify (extend bs)) (get_var_bytes 2) bs
unfolding bytes_coded
two_bytes_coded bs fits =
    let c = bytes_coded bs 2 fits in
    record {
      bytes = c.bytes;
      writes = λ w.
          rw (add_two-Fits (length bs) w fits)
            (ap (λ (x : Writer). (ok tt, x)) (extend-extend w (be_bytes 2 (length bs)) bs));
      reads = c.reads;
    }

-- A length by `add` and the bytes by `addFixSeq`.
unfoldable pub short_coded :
    (bs : Bytes)
    → All IsByte bs
    → Fits 1 (length bs)
    → Coded (add (length bs) 1 >> add_fix_seq bs 1) (get_var_bytes 1) bs
unfolding bytes_coded
short_coded bs all fits =
    let c = bytes_coded bs 1 fits in
    record {
      bytes = c.bytes;
      writes = λ w.
          rw
            (
              add-Fits (length bs) 1 w fits,
              add_fix_seq-Fits bs 1 (extend (be_bytes 1 (length bs)) w) all,
              items-one bs all,
            )
            (ap (λ (x : Writer). (ok tt, x)) (extend-extend w (be_bytes 1 (length bs)) bs));
      reads = c.reads;
    }

pub number_first : (n x : ℕ) (bs : Bytes) → 1 ≤ n → 1 ≤ length (be_bytes n x ++ bs)
number_first n x bs h = omega (arith, length-append (be_bytes n x) bs, length-be_bytes n x)

pub longer : (xs ys : Bytes) → 1 ≤ length xs → 1 ≤ length (xs ++ ys)
longer xs ys h = omega (arith, length-append xs ys)
