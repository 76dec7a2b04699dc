-- ===== src/Codec/Reading.antt =====
-- What the methods of `Parser` give for a parser that stands before known bytes.
use tls_dvnizk.Base.{
  ℕ, zero, suc, ◌+◌, ◌*◌, ◌≤◌, ◌<◌, ◌≡◌, refl, ap, ◌∙◌, subst, List, [], ◌∷◌, ◌++◌, arith, length,
  length-append, length-drop, take, drop, take-append, drop-append, All, Result, ok, append_assoc,
}
use tls_dvnizk.Base.Bytes.{Bytes, be_bytes, be_value-be_bytes, length-be_bytes}
use native.Mathlib.Nat.{zero-add, suc-add}
use tls_dvnizk.Codec.Parser.{
  Parser, advance, get_fix_bytes, get, get_var_bytes, get_fix_list, get_var_list, get_tuples,
  get_var_tuple_list,
}
use tls_dvnizk.Codec.Writing.{Fits, items, tuples, length-items, Uniform}
use native.Mathlib.Nat.{mul-mod_left, mul-div_cancel, mul-pos}

-- The bytes that are still to be read.
pub record IsAt (p : Parser) (xs : Bytes) : Type 0 where
  pub unread : drop p.index p.buffer ≡ xs
  pub inside : p.index ≤ length p.buffer

drop_nil : (j : ℕ) → [] ≡ drop {A = ℕ} j []
drop_nil zero = refl
drop_nil (suc j) = refl

drop-drop : (i j : ℕ) (xs : Bytes) → drop (i + j) xs ≡ drop j (drop i xs)
drop-drop zero j xs = rw zero-add
drop-drop (suc i) j [] = rw suc-add (drop_nil j)
drop-drop (suc i) j (x ∷ xs) = rw suc-add (drop-drop i j xs)

pub unread_length : (p : Parser) (xs : Bytes) → IsAt p xs → length p.buffer ≡ p.index + length xs
unread_length p xs h = omega (arith, length-drop p.index p.buffer, ap (length {A = ℕ}) h.unread)

pub advance-IsAt :
    (p : Parser) (bs rest : Bytes) → IsAt p (bs ++ rest) → IsAt (advance (length bs) p) rest
advance-IsAt p bs rest h = record {
  unread =
      drop-drop p.index (length bs) p.buffer ∙ ap (drop (length bs)) h.unread ∙ drop-append bs rest;
  inside = omega (arith, unread_length p _ h, length-append bs rest);
}

pub get_fix_bytes_at :
    (p : Parser) (bs rest : Bytes)
    → IsAt p (bs ++ rest)
    → get_fix_bytes (length bs) p ≡ (ok bs, advance (length bs) p)
unfolding get_fix_bytes
get_fix_bytes_at p bs rest h = ground (
  arith,
  unread_length p _ h,
  length-append bs rest,
  ap (take (length bs)) h.unread,
  take-append bs rest,
)

-- The same for a count that is the length by an equation.
get_fix_bytes_by :
    (p : Parser) (n : ℕ) (bs rest : Bytes)
    → length bs ≡ n
    → IsAt p (bs ++ rest)
    → get_fix_bytes n p ≡ (ok bs, advance n p)
get_fix_bytes_by p n bs rest e h = rw (← e) (get_fix_bytes_at p bs rest h)

-- After a number of `n` bytes.
pub after_number :
    (p : Parser) (n x : ℕ) (rest : Bytes) → IsAt p (be_bytes n x ++ rest) → IsAt (advance n p) rest
after_number p n x rest h =
    subst (λ (k : ℕ). IsAt (advance k p) rest) (length-be_bytes n x)
      (advance-IsAt p (be_bytes n x) rest h)

pub get_at :
    (p : Parser) (n x : ℕ) (rest : Bytes)
    → Fits n x
    → IsAt p (be_bytes n x ++ rest)
    → get n p ≡ (ok x, advance n p)
unfolding get
get_at p n x rest fits h =
    rw
      (get_fix_bytes_by p n (be_bytes n x) rest (length-be_bytes n x) h, be_value-be_bytes n x fits)

pub get_var_bytes_at :
    (p : Parser) (m : ℕ) (bs rest : Bytes)
    → Fits m (length bs)
    → IsAt p (be_bytes m (length bs) ++ (bs ++ rest))
    → get_var_bytes m p ≡ (ok bs, advance (length bs) (advance m p))
unfolding get_var_bytes
get_var_bytes_at p m bs rest fits h =
    rw (get_at p m (length bs) (bs ++ rest) fits h)
      (get_fix_bytes_at (advance m p) bs rest (after_number p m (length bs) (bs ++ rest) h))

advance-advance : (i j : ℕ) (p : Parser) → advance j (advance i p) ≡ advance (i + j) p
advance-advance i j p = ground arith

advance_by : (i j : ℕ) (p : Parser) → i ≡ j → advance i p ≡ advance j p
advance_by i j p e = ap (λ (k : ℕ). advance k p) e

-- Two steps of reading make one.
pub two_steps : (i j k : ℕ) (p : Parser) → i + j ≡ k → advance j (advance i p) ≡ advance k p
two_steps i j k p e = advance-advance i j p ∙ advance_by (i + j) k p e

pub regroup_IsAt : (p : Parser) (a b c : Bytes) → IsAt p ((a ++ b) ++ c) → IsAt p (a ++ (b ++ c))
regroup_IsAt p a b c h = rw append_assoc at h

pub get_fix_list_at :
    (n : ℕ) (seq : List ℕ) (p : Parser) (rest : Bytes)
    → All (Fits n) seq
    → IsAt p (items n seq ++ rest)
    → get_fix_list n (length seq) p ≡ (ok seq, advance (length seq * n) p)
unfolding get_fix_list items
get_fix_list_at n [] p rest fits h =
    ap (λ (q : Parser). let r : Result (List ℕ) × Parser = (ok [], q) in r) (ground arith)
get_fix_list_at n (x ∷ xs) p rest (fit, fits) h =
    let h' = regroup_IsAt p (be_bytes n x) (items n xs) rest h in
    rw (get_at p n x (items n xs ++ rest) fit h') (
      rw (get_fix_list_at n xs (advance n p) rest fits (after_number p n x (items n xs ++ rest) h'))
        (ap (λ (q : Parser). let r : Result (List ℕ) × Parser = (ok (x ∷ xs), q) in r)
          (two_steps n (length xs * n) (suc (length xs) * n) p (omega arith))))

pub after_items :
    (p : Parser) (n : ℕ) (seq : List ℕ) (rest : Bytes)
    → IsAt p (items n seq ++ rest)
    → IsAt (advance (length seq * n) p) rest
after_items p n seq rest h =
    subst (λ (k : ℕ). IsAt (advance k p) rest) (length-items n seq)
      (advance-IsAt p (items n seq) rest h)

pub get_var_list_at :
    (n m : ℕ) (seq : List ℕ) (p : Parser) (rest : Bytes)
    → 0 < n
    → All (Fits n) seq
    → Fits m (length seq * n)
    → IsAt p (be_bytes m (length seq * n) ++ (items n seq ++ rest))
    → get_var_list n m p ≡ (ok seq, advance (length seq * n) (advance m p))
unfolding get_var_list
get_var_list_at n m seq p rest pos fits fit h =
    rw (get_at p m (length seq * n) (items n seq ++ rest) fit h) (
      ground (
        arith,
        mul-mod_left (length seq) n,
        mul-div_cancel (length seq) pos,
        get_fix_list_at n seq (advance m p) rest fits
            (after_number p m (length seq * n) (items n seq ++ rest) h),
      ))

get_fix_list_by :
    (n k : ℕ) (seq : List ℕ) (p : Parser) (rest : Bytes)
    → length seq ≡ k
    → All (Fits n) seq
    → IsAt p (items n seq ++ rest)
    → (get_fix_list n k p ≡ (ok seq, advance (k * n) p)) × IsAt (advance (k * n) p) rest
get_fix_list_by n k seq p rest e fits h =
    (rw (← e) (get_fix_list_at n seq p rest fits h), rw (← e) (after_items p n seq rest h))

pub get_tuples_at :
    (n k : ℕ) (ts : List (List ℕ)) (p : Parser) (rest : Bytes)
    → Uniform k ts
    → All (All (Fits n)) ts
    → IsAt p (tuples n ts ++ rest)
    → get_tuples n k (length ts) p ≡ (ok ts, advance (length ts * k * n) p)
unfolding get_tuples tuples
get_tuples_at n k [] p rest u fits h =
    ap (λ (q : Parser). let r : Result (List (List ℕ)) × Parser = (ok [], q) in r) (ground arith)
get_tuples_at n k (t ∷ ts) p rest (e, u) (fit, fits) h =
    let h' = regroup_IsAt p (items n t) (tuples n ts) rest h in
    let (first, next) = get_fix_list_by n k t p (tuples n ts ++ rest) e fit h' in
    rw first (
      rw (get_tuples_at n k ts (advance (k * n) p) rest u fits next) (
        ap (λ (q : Parser). let r : Result (List (List ℕ)) × Parser = (ok (t ∷ ts), q) in r)
          (two_steps (k * n) (length ts * k * n) (suc (length ts) * k * n) p (omega arith))))

pub get_var_tuple_list_at :
    (n k m : ℕ) (ts : List (List ℕ)) (p : Parser) (rest : Bytes)
    → 0 < n
    → 0 < k
    → Uniform k ts
    → All (All (Fits n)) ts
    → Fits m (length ts * k * n)
    → IsAt p (be_bytes m (length ts * k * n) ++ (tuples n ts ++ rest))
    → get_var_tuple_list n k m p ≡ (ok ts, advance (length ts * k * n) (advance m p))
unfolding get_var_tuple_list
get_var_tuple_list_at n k m ts p rest pos pos' u fits fit h =
    rw (get_at p m (length ts * k * n) (tuples n ts ++ rest) fit h) (
      ground (
        arith,
        area,
        positive,
        mul-mod_left (length ts) (n * k),
        mul-div_cancel (length ts) positive,
        get_tuples_at n k ts (advance m p) rest u fits
            (after_number p m (length ts * k * n) (tuples n ts ++ rest) h),
      ))
  where
    positive : 0 < n * k
    positive = mul-pos pos pos'

    area : length ts * k * n ≡ length ts * (n * k)
    area = omega arith
