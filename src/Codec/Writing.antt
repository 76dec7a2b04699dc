-- ===== src/Codec/Writing.antt =====
-- What the methods of `Writer` leave in the buffer.
use tls_dvnizk.Base.{
  ℕ, zero, suc, ◌*◌, ◌^◌, ◌≤◌, ◌<◌, ◌≡◌, refl, sym, ap, ◌∙◌, List, [], ◌∷◌, ◌++◌, true, not,
  append_assoc, append-nil, arith, ◌==◌, length, length-append, All, raise_if, modify, ◌>>◌,
  if◌then◌else◌, Result, ok, err, value_error,
}
use tls_dvnizk.Base.Bytes.{Bytes, IsByte, be_bytes, length-be_bytes}
use tls_dvnizk.Codec.Writer.{
  Writer, extend, add, add_fix_seq, each_below, pack_twos, add_items, add_var_seq, add_tuples,
  add_var_tuple_seq, add_var_bytes,
}

-- `n` bytes for each item.
unfoldable pub items : ℕ → List ℕ → Bytes
items n [] = []
items n (x ∷ xs) = be_bytes n x ++ items n xs

-- The items of each tuple, one tuple after the other.
unfoldable pub tuples : ℕ → List (List ℕ) → Bytes
tuples n [] = []
tuples n (t ∷ ts) = items n t ++ tuples n ts

-- Every item fits in `n` bytes.
abbrev pub Fits : ℕ → ℕ → Type 0
Fits n x = x < 256 ^ n

pub extend-extend : (w : Writer) (a b : Bytes) → extend b (extend a w) ≡ extend (a ++ b) w
extend-extend w a b =
    ap (λ (t : Bytes). let r : Writer = record { buffer = t } in r) (append_assoc w.buffer a b)

pub extend_nil : (w : Writer) → extend [] w ≡ w
extend_nil w = ap (λ (t : Bytes). let r : Writer = record { buffer = t } in r) (append-nil w.buffer)

pub add-Fits : (x n : ℕ) (w : Writer) → Fits n x → add x n w ≡ (ok tt, extend (be_bytes n x) w)
unfolding add
add-Fits x n w h = ground arith

pub add_overflows : (x n : ℕ) (w : Writer) → 256 ^ n ≤ x → add x n w ≡ (err value_error, w)
unfolding add
add_overflows x n w h = ground arith

pub add_fix_seq-Fits :
    (seq : List ℕ) (n : ℕ) (w : Writer)
    → All (Fits n) seq
    → add_fix_seq seq n w ≡ (ok tt, extend (items n seq) w)
unfolding add_fix_seq items
add_fix_seq-Fits [] n w h =
    ap (λ (v : Writer). let r : Result (Unit {0}) × Writer = (ok tt, v) in r) (sym (extend_nil w))
add_fix_seq-Fits (x ∷ xs) n w (p, h) = rw (add-Fits x n w p) (
    add_fix_seq-Fits xs n (extend (be_bytes n x) w) h
    ∙ ap (λ (v : Writer). let r : Result (Unit {0}) × Writer = (ok tt, v) in r)
        (extend-extend w (be_bytes n x) (items n xs)))

pub length-items : (n : ℕ) (seq : List ℕ) → length (items n seq) ≡ length seq * n
unfolding items
length-items n [] = omega arith
length-items n (x ∷ xs) =
    omega (arith, length-append (be_bytes n x) (items n xs), length-be_bytes n x, length-items n xs)

pub items-one : (seq : List ℕ) → All IsByte seq → items 1 seq ≡ seq
unfolding items be_bytes
items-one [] h = refl
items-one (x ∷ xs) (p, h) = ground (arith, items-one xs h)

each_below-fits : (b : ℕ) (seq : List ℕ) → All (λ x. x < b) seq → each_below b seq ≡ true
each_below-fits b [] h = refl
each_below-fits b (x ∷ xs) (p, h) = ground (arith, each_below-fits b xs h)

items-two : (seq : List ℕ) → items 2 seq ≡ pack_twos seq
unfolding items
items-two [] = refl
items-two (x ∷ xs) = ap (λ (t : Bytes). be_bytes 2 x ++ t) (items-two xs)

-- All three ways in which `addVarSeq` writes its items agree.
pub add_items-Fits :
    (seq : List ℕ) (n : ℕ) (w : Writer)
    → All (Fits n) seq
    → add_items seq n w ≡ (ok tt, extend (items n seq) w)
unfolding add_items
add_items-Fits seq zero w h = add_fix_seq-Fits seq 0 w h
add_items-Fits seq (suc zero) w h = rw (each_below-fits 256 seq h, items-one seq h)
add_items-Fits seq (suc (suc zero)) w h = rw (each_below-fits (2 ^ 16) seq h, items-two seq)
add_items-Fits seq (suc (suc (suc n))) w h =
    ground (arith, add_fix_seq-Fits seq (suc (suc (suc n))) w h)

pub add_var_seq-Fits :
    (seq : List ℕ) (n m : ℕ) (w : Writer)
    → All (Fits n) seq
    → Fits m (length seq * n)
    → add_var_seq seq n m w ≡ (ok tt, extend (be_bytes m (length seq * n) ++ items n seq) w)
unfolding add_var_seq
add_var_seq-Fits seq n m w h k =
    rw
      (
        add-Fits (length seq * n) m w k,
        add_items-Fits seq n (extend (be_bytes m (length seq * n)) w) h,
        append_assoc,
      )
      refl

pub add_var_bytes-Fits :
    (bs : Bytes) (m : ℕ) (w : Writer)
    → Fits m (length bs)
    → add_var_bytes bs m w ≡ (ok tt, extend (be_bytes m (length bs) ++ bs) w)
unfolding add_var_bytes
add_var_bytes-Fits bs m w h = rw (add-Fits (length bs) m w h, append_assoc)

tuple_step :
    (t : List ℕ) (n : ℕ) (w : Writer)
    → All (Fits n) t
    → (if n == 1
          then (raise_if (not (each_below 256 t)) value_error >> modify (extend t))
          else add_fix_seq t n)
        w
      ≡ (ok tt, extend (items n t) w)
tuple_step t zero w h = add_fix_seq-Fits t 0 w h
tuple_step t (suc zero) w h = rw (each_below-fits 256 t h, items-one t h)
tuple_step t (suc (suc n)) w h = ground (arith, add_fix_seq-Fits t (suc (suc n)) w h)

pub add_tuples-Fits :
    (ts : List (List ℕ)) (n : ℕ) (w : Writer)
    → All (All (Fits n)) ts
    → add_tuples ts n w ≡ (ok tt, extend (tuples n ts) w)
unfolding add_tuples tuples
add_tuples-Fits [] n w h =
    ap (λ (v : Writer). let r : Result (Unit {0}) × Writer = (ok tt, v) in r) (sym (extend_nil w))
add_tuples-Fits (t ∷ ts) n w (p, h) = rw (tuple_step t n w p) (
    add_tuples-Fits ts n (extend (items n t) w) h
    ∙ ap (λ (v : Writer). let r : Result (Unit {0}) × Writer = (ok tt, v) in r)
        (extend-extend w (items n t) (tuples n ts)))

-- Every tuple has `k` items.
abbrev pub Uniform : ℕ → List (List ℕ) → Type 0
Uniform k ts = All (λ t. length t ≡ k) ts

pub length-tuples :
    (n k : ℕ) (ts : List (List ℕ)) → Uniform k ts → length (tuples n ts) ≡ length ts * k * n
unfolding tuples
length-tuples n k [] h = omega arith
length-tuples n k (t ∷ ts) (e, h) =
    rw (length-append (items n t) (tuples n ts), length-items n t, length-tuples n k ts h, e)
      (omega arith)

pub add_var_tuple_seq-Fits :
    (t : List ℕ) (ts : List (List ℕ)) (n m : ℕ) (w : Writer)
    → Uniform (length t) ts
    → All (All (Fits n)) (t ∷ ts)
    → Fits m (length (t ∷ ts) * length t * n)
    → add_var_tuple_seq (t ∷ ts) n m w
      ≡ (ok tt, extend (be_bytes m (length (t ∷ ts) * length t * n) ++ tuples n (t ∷ ts)) w)
unfolding add_var_tuple_seq
add_var_tuple_seq-Fits t ts n m w u h k =
    rw
      (
        add-Fits (length (t ∷ ts) * length t * n) m w k,
        add_tuples-Fits (t ∷ ts) n (extend (be_bytes m (length (t ∷ ts) * length t * n)) w) h,
      )
      (ground (
        arith,
        append_assoc w.buffer (be_bytes m (length (t ∷ ts) * length t * n)) (tuples n (t ∷ ts)),
        length-append (w.buffer ++ be_bytes m (length (t ∷ ts) * length t * n)) (tuples n (t ∷ ts)),
        length-append w.buffer (be_bytes m (length (t ∷ ts) * length t * n)),
        length-be_bytes m (length (t ∷ ts) * length t * n),
        length-tuples n (length t) (t ∷ ts) (refl, u),
      ))
