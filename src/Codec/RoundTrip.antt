-- ===== src/Codec/RoundTrip.antt =====
-- What `Writer` writes, `Parser` reads back, wherever in a buffer it stands.
use tls_dvnizk.Base.{
  ℕ, ◌*◌, ◌^◌, ◌<◌, ◌≡◌, refl, sym, ap, ◌∙◌, List, ◌∷◌, ◌++◌, arith, length, length-append,
  drop-append, All, Result, ok, append_assoc,
}
use tls_dvnizk.Base.Bytes.{Bytes, be_bytes, length-be_bytes}
use tls_dvnizk.Codec.Writer.{Writer, extend, add, add_var_seq, add_var_tuple_seq, add_var_bytes}
use tls_dvnizk.Codec.Parser.{Parser, advance, get, get_var_bytes, get_var_list, get_var_tuple_list}
use tls_dvnizk.Codec.Writing.{
  Fits, items, tuples, length-items, Uniform, length-tuples, add-Fits, add_var_seq-Fits,
  add_var_bytes-Fits, add_var_tuple_seq-Fits,
}
use tls_dvnizk.Codec.Reading.{
  IsAt, get_at, get_var_bytes_at, get_var_list_at, get_var_tuple_list_at, regroup_IsAt, two_steps,
}

-- A parser of `buffer` that has read up to `index`.
abbrev pub parser_at : Bytes → ℕ → Parser
parser_at bs i = record { buffer = bs; index = i; index_check = 0; length_check = 0 }

-- `read`, set where `written` began in the final buffer, gives `value` and ends where the writer did.
abbrev pub ReadsBack {ℓ} :
    {A : Type ℓ} → Writer → Result (Unit {0}) × Writer → (Parser → Result A × Parser) → A → Type ℓ
ReadsBack w (r, w') read value =
    (rest : Bytes)
    → read (parser_at (w'.buffer ++ rest) (length w.buffer))
      ≡ (ok value, parser_at (w'.buffer ++ rest) (length w'.buffer))

parser_at-IsAt :
    (w : Writer) (more rest : Bytes)
    → IsAt (parser_at ((w.buffer ++ more) ++ rest) (length w.buffer)) (more ++ rest)
parser_at-IsAt w more rest = record {
  unread = rw append_assoc (drop-append w.buffer (more ++ rest));
  inside = omega (arith, length-append (w.buffer ++ more) rest, length-append w.buffer more);
}

at_end :
    (w : Writer) (more rest : Bytes)
    → advance (length more) (parser_at ((w.buffer ++ more) ++ rest) (length w.buffer))
      ≡ parser_at ((w.buffer ++ more) ++ rest) (length (w.buffer ++ more))
at_end w more rest = ap (parser_at ((w.buffer ++ more) ++ rest)) (sym (length-append w.buffer more))

-- The shape that all round trips share: the writer appends `more`, and the parser reads it.
pub reads_back {ℓ} :
    {A : Type ℓ} (w : Writer) (more : Bytes) (step : Result (Unit {0}) × Writer)
    (read : Parser → Result A × Parser) (value : A)
    → step ≡ (ok tt, extend more w)
    → ((p : Parser) (rest : Bytes)
        → IsAt p (more ++ rest)
        → read p ≡ (ok value, advance (length more) p))
    → (step.0 ≡ ok tt) × ReadsBack w step read value
reads_back w more step read value e reader = rw e (
  refl,
  λ rest.
      reader (parser_at ((w.buffer ++ more) ++ rest) (length w.buffer)) rest
        (parser_at-IsAt w more rest)
      ∙ ap (λ (q : Parser). (ok value, q)) (at_end w more rest),
)

-- A length field of `m` bytes and what follows it are read in two steps.
header_and_body :
    (p : Parser) (m k : ℕ) (body : Bytes)
    → advance (length body) (advance m p) ≡ advance (length (be_bytes m k ++ body)) p
header_and_body p m k body =
    two_steps m (length body) (length (be_bytes m k ++ body)) p
      (omega (arith, length-append (be_bytes m k) body, length-be_bytes m k))

-- A number that fits in `n` bytes is read back by `get` from wherever `add` wrote it.
pub get-add :
    (x n : ℕ) (w : Writer)
    → x < 256 ^ n
    → ((add x n w).0 ≡ ok tt) × ReadsBack w (add x n w) (get n) x
get-add x n w h =
    reads_back w (be_bytes n x) (add x n w) (get n) x (add-Fits x n w h)
      (λ p rest at. rw (length-be_bytes n x) (get_at p n x rest h at))

-- A byte string whose length fits in the `m` bytes of the length field is read back.
pub get_var_bytes-add_var_bytes :
    (bs : Bytes) (m : ℕ) (w : Writer)
    → length bs < 256 ^ m
    → ((add_var_bytes bs m w).0 ≡ ok tt) × ReadsBack w (add_var_bytes bs m w) (get_var_bytes m) bs
get_var_bytes-add_var_bytes bs m w h =
    reads_back w (be_bytes m (length bs) ++ bs) (add_var_bytes bs m w) (get_var_bytes m) bs
      (add_var_bytes-Fits bs m w h)
      (λ p rest at.
        get_var_bytes_at p m bs rest h (regroup_IsAt p (be_bytes m (length bs)) bs rest at)
        ∙ ap (λ (q : Parser). let r : Result Bytes × Parser = (ok bs, q) in r)
            (header_and_body p m (length bs) bs))

-- A list of numbers that fit in `n` bytes each, under a length field of `m` bytes, is read back.
pub get_var_list-add_var_seq :
    (seq : List ℕ) (n m : ℕ) (w : Writer)
    → 0 < n
    → All (Fits n) seq
    → length seq * n < 256 ^ m
    → ((add_var_seq seq n m w).0 ≡ ok tt)
      × ReadsBack w (add_var_seq seq n m w) (get_var_list n m) seq
get_var_list-add_var_seq seq n m w pos fits h =
    reads_back w (be_bytes m (length seq * n) ++ items n seq) (add_var_seq seq n m w)
      (get_var_list n m) seq (add_var_seq-Fits seq n m w fits h)
      (λ p rest at.
        get_var_list_at n m seq p rest pos fits h
          (regroup_IsAt p (be_bytes m (length seq * n)) (items n seq) rest at)
        ∙ ap (λ (q : Parser). let r : Result (List ℕ) × Parser = (ok seq, q) in r)
            (ap (λ (k : ℕ). advance k (advance m p)) (sym (length-items n seq))
              ∙ header_and_body p m (length seq * n) (items n seq)))

-- A list of tuples of one size, of numbers that fit in `n` bytes each, is read back.
pub get_var_tuple_list-add_var_tuple_seq :
    (t : List ℕ) (ts : List (List ℕ)) (n m : ℕ) (w : Writer)
    → 0 < n
    → 0 < length t
    → Uniform (length t) ts
    → All (All (Fits n)) (t ∷ ts)
    → length (t ∷ ts) * length t * n < 256 ^ m
    → ((add_var_tuple_seq (t ∷ ts) n m w).0 ≡ ok tt)
      × ReadsBack w (add_var_tuple_seq (t ∷ ts) n m w) (get_var_tuple_list n (length t) m) (t ∷ ts)
get_var_tuple_list-add_var_tuple_seq t ts n m w pos pos' u fits h =
    reads_back w (be_bytes m (length (t ∷ ts) * length t * n) ++ tuples n (t ∷ ts))
      (add_var_tuple_seq (t ∷ ts) n m w) (get_var_tuple_list n (length t) m) (t ∷ ts)
      (add_var_tuple_seq-Fits t ts n m w u fits h)
      (λ p rest at.
        get_var_tuple_list_at n (length t) m (t ∷ ts) p rest pos pos' (refl, u) fits h
          (regroup_IsAt p (be_bytes m (length (t ∷ ts) * length t * n)) (tuples n (t ∷ ts)) rest at)
        ∙ ap (λ (q : Parser). let r : Result (List (List ℕ)) × Parser = (ok (t ∷ ts), q) in r)
            (ap (λ (k : ℕ). advance k (advance m p))
                (sym (length-tuples n (length t) (t ∷ ts) (refl, u)))
              ∙ header_and_body p m (length (t ∷ ts) * length t * n) (tuples n (t ∷ ts))))
