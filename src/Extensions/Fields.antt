-- ===== src/Extensions/Fields.antt =====
-- tlslite/extensions.py: the formats of the payloads with a single field.
use tls_dvnizk.Base.{
  ℕ, ◌*◌, ◌≤◌, ◌<◌, ◌≡◌, refl, sym, ap, subst, ◌∙◌, List, [], ◌∷◌, ◌++◌, length, length-append, All,
  Bool, false, ◌&&◌, none, some, ok, pure, arith,
}
use tls_dvnizk.Base.Bytes.{be_bytes, length-be_bytes}
use tls_dvnizk.Codec.Writer.{Writer, add_var_tuple_seq}
use tls_dvnizk.Codec.Parser.{Parser, advance, get_remaining_length, get_var_tuple_list}
use tls_dvnizk.Codec.Writing.{
  Fits, tuples, length-tuples, Uniform, add_var_tuple_seq-Fits, extend_nil,
}
use tls_dvnizk.Codec.Reading.{IsAt, advance-IsAt, regroup_IsAt, two_steps, get_var_tuple_list_at}
use tls_dvnizk.Codec.Coded.{Coded, Ends, nothing_more-IsAt}
use tls_dvnizk.Codec.Parts.{bytes_coded, list_coded, number_coded, number_first}
use tls_dvnizk.Codec.Endings.{nothing_left, something_left}
use tls_dvnizk.Extensions.Shapes.{
  Shape, var_bytes, var_list, var_seq_list, int, Value, write_value, read_value, parse_value, parse,
  Class, shape_of, refuses_empty, parse_class,
}
use tls_dvnizk.Extensions.Payloads.{IsWritable}

tuple_list_coded :
    (t : List ℕ) (ts : List (List ℕ)) (n m : ℕ)
    → 0 < n
    → 0 < length t
    → Uniform (length t) ts
    → All (All (Fits n)) (t ∷ ts)
    → Fits m (length (t ∷ ts) * length t * n)
    → Coded (add_var_tuple_seq (t ∷ ts) n m) (get_var_tuple_list n (length t) m) (t ∷ ts)
tuple_list_coded t ts n m pos pos' u fits h =
    let size : ℕ = length (t ∷ ts) * length t * n in
    record {
      bytes = be_bytes m size ++ tuples n (t ∷ ts);
      writes = λ w. add_var_tuple_seq-Fits t ts n m w u fits h;
      reads = λ p rest at.
          get_var_tuple_list_at n (length t) m (t ∷ ts) p rest pos pos' (refl, u) fits h
            (regroup_IsAt p (be_bytes m size) (tuples n (t ∷ ts)) rest at)
          ∙ ap (λ (q : Parser). (ok (t ∷ ts), q))
              (two_steps m size (length (be_bytes m size ++ tuples n (t ∷ ts))) p (
                omega (
                  arith,
                  length-append (be_bytes m size) (tuples n (t ∷ ts)),
                  length-be_bytes m size,
                  length-tuples n (length t) (t ∷ ts) (refl, u),
                )));
    }

-- A field has a format and takes a byte at least.
record IsField (s : Shape) (value : Value s) : Type 0 where
  coded : Coded (write_value s value) (read_value s) value
  some_bytes : 1 ≤ length coded.bytes

value-IsField : (s : Shape) (value : Value s) → IsWritable s value → IsField s value
unfolding IsWritable bytes_coded list_coded number_coded tuple_list_coded
value-IsField (var_bytes m) bs (p, fits) = record {
  coded = bytes_coded bs m fits;
  some_bytes = number_first m (length bs) bs p;
}
value-IsField (var_list n m) xs (pos, p, all, fits) = record {
  coded = list_coded xs n m pos all fits;
  some_bytes = number_first m (length xs * n) _ p;
}
value-IsField (var_seq_list n k m) [] h = absurd h
value-IsField (var_seq_list n k m) (t ∷ ts) (pos, pos', p, e, uniform, all, fits) =
    subst (λ (l : ℕ). IsField (var_seq_list n l m) (t ∷ ts)) e
      (record {
        coded = tuple_list_coded t ts n m pos (omega (arith, e)) uniform all fits;
        some_bytes = number_first m (length (t ∷ ts) * length t * n) _ p;
      })
value-IsField (int n) x (p, fits) = record {
  coded = number_coded x n fits;
  some_bytes = omega (arith, length-be_bytes n x);
}

parse_coded :
    (s : Shape) (value : Value s) (f : IsField s value) (p : Parser)
    → IsAt p f.coded.bytes
    → (parse s p).0 ≡ ok (some value)
unfolding parse parse_value get_remaining_length
parse_coded s value f p at =
    rw
      (
        something_left p f.coded.bytes f.some_bytes at,
        f.coded.reads p [] (nothing_more-IsAt p f.coded.bytes at),
        nothing_left (advance (length f.coded.bytes) p)
            (advance-IsAt p f.coded.bytes [] (nothing_more-IsAt p f.coded.bytes at)),
      )
      refl

module _ (c : Class) where
  pub field_coded :
      (value : Value (shape_of c))
      → IsWritable (shape_of c) value
      → Ends (write_value (shape_of c) value) (parse_class c) (some value)
  unfolding parse_class get_remaining_length
  field_coded value h =
      let f = value-IsField (shape_of c) value h in
      record {
        bytes = f.coded.bytes;
        writes = f.coded.writes;
        reads = λ p at.
            rw (something_left p f.coded.bytes f.some_bytes at, never (refuses_empty c))
              (parse_coded (shape_of c) value f p at);
      }
    where
      never : (b : Bool) → (b && false) ≡ false
      never b = ground arith

  -- A field that is missing, where the class takes that.
  pub no_field_coded : refuses_empty c ≡ false → Ends (pure tt) (parse_class c) none
  unfolding parse_class parse get_remaining_length
  no_field_coded e = record {
    bytes = [];
    writes = λ w. ap (λ (x : Writer). (ok tt, x)) (sym (extend_nil w));
    reads = λ p at. rw (nothing_left p at, e) (rw (nothing_left p at) refl);
  }
