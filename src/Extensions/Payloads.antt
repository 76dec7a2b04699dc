-- ===== src/Extensions/Payloads.antt =====
-- tlslite/extensions.py: payloads, written and read.
use tls_dvnizk.Base.{
  ℕ, ◌*◌, ◌^◌, ◌≤◌, ◌<◌, ◌≡◌, ap, subst, [], ◌∷◌, ◌++◌, length, length-append, Option, some,
  decode_error, err, if◌then◌else◌, All, Result, ok, ◌==◌, Bool, false, ◌&&◌, ◌-◌, arith,
}
use tls_dvnizk.Base.Bytes.{Bytes, be_bytes, length-be_bytes}
use tls_dvnizk.Codec.Writer.{Writer, empty_writer}
use tls_dvnizk.Codec.Parser.{new_parser, get_remaining_length}
use tls_dvnizk.Codec.Writing.{
  Fits, items, tuples, Uniform, add-Fits, add_var_seq-Fits, add_var_bytes-Fits,
  add_var_tuple_seq-Fits,
}
use tls_dvnizk.Codec.RoundTrip.{
  ReadsBack, parser_at, get-add, get_var_bytes-add_var_bytes, get_var_list-add_var_seq,
  get_var_tuple_list-add_var_tuple_seq,
}
use tls_dvnizk.Extensions.Shapes.{
  Shape, var_bytes, var_list, var_seq_list, int, Value, write_value, read_value, written, ext_data,
  parse_value, parse, Class, shape_of, refuses_empty, parse_class,
}

-- A value that the class can write.
unfoldable pub IsWritable : (s : Shape) → Value s → Type 0
IsWritable (var_bytes m) bs = (1 ≤ m) × (length bs < 256 ^ m)
IsWritable (var_list n m) xs = (1 ≤ n) × (1 ≤ m) × All (Fits n) xs × (length xs * n < 256 ^ m)
IsWritable (var_seq_list n k m) [] = ⊥
IsWritable (var_seq_list n k m) (t ∷ ts) =
    (1 ≤ n)
    × (1 ≤ k)
    × (1 ≤ m)
    × (length t ≡ k)
    × Uniform (length t) ts
    × All (All (Fits n)) (t ∷ ts)
    × (length (t ∷ ts) * length t * n < 256 ^ m)
IsWritable (int n) x = (1 ≤ n) × (x < 256 ^ n)

-- What a value is written as, and read back from.
record IsBack (s : Shape) (value : Value s) : Type 0 where
  bytes : Bytes
  wrote : write_value s value empty_writer ≡ (ok tt, record { buffer = bytes })
  some_bytes : 1 ≤ length bytes
  back :
      (rest : Bytes)
      → read_value s (new_parser (bytes ++ rest))
        ≡ (ok value, parser_at (bytes ++ rest) (length bytes))

module _ (s : Shape) (value : Value s) where
  is_back :
      (more : Bytes)
      → write_value s value empty_writer ≡ (ok tt, record { buffer = more })
      → 1 ≤ length more
      → ReadsBack empty_writer (write_value s value empty_writer) (read_value s) value
      → IsBack s value
  is_back more e h reads = record {
    bytes = more;
    wrote = e;
    some_bytes = h;
    back =
        subst
          (λ (step : Result (Unit {0}) × Writer). ReadsBack empty_writer step (read_value s) value)
          e reads;
  }

header_bytes : (m k : ℕ) (bs : Bytes) → 1 ≤ m → 1 ≤ length (be_bytes m k ++ bs)
header_bytes m k bs h = omega (arith, length-append (be_bytes m k) bs, length-be_bytes m k)

value-IsBack : (s : Shape) (value : Value s) → IsWritable s value → IsBack s value
unfolding IsWritable
value-IsBack (var_bytes m) bs (p, fits) =
    is_back (var_bytes m) bs (be_bytes m (length bs) ++ bs)
      (add_var_bytes-Fits bs m empty_writer fits) (header_bytes m (length bs) bs p)
      ((get_var_bytes-add_var_bytes bs m empty_writer fits).1)
value-IsBack (var_list n m) xs (pos, p, all, fits) =
    is_back (var_list n m) xs (be_bytes m (length xs * n) ++ items n xs)
      (add_var_seq-Fits xs n m empty_writer all fits)
      (header_bytes m (length xs * n) (items n xs) p)
      ((get_var_list-add_var_seq xs n m empty_writer pos all fits).1)
value-IsBack (var_seq_list n k m) [] h = absurd h
value-IsBack (var_seq_list n k m) (t ∷ ts) (pos, pos', p, e, uniform, all, fits) =
    subst (λ (l : ℕ). IsBack (var_seq_list n l m) (t ∷ ts)) e
      (is_back (var_seq_list n (length t) m) (t ∷ ts)
        (be_bytes m (length (t ∷ ts) * length t * n) ++ tuples n (t ∷ ts))
        (add_var_tuple_seq-Fits t ts n m empty_writer uniform all fits)
        (header_bytes m (length (t ∷ ts) * length t * n) (tuples n (t ∷ ts)) p)
        ((get_var_tuple_list-add_var_tuple_seq t ts n m empty_writer pos (omega arith) uniform all
          fits).1))
value-IsBack (int n) x (p, fits) =
    is_back (int n) x (be_bytes n x) (add-Fits x n empty_writer fits)
      (omega (arith, length-be_bytes n x)) ((get-add x n empty_writer fits).1)

-- What the end of a payload decides.
abbrev pub whole_only {ℓ} : {A : Type ℓ} → A → Bytes → Result (Option A)
whole_only value rest = if length rest == 0 then ok (some value) else err decode_error

abbrev Reads : (s : Shape) → Value s → Bytes → Bytes → Type 0
Reads s value bs rest =
    read_value s (new_parser (bs ++ rest)) ≡ (ok value, parser_at (bs ++ rest) (length bs))

module _ (s : Shape) (value : Value s) (bs rest : Bytes) (some_bytes : 1 ≤ length bs) where
  back-parse_value :
      Reads s value bs rest → (parse_value s (new_parser (bs ++ rest))).0 ≡ whole_only value rest
  unfolding parse_value get_remaining_length
  back-parse_value e = rw e (ground (arith, length-append bs rest))

  remains : (length (bs ++ rest) - 0 == 0) ≡ false
  remains = ground (arith, length-append bs rest)

  back-parse : Reads s value bs rest → (parse s (new_parser (bs ++ rest))).0 ≡ whole_only value rest
  unfolding parse get_remaining_length
  back-parse e = rw remains (back-parse_value e)

back-parse_class :
    (c : Class) (value : Value (shape_of c)) (bs rest : Bytes)
    → 1 ≤ length bs
    → Reads (shape_of c) value bs rest
    → (parse_class c (new_parser (bs ++ rest))).0 ≡ whole_only value rest
unfolding parse_class get_remaining_length
back-parse_class c value bs rest h e =
    rw (refused (refuses_empty c)) (back-parse (shape_of c) value bs rest h e)
  where
    refused : (b : Bool) → (b && (length (bs ++ rest) - 0 == 0)) ≡ false
    refused b = ground (arith, length-append bs rest)

-- For each class of extension with a single field: a value that fits its length fields, and is no empty list of tuples,
-- has an encoding, from which the `parse` of the class gives the value; with more bytes behind, it raises DecodeError.
pub parse_class-ext_data :
    (c : Class) (value : Value (shape_of c)) (rest : Bytes)
    → IsWritable (shape_of c) value
    → (bs : Bytes) × ((ext_data (shape_of c) (some value) ≡ ok bs)
        × ((parse_class c (new_parser (bs ++ rest))).0 ≡ whole_only value rest))
unfolding ext_data
parse_class-ext_data c value rest h =
    let k = value-IsBack (shape_of c) value h in
    (
      k.bytes,
      (ap written k.wrote, back-parse_class c value k.bytes rest k.some_bytes (k.back rest)),
    )
