-- ===== src/Codec/Writer.antt =====
-- tlslite/utils/codec.py: class `Writer`, under Python 3. The object is its buffer.
use tls_dvnizk.Base.{
  ℕ, ◌+◌, ◌*◌, ◌/◌, ◌%◌, ◌^◌, List, [], ◌∷◌, ◌++◌, Bool, true, not, ◌&&◌, if◌then◌else◌, ltb, leb,
  ◌==◌, length, Method, pure, raise_if, gets, modify, ◌>>=◌, ◌>>◌, value_error,
}
use tls_dvnizk.Base.Bytes.{Bytes, be_bytes}

pub record Writer : Type 0 where
  pub buffer : Bytes

abbrev pub empty_writer : Writer
empty_writer = record { buffer = [] }

-- `self.bytes += more`
abbrev pub extend : Bytes → Writer → Writer
extend more w = record { buffer = w.buffer ++ more }

-- `bytearray.append`, which refuses what is no byte.
unfoldable pub add_one : ℕ → Method Writer (Unit {0})
add_one val = raise_if (leb 256 val) value_error >> modify (extend (val ∷ []))

-- `struct.pack('>H', val)`
unfoldable pub add_two : ℕ → Method Writer (Unit {0})
add_two val = raise_if (leb (2 ^ 16) val) value_error >> modify (extend (be_bytes 2 val))

-- `struct.pack('>BH', val >> 16, val & 0xffff)`
unfoldable pub add_three : ℕ → Method Writer (Unit {0})
add_three val =
    raise_if (leb 256 (val / 2 ^ 16)) value_error
    >> modify (extend (be_bytes 1 (val / 2 ^ 16) ++ be_bytes 2 (val % 2 ^ 16)))

-- `struct.pack('>I', val)`
unfoldable pub add_four : ℕ → Method Writer (Unit {0})
add_four val = raise_if (leb (2 ^ 32) val) value_error >> modify (extend (be_bytes 4 val))

-- `x.to_bytes(length, 'big')`, which overflows where `x` does not fit.
unfoldable pub add : ℕ → ℕ → Method Writer (Unit {0})
add x len = raise_if (leb (256 ^ len) x) value_error >> modify (extend (be_bytes len x))

unfoldable pub add_fix_seq : List ℕ → ℕ → Method Writer (Unit {0})
add_fix_seq [] len = pure tt
add_fix_seq (e ∷ seq) len = add e len >> add_fix_seq seq len

-- Whether all items are below a bound.
abbrev pub each_below : ℕ → List ℕ → Bool
each_below bound [] = true
each_below bound (item ∷ seq) = each_below bound seq && ltb item bound

-- `struct.pack('>HH...', *seq)`
abbrev pub pack_twos : List ℕ → Bytes
pack_twos [] = []
pack_twos (x ∷ xs) = be_bytes 2 x ++ pack_twos xs

-- One byte an item is `bytearray.extend`, two are one `struct.pack`: both write all or nothing.
unfoldable pub add_items : List ℕ → ℕ → Method Writer (Unit {0})
add_items seq len =
    if len == 1
    then (raise_if (not (each_below 256 seq)) value_error >> modify (extend seq))
    else (if len == 2
        then (raise_if (not (each_below (2 ^ 16) seq)) value_error
            >> modify (extend (pack_twos seq)))
        else add_fix_seq seq len)

unfoldable pub add_var_seq : List ℕ → ℕ → ℕ → Method Writer (Unit {0})
add_var_seq seq len length_length = add (length seq * len) length_length >> add_items seq len

-- The loop of `addVarTupleSeq`.
unfoldable pub add_tuples : List (List ℕ) → ℕ → Method Writer (Unit {0})
add_tuples [] len = pure tt
add_tuples (t ∷ seq) len =
    (if len == 1
      then (raise_if (not (each_below 256 t)) value_error >> modify (extend t))
      else add_fix_seq t len)
    >> add_tuples seq len

unfoldable pub add_var_tuple_seq : List (List ℕ) → ℕ → ℕ → Method Writer (Unit {0})
add_var_tuple_seq [] len length_length = add 0 length_length
add_var_tuple_seq (t ∷ seq) len length_length = do
  start ← gets (λ w. length w.buffer)
  let data_length = length (t ∷ seq) * length t * len
  add data_length length_length
  add_tuples (t ∷ seq) len
  end ← gets (λ w. length w.buffer)
  raise_if (not (start + data_length + length_length == end)) value_error

unfoldable pub add_var_bytes : Bytes → ℕ → Method Writer (Unit {0})
add_var_bytes payload length_length = add (length payload) length_length >> modify (extend payload)
