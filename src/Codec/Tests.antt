-- ===== src/Codec/Tests.antt =====
-- The round trips of the codec at concrete inputs.
use tls_dvnizk.Base.{ℕ, ◌≡◌, refl, List, [], ◌∷◌, ok, err, value_error, arith}
use tls_dvnizk.Base.Bytes.{be_bytes, be_value}
use tls_dvnizk.Codec.Writer.{Writer, add, add_var_seq, add_items, add_var_tuple_seq}
use tls_dvnizk.Codec.Parser.{new_parser, get, get_fix_bytes, get_var_bytes, get_var_tuple_list}
use tls_dvnizk.Codec.RoundTrip.{ReadsBack, get-add, get_var_tuple_list-add_var_tuple_seq}

abbrev started : Writer
started = record { buffer = 22 ∷ 3 ∷ [] }

written_list :
    (add_var_seq (0x0017 ∷ 0x001d ∷ []) 2 2 started).1.buffer
    ≡ 22 ∷ 3 ∷ 0 ∷ 4 ∷ 0 ∷ 23 ∷ 0 ∷ 29 ∷ []
unfolding add_var_seq add_items add be_bytes
written_list = refl

-- A failed item leaves the length field written.
failed_list :
    add_var_seq (0x10000 ∷ []) 2 2 started
    ≡ (err value_error, record { buffer = 22 ∷ 3 ∷ 0 ∷ 2 ∷ [] })
unfolding add_var_seq add_items add be_bytes
failed_list = refl

-- A body that is cut short leaves the index behind the length field.
short_body : (get_var_bytes 1 (new_parser (3 ∷ 7 ∷ []))).1.index ≡ 1
unfolding get_var_bytes get get_fix_bytes be_value
short_body = refl

get-add_example :
    ((add 300 2 started).0 ≡ ok tt) × ReadsBack started (add 300 2 started) (get 2) 300
get-add_example = get-add 300 2 started (omega arith)

abbrev groups : List ℕ
groups = 0x0017 ∷ 0x001d ∷ []

abbrev pairs : List (List ℕ)
pairs = (8 ∷ 5 ∷ []) ∷ []

get_var_tuple_list-add_var_tuple_seq_example :
    ((add_var_tuple_seq ((8 ∷ 4 ∷ []) ∷ pairs) 1 2 started).0 ≡ ok tt)
    × ReadsBack started
        (add_var_tuple_seq ((8 ∷ 4 ∷ []) ∷ pairs) 1 2 started)
        (get_var_tuple_list 1 2 2)
        ((8 ∷ 4 ∷ []) ∷ pairs)
get_var_tuple_list-add_var_tuple_seq_example =
    get_var_tuple_list-add_var_tuple_seq (8 ∷ 4 ∷ []) pairs 1 2 started (omega arith) (omega arith)
      (refl, tt) (omega arith) (omega arith)
