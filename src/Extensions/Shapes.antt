-- ===== src/Extensions/Shapes.antt =====
-- tlslite/extensions.py: VarBytesExtension, VarListExtension, VarSeqListExtension and IntExtension with the classes
-- below them. A class is its shape, the numbers that it hands over to the constructor above it.
use tls_dvnizk.Base.{
  ℕ, List, [], ◌==◌, Bool, true, false, ◌&&◌, not, if◌then◌else◌, Option, none, some, Method,
  Result, ok, err, pure, raise_if, ◌>>=◌, ◌>>◌, decode_error,
}
use tls_dvnizk.Base.Bytes.{Bytes}
use tls_dvnizk.Codec.Writer.{
  Writer, empty_writer, add, add_var_seq, add_var_tuple_seq, add_var_bytes,
}
use tls_dvnizk.Codec.Parser.{
  Parser, get, get_var_bytes, get_var_list, get_var_tuple_list, get_remaining_length,
}

pub data Shape : Type 0 where
  var_bytes : ℕ → Shape
  var_list : ℕ → ℕ → Shape
  var_seq_list : ℕ → ℕ → ℕ → Shape
  int : ℕ → Shape

-- The type of `_internal_value` where it is not None.
abbrev pub Value : Shape → Type 0
Value (var_bytes length_length) = Bytes
Value (var_list elem_length length_length) = List ℕ
Value (var_seq_list elem_length elem_num length_length) = List (List ℕ)
Value (int elem_length) = ℕ

abbrev pub write_value : (s : Shape) → Value s → Method Writer (Unit {0})
write_value (var_bytes length_length) bs = add_var_bytes bs length_length
write_value (var_list elem_length length_length) xs = add_var_seq xs elem_length length_length
write_value (var_seq_list elem_length elem_num length_length) ts =
    add_var_tuple_seq ts elem_length length_length
write_value (int elem_length) x = add x elem_length

abbrev pub read_value : (s : Shape) → Method Parser (Value s)
read_value (var_bytes length_length) = get_var_bytes length_length
read_value (var_list elem_length length_length) = get_var_list elem_length length_length
read_value (var_seq_list elem_length elem_num length_length) =
    get_var_tuple_list elem_length elem_num length_length
read_value (int elem_length) = get elem_length

abbrev pub written : Result (Unit {0}) × Writer → Result Bytes
written (ok done, w) = ok w.buffer
written (err problem, w) = err problem

-- `extData`
unfoldable pub ext_data : (s : Shape) → Option (Value s) → Result Bytes
ext_data s none = ok []
ext_data s (some value) = written (write_value s value empty_writer)

-- `parse` past the test of an empty payload.
unfoldable pub parse_value : (s : Shape) → Method Parser (Option (Value s))
parse_value s = do
  value ← read_value s
  left ← get_remaining_length
  raise_if (not (left == 0)) decode_error
  pure (some value)

unfoldable pub parse : (s : Shape) → Method Parser (Option (Value s))
parse s = do left ← get_remaining_length; if left == 0 then pure none else parse_value s

-- The classes.
pub data Class : Type 0 where
  supported_versions client_cert_type server_cert_type supported_groups ec_point_formats : Class
  delegated_credential signature_algorithms signature_algorithms_cert renegotiation_info : Class
  heartbeat srv_pre_shared_key psk_key_exchange_modes cookie record_size_limit
        compressed_certificate :
      Class

abbrev pub shape_of : Class → Shape
shape_of supported_versions = var_seq_list 1 2 1
shape_of client_cert_type = var_list 1 1
shape_of server_cert_type = int 1
shape_of supported_groups = var_list 2 2
shape_of ec_point_formats = var_list 1 1
shape_of delegated_credential = var_seq_list 1 2 2
shape_of signature_algorithms = var_seq_list 1 2 2
shape_of signature_algorithms_cert = var_seq_list 1 2 2
shape_of renegotiation_info = var_bytes 1
shape_of heartbeat = int 1
shape_of srv_pre_shared_key = int 2
shape_of psk_key_exchange_modes = var_list 1 1
shape_of cookie = var_bytes 2
shape_of record_size_limit = int 2
shape_of compressed_certificate = var_list 2 1

-- The classes whose own `parse` refuses an empty payload.
abbrev pub refuses_empty : Class → Bool
refuses_empty heartbeat = true
refuses_empty server_cert_type = true
refuses_empty _ = false

-- The `parse` of a class.
unfoldable pub parse_class : (c : Class) → Method Parser (Option (Value (shape_of c)))
parse_class c = do
  left ← get_remaining_length
  raise_if (refuses_empty c && (left == 0)) decode_error
  parse (shape_of c)
