-- ===== src/Messages/Bodies.antt =====
-- tlslite/messages.py: the hellos, the session ticket and the parameters of a ServerKeyExchange, without the header and
-- its length check. TACK's own library is taken as missing, so `tackExt` is None.
use tls_dvnizk.Base.{
  List, [], ◌∷◌, length, ltb, ◌==◌, not, if◌then◌else◌, Option, none, some, Method, pure, raise,
  raise_if, modify, ◌>>=◌, ◌>>◌, assertion_error, decode_error,
}
use tls_dvnizk.Base.Bytes.{Bytes, same_bytes}
use tls_dvnizk.Codec.Writer.{Writer, extend, add, add_var_seq}
use tls_dvnizk.Codec.Parser.{Parser, get, get_fix_bytes, get_var_bytes, get_var_list}
use tls_dvnizk.Codec.Nested.{nested, inner, write_each, read_all}
use tls_dvnizk.Numbers.ByteStrings.{number_to_byte_array, bytes_to_number}
use tls_dvnizk.ConstantTime.Cbc.{Version}
use tls_dvnizk.Extensions.Kinds.{Extension, Place, client_place, server_place, hrr_place}
use tls_dvnizk.Extensions.Extension.{put_extension, parse_extension}
use tls_dvnizk.Messages.Frames.{unless_done}
use tls_dvnizk.Messages.Kinds.{
  ClientHello, ServerHello, NewSessionTicket, Sized, ServerParams, srp_params, dh_params,
  ecdh_params, Family, srp_family, dh_family, ecdh_family,
}

-- `TLS_1_3_HRR`
abbrev pub tls_1_3_hrr : Bytes
tls_1_3_hrr =
    207 ∷ 33 ∷ 173 ∷ 116 ∷ 229 ∷ 154 ∷ 97 ∷ 17 ∷ 190 ∷ 29 ∷ 140 ∷ 2 ∷ 30 ∷ 101 ∷ 184 ∷ 145 ∷ 194
    ∷ 162 ∷ 17 ∷ 22 ∷ 122 ∷ 187 ∷ 140 ∷ 94 ∷ 7 ∷ 158 ∷ 9 ∷ 226 ∷ 200 ∷ 168 ∷ 51 ∷ 156 ∷ []

-- The flags with which the extensions of a ServerHello are parsed.
abbrev pub hello_place : Bytes → Place
hello_place random = if same_bytes random tls_1_3_hrr then hrr_place else server_place

-- The extensions of a message: two bytes of length, and a parser of their own.
abbrev pub put_extensions : List Extension → Method Writer (Unit {0})
put_extensions extensions = nested 2 (write_each put_extension extensions)

abbrev pub get_extensions : Place → Method Parser (List Extension)
get_extensions place = get_var_bytes 2 >>= λ bs. inner (read_all (parse_extension place) bs)

abbrev pub put_optional : Option (List Extension) → Method Writer (Unit {0})
put_optional none = pure tt
put_optional (some extensions) = put_extensions extensions

-- Two bytes: a version or a signature algorithm.
abbrev pub put_pair : Version → Method Writer (Unit {0})
put_pair version = add (version.0) 1 >> add (version.1) 1

abbrev pub get_pair : Method Parser Version
get_pair = get 1 >>= λ major. get 1 >>= λ minor. pure (major, minor)

unfoldable pub put_client_hello : ClientHello → Method Writer (Unit {0})
put_client_hello hello =
    put_pair hello.client_version
    >> (modify (extend hello.random)
        >> (add_var_seq hello.session_id 1 1
            >> (add_var_seq hello.cipher_suites 2 2
                >> (add_var_seq hello.compression_methods 1 1 >> put_optional hello.extensions))))

unfoldable pub get_client_hello : Method Parser ClientHello
get_client_hello = get_pair >>= λ v. get_fix_bytes 32 >>= λ nonce. get_var_bytes 1 >>= λ id.
    raise_if (ltb 32 (length id)) decode_error >>= λ _. get_var_list 2 2 >>= λ suites.
    get_var_list 1 1 >>= λ methods. unless_done (get_extensions client_place) >>= λ exts.
    pure (record {
      client_version = v;
      random = nonce;
      session_id = id;
      cipher_suites = suites;
      compression_methods = methods;
      extensions = exts;
    })

unfoldable pub put_server_hello : ServerHello → Method Writer (Unit {0})
put_server_hello hello =
    put_pair hello.server_version
    >> (modify (extend hello.random)
        >> (add_var_seq hello.session_id 1 1
            >> (add hello.cipher_suite 2
                >> (add hello.compression_method 1 >> put_optional hello.extensions))))

unfoldable pub get_server_hello : Method Parser ServerHello
get_server_hello = get_pair >>= λ v. get_fix_bytes 32 >>= λ nonce. get_var_bytes 1 >>= λ id.
    get 2 >>= λ suite. get 1 >>= λ method.
    unless_done (get_extensions (hello_place nonce)) >>= λ exts. pure (record {
      server_version = v;
      random = nonce;
      session_id = id;
      cipher_suite = suite;
      compression_method = method;
      extensions = exts;
    })

unfoldable pub put_ticket : NewSessionTicket → Method Writer (Unit {0})
put_ticket t =
    add t.ticket_lifetime 4
    >> (add t.ticket_age_add 4
        >> (add_var_seq t.ticket_nonce 1 1
            >> (add_var_seq t.ticket 1 2 >> put_extensions t.extensions)))

unfoldable pub get_ticket : Method Parser NewSessionTicket
get_ticket = get 4 >>= λ lifetime. get 4 >>= λ age. get_var_bytes 1 >>= λ nonce.
    get_var_bytes 2 >>= λ sealed. get_extensions client_place >>= λ exts. pure (record {
      ticket_lifetime = lifetime;
      ticket_age_add = age;
      ticket_nonce = nonce;
      ticket = sealed;
      extensions = exts;
    })

-- `writer.addVarSeq(numberToByteArray(n, n_len), 1, 2)`
unfoldable pub put_sized : Sized → Method Writer (Unit {0})
put_sized x = add_var_seq (number_to_byte_array x.number x.size) 1 2

unfoldable pub get_sized : Method Parser Sized
get_sized = get 2 >>= λ n_len.
    get_fix_bytes n_len >>= λ bs. pure (record { number = bytes_to_number bs; size = some n_len })

-- `writeParams`, by the family of the suite.
unfoldable pub put_params : Family → ServerParams → Method Writer (Unit {0})
put_params srp_family (srp_params n g salt b) =
    put_sized n >> (put_sized g >> (add_var_seq salt 1 1 >> put_sized b))
put_params dh_family (dh_params p g ys) = put_sized p >> (put_sized g >> put_sized ys)
put_params ecdh_family (ecdh_params curve_type named_curve ys) =
    add curve_type 1
    >> (raise_if (not (curve_type == 3)) assertion_error
        >> (add named_curve 2 >> add_var_seq ys 1 1))
put_params _ _ = raise assertion_error

unfoldable pub get_params : Family → Method Parser ServerParams
get_params srp_family = get_sized >>= λ n.
    get_sized >>= λ g. get_var_bytes 1 >>= λ salt. get_sized >>= λ b. pure (srp_params n g salt b)
get_params dh_family =
    get_sized >>= λ p. get_sized >>= λ g. get_sized >>= λ ys. pure (dh_params p g ys)
get_params ecdh_family = get 1 >>= λ type. raise_if (not (type == 3)) assertion_error >>= λ _.
    get 2 >>= λ curve. get_var_bytes 1 >>= λ ys. pure (ecdh_params type curve ys)
get_params _ = raise assertion_error
