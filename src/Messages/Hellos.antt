-- ===== src/Messages/Hellos.antt =====
-- tlslite/messages.py: the hellos and the session ticket, written and read.
use tls_dvnizk.Base.{◌*◌, ◌≤◌, ◌≡◌, List, length, All, ltb, Option, decode_error, arith}
use tls_dvnizk.Codec.Writing.{Fits}
use tls_dvnizk.Codec.Coded.{Coded, coded_then, coded_last}
use tls_dvnizk.Codec.Parts.{number_coded, fixed_coded, list_coded}
use tls_dvnizk.Extensions.Kinds.{Extension, client_place}
use tls_dvnizk.Messages.Kinds.{ClientHello, ServerHello, NewSessionTicket}
use tls_dvnizk.Messages.Frames.{Framed, framed_then, framed_test}
use tls_dvnizk.Messages.Bodies.{
  hello_place, put_client_hello, get_client_hello, put_server_hello, get_server_hello, put_ticket,
  get_ticket,
}
use tls_dvnizk.Messages.Fields.{
  IsString, string_coded, IsPair, pair_coded, AreListed, extensions_coded, MayBeListed,
  optional_framed,
}

-- What the hellos can carry.
abbrev pub IsClientHello : ClientHello → Type 0
IsClientHello hello =
    IsPair hello.client_version
    × (length hello.random ≡ 32)
    × IsString 1 hello.session_id
    × (length hello.session_id ≤ 32)
    × All (Fits 2) hello.cipher_suites
    × Fits 2 (length hello.cipher_suites * 2)
    × All (Fits 1) hello.compression_methods
    × Fits 1 (length hello.compression_methods * 1)
    × MayBeListed client_place hello.extensions

abbrev pub IsServerHello : ServerHello → Type 0
IsServerHello hello =
    IsPair hello.server_version
    × (length hello.random ≡ 32)
    × IsString 1 hello.session_id
    × Fits 2 hello.cipher_suite
    × Fits 1 hello.compression_method
    × MayBeListed (hello_place hello.random) hello.extensions

pub client_hello_framed :
    (x : ClientHello) → IsClientHello x → Framed (put_client_hello x) get_client_hello x
unfolding put_client_hello get_client_hello
client_hello_framed x (v, r, s, short, suites, n, methods, k, exts) =
    framed_then _ _ _ _ x.client_version x (pair_coded x.client_version v) (
      framed_then _ _ _ _ x.random x (fixed_coded x.random 32 r) (
        framed_then _ _ _ _ x.session_id x (string_coded 1 x.session_id s) (
          framed_test _ _ x (ltb 32 (length x.session_id)) decode_error (ground (arith, short)) (
            framed_then _ _ _ _ x.cipher_suites x
              (list_coded x.cipher_suites 2 2 (omega arith) suites n)
              (framed_then _ _ _ _ x.compression_methods x
                (list_coded x.compression_methods 1 1 (omega arith) methods k)
                (optional_framed client_place
                  (λ (e : Option (List Extension)). record {
                    client_version = x.client_version;
                    random = x.random;
                    session_id = x.session_id;
                    cipher_suites = x.cipher_suites;
                    compression_methods = x.compression_methods;
                    extensions = e;
                  })
                  x.extensions exts))))))

pub server_hello_framed :
    (x : ServerHello) → IsServerHello x → Framed (put_server_hello x) get_server_hello x
unfolding put_server_hello get_server_hello
server_hello_framed x (v, r, s, suite, method, exts) =
    framed_then _ _ _ _ x.server_version x (pair_coded x.server_version v) (
      framed_then _ _ _ _ x.random x (fixed_coded x.random 32 r) (
        framed_then _ _ _ _ x.session_id x (string_coded 1 x.session_id s) (
          framed_then _ _ _ _ x.cipher_suite x (number_coded x.cipher_suite 2 suite) (
            framed_then _ _ _ _ x.compression_method x (number_coded x.compression_method 1 method)
              (optional_framed (hello_place x.random)
                (λ (e : Option (List Extension)). record {
                  server_version = x.server_version;
                  random = x.random;
                  session_id = x.session_id;
                  cipher_suite = x.cipher_suite;
                  compression_method = x.compression_method;
                  extensions = e;
                })
                x.extensions exts)))))

abbrev pub IsTicket : NewSessionTicket → Type 0
IsTicket t =
    Fits 4 t.ticket_lifetime
    × Fits 4 t.ticket_age_add
    × IsString 1 t.ticket_nonce
    × IsString 2 t.ticket
    × AreListed client_place t.extensions

pub ticket_coded : (x : NewSessionTicket) → IsTicket x → Coded (put_ticket x) get_ticket x
unfolding put_ticket get_ticket
ticket_coded x (l, a, n, t, exts) =
    coded_then _ _ _ _ x.ticket_lifetime x (number_coded x.ticket_lifetime 4 l) (
      coded_then _ _ _ _ x.ticket_age_add x (number_coded x.ticket_age_add 4 a) (
        coded_then _ _ _ _ x.ticket_nonce x (string_coded 1 x.ticket_nonce n) (
          coded_then _ _ _ _ x.ticket x (string_coded 2 x.ticket t) (
            coded_last _ _
              (λ (e : List Extension). record {
                ticket_lifetime = x.ticket_lifetime;
                ticket_age_add = x.ticket_age_add;
                ticket_nonce = x.ticket_nonce;
                ticket = x.ticket;
                extensions = e;
              })
              x.extensions (extensions_coded client_place x.extensions exts)))))
