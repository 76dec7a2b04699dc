-- ===== src/Extensions/Tests.antt =====
-- The witnesses: the signature algorithms of a client that knows two of them, and its key shares.
use tls_dvnizk.Base.{ℕ, ◌≡◌, refl, length, List, [], ◌∷◌, ◌++◌, some, ok, arith}
use tls_dvnizk.Base.Bytes.{Bytes, be_bytes}
use tls_dvnizk.Codec.Writer.{empty_writer, extend, add, add_two, add_var_bytes}
use tls_dvnizk.Codec.Parser.{new_parser, advance}
use tls_dvnizk.Extensions.Kinds.{Extension, client_key_share_ext, client_place}
use tls_dvnizk.Extensions.Data.{put_share}
use tls_dvnizk.Extensions.Extension.{payload, put_extension, parse_extension}
use tls_dvnizk.Extensions.RoundTrip.{IsCarried}
use tls_dvnizk.Extensions.Headers.{IsListed, parse_extension-put_extension}
use tls_dvnizk.Extensions.Shapes.{signature_algorithms, shape_of, ext_data, parse_class}
use tls_dvnizk.Extensions.Payloads.{IsWritable, whole_only, parse_class-ext_data}

abbrev schemes : List (List ℕ)
schemes = (4 ∷ 3 ∷ []) ∷ (8 ∷ 7 ∷ []) ∷ []

schemes-IsWritable : IsWritable (shape_of signature_algorithms) schemes
unfolding IsWritable
schemes-IsWritable = omega arith

parse_class-ext_data_example :
    (bs : Bytes) × ((ext_data (shape_of signature_algorithms) (some schemes) ≡ ok bs)
      × ((parse_class signature_algorithms (new_parser (bs ++ (0 ∷ [])))).0
          ≡ whole_only schemes (0 ∷ [])))
parse_class-ext_data_example =
    parse_class-ext_data signature_algorithms schemes (0 ∷ []) schemes-IsWritable

-- The key shares of a client.
abbrev shares : Extension
shares = client_key_share_ext (some (record { group = 29; key_exchange = 9 ∷ 8 ∷ 7 ∷ [] } ∷ []))

shares-IsListed : IsListed client_place shares
unfolding IsCarried payload put_share add_two add be_bytes add_var_bytes
shares-IsListed = (refl, (((omega arith, omega arith), tt), omega arith), omega arith, omega arith)

parse_extension-put_extension_example :
    (bs : Bytes) × ((put_extension shares empty_writer ≡ (ok tt, extend bs empty_writer))
      × (parse_extension client_place (new_parser (bs ++ (0 ∷ [])))
          ≡ (ok shares, advance (length bs) (new_parser (bs ++ (0 ∷ []))))))
parse_extension-put_extension_example =
    parse_extension-put_extension client_place shares empty_writer (0 ∷ []) shares-IsListed
