-- ===== src/Extensions/RoundTrip.antt =====
-- tlslite/extensions.py: what `write` gives of an extension, read by `parse`.
use tls_dvnizk.Base.{
  ℕ, ◌≤◌, ◌≡◌, refl, subst, List, length, All, false, Option, none, some, Method, pure, ◌>>=◌, ◌>>◌,
  arith,
}
use tls_dvnizk.Base.Bytes.{Bytes, IsByte}
use tls_dvnizk.Codec.Writer.{Writer, add_fix_seq}
use tls_dvnizk.Codec.Parser.{Parser, get_fix_list}
use tls_dvnizk.Codec.Writing.{Fits}
use tls_dvnizk.Codec.Coded.{Coded, Ends, coded_then, ends_then, ends_last, ends_only, ends_tail}
use tls_dvnizk.Codec.Parts.{
  number_coded, bytes_coded, fix_list_coded, short_coded, add_two_coded, number_first, longer,
}
use tls_dvnizk.Codec.Nested.{nested, write_each, size_of, read_list, at_end, unless_empty}
use tls_dvnizk.Codec.Items.{IsItem, size-Fits, list_then, to_the_end_coded}
use tls_dvnizk.Codec.Endings.{end_coded, present_coded, missing_coded, rest_coded, rest_or}
use tls_dvnizk.Extensions.Shapes.{shape_of, refuses_empty}
use tls_dvnizk.Extensions.Payloads.{IsWritable}
use tls_dvnizk.Extensions.Kinds.{
  Extension, plain_ext, field_ext, sni_ext, srv_supported_versions_ext, srp_ext, npn_ext, tack_ext,
  padding_ext, alpn_ext, status_request_ext, client_key_share_ext, server_key_share_ext,
  hrr_key_share_ext, pre_shared_key_ext, session_ticket_ext, Kind, status_request_kind,
  pre_shared_key_kind, KeyShareEntry, StatusRequest, PreSharedKeys, kind_of,
}
use tls_dvnizk.Extensions.Data.{put_name, put_bytes, put_short, put_share, put_identity, put_tack}
use tls_dvnizk.Extensions.Extension.{payload, parse_payload}
use tls_dvnizk.Extensions.ListItems.{
  IsName, IsShare, IsIdentity, IsTack, IsShort, share_coded, names, shares, psk_identities, tacks,
  byte_strings, short_strings,
}
use tls_dvnizk.Extensions.Fields.{field_coded, no_field_coded}

-- Byte strings that fit a length field, and fit one together.
abbrev pub AreShort : ℕ → List Bytes → Type 0
AreShort n xs = All (λ (bs : Bytes). Fits n (length bs)) xs × Fits 2 (size_of (put_bytes n) xs)

-- A value that the class of the extension can write and read.
unfoldable pub IsCarried : Extension → Type 0
IsCarried (plain_ext type bs) = Unit {0}
IsCarried (field_ext c none) = refuses_empty c ≡ false
IsCarried (field_ext c (some value)) = IsWritable (shape_of c) value
IsCarried (sni_ext none) = Unit {0}
IsCarried (sni_ext (some xs)) = All IsName xs × Fits 2 (size_of put_name xs)
IsCarried (srv_supported_versions_ext none) = ⊥
IsCarried (srv_supported_versions_ext (some version)) = (length version ≡ 2) × All IsByte version
IsCarried (srp_ext none) = ⊥
IsCarried (srp_ext (some identity)) = IsShort identity
IsCarried (npn_ext none) = ⊥
IsCarried (npn_ext (some protocols)) = All IsShort protocols
IsCarried (tack_ext ts activation_flags) =
    All IsTack ts × Fits 2 (size_of put_tack ts) × Fits 1 activation_flags
IsCarried (padding_ext padding_data) = Unit {0}
IsCarried (alpn_ext none) = ⊥
IsCarried (alpn_ext (some protocol_names)) = AreShort 1 protocol_names
IsCarried (status_request_ext none) = Unit {0}
IsCarried (status_request_ext (some request)) =
    Fits 1 request.status_type
    × AreShort 2 request.responder_id_list
    × Fits 2 (length request.request_extensions)
IsCarried (client_key_share_ext none) = ⊥
IsCarried (client_key_share_ext (some xs)) = All IsShare xs × Fits 2 (size_of put_share xs)
IsCarried (server_key_share_ext none) = Unit {0}
IsCarried (server_key_share_ext (some share)) = IsShare share
IsCarried (hrr_key_share_ext none) = ⊥
IsCarried (hrr_key_share_ext (some selected)) = Fits 2 selected
IsCarried (pre_shared_key_ext none) = Unit {0}
IsCarried (pre_shared_key_ext (some keys)) =
    All IsIdentity keys.identities
    × Fits 2 (size_of put_identity keys.identities)
    × AreShort 1 keys.binders
IsCarried (session_ticket_ext ticket) = Unit {0}

-- The items of the lists, and what follows them.
module _ {ℓ} {A : Type ℓ} (put : A → Method Writer (Unit {0})) (item : Method Parser A)
    (xs : List A) (all : All (IsItem put item) xs) where
  list_first :
      (m : Method Writer (Unit {0})) (k : List A → Method Parser Extension) (u : Extension)
      → Fits 2 (size_of put xs)
      → Ends m (k xs) u
      → Ends (nested 2 (write_each put xs) >> m) (read_list 2 item >>= k) u
  list_first m k u fits e = list_then put item xs all 2 m k u (size-Fits put item 2 xs all fits) e

  list_end :
      (f : List A → Extension)
      → Fits 2 (size_of put xs)
      → Ends (nested 2 (write_each put xs)) (read_list 2 item >>= λ ys. at_end (f ys)) (f xs)
  list_end f fits =
      ends_only _ _ _ (list_first (pure tt) (λ ys. at_end (f ys)) (f xs) fits (end_coded (f xs)))

  -- A list and the end, where an empty payload is something else.
  list_or :
      (f : List A → Extension) (default : Extension)
      → Fits 2 (size_of put xs)
      → Ends
          (nested 2 (write_each put xs))
          (unless_empty default (read_list 2 item >>= λ ys. at_end (f ys)))
          (f xs)
  unfolding list_then bytes_coded ends_only
  list_or f default fits =
      present_coded (nested 2 (write_each put xs)) default (f xs)
        (read_list 2 item >>= λ ys. at_end (f ys))
        (ends_only _ _ _ (
          list_then put item xs all 2 (pure tt) (λ ys. at_end (f ys)) (f xs)
            (size-Fits put item 2 xs all fits) (end_coded (f xs))))
        (longer _ _ (number_first 2 _ _ (omega arith)))

module _ {ℓ} {A : Type ℓ} (m : Method Writer (Unit {0})) (r : Method Parser A) (f : A → Extension)
    (v : A) where
  and_end : Coded m r v → Ends m (r >>= λ x. at_end (f x)) (f v)
  and_end c =
      ends_only m (r >>= λ x. at_end (f x)) (f v)
        (ends_then m (pure tt) r (λ x. at_end (f x)) v (f v) c (end_coded (f v)))

  -- The same where an empty payload is something else.
  one_or :
      (default : Extension) (c : Coded m r v)
      → 1 ≤ length c.bytes
      → Ends m (unless_empty default (r >>= λ x. at_end (f x))) (f v)
  unfolding and_end ends_only ends_then
  one_or default c h =
      present_coded m default (f v) (r >>= λ x. at_end (f x)) (and_end c) (longer _ _ h)

version_coded :
    (xs : List ℕ) (n : ℕ)
    → length xs ≡ n
    → All IsByte xs
    → Coded (add_fix_seq xs 1) (get_fix_list 1 n) xs
version_coded xs n e all =
    subst (λ (k : ℕ). Coded (add_fix_seq xs 1) (get_fix_list 1 k) xs) e (fix_list_coded xs 1 all)

status_coded :
    (x : StatusRequest)
    → IsCarried (status_request_ext (some x))
    → Ends
        (payload (status_request_ext (some x)))
        (parse_payload status_request_kind)
        (status_request_ext (some x))
unfolding IsCarried payload parse_payload ends_then number_coded
status_coded x (t, (all, fits), m) =
    present_coded _ (status_request_ext none) (status_request_ext (some x)) _
      (ends_then _ _ _ _ x.status_type (status_request_ext (some x))
        (number_coded x.status_type 1 t)
        (list_first _ _ x.responder_id_list (byte_strings 2 (omega arith) x.responder_id_list all) _
          _ (status_request_ext (some x)) fits
          (and_end _ _
            (λ (more : Bytes). status_request_ext (
              some (record {
                status_type = x.status_type;
                responder_id_list = x.responder_id_list;
                request_extensions = more;
              })))
            x.request_extensions (bytes_coded x.request_extensions 2 m))))
      (number_first 1 x.status_type _ (omega arith))

keys_coded :
    (x : PreSharedKeys)
    → IsCarried (pre_shared_key_ext (some x))
    → Ends
        (payload (pre_shared_key_ext (some x)))
        (parse_payload pre_shared_key_kind)
        (pre_shared_key_ext (some x))
unfolding IsCarried payload parse_payload list_first list_then bytes_coded
keys_coded x (all, fits, (all', fits')) =
    present_coded _ (pre_shared_key_ext none) (pre_shared_key_ext (some x)) _
      (list_first _ _ x.identities (psk_identities x.identities all) _ _
        (pre_shared_key_ext (some x)) fits
        (list_end _ _ x.binders (byte_strings 1 (omega arith) x.binders all')
          (λ (macs : List Bytes).
            pre_shared_key_ext (some (record { identities = x.identities; binders = macs })))
          fits'))
      (longer _ _ (number_first 2 _ _ (omega arith)))

-- The kind of an extension reads its payload.
abbrev pub ReadBack : Extension → Option Kind → Type 0
ReadBack e none = (type : ℕ) × (bs : Bytes) × (e ≡ plain_ext type bs)
ReadBack e (some kind) = Ends (payload e) (parse_payload kind) e

pub payload_coded : (e : Extension) → IsCarried e → ReadBack e (kind_of e)
unfolding IsCarried payload parse_payload put_short share_coded coded_then add_two_coded
payload_coded (plain_ext type bs) h = (type, bs, refl)
payload_coded (field_ext c none) h = ends_tail _ _ (field_ext c) none (no_field_coded c h)
payload_coded (field_ext c (some value)) h =
    ends_tail _ _ (field_ext c) (some value) (field_coded c value h)
payload_coded (sni_ext none) h = missing_coded (sni_ext none) _
payload_coded (sni_ext (some xs)) (all, fits) =
    list_or _ _ xs (names xs all) (λ ys. sni_ext (some ys)) (sni_ext none) fits
payload_coded (srv_supported_versions_ext none) h = absurd h
payload_coded (srv_supported_versions_ext (some version)) (e, all) =
    and_end _ _ (λ (xs : List ℕ). srv_supported_versions_ext (some xs)) version
      (version_coded version 2 e all)
payload_coded (srp_ext none) h = absurd h
payload_coded (srp_ext (some identity)) (all, fits) =
    ends_last _ _ (λ (bs : Bytes). srp_ext (some bs)) identity (short_coded identity all fits)
payload_coded (npn_ext none) h = absurd h
payload_coded (npn_ext (some protocols)) h =
    ends_tail _ _ (λ (xs : List Bytes). npn_ext (some xs)) protocols
      (to_the_end_coded _ _ protocols (short_strings protocols h))
payload_coded (tack_ext ts activation_flags) (all, fits, f) =
    list_first _ _ ts (tacks ts all) _ _ (tack_ext ts activation_flags) fits
      (ends_last _ _ (tack_ext ts) activation_flags (number_coded activation_flags 1 f))
payload_coded (padding_ext padding_data) h =
    ends_tail _ _ padding_ext padding_data (rest_coded padding_data)
payload_coded (alpn_ext none) h = absurd h
payload_coded (alpn_ext (some protocol_names)) (all, fits) =
    list_end _ _ protocol_names (byte_strings 1 (omega arith) protocol_names all)
      (λ (xs : List Bytes). alpn_ext (some xs)) fits
payload_coded (status_request_ext none) h = missing_coded (status_request_ext none) _
payload_coded (status_request_ext (some request)) (t, (all, fits), m) =
    status_coded request (t, (all, fits), m)
payload_coded (client_key_share_ext none) h = absurd h
payload_coded (client_key_share_ext (some xs)) (all, fits) =
    list_or _ _ xs (shares xs all) (λ ys. client_key_share_ext (some ys))
      (client_key_share_ext none) fits
payload_coded (server_key_share_ext none) h = missing_coded (server_key_share_ext none) _
payload_coded (server_key_share_ext (some share)) h =
    one_or _ _ (λ (x : KeyShareEntry). server_key_share_ext (some x)) share
      (server_key_share_ext none) (share_coded share h) (number_first 2 share.group _ (omega arith))
payload_coded (hrr_key_share_ext none) h = absurd h
payload_coded (hrr_key_share_ext (some selected)) h =
    and_end _ _ (λ (x : ℕ). hrr_key_share_ext (some x)) selected (number_coded selected 2 h)
payload_coded (pre_shared_key_ext none) h = missing_coded (pre_shared_key_ext none) _
payload_coded (pre_shared_key_ext (some keys)) (all, fits, (all', fits')) =
    keys_coded keys (all, fits, (all', fits'))
payload_coded (session_ticket_ext ticket) h = rest_or session_ticket_ext ticket
