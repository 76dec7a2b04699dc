-- ===== src/Extensions/ListItems.antt =====
-- tlslite/extensions.py: the formats of the items that extensions list.
use tls_dvnizk.Base.{ℕ, ◌≤◌, ◌≡◌, ◌==◌, false, not, List, length, All, All-weaken, arith}
use tls_dvnizk.Base.Bytes.{Bytes, IsByte}
use tls_dvnizk.Codec.Parser.{get_fix_bytes, get_var_bytes}
use tls_dvnizk.Codec.Writing.{Fits}
use tls_dvnizk.Codec.Coded.{Coded, coded_then, coded_last}
use tls_dvnizk.Codec.Parts.{
  number_coded, bytes_coded, fixed_coded, add_two_coded, add_four_coded, two_bytes_coded,
  short_coded, number_first, longer,
}
use tls_dvnizk.Codec.Items.{IsItem}
use tls_dvnizk.Extensions.Kinds.{KeyShareEntry, PskIdentity, ServerName, Tack}
use tls_dvnizk.Extensions.Data.{
  put_name, get_name, put_bytes, put_short, put_share, get_share, put_identity, get_identity,
  put_exactly, put_tack, get_tack,
}

-- What an item can carry.
abbrev pub IsName : ServerName → Type 0
IsName server = Fits 1 server.name_type × Fits 2 (length server.name)

abbrev pub IsShare : KeyShareEntry → Type 0
IsShare share = Fits 2 share.group × Fits 2 (length share.key_exchange)

abbrev pub IsIdentity : PskIdentity → Type 0
IsIdentity i = Fits 2 (length i.identity) × Fits 4 i.obfuscated_ticket_age

abbrev pub IsTack : Tack → Type 0
IsTack t =
    (length t.public_key ≡ 64)
    × Fits 1 t.min_generation
    × Fits 1 t.generation
    × Fits 4 t.expiration
    × (length t.target_hash ≡ 32)
    × (length t.signature ≡ 64)

abbrev pub IsShort : Bytes → Type 0
IsShort bs = All IsByte bs × Fits 1 (length bs)

name_item : (x : ServerName) → IsName x → IsItem put_name get_name x
unfolding put_name get_name coded_then number_coded
name_item x (t, n) = record {
  coded = coded_then _ _ _ _ x.name_type x (number_coded x.name_type 1 t) (
      coded_last _ _ (λ (sn_name : Bytes). record { name_type = x.name_type; name = sn_name })
        x.name (bytes_coded x.name 2 n));
  some_bytes = number_first 1 x.name_type _ (omega arith);
}

bytes_item :
    (n : ℕ) → 1 ≤ n → (bs : Bytes) → Fits n (length bs) → IsItem (put_bytes n) (get_var_bytes n) bs
unfolding bytes_coded
bytes_item n pos bs fits = record {
  coded = bytes_coded bs n fits;
  some_bytes = number_first n (length bs) bs pos;
}

short_item : (bs : Bytes) → IsShort bs → IsItem put_short (get_var_bytes 1) bs
unfolding put_short short_coded bytes_coded
short_item bs (all, fits) = record {
  coded = short_coded bs all fits;
  some_bytes = number_first 1 (length bs) bs (omega arith);
}

unfoldable pub share_coded : (x : KeyShareEntry) → IsShare x → Coded (put_share x) get_share x
unfolding put_share get_share
share_coded x (g, k) = coded_then _ _ _ _ x.group x (add_two_coded x.group g) (
    coded_last _ _ (λ (public : Bytes). record { group = x.group; key_exchange = public })
      x.key_exchange (two_bytes_coded x.key_exchange k))

share_item : (x : KeyShareEntry) → IsShare x → IsItem put_share get_share x
unfolding share_coded coded_then add_two_coded
share_item x h = record {
  coded = share_coded x h;
  some_bytes = number_first 2 x.group _ (omega arith);
}

identity_item : (x : PskIdentity) → IsIdentity x → IsItem put_identity get_identity x
unfolding put_identity get_identity coded_then two_bytes_coded bytes_coded
identity_item x (l, a) = record {
  coded = coded_then _ _ _ _ x.identity x (two_bytes_coded x.identity l) (
      coded_last _ _ (λ (age : ℕ). record { identity = x.identity; obfuscated_ticket_age = age })
        x.obfuscated_ticket_age (add_four_coded x.obfuscated_ticket_age a));
  some_bytes = longer _ _ (number_first 2 (length x.identity) x.identity (omega arith));
}

exactly_coded : (n : ℕ) (bs : Bytes) → length bs ≡ n → Coded (put_exactly n bs) (get_fix_bytes n) bs
exactly_coded n bs e =
    let c = fixed_coded bs n e in
    record {
      bytes = c.bytes;
      writes = λ w. rw (length_test (length bs) e) (c.writes w);
      reads = c.reads;
    }
  where
    length_test : (k : ℕ) → k ≡ n → not (k == n) ≡ false
    length_test k h = ground arith

tack_item : (x : Tack) → IsTack x → IsItem put_tack get_tack x
unfolding put_tack get_tack coded_then exactly_coded fixed_coded
tack_item x (k, m, g, u, t, s) = record {
  coded = coded_then _ _ _ _ x.public_key x (exactly_coded 64 x.public_key k) (
      coded_then _ _ _ _ x.min_generation x (number_coded x.min_generation 1 m) (
        coded_then _ _ _ _ x.generation x (number_coded x.generation 1 g) (
          coded_then _ _ _ _ x.expiration x (number_coded x.expiration 4 u) (
            coded_then _ _ _ _ x.target_hash x (exactly_coded 32 x.target_hash t) (
              coded_last _ _
                (λ (signed : Bytes). record {
                  public_key = x.public_key;
                  min_generation = x.min_generation;
                  generation = x.generation;
                  expiration = x.expiration;
                  target_hash = x.target_hash;
                  signature = signed;
                })
                x.signature (exactly_coded 64 x.signature s))))));
  some_bytes = longer x.public_key _ (omega (arith, k));
}

-- The lists of such items.
pub names : (xs : List ServerName) → All IsName xs → All (IsItem put_name get_name) xs
names xs h = All-weaken IsName (IsItem put_name get_name) name_item xs h

pub shares : (xs : List KeyShareEntry) → All IsShare xs → All (IsItem put_share get_share) xs
shares xs h = All-weaken IsShare (IsItem put_share get_share) share_item xs h

pub psk_identities :
    (xs : List PskIdentity) → All IsIdentity xs → All (IsItem put_identity get_identity) xs
psk_identities xs h = All-weaken IsIdentity (IsItem put_identity get_identity) identity_item xs h

pub tacks : (xs : List Tack) → All IsTack xs → All (IsItem put_tack get_tack) xs
tacks xs h = All-weaken IsTack (IsItem put_tack get_tack) tack_item xs h

pub byte_strings :
    (n : ℕ)
    → 1 ≤ n
    → (xs : List Bytes) → All (λ (bs : Bytes). Fits n (length bs)) xs
    → All (IsItem (put_bytes n) (get_var_bytes n)) xs
byte_strings n pos xs h =
    All-weaken (λ (bs : Bytes). Fits n (length bs)) (IsItem (put_bytes n) (get_var_bytes n))
      (bytes_item n pos) xs h

pub short_strings : (xs : List Bytes) → All IsShort xs → All (IsItem put_short (get_var_bytes 1)) xs
short_strings xs h = All-weaken IsShort (IsItem put_short (get_var_bytes 1)) short_item xs h
