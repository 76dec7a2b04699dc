-- ===== src/Messages/Fields.antt =====
-- tlslite/messages.py: the formats of the parts that handshake messages share.
use tls_dvnizk.Base.{
  ℕ, ◌-◌, ◌^◌, ◌≤◌, ◌<◌, ◌≡◌, refl, sym, ap₂, subst, List, ◌++◌, length, All, All-weaken, ltb,
  if◌then◌else◌, Option, none, some, Error, pure, raise_if, modify, ◌>>=◌, drop, arith,
}
use tls_dvnizk.Base.Bytes.{
  Bytes, IsByte, be_bytes, be_value, be_value-be_bytes, length-be_bytes, be_bytes-IsByte,
}
use tls_dvnizk.Codec.Writer.{extend, add, add_var_seq}
use tls_dvnizk.Codec.Parser.{get, get_fix_bytes, get_var_bytes}
use tls_dvnizk.Codec.Writing.{Fits}
use tls_dvnizk.Codec.Nested.{size_of}
use tls_dvnizk.Codec.Coded.{Coded, coded_then, coded_last}
use tls_dvnizk.Codec.Parts.{number_coded, fixed_coded, bytes_coded, seq_bytes_coded, number_first}
use tls_dvnizk.Codec.Items.{IsItem, size-Fits, nested_coded}
use tls_dvnizk.Numbers.ByteStrings.{
  byte_length, default_length, number_to_byte_array, default_length-lt, default_length-pos,
  enough-lt,
}
use tls_dvnizk.ConstantTime.Cbc.{Version}
use tls_dvnizk.Extensions.Kinds.{Extension, Place}
use tls_dvnizk.Extensions.Extension.{put_extension, parse_extension}
use tls_dvnizk.Extensions.Headers.{IsListed, extension_item}
use tls_dvnizk.Messages.Kinds.{Sized}
use tls_dvnizk.Messages.Frames.{Framed, unless_done, done_or, done_nothing, coded_test}
use tls_dvnizk.Messages.Bodies.{
  put_extensions, get_extensions, put_optional, put_pair, get_pair, put_sized, get_sized,
}

-- A byte string under a length field of this many bytes.
abbrev pub IsString : ℕ → Bytes → Type 0
IsString n bs = All IsByte bs × Fits n (length bs)

abbrev pub string_coded :
    (n : ℕ) (bs : Bytes) → IsString n bs → Coded (add_var_seq bs 1 n) (get_var_bytes n) bs
string_coded n bs (all, fits) = seq_bytes_coded bs n all fits

abbrev pub IsPair : Version → Type 0
IsPair version = Fits 1 (version.0) × Fits 1 (version.1)

pub pair_coded : (v : Version) → IsPair v → Coded (put_pair v) get_pair v
pair_coded (major, minor) (a, b) =
    coded_then _ _ _ _ major (major, minor) (number_coded major 1 a)
      (coded_last _ _ (λ (x : ℕ). (major, x)) minor (number_coded minor 1 b))

-- A list of extensions that fits its length field, of extensions that the place knows.
abbrev pub AreListed : Place → List Extension → Type 0
AreListed place xs = All (IsListed place) xs × Fits 2 (size_of put_extension xs)

items_of :
    (place : Place) (xs : List Extension)
    → All (IsListed place) xs
    → All (IsItem put_extension (parse_extension place)) xs
items_of place xs h =
    All-weaken (IsListed place) (IsItem put_extension (parse_extension place))
      (λ e (known, carried, fits, fits'). extension_item e place known carried fits fits') xs h

unfoldable pub extensions_coded :
    (place : Place) (xs : List Extension)
    → AreListed place xs
    → Coded (put_extensions xs) (get_extensions place) xs
unfolding items_of
extensions_coded place xs (all, fits) =
    nested_coded put_extension (parse_extension place) xs (items_of place xs all) 2
      (size-Fits put_extension (parse_extension place) 2 xs (items_of place xs all) fits)

pub extensions_long :
    (place : Place) (xs : List Extension) (h : AreListed place xs)
    → 1 ≤ length ((extensions_coded place xs h).bytes)
unfolding extensions_coded nested_coded bytes_coded
extensions_long place xs h = number_first 2 _ _ (omega arith)

-- The same where they may be missing.
abbrev pub MayBeListed : Place → Option (List Extension) → Type 0
MayBeListed place none = Unit {0}
MayBeListed place (some xs) = AreListed place xs

pub optional_framed {ℓ} :
    {B : Type ℓ} (place : Place) (f : Option (List Extension) → B) (exts : Option (List Extension))
    → MayBeListed place exts
    → Framed (put_optional exts) (unless_done (get_extensions place) >>= λ x. pure (f x)) (f exts)
optional_framed place f none h = done_nothing (pure tt) (get_extensions place) f
optional_framed place f (some xs) h =
    done_or (put_extensions xs) (get_extensions place) f xs (extensions_coded place xs h)
      (extensions_long place xs h)

-- A number that is written in its own length, or in one that is long enough.
abbrev pub IsSizedAs : ℕ → Option ℕ → Type 0
IsSizedAs n none = Fits 2 (default_length n)
IsSizedAs n (some k) = (byte_length n ≤ k) × Fits 2 k

abbrev pub IsSized : Sized → Type 0
IsSized x = IsSizedAs x.number x.size

-- The length that it is written in.
abbrev pub width : ℕ → Option ℕ → ℕ
width n none = default_length n
width n (some k) = k

-- What is read of it: the length is known then.
abbrev pub measured : Sized → Sized
measured x = record { number = x.number; size = some (width x.number x.size) }

width_lem :
    (n : ℕ) (size : Option ℕ)
    → IsSizedAs n size
    → (number_to_byte_array n size ≡ be_bytes (width n size) n)
      × (n < 256 ^ width n size)
      × Fits 2 (width n size)
unfolding number_to_byte_array
width_lem n none h = (refl, default_length-lt n, h)
width_lem n (some k) (h, fits) = (if_long (byte_length n) h, enough-lt n k h, fits)
  where
    if_long :
        (l : ℕ)
        → l ≤ k
        → (if ltb k l then drop (l - k) (be_bytes l n) else be_bytes k n) ≡ be_bytes k n
    if_long l g = ground arith

array_coded :
    (bs : Bytes)
    → IsString 2 bs
    → Coded
        (add_var_seq bs 1 2)
        get_sized
        (record { number = be_value bs; size = some (length bs) })
unfolding get_sized coded_then number_coded fixed_coded coded_last seq_bytes_coded bytes_coded
array_coded bs h =
    let c =
      coded_then (add (length bs) 2) (modify (extend bs)) (get 2)
        (λ (l : ℕ). get_fix_bytes l >>= λ b. pure (record { number = be_value b; size = some l }))
        (length bs) (record { number = be_value bs; size = some (length bs) })
        (number_coded (length bs) 2 (h.1))
        (coded_last (modify (extend bs)) (get_fix_bytes (length bs))
          (λ (b : Bytes). record { number = be_value b; size = some (length bs) }) bs
          (fixed_coded bs (length bs) refl)) in
    record {
      bytes = be_bytes 2 (length bs) ++ bs;
      writes = (string_coded 2 bs h).writes;
      reads = c.reads;
    }

pub sized_coded : (x : Sized) → IsSized x → Coded (put_sized x) get_sized (measured x)
unfolding put_sized
sized_coded x h =
    let (e, fits, fits') = width_lem x.number x.size h in
    let k : ℕ = width x.number x.size in
    subst (λ (bs : Bytes). Coded (add_var_seq bs 1 2) get_sized (measured x)) (sym e)
      (subst (λ (y : Sized). Coded (add_var_seq (be_bytes k x.number) 1 2) get_sized y)
        (ap₂ (λ (n l : ℕ). record { number = n; size = some l }) (be_value-be_bytes k x.number fits)
          (length-be_bytes k x.number))
        (array_coded (be_bytes k x.number)
          (be_bytes-IsByte k x.number, subst (Fits 2) (sym (length-be_bytes k x.number)) fits')))

-- The bytes of a number without a length of its own.
abbrev pub own_bytes : ℕ → Bytes
own_bytes n = be_bytes (default_length n) n

own_bytes-IsString : (n : ℕ) → Fits 2 (default_length n) → IsString 2 (own_bytes n)
own_bytes-IsString n h = (
  be_bytes-IsByte (default_length n) n,
  subst (Fits 2) (sym (length-be_bytes (default_length n) n)) h,
)

own_value : (n : ℕ) → be_value (own_bytes n) ≡ n
own_value n = be_value-be_bytes (default_length n) n (default_length-lt n)

module _ {ℓ} {A : Type ℓ} (f : ℕ → A) (n : ℕ) (fits : Fits 2 (default_length n)) where
  pub number_array_coded :
      Coded
        (add_var_seq (number_to_byte_array n none) 1 2)
        (get_var_bytes 2 >>= λ bs. pure (f (be_value bs)))
        (f n)
  unfolding number_to_byte_array
  number_array_coded =
      subst
        (λ (k : ℕ).
          Coded (add_var_seq (own_bytes n) 1 2) (get_var_bytes 2 >>= λ bs. pure (f (be_value bs)))
            (f k))
        (own_value n)
        (coded_last _ _ (λ (bs : Bytes). f (be_value bs)) (own_bytes n)
          (string_coded 2 (own_bytes n) (own_bytes-IsString n fits)))

  -- The same with a test that there is a byte at least.
  pub number_array_tested :
      (e : Error)
      → Coded
          (add_var_seq (number_to_byte_array n none) 1 2)
          (get_var_bytes 2 >>= λ bs. raise_if (ltb (length bs) 1) e >>= λ _. pure (f (be_value bs)))
          (f n)
  unfolding number_to_byte_array
  number_array_tested e =
      subst
        (λ (k : ℕ).
          Coded (add_var_seq (own_bytes n) 1 2)
            (get_var_bytes 2 >>= λ bs.
              raise_if (ltb (length bs) 1) e >>= λ _. pure (f (be_value bs)))
            (f k))
        (own_value n)
        (coded_test _ _ (λ (bs : Bytes). f (be_value bs)) (own_bytes n)
          (λ (bs : Bytes). ltb (length bs) 1) e
          (ground (arith, default_length-pos n, length-be_bytes (default_length n) n))
          (string_coded 2 (own_bytes n) (own_bytes-IsString n fits)))
