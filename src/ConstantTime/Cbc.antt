-- ===== src/ConstantTime/Cbc.antt =====
-- tlslite/utils/constanttime.py: `ct_compare_digest`, as written for a Python without
-- `hmac.compare_digest`, and `ct_check_cbc_mac_and_pad`.
use Prim.Native.Nat.{bit_and, bit_or, bit_xor}
use tls_dvnizk.Base.{
  ℕ, zero, suc, ◌+◌, ◌-◌, ◌*◌, ◌/◌, ◌%◌, ◌^◌, [], ◌∷◌, ◌++◌, Bool, false, not, ◌&&◌, if◌then◌else◌,
  leb, ◌==◌, length, take, drop, Result, ok, value_error, assertion_error,
}
use tls_dvnizk.Base.Bytes.{Bytes, byte_at}
use tls_dvnizk.Base.Fallible.{◌>>◌, fail_if}
use tls_dvnizk.ConstantTime.Words.{ct_lt_u32, ct_le_u32, ct_eq_u32, ct_lsb_prop_u8}

-- An object of `hmac` or `createMAC_SSL` that has its key: the digest of all that it is given.
pub record Mac : Type 0 where
  pub digest : Bytes → Bytes
  pub digest_size : ℕ
  pub block_size : ℕ

-- A protocol version, as on the wire.
abbrev pub Version : Type 0
Version = ℕ × ℕ

abbrev pub same_version : Version → Version → Bool
same_version (a, b) (c, d) = (a == c) && (b == d)

abbrev pub is_ssl3 : Version → Bool
is_ssl3 v = same_version v (3, 0)

-- `version in ((3, 0), (3, 1), (3, 2), (3, 3))`
abbrev pub before_tls13 : Version → Bool
before_tls13 (major, minor) = (major == 3) && leb minor 3

-- `for i in range(first, first + count): result = body(i, result)`
unfoldable pub for_range : ℕ → ℕ → (ℕ → ℕ → ℕ) → ℕ → ℕ
for_range first zero body result = result
for_range first (suc count) body result = for_range (suc first) count body (body first result)

-- `for x, y in zip(val_a, val_b): result |= x ^ y`
unfoldable pub or_differences : ℕ → Bytes → Bytes → ℕ
or_differences result [] val_b = result
or_differences result (x ∷ val_a) [] = result
or_differences result (x ∷ val_a) (y ∷ val_b) =
    or_differences (bit_or result (bit_xor x y)) val_a val_b

unfoldable pub ct_compare_digest : Bytes → Bytes → Bool
ct_compare_digest val_a val_b =
    if not (length val_a == length val_b) then false else (or_differences 0 val_a val_b == 0)

-- `result |= (a ^ b) & mask`
abbrev pub or_masked : ℕ → ℕ → ℕ → ℕ → ℕ
or_masked mask a b result = bit_or result (bit_and (bit_xor a b) mask)

-- `max(0, data_len - pad_length - 1)`; a difference of naturals stops at 0.
abbrev pub pad_start_of : Bytes → ℕ
pad_start_of payload = length payload - byte_at (length payload - 1) payload - 1

-- The check of the padding.
unfoldable pub padding_result : Bytes → Version → ℕ → ℕ
padding_result payload version block_size =
    let data_len = length payload in
    let pad_length = byte_at (data_len - 1) payload in
    if is_ssl3 version
    then bit_or 0 (ct_lsb_prop_u8 (ct_lt_u32 block_size pad_length))
    else for_range (data_len - 256) (data_len - (data_len - 256))
        (λ i result.
          or_masked (ct_lsb_prop_u8 (ct_le_u32 (pad_start_of payload) i)) (byte_at i payload)
            pad_length result)
        0

-- What is given to the MAC before the data.
unfoldable pub mac_header : Bytes → ℕ → Version → ℕ → Bytes
mac_header seqnum_bytes content_type (major, minor) len =
    seqnum_bytes
    ++ (content_type ∷ [])
    ++ (if is_ssl3 (major, minor) then [] else (major ∷ minor ∷ []))
    ++ (len / 2 ^ 8 ∷ len % 2 ^ 8 ∷ [])

-- The comparison of the digest with the bytes at `i`, masked unless it is the place.
unfoldable pub compare_at : Mac → Bytes → Bytes → ℕ → ℕ → ℕ → ℕ → ℕ
compare_at mac header payload mac_start start_pos i result =
    let mac_compare =
      mac.digest ((header ++ take start_pos payload) ++ drop start_pos (take i payload)) in
    let mask = ct_lsb_prop_u8 (ct_eq_u32 i mac_start) in
    for_range 0 mac.digest_size
      (λ j result. or_masked mask (byte_at (i + j) payload) (byte_at j mac_compare) result) result

unfoldable pub ct_check_cbc_mac_and_pad : Bytes → Mac → Bytes → ℕ → Version → ℕ → Result Bool
ct_check_cbc_mac_and_pad payload mac seqnum_bytes content_type version block_size =
    fail_if (not (before_tls13 version)) assertion_error
    >> (if leb (length payload) mac.digest_size
        then ok false
        else (let mac_start = pad_start_of payload - mac.digest_size in
            let start_pos =
              (length payload - (256 + mac.digest_size)) / mac.block_size * mac.block_size in
            fail_if (leb 256 content_type) value_error
            >> fail_if (leb 256 (mac_start / 2 ^ 8)) value_error
            >> ok (
                for_range start_pos (length payload - mac.digest_size - start_pos)
                  (compare_at mac (mac_header seqnum_bytes content_type version mac_start) payload
                    mac_start start_pos)
                  (padding_result payload version block_size)
                == 0)))
