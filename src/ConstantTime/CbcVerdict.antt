-- ===== src/ConstantTime/CbcVerdict.antt =====
-- tlslite/utils/constanttime.py: the loop of `ct_check_cbc_mac_and_pad` over the places of the MAC, and
-- its verdict.
use tls_dvnizk.Base.{
  ℕ, ◌-◌, ◌^◌, ◌<◌, ◌≡◌, refl, sym, ap, ◌∙◌, ◌↔◌, Bool, true, false, if◌then◌else◌, leb, ◌==◌,
  ==_iff, length, All, Result, ok, arith,
}
use tls_dvnizk.Base.Bytes.{Bytes, IsByte}
use tls_dvnizk.ConstantTime.Cbc.{
  Mac, Version, before_tls13, for_range, padding_result, mac_header, compare_at,
  ct_check_cbc_mac_and_pad,
}
use tls_dvnizk.ConstantTime.CbcCheck.{GoodPadding, padding_result-down, padding_result-up}
use tls_dvnizk.ConstantTime.CbcPlaces.{
  IsHash, mac_start_of, GoodMac, start_of, first, mac_loop-GoodMac,
}

-- The bits that are or-ed together over the whole check.
collected : Bytes → Mac → Bytes → Version → ℕ → ℕ
collected payload mac header version block =
    for_range (start_of mac payload) (length payload - mac.digest_size - start_of mac payload)
      (compare_at mac header payload (mac_start_of mac payload) (start_of mac payload))
      (padding_result payload version block)

checks :
    (payload : Bytes) (mac : Mac) (seqnum_bytes : Bytes) (content_type : ℕ) (version : Version)
    (block : ℕ)
    → length payload < 2 ^ 16
    → content_type < 256
    → before_tls13 version ≡ true
    → ct_check_cbc_mac_and_pad payload mac seqnum_bytes content_type version block
      ≡ ok (
          if leb (length payload) mac.digest_size
          then false
          else (collected payload mac
                (mac_header seqnum_bytes content_type version (mac_start_of mac payload))
                version
                block
              == 0))
unfolding ct_check_cbc_mac_and_pad collected
checks payload mac seqnum_bytes content_type version block size byte old = rw old ground arith

collected-good :
    (payload : Bytes) (mac : Mac) (header : Bytes) (version : Version) (block : ℕ)
    → IsHash mac
    → All IsByte payload
    → length payload < 2 ^ 16
    → block < 2 ^ 32
    → mac.digest_size < length payload
    → (collected payload mac header version block ≡ 0)
      ↔ (GoodPadding payload version block × GoodMac mac header payload)
unfolding collected first
collected-good payload mac header version block hash bytes size small long = (
  λ e.
      let (padded, good) =
        (mac_loop-GoodMac mac hash header payload bytes size long
            (padding_result payload version block)).0
          e in
      (padding_result-down payload bytes size version block small padded, good),
  λ (padded, good).
      (mac_loop-GoodMac mac hash header payload bytes size long
          (padding_result payload version block)).1
        (padding_result-up payload bytes size version block small padded, good),
)

verdict :
    (short : Bool) (result : ℕ) (P Q : Type 0) (n m : ℕ)
    → leb m n ≡ short
    → (short ≡ false → (result ≡ 0) ↔ (P × Q))
    → ((if short then false else (result == 0)) ≡ true) ↔ ((n < m) × (P × Q))
verdict true result P Q n m e law =
    (λ h. absurd (ground arith), λ (lt, good). absurd (ground arith))
verdict false result P Q n m e law = (
  λ h. (ground arith, (law refl).0 ((==_iff result 0).0 h)),
  λ (lt, good). (==_iff result 0).1 ((law refl).1 good),
)

ok-injective : (a b : Bool) → (let r : Result Bool = ok a in r) ≡ ok b → a ≡ b
ok-injective a b e = ground arith

-- `ct_check_cbc_mac_and_pad` answers true on a record of bytes exactly if it is longer than the MAC, its padding
-- is in order, and the bytes before the padding are the MAC of the header and of all before them.
pub ct_check_cbc_mac_and_pad_lem :
    (payload : Bytes) (mac : Mac) (seqnum_bytes : Bytes) (content_type : ℕ) (version : Version)
    (block : ℕ)
    → IsHash mac
    → All IsByte payload
    → length payload < 2 ^ 16
    → content_type < 256
    → block < 2 ^ 32
    → before_tls13 version ≡ true
    → (ct_check_cbc_mac_and_pad payload mac seqnum_bytes content_type version block ≡ ok true) ↔ (
        (mac.digest_size < length payload)
        × (GoodPadding payload version block
            × GoodMac mac
                (mac_header seqnum_bytes content_type version (mac_start_of mac payload))
                payload))
ct_check_cbc_mac_and_pad_lem payload mac seqnum_bytes content_type version block hash bytes size
      byte small old =
    (
      λ e. judged.0 (ok-injective answer true (sym reduced ∙ e)),
      λ good. reduced ∙ ap (λ (b : Bool). let r : Result Bool = ok b in r) (judged.1 good),
    )
  where
    header : Bytes
    header = mac_header seqnum_bytes content_type version (mac_start_of mac payload)

    answer : Bool
    answer =
        if leb (length payload) mac.digest_size
        then false
        else (collected payload mac header version block == 0)

    reduced :
        ct_check_cbc_mac_and_pad payload mac seqnum_bytes content_type version block ≡ ok answer
    reduced = checks payload mac seqnum_bytes content_type version block size byte old

    judged : (answer ≡ true) ↔ (
        (mac.digest_size < length payload)
        × (GoodPadding payload version block × GoodMac mac header payload))
    judged =
        verdict (leb (length payload) mac.digest_size) (collected payload mac header version block)
          (GoodPadding payload version block) (GoodMac mac header payload) mac.digest_size
          (length payload) refl
          (λ longer.
            collected-good payload mac header version block hash bytes size small (ground arith))
