-- ===== src/ConstantTime/Tests.antt =====
-- The comparisons and the check of CBC records at concrete inputs.
use tls_dvnizk.Base.{ℕ, ◌%◌, ◌<◌, ◌≡◌, ◌↔◌, refl, [], ◌∷◌, true, length, All, ok, arith}
use tls_dvnizk.Base.Bytes.{Bytes, IsByte, be_value}
use tls_dvnizk.ConstantTime.Cbc.{Mac, ct_compare_digest, ct_check_cbc_mac_and_pad, mac_header}
use tls_dvnizk.ConstantTime.CbcCheck.{GoodPadding, ct_compare_digest_lem}
use tls_dvnizk.ConstantTime.CbcPlaces.{IsHash, GoodMac, mac_start_of}
use tls_dvnizk.ConstantTime.CbcVerdict.{ct_check_cbc_mac_and_pad_lem}

-- A checksum of one byte in the place of a MAC.
abbrev checksum : Mac
checksum = record { digest = λ text. be_value text % 251 ∷ []; digest_size = 1; block_size = 4 }

checksum-IsHash : IsHash checksum
checksum-IsHash = record {
  digest_length = λ text. refl;
  digest_bytes = λ text. (omega arith, tt);
  block_positive = omega arith;
}

abbrev protected : Bytes
protected = 5 ∷ 6 ∷ 7 ∷ 150 ∷ 2 ∷ 2 ∷ 2 ∷ []

protected-IsByte : All IsByte protected
protected-IsByte = (
  omega arith,
  (omega arith, (omega arith, (omega arith, (omega arith, (omega arith, (omega arith, tt)))))),
)

ct_check_cbc_mac_and_pad_example :
    (ct_check_cbc_mac_and_pad protected checksum (0 ∷ 0 ∷ []) 23 (3, 3) 16 ≡ ok true) ↔ (
      (1 < length protected)
      × (GoodPadding protected (3, 3) 16
          × GoodMac checksum
              (mac_header (0 ∷ 0 ∷ []) 23 (3, 3) (mac_start_of checksum protected))
              protected))
ct_check_cbc_mac_and_pad_example =
    ct_check_cbc_mac_and_pad_lem protected checksum (0 ∷ 0 ∷ []) 23 (3, 3) 16 checksum-IsHash
      protected-IsByte (omega arith) (omega arith) (omega arith) refl

abbrev digits_of : ℕ → Bytes
digits_of n = 1 ∷ n ∷ []

ct_compare_digest_example :
    (ct_compare_digest (digits_of 2) (digits_of 3) ≡ true) ↔ (digits_of 2 ≡ digits_of 3)
ct_compare_digest_example = ct_compare_digest_lem (digits_of 2) (digits_of 3)
