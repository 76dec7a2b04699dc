-- ===== src/RecordLayer/SuiteSettings.antt =====
-- tlslite/recordlayer.py and tlslite/constants.py: `_getCipherSettings` and `_getMacSettings` fit together.
use tls_dvnizk.Base.{
  ℕ, ◌≡◌, refl, ap, ◌++◌, List, [], ◌∷◌, Bool, true, false, ◌&&◌, ◌||◌, not, Option, none, some,
  Result, ok, err, arith,
}
use tls_dvnizk.RecordLayer.Suites.{
  aes256_gcm_suites, aes128_gcm_suites, aes256_ccm_8_suites, aes256_ccm_suites, aes128_ccm_8_suites,
  aes128_ccm_suites, chacha20_suites, chacha20_draft00_suites, aes128_suites, aes256_suites,
  rc4_suites, triple_des_suites, null_suites,
}
use tls_dvnizk.RecordLayer.Keys.{
  is_in, choose, CipherMethod, aes_gcm, aes_ccm, aes_ccm_8, chacha20, CipherSettings, MacSettings,
  get_cipher_settings, get_mac_settings,
}

-- All suites that have a cipher.
abbrev pub cipher_suites : List ℕ
cipher_suites =
    aes256_gcm_suites ++ aes128_gcm_suites ++ aes256_ccm_8_suites ++ aes256_ccm_suites
    ++ aes128_ccm_8_suites ++ aes128_ccm_suites ++ chacha20_suites ++ chacha20_draft00_suites
    ++ aes128_suites ++ aes256_suites ++ rc4_suites ++ triple_des_suites ++ null_suites

-- The methods that make ciphers with associated data.
abbrev pub is_aead_method : CipherMethod → Bool
is_aead_method aes_gcm = true
is_aead_method aes_ccm = true
is_aead_method aes_ccm_8 = true
is_aead_method chacha20 = true
is_aead_method method = false

abbrev pub is_none {ℓ} : {A : Type ℓ} → Option A → Bool
is_none none = true
is_none (some a) = false

abbrev same_bool : Bool → Bool → Bool
same_bool true b = b
same_bool false b = not b

fits_together : Result CipherSettings → Result MacSettings → Bool
fits_together (ok c) (ok m) = same_bool (is_aead_method (c.2)) (is_none (m.1))
fits_together r q = false

-- Both settings exist, and there is a MAC of its own exactly if the cipher does not authenticate.
abbrev pub FitsTogether : Result CipherSettings → Result MacSettings → Type 0
FitsTogether r q =
    (c : CipherSettings) × ((m : MacSettings) × ((r ≡ ok c)
        × ((q ≡ ok m) × (is_aead_method (c.2) ≡ is_none (m.1)))))

fits_together_lem :
    (r : Result CipherSettings) (q : Result MacSettings)
    → fits_together r q ≡ true
    → FitsTogether r q
unfolding fits_together
fits_together_lem (ok c) (ok m) e =
    (c, (m, (refl, (refl, same (is_aead_method (c.2)) (is_none (m.1)) e))))
  where
    same : (a b : Bool) → same_bool a b ≡ true → a ≡ b
    same true b h = ground arith
    same false b h = ground arith
fits_together_lem (ok c) (err problem) e = absurd (ground arith)
fits_together_lem (err problem) q e = absurd (ground arith)

-- A test that holds of every suite in a list.
all_in : List ℕ → (ℕ → Bool) → Bool
all_in [] test = true
all_in (s ∷ suites) test = all_in suites test && test s

all_in_lem :
    (suites : List ℕ) (test : ℕ → Bool) (suite : ℕ)
    → all_in suites test ≡ true
    → is_in suite suites ≡ true
    → test suite ≡ true
unfolding all_in is_in
all_in_lem [] test suite h e = absurd (ground arith)
all_in_lem (s ∷ suites) test suite h e = ground (arith, all_in_lem suites test suite, ap test)

-- TLS_DH_DSS_WITH_AES_128_CBC_SHA256, TLS_DHE_DSS_WITH_AES_128_CBC_SHA256 and the same two for AES-256, which
-- `sha256Suites` leaves out.
abbrev pub left_out : List ℕ
left_out = 62 ∷ 64 ∷ 104 ∷ 106 ∷ []

abbrev suite_test : ℕ → Bool
suite_test s = is_in s left_out || fits_together (get_cipher_settings s) (get_mac_settings s)

checked_suites : all_in cipher_suites suite_test ≡ true
unfolding all_in fits_together get_cipher_settings get_mac_settings choose is_in
checked_suites = refl

or_right : (a b : Bool) → a ≡ false → a || b ≡ true → b ≡ true
or_right true b e h = absurd (ground arith)
or_right false b e h = h

-- Every suite in one of the lists that choose a cipher, but for four, has both settings, and a MAC of its own
-- exactly if its cipher does not authenticate.
pub suite_settings_fit :
    (suite : ℕ)
    → is_in suite cipher_suites ≡ true
    → is_in suite left_out ≡ false
    → FitsTogether (get_cipher_settings suite) (get_mac_settings suite)
suite_settings_fit suite e kept =
    fits_together_lem (get_cipher_settings suite) (get_mac_settings suite) (
      or_right (is_in suite left_out)
        (fits_together (get_cipher_settings suite) (get_mac_settings suite)) kept
        (all_in_lem cipher_suites suite_test suite checked_suites e))
