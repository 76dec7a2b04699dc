-- ===== src/RecordLayer/Suites.antt =====
-- tlslite/constants.py: the lists of class `CipherSuite` that choose ciphers and MACs, by the suites' numbers.
use tls_dvnizk.Base.{ℕ, List, [], ◌∷◌, ◌++◌}

abbrev pub triple_des_suites : List ℕ
triple_des_suites =
    49160 ∷ 49155 ∷ 49165 ∷ 49170 ∷ 49178 ∷ 49179 ∷ 10 ∷ 22 ∷ 27 ∷ 49175 ∷ 13 ∷ 19 ∷ 49180 ∷ []

abbrev pub aes128_suites : List ℕ
aes128_suites =
    49181 ∷ 49182 ∷ 47 ∷ 51 ∷ 52 ∷ 60 ∷ 103 ∷ 108 ∷ 49187 ∷ 49161 ∷ 49189 ∷ 49156 ∷ 49193 ∷ 49166
    ∷ 49171 ∷ 49191 ∷ 49176 ∷ 48 ∷ 50 ∷ 62 ∷ 64 ∷ 49183 ∷ []

abbrev pub aes256_suites : List ℕ
aes256_suites =
    49184 ∷ 49185 ∷ 53 ∷ 58 ∷ 57 ∷ 61 ∷ 107 ∷ 109 ∷ 49188 ∷ 49162 ∷ 49190 ∷ 49157 ∷ 49194 ∷ 49167
    ∷ 49172 ∷ 49192 ∷ 49177 ∷ 54 ∷ 56 ∷ 104 ∷ 106 ∷ 49186 ∷ []

abbrev pub aes128_gcm_suites : List ℕ
aes128_gcm_suites = 156 ∷ 158 ∷ 166 ∷ 49195 ∷ 49197 ∷ 49201 ∷ 49199 ∷ 4865 ∷ 162 ∷ 164 ∷ []

abbrev pub aes256_gcm_suites : List ℕ
aes256_gcm_suites = 157 ∷ 159 ∷ 167 ∷ 49196 ∷ 49198 ∷ 49202 ∷ 49200 ∷ 4866 ∷ 163 ∷ 165 ∷ []

abbrev pub aes128_ccm_8_suites : List ℕ
aes128_ccm_8_suites = 49312 ∷ 49314 ∷ 49326 ∷ 4869 ∷ []

abbrev pub aes128_ccm_suites : List ℕ
aes128_ccm_suites = 49308 ∷ 49310 ∷ 49324 ∷ 4868 ∷ []

abbrev pub aes256_ccm_8_suites : List ℕ
aes256_ccm_8_suites = 49313 ∷ 49315 ∷ 49327 ∷ []

abbrev pub aes256_ccm_suites : List ℕ
aes256_ccm_suites = 49309 ∷ 49311 ∷ 49325 ∷ []

abbrev pub chacha20_draft00_suites : List ℕ
chacha20_draft00_suites = 52385 ∷ 52386 ∷ 52387 ∷ []

abbrev pub chacha20_suites : List ℕ
chacha20_suites = 52392 ∷ 52393 ∷ 52394 ∷ 4867 ∷ []

abbrev pub rc4_suites : List ℕ
rc4_suites = 49169 ∷ 49159 ∷ 49154 ∷ 49164 ∷ 24 ∷ 5 ∷ 4 ∷ 49174 ∷ []

abbrev pub null_suites : List ℕ
null_suites = 1 ∷ 2 ∷ 59 ∷ 49158 ∷ 49153 ∷ 49163 ∷ 49168 ∷ 49173 ∷ []

abbrev pub sha_suites : List ℕ
sha_suites =
    49178 ∷ 49181 ∷ 49184 ∷ 49179 ∷ 49182 ∷ 49185 ∷ 49180 ∷ 49183 ∷ 49186 ∷ 10 ∷ 47 ∷ 53 ∷ 5 ∷ 22
    ∷ 51 ∷ 57 ∷ 19 ∷ 50 ∷ 56 ∷ 52 ∷ 58 ∷ 27 ∷ 13 ∷ 48 ∷ 54 ∷ 2 ∷ 49162 ∷ 49161 ∷ 49160 ∷ 49159
    ∷ 49158 ∷ 49157 ∷ 49156 ∷ 49155 ∷ 49154 ∷ 49153 ∷ 49167 ∷ 49166 ∷ 49165 ∷ 49164 ∷ 49163 ∷ 49171
    ∷ 49172 ∷ 49170 ∷ 49169 ∷ 49168 ∷ 49177 ∷ 49176 ∷ 49175 ∷ 49174 ∷ 49173 ∷ []

abbrev pub sha256_suites : List ℕ
sha256_suites = 60 ∷ 61 ∷ 103 ∷ 107 ∷ 59 ∷ 108 ∷ 109 ∷ 49187 ∷ 49189 ∷ 49193 ∷ 49191 ∷ []

abbrev pub sha384_suites : List ℕ
sha384_suites = 49188 ∷ 49190 ∷ 49194 ∷ 49192 ∷ 163 ∷ 165 ∷ []

abbrev pub aead_suites : List ℕ
aead_suites =
    aes128_gcm_suites ++ aes256_gcm_suites ++ aes128_ccm_suites ++ aes128_ccm_8_suites
    ++ aes256_ccm_suites ++ aes256_ccm_8_suites ++ chacha20_suites ++ chacha20_draft00_suites

abbrev pub sha384_prf_suites : List ℕ
sha384_prf_suites = sha384_suites ++ aes256_gcm_suites

abbrev pub md5_suites : List ℕ
md5_suites = 24 ∷ 4 ∷ 1 ∷ []

abbrev pub ssl2rc4 : List ℕ
ssl2rc4 = 65664 ∷ 131200 ∷ []

abbrev pub ssl2_3des : List ℕ
ssl2_3des = 458944 ∷ []

abbrev pub ssl2_128_key : List ℕ
ssl2_128_key = 65664 ∷ 131200 ∷ 196736 ∷ 262272 ∷ 327808 ∷ []

abbrev pub ssl2_64_key : List ℕ
ssl2_64_key = 393280 ∷ []

abbrev pub ssl2_192_key : List ℕ
ssl2_192_key = 458944 ∷ []
