-- ===== src/Messages/Suites.antt =====
-- tlslite/constants.py: the lists of class `CipherSuite` that choose the key exchange, by the suites' numbers.
use tls_dvnizk.Base.{ℕ, List, [], ◌∷◌, ◌++◌}

abbrev pub srp_suites : List ℕ
srp_suites = 49184 ∷ 49181 ∷ 49178 ∷ []

abbrev pub srp_cert_suites : List ℕ
srp_cert_suites = 49185 ∷ 49182 ∷ 49179 ∷ []

abbrev pub srp_all_suites : List ℕ
srp_all_suites = srp_suites ++ srp_cert_suites

abbrev pub cert_suites : List ℕ
cert_suites =
    157 ∷ 156 ∷ 49309 ∷ 49308 ∷ 61 ∷ 60 ∷ 53 ∷ 47 ∷ 49313 ∷ 49312 ∷ 10 ∷ 5 ∷ 4 ∷ 1 ∷ 2 ∷ 59 ∷ []

abbrev pub dhe_cert_suites : List ℕ
dhe_cert_suites =
    52394 ∷ 52387 ∷ 159 ∷ 158 ∷ 49311 ∷ 49310 ∷ 107 ∷ 103 ∷ 57 ∷ 51 ∷ 49315 ∷ 49314 ∷ 22 ∷ []

abbrev pub ecdhe_cert_suites : List ℕ
ecdhe_cert_suites =
    52392 ∷ 52385 ∷ 49200 ∷ 49199 ∷ 49192 ∷ 49191 ∷ 49172 ∷ 49171 ∷ 49170 ∷ 49169 ∷ 49168 ∷ []

abbrev pub cert_all_suites : List ℕ
cert_all_suites = srp_cert_suites ++ cert_suites ++ dhe_cert_suites ++ ecdhe_cert_suites

abbrev pub ecdhe_ecdsa_suites : List ℕ
ecdhe_ecdsa_suites =
    52393 ∷ 52386 ∷ 49196 ∷ 49195 ∷ 49325 ∷ 49324 ∷ 49188 ∷ 49187 ∷ 49162 ∷ 49161 ∷ 49160 ∷ 49327
    ∷ 49326 ∷ 49159 ∷ 49158 ∷ []

abbrev pub dhe_dsa_suites : List ℕ
dhe_dsa_suites = 163 ∷ 162 ∷ 106 ∷ 64 ∷ 56 ∷ 50 ∷ 19 ∷ []

abbrev pub anon_suites : List ℕ
anon_suites = 167 ∷ 166 ∷ 109 ∷ 58 ∷ 108 ∷ 52 ∷ 27 ∷ 24 ∷ []

abbrev pub dh_all_suites : List ℕ
dh_all_suites = dhe_cert_suites ++ anon_suites ++ dhe_dsa_suites

abbrev pub ecdh_anon_suites : List ℕ
ecdh_anon_suites = 49177 ∷ 49176 ∷ 49175 ∷ 49174 ∷ 49173 ∷ []

abbrev pub ecdh_all_suites : List ℕ
ecdh_all_suites = ecdhe_ecdsa_suites ++ ecdhe_cert_suites ++ ecdh_anon_suites
