-- ===== src/Numbers/Tests.antt =====
-- The witnesses on numbers: 3 has an inverse modulo 7, and 6 and 4 a common divisor.
use tls_dvnizk.Base.{◌≡◌, refl, ok, arith}
use tls_dvnizk.Numbers.Divisors.{gcd, gcd_loop, IsGcd, gcd-IsGcd}
use tls_dvnizk.Numbers.Inverse.{inv_mod, IsInverse, inv_mod-IsInverse, euclid, round}
use tls_dvnizk.Numbers.Integers.{minus, scale, subtract, mod_of}
use tls_dvnizk.Base.Numbers.{sub_mod}

inv_mod-IsInverse_example : IsInverse 3 7 (inv_mod 3 7)
inv_mod-IsInverse_example = inv_mod-IsInverse 3 7 (omega arith)

inv_mod_test : inv_mod 3 7 ≡ ok 5
unfolding inv_mod euclid round minus scale subtract mod_of sub_mod
inv_mod_test = refl

gcd-IsGcd_example : IsGcd (gcd 6 4) 6 4
gcd-IsGcd_example = gcd-IsGcd 6 4

gcd_test : gcd 6 4 ≡ 2
unfolding gcd gcd_loop
gcd_test = refl
