-- ===== src/Numbers/Inverse.antt =====
-- tlslite/utils/cryptomath.py: `invMod` as it is defined without GMPY2.
use tls_dvnizk.Base.{
  ℕ, zero, suc, ◌+◌, ◌-◌, ◌*◌, ◌/◌, ◌%◌, ◌<◌, ◌≡◌, ◌≢◌, ◌⊎◌, refl, sym, ap, subst, ◌∙◌, Bool-cases,
  inl, inr, true, false, ◌==◌, if◌then◌else◌, Result, ok, err, zero_division, arith,
}
use native.Mathlib.Nat.{
  mod-lt, mod-eq_of_lt, div-add-mod, dvd_refl, dvd-zero, add-mul-mod_self_left,
}
use tls_dvnizk.Base.Power.{mul-mod}
use tls_dvnizk.Base.Numbers.{sub_mod, sub_mod-lt, sub_mod-add}
use tls_dvnizk.Numbers.Divisors.{gcd, IsGcd, gcd-IsGcd, mod_IsGcd, swap_IsGcd, gcd_unique}
use tls_dvnizk.Numbers.Integers.{ℤ, pos, negsuc, scale, subtract, mod_of, up, down, subtract-scale}

-- `c`, `d`, `uc` and `ud` of the loop; `d - (q*c)` is never negative there.
pub record Euclid : Type 0 where
  pub c : ℕ
  pub d : ℕ
  pub uc : ℤ
  pub ud : ℤ

unfoldable pub round : Euclid → Euclid
round s =
    let q = s.d / s.c in
    record { c = s.d - q * s.c; d = s.c; uc = subtract s.ud (scale q s.uc); ud = s.uc }

-- A round makes `c` smaller, so that one more than it is fuel enough.
unfoldable pub euclid : ℕ → Euclid → Euclid
euclid zero s = s
euclid (suc fuel) s = let rest = euclid fuel (round s) in if s.c == 0 then s else rest

unfoldable pub inv_mod : ℕ → ℕ → Result ℕ
inv_mod a b =
    let s = euclid (suc a) (record { c = a; d = b; uc = pos 1; ud = pos 0 }) in
    if s.d == 1 then (if b == 0 then err zero_division else ok (mod_of s.ud b)) else ok 0

-- `z * a` is `x` up to multiples of `b`.
record IsMultiple (a b : ℕ) (z : ℤ) (x : ℕ) : Type 0 where
  more : ℕ
  less : ℕ
  same : up z * a + more * b ≡ x + down z * a + less * b

record IsEuclid (a b : ℕ) (s : Euclid) : Type 0 where
  of_c : IsMultiple a b s.uc s.c
  of_d : IsMultiple a b s.ud s.d
  divisors : (g : ℕ) → IsGcd g s.d s.c → IsGcd g b a

-- All in one equation of numbers: what the round makes of the multiples.
combined :
    (u v x y w z c d q r s t m l a b : ℕ)
    → w + v + q * x ≡ z + u + q * y
    → u * a + s * b ≡ d + v * a + t * b
    → x * a + m * b ≡ c + y * a + l * b
    → d ≡ q * c + r
    → w * a + (q * l + s) * b ≡ r + z * a + (t + q * m) * b
combined u v x y w z c d q r s t m l a b e f g k =
    omega (arith, ap (λ (n : ℕ). n * a) e, ap (λ (n : ℕ). q * n) g)

-- The quotient and what is left.
parted : (c d : ℕ) → d ≡ d / c * c + (d - d / c * c)
parted c d = omega (arith, div-add-mod d c)

left_over : (c d : ℕ) → d - d / c * c ≡ d % c
left_over c d = omega (arith, div-add-mod d c)

round-IsEuclid : (a b : ℕ) (s : Euclid) → IsEuclid a b s → IsEuclid a b (round s)
unfolding round
round-IsEuclid a b s h =
    let q = s.d / s.c in
    record {
      of_c = record {
        more = q * h.of_c.less + h.of_d.more;
        less = h.of_d.less + q * h.of_c.more;
        same =
            combined (up s.ud) (down s.ud) (up s.uc) (down s.uc) (up (subtract s.ud (scale q s.uc)))
              (down (subtract s.ud (scale q s.uc))) s.c s.d q (s.d - q * s.c) h.of_d.more
              h.of_d.less h.of_c.more h.of_c.less a b (subtract-scale q s.ud s.uc) h.of_d.same
              h.of_c.same (parted s.c s.d);
      };
      of_d = h.of_c;
      divisors =
          λ g k. h.divisors g (mod_IsGcd g s.d s.c (subst (IsGcd g s.c) (left_over s.c s.d) k));
    }

record IsDone (a b : ℕ) (s : Euclid) : Type 0 where
  invariant : IsEuclid a b s
  finished : s.c ≡ 0

smaller : (s : Euclid) → (s.c == 0) ≡ false → (round s).c < s.c
unfolding round
smaller s h = omega (arith, left_over s.c s.d, mod-lt s.d {m = s.c} (ground arith))

euclid-IsDone :
    (fuel a b : ℕ) (s : Euclid) → s.c < fuel → IsEuclid a b s → IsDone a b (euclid fuel s)
unfolding euclid
euclid-IsDone zero a b s h k = absurd (omega arith)
euclid-IsDone (suc fuel) a b s h k = elim (Bool-cases (s.c == 0)) [
  | inl zero_c ↦ rw zero_c (record { invariant = k; finished = ground arith })
  | inr more ↦
      rw more
        (euclid-IsDone fuel a b (round s) (omega (arith, smaller s more)) (round-IsEuclid a b s k))
]

start : (a b : ℕ) → IsEuclid a b (record { c = a; d = b; uc = pos 1; ud = pos 0 })
start a b = record {
  of_c = record { more = 0; less = 0; same = omega arith };
  of_d = record { more = 1; less = 0; same = omega arith };
  divisors = λ g k. k;
}

turns : (b m r : ℕ) → 0 < b → (r + m) % b ≡ 0 % b → r + m ≡ b * ((r + m) / b)
turns b m r h e = omega (arith, div-add-mod (r + m) b, e, mod-eq_of_lt {n = 0} {m = b} h)

mod_of-lt : (z : ℤ) (b : ℕ) → 0 < b → mod_of z b < b
unfolding mod_of
mod_of-lt (pos n) b h = mod-lt n h
mod_of-lt (negsuc n) b h = sub_mod-lt 0 (suc n) b h

mul-mod_of : (a b : ℕ) (z : ℤ) → 0 < b → IsMultiple a b z 1 → (a * mod_of z b) % b ≡ 1 % b
unfolding mod_of
mul-mod_of a b (pos n) h k =
    mul-mod a n b
    ∙ sym (add-mul-mod_self_left (a * n) b k.more)
    ∙ ap (λ (t : ℕ). t % b) (omega (arith, k.same))
    ∙ add-mul-mod_self_left 1 b k.less
mul-mod_of a b (negsuc n) h k =
    let r = sub_mod 0 (suc n) b in
    let t = (r + suc n) / b in
    let e : r + suc n ≡ b * t = turns b (suc n) r h (sub_mod-add 0 (suc n) b h) in
    sym (add-mul-mod_self_left (a * r) b k.more)
    ∙ ap (λ (x : ℕ). x % b) (omega (arith, k.same, ap (λ (x : ℕ). a * x) e))
    ∙ add-mul-mod_self_left 1 b (a * t + k.less)

-- The inverse, or 0 where there is none.
pub IsInverse : ℕ → ℕ → Result ℕ → Type 0
IsInverse a b answer =
    ((gcd a b ≡ 1) × (r : ℕ) × (answer ≡ ok r) × (r < b) × ((a * r) % b ≡ 1 % b))
    ⊎ ((gcd a b ≢ 1) × (answer ≡ ok 0))

-- `invMod` ends, for a modulus that is not 0: where the number and the modulus have no common divisor but 1, with a number
-- below the modulus whose product with the number is 1 modulo it, and with 0 elsewhere.
pub inv_mod-IsInverse : (a b : ℕ) → 0 < b → IsInverse a b (inv_mod a b)
unfolding inv_mod IsInverse
inv_mod-IsInverse a b h =
    let s = euclid (suc a) (record { c = a; d = b; uc = pos 1; ud = pos 0 }) in
    let done =
      euclid-IsDone (suc a) a b (record { c = a; d = b; uc = pos 1; ud = pos 0 }) (omega arith)
        (start a b) in
    let same : s.d ≡ gcd a b =
      gcd_unique s.d (gcd a b) a b
        (swap_IsGcd s.d b a
          (done.invariant.divisors s.d (subst (IsGcd s.d s.d) (sym done.finished) (itself s.d))))
        (gcd-IsGcd a b) in
    elim (Bool-cases (s.d == 1)) [
      | inl one ↦ inl (
        omega (arith, same, ==→eq s.d 1 one),
        mod_of s.ud b,
        rw (one, not_zero b h) refl,
        mod_of-lt s.ud b h,
        mul-mod_of a b s.ud h (subst (IsMultiple a b s.ud) (==→eq s.d 1 one) done.invariant.of_d),
      )
      | inr other ↦ inr (λ e. ==→ne s.d 1 other (same ∙ e), rw other refl)
    ]
  where
    itself : (g : ℕ) → IsGcd g g 0
    itself g = record { left = dvd_refl g; right = dvd-zero g; greatest = λ k p q. p }

    ==→eq : (i j : ℕ) → (i == j) ≡ true → i ≡ j
    ==→eq i j e = ground arith

    ==→ne : (i j : ℕ) → (i == j) ≡ false → i ≢ j
    ==→ne i j e = ground arith

    not_zero : (m : ℕ) → 0 < m → (m == 0) ≡ false
    not_zero m p = ground arith
