-- ===== src/ConstantTime/Comparisons.antt =====
-- tlslite/utils/constanttime.py: what the comparisons of words answer.
use Prim.Native.Nat.{bit_or, bit_xor}
use tls_dvnizk.Base.{
  ℕ, zero, suc, ◌/◌, ◌%◌, ◌^◌, ◌<◌, ◌≡◌, refl, ◌∙◌, if◌then◌else◌, ltb, leb, ◌==◌, arith,
}
use tls_dvnizk.Base.Digits.{bit_xor_shift, bit_or_shift}
use tls_dvnizk.Base.Numbers.{sub_mod}
use tls_dvnizk.ConstantTime.Words.{
  word, top_bit, ct_lt_u32, ct_gt_u32, ct_le_u32, ct_isnonzero_u32, ct_neq_u32, ct_eq_u32,
  ct_isnonzero_u32,
}

-- The top bits decide a comparison whose operands differ there, and that of the difference any other.
by_top_bits : ℕ → ℕ → ℕ → ℕ
by_top_bits a b d = bit_xor a (bit_or (bit_xor a b) (bit_xor d b))

lt_by_bits :
    (a b : ℕ)
    → a < 2 ^ 32
    → b < 2 ^ 32
    → top_bit (bit_xor a (bit_or (bit_xor a b) (bit_xor (sub_mod a b (2 ^ 32)) b)))
      ≡ by_top_bits (a / 2 ^ 31) (b / 2 ^ 31) (sub_mod a b (2 ^ 32) / 2 ^ 31)
unfolding by_top_bits
lt_by_bits a b p q =
    rw
      (
        bit_xor_shift 31 a (bit_or (bit_xor a b) (bit_xor (sub_mod a b (2 ^ 32)) b)),
        bit_or_shift 31 (bit_xor a b) (bit_xor (sub_mod a b (2 ^ 32)) b),
        bit_xor_shift 31 a b,
        bit_xor_shift 31 (sub_mod a b (2 ^ 32)) b,
      )
      refl

-- Of each of the three numbers the top bit is 0 or 1.
bits_decide :
    (x y z a b : ℕ)
    → x ≡ a / 2 ^ 31
    → y ≡ b / 2 ^ 31
    → z ≡ sub_mod a b (2 ^ 32) / 2 ^ 31
    → a < 2 ^ 32
    → b < 2 ^ 32
    → by_top_bits x y z ≡ (if ltb a b then 1 else 0)
unfolding by_top_bits sub_mod
bits_decide zero zero zero a b e f g p q = ground arith
bits_decide zero zero (suc zero) a b e f g p q = ground arith
bits_decide zero (suc zero) zero a b e f g p q = ground arith
bits_decide zero (suc zero) (suc zero) a b e f g p q = ground arith
bits_decide (suc zero) zero zero a b e f g p q = ground arith
bits_decide (suc zero) zero (suc zero) a b e f g p q = ground arith
bits_decide (suc zero) (suc zero) zero a b e f g p q = ground arith
bits_decide (suc zero) (suc zero) (suc zero) a b e f g p q = ground arith
bits_decide (suc (suc x)) y z a b e f g p q = absurd (omega arith)
bits_decide (suc zero) (suc (suc y)) z a b e f g p q = absurd (omega arith)
bits_decide zero (suc (suc y)) z a b e f g p q = absurd (omega arith)
bits_decide zero zero (suc (suc z)) a b e f g p q = absurd (omega arith)
bits_decide zero (suc zero) (suc (suc z)) a b e f g p q = absurd (omega arith)
bits_decide (suc zero) zero (suc (suc z)) a b e f g p q = absurd (omega arith)
bits_decide (suc zero) (suc zero) (suc (suc z)) a b e f g p q = absurd (omega arith)

words_lt :
    (a b : ℕ)
    → a < 2 ^ 32
    → b < 2 ^ 32
    → top_bit (bit_xor a (bit_or (bit_xor a b) (bit_xor (sub_mod a b (2 ^ 32)) b)))
      ≡ (if ltb a b then 1 else 0)
words_lt a b p q =
    lt_by_bits a b p q
    ∙ bits_decide (a / 2 ^ 31) (b / 2 ^ 31) (sub_mod a b (2 ^ 32) / 2 ^ 31) a b refl refl refl p q

word_lt : (x : ℕ) → word x < 2 ^ 32
word_lt x = omega arith

-- On words the comparison is that of numbers; other arguments are reduced first.
pub ct_lt_u32_lem : (a b : ℕ) → ct_lt_u32 a b ≡ (if ltb (a % 2 ^ 32) (b % 2 ^ 32) then 1 else 0)
unfolding ct_lt_u32
ct_lt_u32_lem a b = words_lt (word a) (word b) (word_lt a) (word_lt b)

pub ct_le_u32_lem : (a b : ℕ) → ct_le_u32 a b ≡ (if leb (a % 2 ^ 32) (b % 2 ^ 32) then 1 else 0)
unfolding ct_le_u32 ct_gt_u32
ct_le_u32_lem a b = rw (ct_lt_u32_lem b a) ground arith

pub ct_gt_u32_lem : (a b : ℕ) → ct_gt_u32 a b ≡ (if ltb (b % 2 ^ 32) (a % 2 ^ 32) then 1 else 0)
unfolding ct_gt_u32
ct_gt_u32_lem a b = ct_lt_u32_lem b a

-- Two differences of which at least one has its top bit set, unless the words are equal.
or_decides :
    (x y a b : ℕ)
    → x ≡ sub_mod a b (2 ^ 32) / 2 ^ 31
    → y ≡ sub_mod b a (2 ^ 32) / 2 ^ 31
    → a < 2 ^ 32
    → b < 2 ^ 32
    → bit_or x y ≡ (if a == b then 0 else 1)
unfolding sub_mod
or_decides zero zero a b e f p q = ground arith
or_decides zero (suc zero) a b e f p q = ground arith
or_decides (suc zero) zero a b e f p q = ground arith
or_decides (suc zero) (suc zero) a b e f p q = ground arith
or_decides (suc (suc x)) y a b e f p q = absurd (omega arith)
or_decides zero (suc (suc y)) a b e f p q = absurd (omega arith)
or_decides (suc zero) (suc (suc y)) a b e f p q = absurd (omega arith)

words_neq :
    (a b : ℕ)
    → a < 2 ^ 32
    → b < 2 ^ 32
    → top_bit (bit_or (sub_mod a b (2 ^ 32)) (sub_mod b a (2 ^ 32))) ≡ (if a == b then 0 else 1)
words_neq a b p q =
    bit_or_shift 31 (sub_mod a b (2 ^ 32)) (sub_mod b a (2 ^ 32))
    ∙ or_decides (sub_mod a b (2 ^ 32) / 2 ^ 31) (sub_mod b a (2 ^ 32) / 2 ^ 31) a b refl refl p q

pub ct_neq_u32_lem : (a b : ℕ) → ct_neq_u32 a b ≡ (if (a % 2 ^ 32) == (b % 2 ^ 32) then 0 else 1)
unfolding ct_neq_u32
ct_neq_u32_lem a b = words_neq (word a) (word b) (word_lt a) (word_lt b)

pub ct_eq_u32_lem : (a b : ℕ) → ct_eq_u32 a b ≡ (if (a % 2 ^ 32) == (b % 2 ^ 32) then 1 else 0)
unfolding ct_eq_u32
ct_eq_u32_lem a b = rw (ct_neq_u32_lem a b) ground arith

-- A word is told from 0 by its top bit or that of its negation.
nonzero_decides :
    (x y a : ℕ)
    → x ≡ a / 2 ^ 31
    → y ≡ sub_mod 0 a (2 ^ 32) / 2 ^ 31
    → a < 2 ^ 32
    → bit_or x y ≡ (if a == 0 then 0 else 1)
unfolding sub_mod
nonzero_decides zero zero a e f p = ground arith
nonzero_decides zero (suc zero) a e f p = ground arith
nonzero_decides (suc zero) zero a e f p = ground arith
nonzero_decides (suc zero) (suc zero) a e f p = ground arith
nonzero_decides (suc (suc x)) y a e f p = absurd (omega arith)
nonzero_decides zero (suc (suc y)) a e f p = absurd (omega arith)
nonzero_decides (suc zero) (suc (suc y)) a e f p = absurd (omega arith)

pub ct_isnonzero_u32_lem : (a : ℕ) → ct_isnonzero_u32 a ≡ (if (a % 2 ^ 32) == 0 then 0 else 1)
unfolding ct_isnonzero_u32
ct_isnonzero_u32_lem a =
    bit_or_shift 31 (word a) (sub_mod 0 (word a) (2 ^ 32))
    ∙ nonzero_decides (word a / 2 ^ 31) (sub_mod 0 (word a) (2 ^ 32) / 2 ^ 31) (word a) refl refl
        (word_lt a)
