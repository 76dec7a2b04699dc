-- ===== src/ConstantTime/Words.antt =====
-- tlslite/utils/constanttime.py: comparisons of 32-bit words without branches.
use Prim.Native.Nat.{bit_and, bit_or, bit_xor}
use tls_dvnizk.Base.{ℕ, ◌*◌, ◌/◌, ◌%◌, ◌^◌}
use tls_dvnizk.Base.Numbers.{sub_mod}

-- `x & 0xffffffff`
abbrev pub word : ℕ → ℕ
word x = x % 2 ^ 32

-- `x >> 31`
abbrev pub top_bit : ℕ → ℕ
top_bit x = x / 2 ^ 31

unfoldable pub ct_lt_u32 : ℕ → ℕ → ℕ
ct_lt_u32 val_a val_b =
    let a = word val_a in
    let b = word val_b in
    top_bit (bit_xor a (bit_or (bit_xor a b) (bit_xor (sub_mod a b (2 ^ 32)) b)))

unfoldable pub ct_gt_u32 : ℕ → ℕ → ℕ
ct_gt_u32 val_a val_b = ct_lt_u32 val_b val_a

unfoldable pub ct_le_u32 : ℕ → ℕ → ℕ
ct_le_u32 val_a val_b = bit_xor 1 (ct_gt_u32 val_a val_b)

-- `val | val << k`
abbrev pub spread : ℕ → ℕ → ℕ
spread k val = bit_or val (val * 2 ^ k)

unfoldable pub ct_lsb_prop_u8 : ℕ → ℕ
ct_lsb_prop_u8 val = spread 4 (spread 2 (spread 1 (bit_and val 1)))

unfoldable pub ct_lsb_prop_u16 : ℕ → ℕ
ct_lsb_prop_u16 val = spread 8 (spread 4 (spread 2 (spread 1 (bit_and val 1))))

unfoldable pub ct_isnonzero_u32 : ℕ → ℕ
ct_isnonzero_u32 val = let v = word val in top_bit (bit_or v (sub_mod 0 v (2 ^ 32)))

unfoldable pub ct_neq_u32 : ℕ → ℕ → ℕ
ct_neq_u32 val_a val_b =
    let a = word val_a in
    let b = word val_b in top_bit (bit_or (sub_mod a b (2 ^ 32)) (sub_mod b a (2 ^ 32)))

unfoldable pub ct_eq_u32 : ℕ → ℕ → ℕ
ct_eq_u32 val_a val_b = bit_xor 1 (ct_neq_u32 val_a val_b)
