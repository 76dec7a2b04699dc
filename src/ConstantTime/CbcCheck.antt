-- ===== src/ConstantTime/CbcCheck.antt =====
-- tlslite/utils/constanttime.py: when `ct_compare_digest` and `ct_check_cbc_mac_and_pad` answer true.
use Prim.Native.Nat.{bit_or}
use tls_dvnizk.Base.{
  ℕ, zero, suc, ◌-◌, ◌%◌, ◌^◌, ◌≤◌, ◌<◌, ◌≡◌, refl, sym, ap, ◌∙◌, ◌↔◌, ◌⊎◌, inl, inr, Bool, true,
  false, not, if◌then◌else◌, ltb, leb, ◌==◌, length, All, arith,
}
use tls_dvnizk.Base.Bytes.{Bytes, IsByte, byte_at, byte_at-IsByte}
use tls_dvnizk.ConstantTime.Words.{ct_lt_u32, ct_le_u32, ct_eq_u32, ct_lsb_prop_u8}
use tls_dvnizk.ConstantTime.Comparisons.{ct_lt_u32_lem, ct_le_u32_lem, ct_eq_u32_lem}
use tls_dvnizk.ConstantTime.Cbc.{
  Version, is_ssl3, for_range, or_differences, ct_compare_digest, or_masked, pad_start_of,
  padding_result,
}
use tls_dvnizk.ConstantTime.Loops.{
  for_range-down, for_range-up, or_masked-open, or_masked_same, or_masked-closed,
  or_masked_closed_zero, or_differences-down, or_differences_self,
}

compare_decides :
    (c z : Bool) (xs ys : Bytes)
    → (length xs == length ys) ≡ c
    → (or_differences 0 xs ys == 0) ≡ z
    → (if not c then false else z) ≡ true ↔ (xs ≡ ys)
compare_decides true true xs ys e f =
    (λ h. (or_differences-down 0 xs ys (ground arith) (ground arith)).1, λ same. refl)
compare_decides true false xs ys e f = (
  λ h. absurd (ground arith),
  λ same. absurd (ground (arith, ap (or_differences 0 xs) (sym same) ∙ or_differences_self xs)),
)
compare_decides false z xs ys e f =
    (λ h. absurd (ground arith), λ same. absurd (ground (arith, ap length same)))

-- Two byte strings compare as equal exactly if they are.
pub ct_compare_digest_lem : (xs ys : Bytes) → (ct_compare_digest xs ys ≡ true) ↔ (xs ≡ ys)
unfolding ct_compare_digest
ct_compare_digest_lem xs ys =
    compare_decides (length xs == length ys) (or_differences 0 xs ys == 0) xs ys refl refl

pub split_le : (a b : ℕ) → (a ≤ b) ⊎ (b < a)
split_le zero b = inl (omega arith)
split_le (suc a) zero = inr (omega arith)
split_le (suc a) (suc b) = elim (split_le a b) [
  | inl h ↦ inl (omega arith)
  | inr h ↦ inr (omega arith)
]

mask_on : ct_lsb_prop_u8 1 ≡ 255
unfolding ct_lsb_prop_u8
mask_on = refl

mask_off : ct_lsb_prop_u8 0 ≡ 0
unfolding ct_lsb_prop_u8
mask_off = refl

one_if : (b : Bool) (x : ℕ) → x ≡ (if b then 1 else 0) → b ≡ true → ct_lsb_prop_u8 x ≡ 255
one_if b x e h =
    ap ct_lsb_prop_u8 (e ∙ ap (λ (c : Bool). let n : ℕ = if c then 1 else 0 in n) h) ∙ mask_on

zero_if : (b : Bool) (x : ℕ) → x ≡ (if b then 1 else 0) → b ≡ false → ct_lsb_prop_u8 x ≡ 0
zero_if b x e h =
    ap ct_lsb_prop_u8 (e ∙ ap (λ (c : Bool). let n : ℕ = if c then 1 else 0 in n) h) ∙ mask_off

le_on : (a b : ℕ) → a ≤ b → b < 2 ^ 32 → ct_lsb_prop_u8 (ct_le_u32 a b) ≡ 255
le_on a b h l =
    one_if (leb (a % 2 ^ 32) (b % 2 ^ 32)) (ct_le_u32 a b) (ct_le_u32_lem a b) (ground arith)

le_off : (a b : ℕ) → b < a → a < 2 ^ 32 → ct_lsb_prop_u8 (ct_le_u32 a b) ≡ 0
le_off a b h l =
    zero_if (leb (a % 2 ^ 32) (b % 2 ^ 32)) (ct_le_u32 a b) (ct_le_u32_lem a b) (ground arith)

lt_on : (a b : ℕ) → a < b → b < 2 ^ 32 → ct_lsb_prop_u8 (ct_lt_u32 a b) ≡ 255
lt_on a b h l =
    one_if (ltb (a % 2 ^ 32) (b % 2 ^ 32)) (ct_lt_u32 a b) (ct_lt_u32_lem a b) (ground arith)

lt_off : (a b : ℕ) → b ≤ a → a < 2 ^ 32 → ct_lsb_prop_u8 (ct_lt_u32 a b) ≡ 0
lt_off a b h l =
    zero_if (ltb (a % 2 ^ 32) (b % 2 ^ 32)) (ct_lt_u32 a b) (ct_lt_u32_lem a b) (ground arith)

pub eq_on : (a : ℕ) → ct_lsb_prop_u8 (ct_eq_u32 a a) ≡ 255
eq_on a = one_if ((a % 2 ^ 32) == (a % 2 ^ 32)) (ct_eq_u32 a a) (ct_eq_u32_lem a a) (ground arith)

pub eq_off :
    (a b : ℕ) → (a < b) ⊎ (b < a) → a < 2 ^ 32 → b < 2 ^ 32 → ct_lsb_prop_u8 (ct_eq_u32 a b) ≡ 0
eq_off a b h l m =
    zero_if ((a % 2 ^ 32) == (b % 2 ^ 32)) (ct_eq_u32 a b) (ct_eq_u32_lem a b) (ground arith)

-- The last byte, which holds the length of the padding.
abbrev pub last_byte : Bytes → ℕ
last_byte payload = byte_at (length payload - 1) payload

-- The padding is in order: under SSL 3 no longer than a block, later all bytes the same.
pub GoodPadding : Bytes → Version → ℕ → Type 0
GoodPadding payload version block =
    (is_ssl3 version ≡ true → last_byte payload ≤ block)
    × (is_ssl3 version ≡ false
        → (i : ℕ) → pad_start_of payload ≤ i
        → i < length payload
        → byte_at i payload ≡ last_byte payload)

module _ (payload : Bytes) (bytes : All IsByte payload) (size : length payload < 2 ^ 16) where
  last_small : last_byte payload < 256
  last_small = byte_at-IsByte (length payload - 1) payload bytes

  pad_body : ℕ → ℕ → ℕ
  pad_body i result =
      or_masked (ct_lsb_prop_u8 (ct_le_u32 (pad_start_of payload) i)) (byte_at i payload)
        (last_byte payload) result

  InPadding : ℕ → Type 0
  InPadding i = pad_start_of payload ≤ i → byte_at i payload ≡ last_byte payload

  pad_body-down :
      (i result : ℕ) → i < length payload → pad_body i result ≡ 0 → (result ≡ 0) × InPadding i
  unfolding pad_body InPadding
  pad_body-down i result h e = elim (split_le (pad_start_of payload) i) [
    | inl inside ↦
        let (start, same) =
          or_masked-open (byte_at i payload) (last_byte payload) result
            (byte_at-IsByte i payload bytes) last_small
            (ap (λ (m : ℕ). or_masked m (byte_at i payload) (last_byte payload) result)
                (sym (le_on (pad_start_of payload) i inside (omega arith)))
              ∙ e) in
        (start, λ q. same)
    | inr before ↦ (
      or_masked-closed (byte_at i payload) (last_byte payload) result (
          ap (λ (m : ℕ). or_masked m (byte_at i payload) (last_byte payload) result)
            (sym (le_off (pad_start_of payload) i before (omega arith)))
          ∙ e),
      λ q. absurd (omega arith),
    )
  ]

  pad_body-up :
      (i result : ℕ) → i < length payload → result ≡ 0 → InPadding i → pad_body i result ≡ 0
  unfolding pad_body InPadding
  pad_body-up i result h e good = elim (split_le (pad_start_of payload) i) [
    | inl inside ↦ rw (le_on (pad_start_of payload) i inside (omega arith)) (
        or_masked_same 255 (byte_at i payload) (last_byte payload) result e (good inside)
          (omega arith))
    | inr before ↦
        rw (le_off (pad_start_of payload) i before (omega arith))
          (or_masked_closed_zero (byte_at i payload) (last_byte payload) result e)
  ]

  tls_loop : ℕ
  tls_loop = for_range (length payload - 256) (length payload - (length payload - 256)) pad_body 0

  tls_loop-down :
      tls_loop ≡ 0
      → (i : ℕ) → pad_start_of payload ≤ i
      → i < length payload
      → byte_at i payload ≡ last_byte payload
  unfolding tls_loop InPadding
  tls_loop-down e i p q =
      (for_range-down InPadding pad_body (length payload) pad_body-down pad_body-up
          (length payload - 256) (length payload - (length payload - 256)) 0 (omega arith) e).1
        i (omega (arith, last_small)) (omega arith) p

  tls_loop-up :
      ((i : ℕ)
        → pad_start_of payload ≤ i
        → i < length payload
        → byte_at i payload ≡ last_byte payload)
      → tls_loop ≡ 0
  unfolding tls_loop InPadding
  tls_loop-up good =
      for_range-up InPadding pad_body (length payload) pad_body-down pad_body-up
        (length payload - 256) (length payload - (length payload - 256)) 0 (omega arith) refl
        (λ i p q r. good i r (omega arith))

  ssl3_part : ℕ → ℕ
  ssl3_part block = bit_or 0 (ct_lsb_prop_u8 (ct_lt_u32 block (last_byte payload)))

  ssl3_part-down : (block : ℕ) → block < 2 ^ 32 → ssl3_part block ≡ 0 → last_byte payload ≤ block
  unfolding ssl3_part
  ssl3_part-down block h e = elim (split_le (last_byte payload) block) [
    | inl fits ↦ fits
    | inr over ↦ absurd (
        omega (
          arith,
          ap (bit_or 0) (sym (lt_on block (last_byte payload) over (omega (arith, last_small))))
              ∙ e,
        ))
  ]

  ssl3_part-up : (block : ℕ) → block < 2 ^ 32 → last_byte payload ≤ block → ssl3_part block ≡ 0
  unfolding ssl3_part
  ssl3_part-up block h fits = rw (lt_off block (last_byte payload) fits h) refl

  by_version-down :
      (b : Bool) (block : ℕ)
      → block < 2 ^ 32
      → (if b then ssl3_part block else tls_loop) ≡ 0
      → (b ≡ true → last_byte payload ≤ block)
        × (b ≡ false
            → (i : ℕ) → pad_start_of payload ≤ i
            → i < length payload
            → byte_at i payload ≡ last_byte payload)
  by_version-down true block h e = (λ q. ssl3_part-down block h e, λ q. absurd (ground arith))
  by_version-down false block h e = (λ q. absurd (ground arith), λ q. tls_loop-down e)

  by_version-up :
      (b : Bool) (block : ℕ)
      → block < 2 ^ 32
      → (b ≡ true → last_byte payload ≤ block)
        × (b ≡ false
            → (i : ℕ) → pad_start_of payload ≤ i
            → i < length payload
            → byte_at i payload ≡ last_byte payload)
      → (if b then ssl3_part block else tls_loop) ≡ 0
  by_version-up true block h (p, q) = ssl3_part-up block h (p refl)
  by_version-up false block h (p, q) = tls_loop-up (q refl)

  pub padding_result-down :
      (version : Version) (block : ℕ)
      → block < 2 ^ 32
      → padding_result payload version block ≡ 0
      → GoodPadding payload version block
  unfolding padding_result tls_loop ssl3_part pad_body GoodPadding
  padding_result-down version block h e = by_version-down (is_ssl3 version) block h e

  pub padding_result-up :
      (version : Version) (block : ℕ)
      → block < 2 ^ 32
      → GoodPadding payload version block
      → padding_result payload version block ≡ 0
  unfolding padding_result tls_loop ssl3_part pad_body GoodPadding
  padding_result-up version block h good = by_version-up (is_ssl3 version) block h good
