-- ===== src/RecordLayer/Blocks.antt =====
-- tlslite/recordlayer.py: `addPadding`, and the fixed block before a text.
use native.Mathlib.Nat.{div-add-mod, mod-lt, mul-mod_right}
use tls_dvnizk.Base.{
  ℕ, suc, ◌+◌, ◌-◌, ◌*◌, ◌/◌, ◌%◌, ◌≤◌, ◌<◌, ◌≡◌, refl, sym, ap, ◌∙◌, ◌++◌, append_assoc, Bool,
  true, false, ◌==◌, leb, if◌then◌else◌, Option, none, some, pure, length, length-append,
  length-replicate, replicate, drop, drop-append, ok, arith,
}
use tls_dvnizk.Base.Bytes.{Bytes}
use tls_dvnizk.RecordLayer.State.{ConnectionState}
use tls_dvnizk.RecordLayer.Protect.{add_padding, prepend_block}

-- A text with its padding.
unfoldable pub padded_text : ℕ → Bytes → Bytes
padded_text block text =
    text ++ replicate (block - 1 - length text % block + 1) (block - 1 - length text % block)

-- For blocks of at most 256 bytes the padding is made.
pub add_padding_lem :
    (block : ℕ) (text : Bytes) (s : ConnectionState)
    → 0 < block
    → block ≤ 256
    → add_padding block text s ≡ (ok (padded_text block text), s)
unfolding add_padding padded_text
add_padding_lem block text s positive small = rw (has_size, fits) refl
  where
    has_size : (block == 0) ≡ false
    has_size = ground arith

    fits : leb 256 (block - 1 - length text % block) ≡ false
    fits = ground arith

-- With its padding a text has whole blocks.
pub padded_length :
    (block : ℕ) (text : Bytes)
    → 0 < block
    → length (padded_text block text) ≡ block * (length text / block + 1)
unfolding padded_text
padded_length block text h = omega (
  arith,
  length-append text
      (replicate (block - 1 - length text % block + 1) (block - 1 - length text % block)),
  length-replicate (block - 1 - length text % block + 1) (block - 1 - length text % block),
  div-add-mod (length text) block,
  mod-lt (length text) h,
)

pub padded_text-whole :
    (block : ℕ) (text : Bytes) → 0 < block → length (padded_text block text) % block ≡ 0
padded_text-whole block text h =
    ap (λ (n : ℕ). n % block) (padded_length block text h)
    ∙ mul-mod_right block (length text / block + 1)

-- From TLS 1.1 on, where `b` is true, the fixed block is drawn and has the size of a block.
abbrev pub IsDrawn : Bool → Option Bytes → ℕ → Type 0
IsDrawn true none size = ⊥
IsDrawn true (some block) size = length block ≡ size
IsDrawn false fixed size = Unit {0}

-- What is encrypted, less its padding: from TLS 1.1 on the fixed block before the text.
unfoldable pub begun_with : Bool → Option Bytes → Bytes → Bytes
begun_with true (some block) text = block ++ text
begun_with true none text = text
begun_with false fixed text = text

pub begins :
    (b : Bool) (fixed : Option Bytes) (size : ℕ) (text : Bytes) (s : ConnectionState)
    → IsDrawn b fixed size
    → (if b then prepend_block fixed text else pure text) s ≡ (ok (begun_with b fixed text), s)
unfolding prepend_block begun_with
begins true none size text s drawn = absurd drawn
begins true (some block) size text s drawn = refl
begins false fixed size text s drawn = refl

-- The value of each byte of the padding.
unfoldable pub pad_of : ℕ → Bytes → ℕ
pad_of block text = block - 1 - length text % block

padded :
    (block : ℕ) (text : Bytes)
    → padded_text block text ≡ text ++ replicate (suc (pad_of block text)) (pad_of block text)
unfolding padded_text pad_of
padded block text =
    ap (λ (n : ℕ). text ++ replicate n (block - 1 - length text % block))
      (one_more (block - 1 - length text % block))
  where
    one_more : (n : ℕ) → n + 1 ≡ suc n
    one_more n = omega arith

-- Without the block before it, the text and its padding remain.
pub rest_of :
    (b : Bool) (fixed : Option Bytes) (block : ℕ) (buf : Bytes)
    → IsDrawn b fixed block
    → (if b
        then drop block (padded_text block (begun_with b fixed buf))
        else padded_text block (begun_with b fixed buf))
      ≡ buf
        ++ replicate
            (suc (pad_of block (begun_with b fixed buf)))
            (pad_of block (begun_with b fixed buf))
unfolding begun_with
rest_of false fixed block buf e = padded block buf
rest_of true none block buf e = absurd e
rest_of true (some iv) block buf e =
    ap (drop block) (
      padded block (iv ++ buf)
      ∙ append_assoc iv buf (replicate (suc (pad_of block (iv ++ buf))) (pad_of block (iv ++ buf))))
    ∙ ap
        (λ (n : ℕ).
          drop n
            (iv ++ (buf ++ replicate (suc (pad_of block (iv ++ buf))) (pad_of block (iv ++ buf)))))
        (sym e)
    ∙ drop-append iv (buf ++ replicate (suc (pad_of block (iv ++ buf))) (pad_of block (iv ++ buf)))

pub begun_with_le :
    (b : Bool) (fixed : Option Bytes) (size : ℕ) (buf : Bytes)
    → IsDrawn b fixed size
    → length (begun_with b fixed buf) ≤ size + length buf
unfolding begun_with
begun_with_le true none size buf drawn = absurd drawn
begun_with_le true (some block) size buf drawn = omega (arith, length-append block buf)
begun_with_le false fixed size buf drawn = omega arith
