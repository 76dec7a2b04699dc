-- ===== src/Ciphers/Stream.antt =====
-- `bytearray(x ^ y for x, y in zip(...))`: a text under a key stream, and how a text is cut into blocks.
use Prim.Native.Nat.{bit_xor}
use tls_dvnizk.Base.{
  ℕ, zero, suc, ◌+◌, ◌≤◌, ◌<◌, ◌≡◌, refl, sym, ap, ap₂, ◌∙◌, [], ◌∷◌, ◌++◌, length, length-append,
  length-take, length-drop, take, drop, take_nil, drop_nil, take_all, drop_all, take_by, drop_by,
  append-nil, take-append-drop, All, arith,
}
use tls_dvnizk.Base.Bytes.{Bytes, IsByte}
use tls_dvnizk.Base.Digits.{bit_xor_cancel, bit_xor_comm, bit_xor-lt}

-- As long as the shorter of the two.
unfoldable pub xor_bytes : Bytes → Bytes → Bytes
xor_bytes [] ys = []
xor_bytes (x ∷ xs) [] = []
xor_bytes (x ∷ xs) (y ∷ ys) = bit_xor x y ∷ xor_bytes xs ys

pub length-xor_bytes_le :
    (xs ys : Bytes) → length xs ≤ length ys → length (xor_bytes xs ys) ≡ length xs
unfolding xor_bytes
length-xor_bytes_le [] ys h = refl
length-xor_bytes_le (x ∷ xs) [] h = absurd (omega arith)
length-xor_bytes_le (x ∷ xs) (y ∷ ys) h = ap suc (length-xor_bytes_le xs ys (omega arith))

-- The same key stream twice gives the text back.
pub xor_bytes_cancel : (xs ys : Bytes) → length xs ≤ length ys → xor_bytes (xor_bytes xs ys) ys ≡ xs
unfolding xor_bytes
xor_bytes_cancel [] ys h = refl
xor_bytes_cancel (x ∷ xs) [] h = absurd (omega arith)
xor_bytes_cancel (x ∷ xs) (y ∷ ys) h =
    ap₂ (λ (u : ℕ) (us : Bytes). u ∷ us) (bit_xor_cancel x y) (xor_bytes_cancel xs ys (omega arith))

pub xor_bytes-IsByte :
    (xs ys : Bytes) → All IsByte xs → All IsByte ys → All IsByte (xor_bytes xs ys)
unfolding xor_bytes
xor_bytes-IsByte [] ys p q = tt
xor_bytes-IsByte (x ∷ xs) [] p q = tt
xor_bytes-IsByte (x ∷ xs) (y ∷ ys) (p, ps) (q, qs) =
    (bit_xor-lt 8 x y p q, xor_bytes-IsByte xs ys ps qs)

pub xor_bytes_comm : (xs ys : Bytes) → xor_bytes xs ys ≡ xor_bytes ys xs
unfolding xor_bytes
xor_bytes_comm [] [] = refl
xor_bytes_comm [] (y ∷ ys) = refl
xor_bytes_comm (x ∷ xs) [] = refl
xor_bytes_comm (x ∷ xs) (y ∷ ys) =
    ap₂ (λ (u : ℕ) (us : Bytes). u ∷ us) (bit_xor_comm x y) (xor_bytes_comm xs ys)

pub under_key_twice :
    (key xs : Bytes) → length xs ≤ length key → xor_bytes key (xor_bytes key xs) ≡ xs
under_key_twice key xs h =
    xor_bytes_comm key (xor_bytes key xs)
    ∙ ap (λ (t : Bytes). xor_bytes t key) (xor_bytes_comm key xs)
    ∙ xor_bytes_cancel xs key h

pub length-under_key :
    (key xs : Bytes) → length xs ≤ length key → length (xor_bytes key xs) ≡ length xs
length-under_key key xs h = ap length (xor_bytes_comm key xs) ∙ length-xor_bytes_le xs key h

-- A text in blocks of `size` bytes, block `i` under the key `stream i`. There are no more blocks than bytes.
unfoldable pub xor_blocks : ℕ → (ℕ → Bytes) → ℕ → ℕ → Bytes → Bytes
xor_blocks size stream zero i text = []
xor_blocks size stream (suc fuel) i [] = []
xor_blocks size stream (suc fuel) i (x ∷ text) =
    xor_bytes (stream i) (take size (x ∷ text))
    ++ xor_blocks size stream fuel (i + 1) (drop size (x ∷ text))

module _ (size : ℕ) (stream : ℕ → Bytes) (positive : 0 < size)
    (full : (i : ℕ) → length (stream i) ≡ size) where
  no_blocks : (fuel i : ℕ) → xor_blocks size stream fuel i [] ≡ []
  unfolding xor_blocks
  no_blocks zero i = refl
  no_blocks (suc fuel) i = refl

  key_on_nothing : (key : Bytes) → xor_bytes key [] ≡ []
  unfolding xor_bytes
  key_on_nothing [] = refl
  key_on_nothing (k ∷ key) = refl

  block_step :
      (fuel i : ℕ) (text : Bytes)
      → xor_blocks size stream (suc fuel) i text
        ≡ xor_bytes (stream i) (take size text)
          ++ xor_blocks size stream fuel (i + 1) (drop size text)
  unfolding xor_blocks
  block_step fuel i [] = sym (
      ap₂ (λ (u v : Bytes). u ++ v)
        (ap (xor_bytes (stream i)) (take_nil size) ∙ key_on_nothing (stream i))
        (ap (xor_blocks size stream fuel (i + 1)) (drop_nil size) ∙ no_blocks fuel (i + 1)))
  block_step fuel i (x ∷ text) = refl

  block_fits : (i : ℕ) (text : Bytes) → length (take size text) ≤ length (stream i)
  block_fits i text = omega (arith, length-take size text, full i)

  pub length-xor_blocks :
      (fuel i : ℕ) (text : Bytes)
      → length text ≤ fuel
      → length (xor_blocks size stream fuel i text) ≡ length text
  unfolding xor_blocks
  length-xor_blocks zero i [] h = refl
  length-xor_blocks zero i (x ∷ text) h = absurd (omega arith)
  length-xor_blocks (suc fuel) i [] h = refl
  length-xor_blocks (suc fuel) i (x ∷ text) h = omega (
    arith,
    length-append (xor_bytes (stream i) (take size (x ∷ text)))
        (xor_blocks size stream fuel (i + 1) (drop size (x ∷ text))),
    length-under_key (stream i) (take size (x ∷ text)) (block_fits i (x ∷ text)),
    length-xor_blocks fuel (i + 1) (drop size (x ∷ text))
        (omega (arith, length-drop size (x ∷ text), positive)),
    length-take size (x ∷ text),
    length-drop size (x ∷ text),
  )

  -- The blocks of what was put under the key are those of the text, under the key.
  blocks_again :
      (block rest text : Bytes)
      → length block ≡ length (take size text)
      → length rest ≡ length (drop size text)
      → (take size (block ++ rest) ≡ block) × (drop size (block ++ rest) ≡ rest)
  blocks_again block [] text e f = (
    ap (take size) (append-nil block) ∙ take_all size block short,
    ap (drop size) (append-nil block) ∙ drop_all size block short,
  )
    where
      short : length block ≤ size
      short = omega (arith, length-take size text, e)
  blocks_again block (r ∷ rest) text e f =
      (take_by size block (r ∷ rest) whole, drop_by size block (r ∷ rest) whole)
    where
      whole : length block ≡ size
      whole = omega (arith, length-take size text, length-drop size text, e, f)

  pub xor_blocks_cancel :
      (fuel i : ℕ) (text : Bytes)
      → length text ≤ fuel
      → xor_blocks size stream fuel i (xor_blocks size stream fuel i text) ≡ text
  unfolding xor_blocks
  xor_blocks_cancel zero i [] h = no_blocks zero i
  xor_blocks_cancel zero i (x ∷ text) h = absurd (omega arith)
  xor_blocks_cancel (suc fuel) i [] h =
      ap (xor_blocks size stream (suc fuel) i) (no_blocks (suc fuel) i) ∙ no_blocks (suc fuel) i
  xor_blocks_cancel (suc fuel) i (x ∷ text) h =
      let key = stream i in
      let block = xor_bytes key (take size (x ∷ text)) in
      let rest = xor_blocks size stream fuel (i + 1) (drop size (x ∷ text)) in
      let short : length (drop size (x ∷ text)) ≤ fuel =
        omega (arith, length-drop size (x ∷ text), positive) in
      let (one, more) =
        blocks_again block rest (x ∷ text)
          (length-under_key key (take size (x ∷ text)) (block_fits i (x ∷ text)))
          (length-xor_blocks fuel (i + 1) (drop size (x ∷ text)) short) in
      ap (xor_blocks size stream (suc fuel) i) (block_step fuel i (x ∷ text))
      ∙ block_step fuel i (block ++ rest)
      ∙ ap₂ (λ (u v : Bytes). u ++ v)
          (ap (xor_bytes key) one
            ∙ under_key_twice key (take size (x ∷ text)) (block_fits i (x ∷ text)))
          (ap (xor_blocks size stream fuel (i + 1)) more
            ∙ xor_blocks_cancel fuel (i + 1) (drop size (x ∷ text)) short)
      ∙ take-append-drop size (x ∷ text)
