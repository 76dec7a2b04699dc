-- ===== src/Ciphers/ChaChaLaws.antt =====
-- tlslite/utils/chacha.py: the key stream, and the two directions of the cipher.
use tls_dvnizk.Base.{
  ℕ, zero, suc, ◌+◌, ◌*◌, ◌/◌, ◌≡◌, refl, ap, ◌∙◌, List, [], ◌∷◌, ◌++◌, length, length-append, drop,
  set, ok, arith,
}
use tls_dvnizk.Base.Bytes.{Bytes, byte_at, le_bytes, length-set, length-le_bytes}
use tls_dvnizk.Ciphers.Stream.{xor_blocks, length-xor_blocks, xor_blocks_cancel}
use tls_dvnizk.Ciphers.ChaCha.{
  Words, ChaCha, quarter, quarter_round, mix, round_mixup_box, double_round, double_rounds,
  add_words, chacha_block, constants, word_to_bytearray, words_of, bytearray_to_words, new_chacha,
  key_stream, encrypt, decrypt,
}

length-quarter_round : (x : Words) (a b c d : ℕ) → length (quarter_round x a b c d) ≡ length x
unfolding quarter_round
length-quarter_round x a b c d =
    let (xa, xb, xc, xd) = quarter (byte_at a x) (byte_at b x) (byte_at c x) (byte_at d x) in
    length-set d xd (set (set (set x a xa) b xb) c xc)
    ∙ length-set c xc (set (set x a xa) b xb)
    ∙ length-set b xb (set x a xa)
    ∙ length-set a xa x

length-mix : (box : List (ℕ × ℕ × ℕ × ℕ)) (x : Words) → length (mix box x) ≡ length x
unfolding mix
length-mix [] x = refl
length-mix ((a, b, c, d) ∷ box) x =
    length-mix box (quarter_round x a b c d) ∙ length-quarter_round x a b c d

length-double_rounds : (n : ℕ) (x : Words) → length (double_rounds n x) ≡ length x
unfolding double_rounds double_round
length-double_rounds zero x = refl
length-double_rounds (suc n) x =
    length-double_rounds n (double_round x) ∙ length-mix round_mixup_box x

length-add_words : (xs ys : Words) → length ys ≡ length xs → length (add_words xs ys) ≡ length xs
unfolding add_words
length-add_words [] ys h = refl
length-add_words (x ∷ xs) [] h = absurd (omega arith)
length-add_words (x ∷ xs) (y ∷ ys) h = ap suc (length-add_words xs ys (omega arith))

length-word_to_bytearray : (state : Words) → length (word_to_bytearray state) ≡ length state * 4
unfolding word_to_bytearray
length-word_to_bytearray [] = omega arith
length-word_to_bytearray (x ∷ state) = omega (
  arith,
  length-append (le_bytes 4 x) (word_to_bytearray state),
  length-le_bytes 4 x,
  length-word_to_bytearray state,
)

-- A cipher as the constructor makes it.
pub record IsMade (c : ChaCha) : Type 0 where
  pub key_words : length c.key ≡ 8
  pub nonce_words : length c.nonce ≡ 3

length-words_of : (n : ℕ) (bs : Bytes) → length (words_of n bs) ≡ n
unfolding words_of
length-words_of zero bs = refl
length-words_of (suc n) bs = ap suc (length-words_of n (drop 4 bs))

pub length-key_stream : (c : ChaCha) → IsMade c → (i : ℕ) → length (key_stream c i) ≡ 64
unfolding key_stream chacha_block
length-key_stream c made i = omega (
  arith,
  length-word_to_bytearray (chacha_block c.key (c.counter + i) c.nonce c.rounds),
  length-add_words state (double_rounds (c.rounds / 2) state)
      (length-double_rounds (c.rounds / 2) state),
  length-append c.key ((c.counter + i) ∷ c.nonce),
  made.key_words,
  made.nonce_words,
)
  where
    state : Words
    state = constants ++ (c.key ++ ((c.counter + i) ∷ c.nonce))

pub length-encrypt : (c : ChaCha) (text : Bytes) → IsMade c → length (encrypt c text) ≡ length text
unfolding encrypt
length-encrypt c text made =
    length-xor_blocks 64 (key_stream c) (omega arith) (length-key_stream c made) (length text) 0
      text (omega arith)

-- What ChaCha encrypts, it decrypts, with the same key, nonce and counter.
pub decrypt-encrypt : (c : ChaCha) (text : Bytes) → IsMade c → decrypt c (encrypt c text) ≡ text
unfolding decrypt encrypt
decrypt-encrypt c text made =
    ap
      (λ (n : ℕ).
        xor_blocks 64 (key_stream c) n 0 (xor_blocks 64 (key_stream c) (length text) 0 text))
      (length-xor_blocks 64 (key_stream c) (omega arith) (length-key_stream c made) (length text) 0
        text (omega arith))
    ∙ xor_blocks_cancel 64 (key_stream c) (omega arith) (length-key_stream c made) (length text) 0
        text (omega arith)

-- The cipher that the constructor makes of a key of 32 bytes and a nonce of 12.
unfoldable pub made_of : Bytes → Bytes → ℕ → ChaCha
made_of key nonce counter = record {
  key = bytearray_to_words key;
  nonce = bytearray_to_words nonce;
  counter = counter;
  rounds = 20;
}

pub new_chacha_lem :
    (key nonce : Bytes) (counter : ℕ)
    → length key ≡ 32
    → length nonce ≡ 12
    → new_chacha key nonce counter ≡ ok (made_of key nonce counter)
unfolding new_chacha made_of
new_chacha_lem key nonce counter p q = ground arith

pub made_of-IsMade :
    (key nonce : Bytes) (counter : ℕ)
    → length key ≡ 32
    → length nonce ≡ 12
    → IsMade (made_of key nonce counter)
unfolding made_of bytearray_to_words
made_of-IsMade key nonce counter p q = record {
  key_words = length-words_of (length key / 4) key ∙ ap (λ (n : ℕ). n / 4) p;
  nonce_words = length-words_of (length nonce / 4) nonce ∙ ap (λ (n : ℕ). n / 4) q;
}
