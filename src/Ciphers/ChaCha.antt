-- ===== src/Ciphers/ChaCha.antt =====
-- tlslite/utils/chacha.py: the stream cipher ChaCha.
use Prim.Native.Nat.{bit_or, bit_xor}
use tls_dvnizk.Base.{
  ℕ, zero, suc, ◌+◌, ◌-◌, ◌*◌, ◌/◌, ◌%◌, ◌^◌, List, [], ◌∷◌, ◌++◌, not, ◌==◌, length, take, drop,
  set, Result, ok, value_error,
}
use tls_dvnizk.Base.Bytes.{Bytes, byte_at, le_bytes, le_value}
use tls_dvnizk.Base.Fallible.{◌>>◌, fail_if}
use tls_dvnizk.Ciphers.Stream.{xor_blocks}

abbrev pub Words : Type 0
Words = List ℕ

-- `x & 0xffffffff`
abbrev pub word : ℕ → ℕ
word x = x % 2 ^ 32

-- The class constant `constants`.
abbrev pub constants : Words
constants = 0x61707865 ∷ 0x3320646e ∷ 0x79622d32 ∷ 0x6b206574 ∷ []

unfoldable pub rotl32 : ℕ → ℕ → ℕ
rotl32 v c = bit_or (word (v * 2 ^ c)) (v / 2 ^ (32 - c))

-- The four words after a quarter round.
unfoldable pub quarter : ℕ → ℕ → ℕ → ℕ → ℕ × ℕ × ℕ × ℕ
quarter a b c d =
    let a1 = word (a + b) in
    let d1 = rotl32 (bit_xor d a1) 16 in
    let c1 = word (c + d1) in
    let b1 = rotl32 (bit_xor b c1) 12 in
    let a2 = word (a1 + b1) in
    let d2 = rotl32 (bit_xor d1 a2) 8 in
    let c2 = word (c1 + d2) in let b2 = rotl32 (bit_xor b1 c2) 7 in (a2, b2, c2, d2)

unfoldable pub quarter_round : Words → ℕ → ℕ → ℕ → ℕ → Words
quarter_round x a b c d =
    let (xa, xb, xc, xd) = quarter (byte_at a x) (byte_at b x) (byte_at c x) (byte_at d x) in
    set (set (set (set x a xa) b xb) c xc) d xd

-- `for a, b, c, d in box:` on the words
unfoldable pub mix : List (ℕ × ℕ × ℕ × ℕ) → Words → Words
mix [] x = x
mix ((a, b, c, d) ∷ box) x = mix box (quarter_round x a b c d)

abbrev pub round_mixup_box : List (ℕ × ℕ × ℕ × ℕ)
round_mixup_box =
    (0, 4, 8, 12)
    ∷ (1, 5, 9, 13)
    ∷ (2, 6, 10, 14)
    ∷ (3, 7, 11, 15)
    ∷ (0, 5, 10, 15)
    ∷ (1, 6, 11, 12)
    ∷ (2, 7, 8, 13)
    ∷ (3, 4, 9, 14)
    ∷ []

unfoldable pub double_round : Words → Words
double_round x = mix round_mixup_box x

unfoldable pub double_rounds : ℕ → Words → Words
double_rounds zero x = x
double_rounds (suc n) x = double_rounds n (double_round x)

-- `[(st + wrkSt) & 0xffffffff for st, wrkSt in zip(...)]`
unfoldable pub add_words : Words → Words → Words
add_words [] ys = []
add_words (x ∷ xs) [] = []
add_words (x ∷ xs) (y ∷ ys) = word (x + y) ∷ add_words xs ys

unfoldable pub chacha_block : Words → ℕ → Words → ℕ → Words
chacha_block key counter nonce rounds =
    let state = constants ++ (key ++ (counter ∷ nonce)) in
    add_words state (double_rounds (rounds / 2) state)

-- `struct.pack('<LL...', *state)`
unfoldable pub word_to_bytearray : Words → Bytes
word_to_bytearray [] = []
word_to_bytearray (x ∷ state) = le_bytes 4 x ++ word_to_bytearray state

-- `n` words of four bytes each
unfoldable pub words_of : ℕ → Bytes → Words
words_of zero bs = []
words_of (suc n) bs = le_value (take 4 bs) ∷ words_of n (drop 4 bs)

unfoldable pub bytearray_to_words : Bytes → Words
bytearray_to_words bs = words_of (length bs / 4) bs

pub record ChaCha : Type 0 where
  pub key : Words
  pub nonce : Words
  pub counter : ℕ
  pub rounds : ℕ

-- The constructor, with its default of 20 rounds.
unfoldable pub new_chacha : Bytes → Bytes → ℕ → Result ChaCha
new_chacha key nonce counter =
    fail_if (not (length key == 32)) value_error
    >> fail_if (not (length nonce == 12)) value_error
    >> ok (record {
      key = bytearray_to_words key;
      nonce = bytearray_to_words nonce;
      counter = counter;
      rounds = 20;
    })

unfoldable pub key_stream : ChaCha → ℕ → Bytes
key_stream c i = word_to_bytearray (chacha_block c.key (c.counter + i) c.nonce c.rounds)

-- Block `i` is under the key stream at the counter and `i`.
unfoldable pub encrypt : ChaCha → Bytes → Bytes
encrypt c plaintext = xor_blocks 64 (key_stream c) (length plaintext) 0 plaintext

unfoldable pub decrypt : ChaCha → Bytes → Bytes
decrypt c ciphertext = encrypt c ciphertext
