-- ===== src/Ciphers/Aead.antt =====
-- tlslite/utils/chacha20_poly1305.py: `seal` and `open` side by side.
use Prim.Native.Nat.{bit_and}
use tls_dvnizk.Base.{
  ℕ, zero, suc, ◌+◌, ◌-◌, ◌/◌, ◌^◌, ◌≤◌, ◌<◌, ◌≡◌, refl, sym, ap, ap₂, ◌∙◌, ◌↔◌, ◌++◌, Bool, true,
  false, not, if◌then◌else◌, inl, inr, length, length-append, length-replicate, take, drop,
  take-append, drop-append, take-append-drop, replicate, Option, none, some, Result, ok, arith,
}
use tls_dvnizk.Base.Bytes.{Bytes}
use tls_dvnizk.ConstantTime.Cbc.{ct_compare_digest}
use tls_dvnizk.ConstantTime.CbcCheck.{split_le, ct_compare_digest_lem}
use tls_dvnizk.Ciphers.ChaCha.{encrypt, decrypt}
use tls_dvnizk.Ciphers.ChaChaLaws.{
  made_of, made_of-IsMade, new_chacha_lem, length-encrypt, decrypt-encrypt,
}
use tls_dvnizk.Ciphers.Poly1305.{
  Poly1305, le_bytes_to_num, new_poly1305, create_tag, num_to_16_le_bytes, low_bytes, absorb,
  divceil,
}
use tls_dvnizk.Ciphers.ChaCha20Poly1305.{poly1305_key_gen, mac_input, tag_of, seal, open_sealed}

length-low_bytes : (n num : ℕ) → length (low_bytes n num) ≡ n
unfolding low_bytes
length-low_bytes zero num = refl
length-low_bytes (suc n) num = ap suc (length-low_bytes n (num / 2 ^ 8))

pub length-create_tag : (p : Poly1305) (payload : Bytes) → length (create_tag p payload) ≡ 16
unfolding create_tag num_to_16_le_bytes
length-create_tag p payload =
    length-low_bytes 16 (absorb (divceil (length payload) 16) p.r p.acc payload + p.s)

-- The authenticator that the constructor makes of a key of 32 bytes.
authenticator : Bytes → Poly1305
authenticator otk = record {
  acc = 0;
  r = bit_and (le_bytes_to_num (take 16 otk)) 0x0ffffffc0ffffffc0ffffffc0fffffff;
  s = le_bytes_to_num (take 16 (drop 16 otk));
}

new_poly1305_lem : (otk : Bytes) → length otk ≡ 32 → new_poly1305 otk ≡ ok (authenticator otk)
unfolding new_poly1305 authenticator
new_poly1305_lem otk h = ground arith

module _ (key nonce : Bytes) (key_size : length key ≡ 32) (nonce_size : length nonce ≡ 12) where
  one_time : Bytes
  one_time = encrypt (made_of key nonce 0) (replicate 32 0)

  key_gen : poly1305_key_gen key nonce ≡ ok one_time
  unfolding poly1305_key_gen one_time
  key_gen = rw (new_chacha_lem key nonce 0 key_size nonce_size) refl

  one_time_size : length one_time ≡ 32
  unfolding one_time
  one_time_size =
      length-encrypt (made_of key nonce 0) (replicate 32 0)
        (made_of-IsMade key nonce 0 key_size nonce_size)
      ∙ length-replicate {A = ℕ} 32 0

  tag : Bytes → Bytes → Bytes
  tag payload ciphertext = create_tag (authenticator one_time) (mac_input payload ciphertext)

  tag_lem :
      (payload ciphertext : Bytes)
      → tag_of one_time payload ciphertext ≡ ok (tag payload ciphertext)
  unfolding tag_of tag
  tag_lem payload ciphertext = rw (new_poly1305_lem one_time one_time_size) refl

  tag_size : (payload ciphertext : Bytes) → length (tag payload ciphertext) ≡ 16
  unfolding tag
  tag_size payload ciphertext =
      length-create_tag (authenticator one_time) (mac_input payload ciphertext)

  hidden : Bytes → Bytes
  hidden text = encrypt (made_of key nonce 1) text

  shown : Bytes → Bytes
  shown text = decrypt (made_of key nonce 1) text

  shown-hidden : (text : Bytes) → shown (hidden text) ≡ text
  unfolding shown hidden
  shown-hidden text =
      decrypt-encrypt (made_of key nonce 1) text (made_of-IsMade key nonce 1 key_size nonce_size)

  hidden-shown : (text : Bytes) → hidden (shown text) ≡ text
  unfolding shown hidden decrypt
  hidden-shown text =
      decrypt-encrypt (made_of key nonce 1) text (made_of-IsMade key nonce 1 key_size nonce_size)

  seal_lem :
      (text payload : Bytes)
      → seal key nonce text payload ≡ ok (hidden text ++ tag payload (hidden text))
  unfolding seal hidden
  seal_lem text payload =
      rw (key_gen, new_chacha_lem key nonce 1 key_size nonce_size, tag_lem payload (hidden text))
        ground (arith, nonce_size)

  -- What is opened, once it is cut into a ciphertext and a tag.
  opened : Bytes → Bytes → Bytes → Option Bytes
  opened payload ciphertext expected =
      if not (ct_compare_digest (tag payload ciphertext) expected)
      then none
      else some (shown ciphertext)

  open_lem :
      (sealed payload : Bytes)
      → 16 ≤ length sealed
      → open_sealed key nonce sealed payload
        ≡ ok (opened payload (take (length sealed - 16) sealed) (drop (length sealed - 16) sealed))
  unfolding open_sealed opened shown
  open_lem sealed payload long =
      rw
        (
          key_gen,
          tag_lem payload (take (length sealed - 16) sealed),
          new_chacha_lem key nonce 1 key_size nonce_size,
        )
        ground (arith, nonce_size)

  short_lem :
      (sealed payload : Bytes) → length sealed < 16 → open_sealed key nonce sealed payload ≡ ok none
  unfolding open_sealed
  short_lem sealed payload short = ground (arith, nonce_size)

  opened-some :
      (payload ciphertext expected text : Bytes)
      → opened payload ciphertext expected ≡ some text
      → (tag payload ciphertext ≡ expected) × (shown ciphertext ≡ text)
  unfolding opened
  opened-some payload ciphertext expected text e =
      by_test (ct_compare_digest (tag payload ciphertext) expected) refl e
    where
      by_test :
          (b : Bool)
          → ct_compare_digest (tag payload ciphertext) expected ≡ b
          → (if not b then none else some (shown ciphertext)) ≡ some text
          → (tag payload ciphertext ≡ expected) × (shown ciphertext ≡ text)
      by_test true same f =
          ((ct_compare_digest_lem (tag payload ciphertext) expected).0 same, ground arith)
      by_test false same f = absurd (ground arith)

  opened-own :
      (payload text : Bytes) → opened payload (hidden text) (tag payload (hidden text)) ≡ some text
  unfolding opened
  opened-own payload text =
      rw ((ct_compare_digest_lem (tag payload (hidden text)) (tag payload (hidden text))).1 refl)
        (ap (λ (t : Bytes). let o : Option Bytes = some t in o) (shown-hidden text))

  sealed_size :
      (text payload : Bytes) → length (hidden text ++ tag payload (hidden text)) ≡ length text + 16
  unfolding hidden
  sealed_size text payload = omega (
    arith,
    length-append (hidden text) (tag payload (hidden text)),
    length-encrypt (made_of key nonce 1) text (made_of-IsMade key nonce 1 key_size nonce_size),
    tag_size payload (hidden text),
  )

  opens_own :
      (text payload : Bytes)
      → open_sealed key nonce (hidden text ++ tag payload (hidden text)) payload ≡ ok (some text)
  opens_own text payload =
      open_lem sealed payload (omega (arith, sealed_size text payload))
      ∙ ap₂ (λ (c t : Bytes). let r : Result (Option Bytes) = ok (opened payload c t) in r)
          (ap (λ (n : ℕ). take n sealed) short
            ∙ take-append (hidden text) (tag payload (hidden text)))
          (ap (λ (n : ℕ). drop n sealed) short
            ∙ drop-append (hidden text) (tag payload (hidden text)))
      ∙ ap (λ (o : Option Bytes). let r : Result (Option Bytes) = ok o in r)
          (opened-own payload text)
    where
      sealed : Bytes
      sealed = hidden text ++ tag payload (hidden text)

      short : length sealed - 16 ≡ length (hidden text)
      short = omega (
        arith,
        sealed_size text payload,
        length-append (hidden text) (tag payload (hidden text)),
        tag_size payload (hidden text),
      )

  -- What is opened was sealed: the ciphertext and the tag are those of the text.
  only_own :
      (sealed payload text : Bytes)
      → 16 ≤ length sealed
      → opened payload (take (length sealed - 16) sealed) (drop (length sealed - 16) sealed)
        ≡ some text
      → hidden text ++ tag payload (hidden text) ≡ sealed
  only_own sealed payload text long e =
      let (same_tag, same_text) =
        opened-some payload (take (length sealed - 16) sealed) (drop (length sealed - 16) sealed)
          text e in
      let back : hidden text ≡ take (length sealed - 16) sealed =
        ap hidden (sym same_text) ∙ hidden-shown (take (length sealed - 16) sealed) in
      ap₂ (λ (c t : Bytes). c ++ t) back (ap (tag payload) back ∙ same_tag)
      ∙ take-append-drop (length sealed - 16) sealed

  opens_only :
      (sealed payload text : Bytes)
      → open_sealed key nonce sealed payload ≡ ok (some text)
      → hidden text ++ tag payload (hidden text) ≡ sealed
  opens_only sealed payload text e = elim (split_le 16 (length sealed)) [
    | inl long ↦
        only_own sealed payload text long (ok-some (sym (open_lem sealed payload long) ∙ e))
    | inr short ↦ absurd (ground (arith, short_lem sealed payload short))
  ]
    where
      ok-some : {o : Option Bytes} → ok o ≡ ok (some text) → o ≡ some text
      ok-some f = ground arith

-- With a key of 32 bytes and a nonce of 12, `open` gives a text exactly if the string is what `seal` makes of it,
-- for the same data.
pub open_sealed-seal :
    (key nonce sealed payload text : Bytes)
    → length key ≡ 32
    → length nonce ≡ 12
    → (open_sealed key nonce sealed payload ≡ ok (some text))
      ↔ (seal key nonce text payload ≡ ok sealed)
open_sealed-seal key nonce sealed payload text key_size nonce_size = (
  λ e.
      seal_lem key nonce key_size nonce_size text payload
      ∙ ap (λ (t : Bytes). let r : Result Bytes = ok t in r)
          (opens_only key nonce key_size nonce_size sealed payload text e),
  λ e.
      ap (λ (t : Bytes). open_sealed key nonce t payload)
        (ok-injective (sym e ∙ seal_lem key nonce key_size nonce_size text payload))
      ∙ opens_own key nonce key_size nonce_size text payload,
)
  where
    ok-injective : {a b : Bytes} → ok a ≡ ok b → a ≡ b
    ok-injective f = ground arith

pub seal_total :
    (key nonce text payload : Bytes)
    → length key ≡ 32
    → length nonce ≡ 12
    → (sealed : Bytes) × (seal key nonce text payload ≡ ok sealed)
      × (length sealed ≡ length text + 16)
seal_total key nonce text payload key_size nonce_size = (
  hidden key nonce key_size nonce_size text
      ++ tag key nonce key_size nonce_size payload (hidden key nonce key_size nonce_size text),
  seal_lem key nonce key_size nonce_size text payload,
  sealed_size key nonce key_size nonce_size text payload,
)
