-- ===== src/RecordLayer/Padding.antt =====
-- tlslite/recordlayer.py: the padding of TLS 1.3 is taken off.
use tls_dvnizk.Base.{
  ℕ, zero, suc, ◌<◌, ◌≡◌, refl, ap, ◌∙◌, [], ◌∷◌, ◌++◌, append_assoc, Option, none, some, length,
  replicate, ok, err, unexpected_message, arith,
}
use tls_dvnizk.Base.Bytes.{Bytes}
use tls_dvnizk.RecordLayer.Protect.{inner_plaintext}
use tls_dvnizk.RecordLayer.Open.{tls13_de_pad}

tls13_de_pad-zeros : (n : ℕ) → tls13_de_pad (replicate n 0) ≡ err unexpected_message
unfolding tls13_de_pad
tls13_de_pad-zeros zero = refl
tls13_de_pad-zeros (suc n) = rw (tls13_de_pad-zeros n) refl

found : (text : Bytes) (t n : ℕ) → 0 < t → tls13_de_pad (text ++ (t ∷ replicate n 0)) ≡ ok (text, t)
unfolding tls13_de_pad
found [] t n h = ground (arith, tls13_de_pad-zeros n)
found (x ∷ text) t n h = ground (arith, found text t n h)

-- As many zeros as the callback says.
unfoldable pub zeros : Option (ℕ → ℕ → ℕ → ℕ) → ℕ → Bytes → ℕ → ℕ
zeros none limit text msg_type = 0
zeros (some padding_cb) limit text msg_type =
    padding_cb (length (text ++ (msg_type ∷ []))) msg_type limit

pub inner_plaintext_lem :
    (padding_cb : Option (ℕ → ℕ → ℕ → ℕ)) (limit : ℕ) (text : Bytes) (msg_type : ℕ)
    → inner_plaintext padding_cb limit text msg_type
      ≡ text ++ (msg_type ∷ replicate (zeros padding_cb limit text msg_type) 0)
unfolding inner_plaintext zeros
inner_plaintext_lem none limit text msg_type = refl
inner_plaintext_lem (some padding_cb) limit text msg_type =
    append_assoc text (msg_type ∷ [])
      (replicate (padding_cb (length (text ++ (msg_type ∷ []))) msg_type limit) 0)

-- Of an inner plaintext, however padded, `_tls13_de_pad` gives back the text and the content type, if that
-- is not 0.
pub tls13_de_pad-inner_plaintext :
    (padding_cb : Option (ℕ → ℕ → ℕ → ℕ)) (limit : ℕ) (text : Bytes) (msg_type : ℕ)
    → 0 < msg_type
    → tls13_de_pad (inner_plaintext padding_cb limit text msg_type) ≡ ok (text, msg_type)
tls13_de_pad-inner_plaintext padding_cb limit text msg_type h =
    ap tls13_de_pad (inner_plaintext_lem padding_cb limit text msg_type)
    ∙ found text msg_type (zeros padding_cb limit text msg_type) h
