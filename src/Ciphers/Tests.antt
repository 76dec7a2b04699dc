-- ===== src/Ciphers/Tests.antt =====
-- The witnesses of the theorems on the ciphers written in Python.
use tls_dvnizk.Base.{◌≡◌, ◌↔◌, refl, [], ◌∷◌, some, ok, arith, replicate}
use tls_dvnizk.Ciphers.ChaCha20Poly1305.{seal, open_sealed}
use tls_dvnizk.Ciphers.Aead.{open_sealed-seal}
use tls_dvnizk.Ciphers.Rc4.{Rc4, numbers, schedule, new_rc4, encrypt, decrypt}
use tls_dvnizk.Ciphers.Rc4Laws.{IsShuffled, run, rc4_runs-IsShuffled}
use tls_dvnizk.Ciphers.Rc4Laws

open_sealed-seal_example :
    (open_sealed (replicate 32 7) (replicate 12 1) (replicate 20 9) (5 ∷ [])
      ≡ ok (some (1 ∷ 2 ∷ 3 ∷ 4 ∷ [])))
    ↔ (seal (replicate 32 7) (replicate 12 1) (1 ∷ 2 ∷ 3 ∷ 4 ∷ []) (5 ∷ []) ≡ ok (replicate 20 9))
open_sealed-seal_example =
    open_sealed-seal (replicate 32 7) (replicate 12 1) (replicate 20 9) (5 ∷ [])
      (1 ∷ 2 ∷ 3 ∷ 4 ∷ []) (omega arith) (omega arith)

abbrev keyed : Rc4
keyed = record { table = schedule 256 (replicate 16 3) 0 0 (numbers 0 256); i = 0; j = 0 }

accepted : new_rc4 (replicate 16 3) ≡ ok keyed
unfolding new_rc4
accepted = refl

rc4_runs-IsShuffled_example : IsShuffled ((run ((1 ∷ 2 ∷ []) ∷ (9 ∷ []) ∷ []) keyed).table)
rc4_runs-IsShuffled_example =
    rc4_runs-IsShuffled (replicate 16 3) ((1 ∷ 2 ∷ []) ∷ (9 ∷ []) ∷ []) keyed accepted

decrypt-encrypt_rc4_example :
    (decrypt ((encrypt (1 ∷ 2 ∷ []) keyed).0) keyed).0 ≡ (1 ∷ 2 ∷ [])
    × ((decrypt ((encrypt (1 ∷ 2 ∷ []) keyed).0) keyed).1 ≡ (encrypt (1 ∷ 2 ∷ []) keyed).1)
decrypt-encrypt_rc4_example = Rc4Laws.decrypt-encrypt (1 ∷ 2 ∷ []) keyed
