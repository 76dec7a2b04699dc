-- ===== src/Ciphers/Rc4Laws.antt =====
-- tlslite/utils/python_rc4.py: the table of RC4, and its two directions.
use tls_dvnizk.Base.{
  ℕ, zero, suc, ◌+◌, ◌%◌, ◌≤◌, ◌<◌, ◌≡◌, refl, ap, ap₂, subst, ◌∙◌, List, [], ◌∷◌, ltb, ◌==◌,
  if◌then◌else◌, length, set, ok, arith,
}
use tls_dvnizk.Base.Bytes.{Bytes, byte_at, length-set}
use tls_dvnizk.Base.Digits.{bit_xor_cancel}
use tls_dvnizk.Ciphers.Rc4.{
  Rc4, swap, numbers, schedule, new_rc4, advance, key_byte, encrypt, decrypt,
}

-- How often a number stands in a table.
unfoldable pub count : ℕ → List ℕ → ℕ
count a [] = 0
count a (x ∷ xs) = (if x == a then 1 else 0) + count a xs

count-set :
    (a i v : ℕ) (xs : List ℕ)
    → i < length xs
    → count a (set xs i v) + (if byte_at i xs == a then 1 else 0)
      ≡ count a xs + (if v == a then 1 else 0)
unfolding count
count-set a i v [] h = absurd (omega arith)
count-set a zero v (x ∷ xs) h = omega arith
count-set a (suc i) v (x ∷ xs) h = omega (arith, count-set a i v xs (omega arith))

byte_at-set_same : (i j : ℕ) (xs : List ℕ) → byte_at j (set xs i (byte_at j xs)) ≡ byte_at j xs
byte_at-set_same i j [] = refl
byte_at-set_same zero zero (x ∷ xs) = refl
byte_at-set_same zero (suc j) (x ∷ xs) = refl
byte_at-set_same (suc i) zero (x ∷ xs) = refl
byte_at-set_same (suc i) (suc j) (x ∷ xs) = byte_at-set_same i j xs

count-swap :
    (a i j : ℕ) (xs : List ℕ) → i < length xs → j < length xs → count a (swap xs i j) ≡ count a xs
unfolding swap
count-swap a i j xs p q = omega (
  arith,
  count-set a i (byte_at j xs) xs p,
  count-set a j (byte_at i xs) (set xs i (byte_at j xs))
      (omega (arith, length-set i (byte_at j xs) xs)),
  ap (λ (x : ℕ). let n : ℕ = if x == a then 1 else 0 in n) (byte_at-set_same i j xs),
)

length-swap : (i j : ℕ) (xs : List ℕ) → length (swap xs i j) ≡ length xs
unfolding swap
length-swap i j xs =
    length-set j (byte_at i xs) (set xs i (byte_at j xs)) ∙ length-set i (byte_at j xs) xs

length-numbers : (first n : ℕ) → length (numbers first n) ≡ n
unfolding numbers
length-numbers first zero = refl
length-numbers first (suc n) = ap suc (length-numbers (suc first) n)

-- Every number of the range stands there once, no other at all.
count-numbers :
    (a first n : ℕ)
    → count a (numbers first n) ≡ (if ltb a first then 0 else (if ltb a (first + n) then 1 else 0))
unfolding count numbers
count-numbers a first zero = ground arith
count-numbers a first (suc n) = ground (arith, count-numbers a (suc first) n)

-- A table in which each byte stands once.
pub record IsShuffled (table : List ℕ) : Type 0 where
  pub size : length table ≡ 256
  pub each : (a : ℕ) → count a table ≡ (if ltb a 256 then 1 else 0)

swap-IsShuffled :
    (table : List ℕ) (i j : ℕ) → i < 256 → j < 256 → IsShuffled table → IsShuffled (swap table i j)
swap-IsShuffled table i j p q h = record {
  size = length-swap i j table ∙ h.size;
  each = λ a. count-swap a i j table (omega (arith, h.size)) (omega (arith, h.size)) ∙ h.each a;
}

schedule-IsShuffled :
    (n : ℕ) (key : Bytes) (i j : ℕ) (table : List ℕ)
    → i + n ≤ 256
    → IsShuffled table
    → IsShuffled (schedule n key i j table)
unfolding schedule
schedule-IsShuffled zero key i j table h shuffled = shuffled
schedule-IsShuffled (suc n) key i j table h shuffled =
    let next = (j + byte_at i table + byte_at (i % length key) key) % 256 in
    schedule-IsShuffled n key (i + 1) next (swap table i next) (omega arith)
      (swap-IsShuffled table i next (omega arith) (omega arith) shuffled)

numbers-IsShuffled : IsShuffled (numbers 0 256)
numbers-IsShuffled = record {
  size = length-numbers 0 256;
  each = λ a. count-numbers a 0 256 ∙ from_zero a;
}
  where
    from_zero :
        (a : ℕ)
        → ◌≡◌ {A = ℕ}
            (if ltb a 0 then 0 else (if ltb a (0 + 256) then 1 else 0))
            (if ltb a 256 then 1 else 0)
    from_zero a = ground arith

advance-IsShuffled : (s : Rc4) → IsShuffled s.table → IsShuffled ((advance s).table)
unfolding advance
advance-IsShuffled s h =
    swap-IsShuffled s.table ((s.i + 1) % 256) ((s.j + byte_at ((s.i + 1) % 256) s.table) % 256)
      (omega arith) (omega arith) h

encrypt-IsShuffled :
    (text : Bytes) (s : Rc4) → IsShuffled s.table → IsShuffled ((encrypt text s).1.table)
unfolding encrypt
encrypt-IsShuffled [] s h = h
encrypt-IsShuffled (x ∷ text) s h = encrypt-IsShuffled text (advance s) (advance-IsShuffled s h)

-- The object after a run of calls.
abbrev pub run : List Bytes → Rc4 → Rc4
run [] s = s
run (text ∷ texts) s = run texts ((encrypt text s).1)

run-IsShuffled :
    (texts : List Bytes) (s : Rc4) → IsShuffled s.table → IsShuffled ((run texts s).table)
run-IsShuffled [] s h = h
run-IsShuffled (text ∷ texts) s h =
    run-IsShuffled texts ((encrypt text s).1) (encrypt-IsShuffled text s h)

new_rc4_table :
    (key : Bytes) (s : Rc4) → new_rc4 key ≡ ok s → schedule 256 key 0 0 (numbers 0 256) ≡ s.table
unfolding new_rc4
new_rc4_table key s e = ground arith

new_rc4-IsShuffled : (key : Bytes) (s : Rc4) → new_rc4 key ≡ ok s → IsShuffled s.table
new_rc4-IsShuffled key s e =
    subst IsShuffled (new_rc4_table key s e)
      (schedule-IsShuffled 256 key 0 0 (numbers 0 256) (omega arith) numbers-IsShuffled)

-- From a key on, over any run of calls, the table holds each byte once.
pub rc4_runs-IsShuffled :
    (key : Bytes) (texts : List Bytes) (s : Rc4)
    → new_rc4 key ≡ ok s
    → IsShuffled ((run texts s).table)
rc4_runs-IsShuffled key texts s e = run-IsShuffled texts s (new_rc4-IsShuffled key s e)

-- What RC4 encrypts, an object in the same state decrypts, and both end in the same state.
pub decrypt-encrypt :
    (text : Bytes) (s : Rc4)
    → (decrypt ((encrypt text s).0) s).0 ≡ text
      × ((decrypt ((encrypt text s).0) s).1 ≡ (encrypt text s).1)
unfolding decrypt encrypt
decrypt-encrypt [] s = (refl, refl)
decrypt-encrypt (x ∷ text) s =
    let (again, state) = decrypt-encrypt text (advance s) in
    (ap₂ (λ (u : ℕ) (us : Bytes). u ∷ us) (bit_xor_cancel x (key_byte (advance s))) again, state)
