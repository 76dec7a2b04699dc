-- ===== src/ConstantTime/Loops.antt =====
-- When a loop that ors into a result leaves 0.
use Prim.Native.Nat.{bit_and, bit_or, bit_xor}
use tls_dvnizk.Base.{
  ℕ, zero, suc, ◌+◌, ◌≤◌, ◌<◌, ◌≡◌, refl, sym, ap, ap₂, subst, ◌∙◌, ◌⊎◌, inl, inr, [], ◌∷◌, ◌++◌,
  ◌==◌, length, take, drop, arith,
}
use tls_dvnizk.Base.Bytes.{Bytes, IsByte, byte_at}
use tls_dvnizk.Base.Checks.{checked_below}
use tls_dvnizk.Base.Digits.{bit_or-eq_zero, bit_xor-eq_zero, bit_xor_self, bit_xor-lt, bit_and_zero}
use tls_dvnizk.ConstantTime.Cbc.{for_range, or_masked, or_differences}

pub le_split : (a b : ℕ) → a ≤ b → (a ≡ b) ⊎ (suc a ≤ b)
le_split zero zero h = inl refl
le_split zero (suc b) h = inr (omega arith)
le_split (suc a) zero h = absurd (omega arith)
le_split (suc a) (suc b) h = elim (le_split a b (omega arith)) [
  | inl e ↦ inl (ap suc e)
  | inr l ↦ inr (omega arith)
]

-- A loop whose body leaves 0 exactly if it was 0 and `P` holds of the index.
module _ (P : ℕ → Type 0) (body : ℕ → ℕ → ℕ) (bound : ℕ)
    (down : (i result : ℕ) → i < bound → body i result ≡ 0 → (result ≡ 0) × P i)
    (up : (i result : ℕ) → i < bound → result ≡ 0 → P i → body i result ≡ 0) where
  starts_at_zero :
      (first count result : ℕ)
      → first + count ≤ bound
      → for_range first count body result ≡ 0
      → (result ≡ 0) × ((i : ℕ) → first ≤ i → i < first + count → P i)
  unfolding for_range
  starts_at_zero first zero result h e = (e, λ i p q. absurd (omega arith))
  starts_at_zero first (suc count) result h e =
      let (ran, later) = starts_at_zero (suc first) count (body first result) (omega arith) e in
      let (start, now) = down first result (omega arith) ran in
      (
        start,
        λ i p q. elim (le_split first i p) [
          | inl same ↦ subst P same now
          | inr after ↦ later i after (omega arith)
        ],
      )

  pub for_range-down :
      (first count result : ℕ)
      → first + count ≤ bound
      → for_range first count body result ≡ 0
      → (result ≡ 0) × ((i : ℕ) → first ≤ i → i < first + count → P i)
  for_range-down = starts_at_zero

  pub for_range-up :
      (first count result : ℕ)
      → first + count ≤ bound
      → result ≡ 0
      → ((i : ℕ) → first ≤ i → i < first + count → P i)
      → for_range first count body result ≡ 0
  unfolding for_range
  for_range-up first zero result h e all = e
  for_range-up first (suc count) result h e all =
      for_range-up (suc first) count (body first result) (omega arith)
        (up first result (omega arith) e (all first (omega arith) (omega arith)))
        (λ i p q. all i (omega arith) (omega arith))

keeps_byte : (x : ℕ) → IsByte x → bit_and x 255 ≡ x
keeps_byte x h = grind (arith, checked_below 256 (λ y. bit_and y 255 == y) refl x h)

pub or_masked-open :
    (a b result : ℕ) → IsByte a → IsByte b → or_masked 255 a b result ≡ 0 → (result ≡ 0) × (a ≡ b)
or_masked-open a b result p q e =
    let (start, masked) = bit_or-eq_zero result (bit_and (bit_xor a b) 255) e in
    (start, bit_xor-eq_zero a b (sym (keeps_byte (bit_xor a b) (bit_xor-lt 8 a b p q)) ∙ masked))

pub or_masked_same :
    (mask a b result : ℕ) → result ≡ 0 → a ≡ b → mask < 256 → or_masked mask a b result ≡ 0
or_masked_same mask a b result e same h =
    rw (e, same, bit_xor_self b) grind
      (arith, checked_below 256 (λ m. bit_or 0 (bit_and 0 m) == 0) refl mask h)

pub or_masked-closed : (a b result : ℕ) → or_masked 0 a b result ≡ 0 → result ≡ 0
or_masked-closed a b result e = (bit_or-eq_zero result (bit_and (bit_xor a b) 0) e).0

pub or_masked_closed_zero : (a b result : ℕ) → result ≡ 0 → or_masked 0 a b result ≡ 0
or_masked_closed_zero a b result e = rw (e, bit_and_zero (bit_xor a b)) refl

pub or_differences-down :
    (result : ℕ) (xs ys : Bytes)
    → length xs ≡ length ys
    → or_differences result xs ys ≡ 0
    → (result ≡ 0) × (xs ≡ ys)
unfolding or_differences
or_differences-down result [] [] h e = (e, refl)
or_differences-down result [] (y ∷ ys) h e = absurd (omega arith)
or_differences-down result (x ∷ xs) [] h e = absurd (omega arith)
or_differences-down result (x ∷ xs) (y ∷ ys) h e =
    let (now, later) = or_differences-down (bit_or result (bit_xor x y)) xs ys (omega arith) e in
    let (start, same) = bit_or-eq_zero result (bit_xor x y) now in
    (start, ap₂ (λ (u : ℕ) (us : Bytes). u ∷ us) (bit_xor-eq_zero x y same) later)

pub or_differences_self : (xs : Bytes) → or_differences 0 xs xs ≡ 0
unfolding or_differences
or_differences_self [] = refl
or_differences_self (x ∷ xs) = rw (bit_xor_self x) (or_differences_self xs)

-- Lists of one length with the same items are the same.
pub same_items :
    (xs ys : Bytes)
    → length xs ≡ length ys
    → ((j : ℕ) → j < length xs → byte_at j xs ≡ byte_at j ys)
    → xs ≡ ys
same_items [] [] h same = refl
same_items [] (y ∷ ys) h same = absurd (omega arith)
same_items (x ∷ xs) [] h same = absurd (omega arith)
same_items (x ∷ xs) (y ∷ ys) h same =
    ap₂ (λ (u : ℕ) (us : Bytes). u ∷ us) (same 0 (omega arith))
      (same_items xs ys (omega arith) (λ j p. same (suc j) (omega arith)))

pub byte_at-take : (n j : ℕ) (xs : Bytes) → j < n → byte_at j (take n xs) ≡ byte_at j xs
byte_at-take zero j xs h = absurd (omega arith)
byte_at-take (suc n) j [] h = refl
byte_at-take (suc n) zero (x ∷ xs) h = refl
byte_at-take (suc n) (suc j) (x ∷ xs) h = byte_at-take n j xs (omega arith)

at_index : (a b : ℕ) (xs : Bytes) → a ≡ b → byte_at a xs ≡ byte_at b xs
at_index a b xs e = ap (λ (t : ℕ). byte_at t xs) e

pub byte_at-drop : (n j : ℕ) (xs : Bytes) → byte_at j (drop n xs) ≡ byte_at (n + j) xs
byte_at-drop zero j xs = at_index j (0 + j) xs (omega arith)
byte_at-drop (suc n) j [] = refl
byte_at-drop (suc n) j (x ∷ xs) =
    byte_at-drop n j xs ∙ at_index (suc (n + j)) (suc n + j) (x ∷ xs) (omega arith)

-- What is before the start, and from there to the place, is all before the place.
pub take-append-drop-take :
    (s i : ℕ) (xs : Bytes) → s ≤ i → take s xs ++ drop s (take i xs) ≡ take i xs
take-append-drop-take zero i xs h = refl
take-append-drop-take (suc s) zero xs h = absurd (omega arith)
take-append-drop-take (suc s) (suc i) [] h = refl
take-append-drop-take (suc s) (suc i) (x ∷ xs) h =
    ap (λ (t : Bytes). x ∷ t) (take-append-drop-take s i xs (omega arith))
