-- ===== src/Sessions/Ring.antt =====
-- tlslite/sessioncache.py: the circular list, read as a queue.
use tls_dvnizk.Base.{
  ℕ, zero, suc, ◌+◌, ◌-◌, ◌%◌, ◌≤◌, ◌<◌, ◌≡◌, ◌≢◌, refl, sym, ap, subst, inl, inr, ◌∙◌, List, [],
  ◌∷◌, ◌++◌, ltb, if◌then◌else◌, Option, some, length, get_elem?, set, arith,
}
use tls_dvnizk.ConstantTime.CbcCheck.{split_le}
use native.Mathlib.Nat.{mod-eq-sub-mod, mod-eq_of_lt}

-- An index that has gone round once at most.
unfoldable pub wrap : ℕ → ℕ → ℕ
wrap n i = if ltb i n then i else i - n

mod_turn : (n i : ℕ) → n ≤ i → i < n + n → i % n ≡ i - n
mod_turn n i h k = mod-eq-sub-mod h ∙ mod-eq_of_lt (omega arith)

pub wrap_lem : (n i : ℕ) → i < n + n → i % n ≡ wrap n i
unfolding wrap
wrap_lem n i h = elim (split_le (suc i) n) [
  | inl small ↦ ground (arith, mod-eq_of_lt small)
  | inr big ↦ ground (arith, mod_turn n i (omega arith) h)
]

apart : (n i p : ℕ) → i < p → p < i + n → p < n + n → wrap n p ≢ wrap n i
unfolding wrap
apart n i p h k l = ground arith

same_place : (n i : ℕ) → i < n → wrap n i ≡ wrap n (n + i)
unfolding wrap
same_place n i h = ground arith

module _ {ℓ} {A : Type ℓ} where
  -- The elements stand one after the other from the index `i` on.
  abbrev pub Window : List (Option A) → ℕ → ℕ → List A → Type ℓ
  Window places n i [] = Unit {ℓ}
  Window places n i (x ∷ xs) =
      (get_elem? places (wrap n i) ≡ some (some x)) × Window places n (suc i) xs

  set_other :
      (places : List (Option A)) (i j : ℕ) (v : Option A)
      → i ≢ j
      → get_elem? (set places i v) j ≡ get_elem? places j
  set_other [] i j v h = refl
  set_other (x ∷ places) zero zero v h = absurd (h refl)
  set_other (x ∷ places) zero (suc j) v h = refl
  set_other (x ∷ places) (suc i) zero v h = refl
  set_other (x ∷ places) (suc i) (suc j) v h = set_other places i j v (λ e. h (ap suc e))

  pub set_same :
      (places : List (Option A)) (i : ℕ) (v : Option A)
      → i < length places
      → get_elem? (set places i v) i ≡ some v
  set_same [] i v h = absurd (omega arith)
  set_same (x ∷ places) zero v h = refl
  set_same (x ∷ places) (suc i) v h = set_same places i v (omega arith)

  pub length-set_places :
      (places : List (Option A)) (i : ℕ) (v : Option A) → length (set places i v) ≡ length places
  length-set_places [] i v = refl
  length-set_places (x ∷ places) zero v = refl
  length-set_places (x ∷ places) (suc i) v = ap suc (length-set_places places i v)

  -- Writing behind the queue leaves it.
  pub set-Window :
      (places : List (Option A)) (n i p : ℕ) (xs : List A) (v : Option A)
      → i + length xs ≤ p
      → p < i + n
      → p < n + n
      → Window places n i xs
      → Window (set places (wrap n p) v) n i xs
  set-Window places n i p [] v h k l w = tt
  set-Window places n i p (x ∷ xs) v h k l (e, w) = (
    set_other places (wrap n p) (wrap n i) v (apart n i p (omega arith) k l) ∙ e,
    set-Window places n (suc i) p xs v (omega arith) (omega arith) l w,
  )

  pub append-Window :
      (places : List (Option A)) (n i : ℕ) (xs : List A) (x : A)
      → Window places n i xs
      → get_elem? places (wrap n (i + length xs)) ≡ some (some x)
      → Window places n i (xs ++ (x ∷ []))
  append-Window places n i [] x w e =
      (ap (λ (j : ℕ). get_elem? places (wrap n j)) (omega arith) ∙ e, tt)
  append-Window places n i (y ∷ xs) x (p, w) e = (
    p,
    append-Window places n (suc i) xs x w
        (ap (λ (j : ℕ). get_elem? places (wrap n j)) (omega arith) ∙ e),
  )

  -- Once round is the start again.
  pub round-Window :
      (places : List (Option A)) (n i : ℕ) (xs : List A)
      → i + length xs ≤ n
      → Window places n (n + i) xs
      → Window places n i xs
  round-Window places n i [] h w = tt
  round-Window places n i (x ∷ xs) h (e, w) = (
    ap (λ (j : ℕ). get_elem? places j) (same_place n i (omega arith)) ∙ e,
    round-Window places n (suc i) xs (omega arith)
        (subst (λ (j : ℕ). Window places n j xs) (omega arith) w),
  )

  -- The queue without its first element starts at the next index.
  pub next-Window :
      (places : List (Option A)) (n i : ℕ) (xs : List A)
      → i < n
      → length xs ≤ n
      → Window places n (suc i) xs
      → Window places n ((i + 1) % n) xs
  next-Window places n i xs h k w = elim (split_le (suc (suc i)) n) [
    | inl small ↦
        subst (λ (j : ℕ). Window places n j xs)
          (sym (ap (λ (t : ℕ). t % n) (omega arith) ∙ mod-eq_of_lt small)) w
    | inr big ↦
        subst (λ (j : ℕ). Window places n j xs)
          (omega (arith, mod_turn n (i + 1) (omega arith) (omega arith)))
          (round-Window places n 0 xs (omega arith)
            (subst (λ (j : ℕ). Window places n j xs) (omega arith) w))
  ]
