-- ===== src/Sessions/Places.antt =====
-- tlslite/sessioncache.py: the circular list with its two indices, beside the queue.
use tls_dvnizk.Base.{
  ℕ, suc, ◌+◌, ◌%◌, ◌≤◌, ◌<◌, ◌≡◌, ◌≢◌, refl, sym, ap, ap₂, subst, ◌∙◌, List, [], ◌∷◌, ◌++◌, false,
  leb, ◌==◌, Option, some, length, length-append, get_elem?, set, map, arith,
}
use tls_dvnizk.Base.Bytes.{Bytes}
use tls_dvnizk.Sessions.Ring.{
  wrap, wrap_lem, Window, set_same, length-set_places, set-Window, append-Window, next-Window,
}
use tls_dvnizk.Sessions.Queue.{Entry, stamp}

-- Facts on indices.
pub start_wraps : (n i : ℕ) → i < n → wrap n (i + 0) ≡ i
unfolding wrap
start_wraps n i h = ground arith

pub wrap-lt : (n i : ℕ) → i < n + n → wrap n i < n
unfolding wrap
wrap-lt n i h = ground arith

pub moved_on : (n i k : ℕ) → i < n → suc k < n → wrap n (i + suc k) ≢ i
unfolding wrap
moved_on n i k h l = ground arith

next_last : (n i : ℕ) → i + 1 < n + n → (wrap n i + 1) % n ≡ wrap n (i + 1)
next_last n i h = wrap_lem n (wrap n i + 1) (omega (arith, wrap-lt n i (omega arith))) ∙ twice n i h
  where
    twice : (m j : ℕ) → j + 1 < m + m → wrap m (wrap m j + 1) ≡ wrap m (j + 1)
    twice m j l = unfold wrap in ground arith

next_first : (n i k : ℕ) → i < n → suc k ≤ n → wrap n (i + suc k) ≡ wrap n ((i + 1) % n + k)
next_first n i k h l =
    twice n i k h l ∙ ap (λ (j : ℕ). wrap n (j + k)) (sym (wrap_lem n (i + 1) (omega arith)))
  where
    twice : (m j o : ℕ) → j < m → suc o ≤ m → wrap m (j + suc o) ≡ wrap m (wrap m (j + 1) + o)
    twice m j o p q = unfold wrap in ground arith

pub is_full : (n i k : ℕ) → i < n → k + 1 ≤ n → (wrap n (i + k + 1) == i) ≡ (k + 1 == n)
unfolding wrap
is_full n i k h l = ground arith

pub not_full : (n k l : ℕ) → l ≡ k + 1 → l ≤ n → (k + 1 == n) ≡ false → l < n
not_full n k l e h t = ground arith

pub outside : (n i : ℕ) → i < n → leb n i ≡ false
outside n i h = ground arith

pub first_place :
    (n : ℕ) (places : List (Option (Bytes × ℕ))) (first : ℕ) (x : Bytes × ℕ)
    → first < n
    → get_elem? places (wrap n first) ≡ some (some x)
    → get_elem? places first ≡ some (some x)
first_place n places first x h e =
    ap (get_elem? places) (sym (ap (wrap n) (omega arith) ∙ start_wraps n first h)) ∙ e

module _ {ℓ} {S : Type ℓ} where
  length-stamps : (q : List (Entry S)) → length (map stamp q) ≡ length q
  length-stamps [] = refl
  length-stamps (e ∷ q) = ap suc (length-stamps q)

  stamps-append :
      (q : List (Entry S)) (e : Entry S) → map stamp (q ++ (e ∷ [])) ≡ map stamp q ++ (stamp e ∷ [])
  stamps-append [] e = refl
  stamps-append (d ∷ q) e = ap (λ (l : List (Bytes × ℕ)). stamp d ∷ l) (stamps-append q e)

  -- The places from the first index up to the last hold the queue.
  pub record Holds (n : ℕ) (places : List (Option (Bytes × ℕ))) (first last : ℕ)
      (q : List (Entry S)) : Type ℓ where
    pub size : length places ≡ n
    pub inside : first < n
    pub room : length q ≤ n
    pub end : last ≡ wrap n (first + length q)
    pub window : Window places n first (map stamp q)

  pub drop_first :
      (n : ℕ) (places : List (Option (Bytes × ℕ))) (first last : ℕ) (e : Entry S)
      (q : List (Entry S))
      → Holds n places first last (e ∷ q)
      → Holds n places ((first + 1) % length places) last q
  drop_first n places first last e q h =
      subst (λ (m : ℕ). Holds n places ((first + 1) % m) last q) (sym h.size)
        (record {
          size = h.size;
          inside = omega (
            arith,
            h.inside,
            wrap_lem n (first + 1) (omega (arith, h.inside)),
            wrap-lt n (first + 1) (omega (arith, h.inside)),
          );
          room = omega (arith, h.room);
          end = h.end ∙ next_first n first (length q) h.inside (omega (arith, h.room));
          window =
              next-Window places n first (map stamp q) h.inside
                (omega (arith, length-stamps q, h.room)) (h.window.1);
        })

  pub add_last :
      (n : ℕ) (places : List (Option (Bytes × ℕ))) (first last : ℕ) (e : Entry S)
      (q : List (Entry S))
      → length q < n
      → Holds n places first last q
      → Holds n
          (set places last (some (stamp e)))
          first
          ((last + 1) % length places)
          (q ++ (e ∷ []))
  add_last n places first last e q room h = record {
    size = length-set_places places last (some (stamp e)) ∙ h.size;
    inside = h.inside;
    room = omega (arith, length-append q (e ∷ []));
    end =
        ap₂ (λ (l m : ℕ). (l + 1) % m) h.end h.size
        ∙ next_last n (first + length q) (omega (arith, h.inside))
        ∙ ap (wrap n) (omega (arith, length-append q (e ∷ [])));
    window = subst (Window (set places last (some (stamp e))) n first) (sym (stamps-append q e)) (
        append-Window (set places last (some (stamp e))) n first (map stamp q) (stamp e)
          (subst (λ (l : ℕ). Window (set places l (some (stamp e))) n first (map stamp q))
            (sym h.end)
            (set-Window places n first (first + length q) (map stamp q) (some (stamp e))
              (omega (arith, length-stamps q)) (omega arith) (omega (arith, h.inside)) h.window))
          (ap (get_elem? (set places last (some (stamp e))))
              (ap (λ (k : ℕ). wrap n (first + k)) (length-stamps q) ∙ sym h.end)
            ∙ set_same places last (some (stamp e)) (
                omega
                  (arith, h.end, h.size, wrap-lt n (first + length q) (omega (arith, h.inside))))));
  }
