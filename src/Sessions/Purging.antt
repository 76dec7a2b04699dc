-- ===== src/Sessions/Purging.antt =====
-- tlslite/sessioncache.py: `_purge` and `__getitem__`.
use tls_dvnizk.Base.{
  ℕ, zero, suc, ◌+◌, ◌-◌, ◌%◌, ◌≤◌, ◌<◌, ◌≡◌, ◌≢◌, refl, sym, ap, subst, ◌∙◌, List, [], ◌∷◌, Bool,
  true, false, Bool-cases, inl, inr, ltb, ◌==◌, Option, none, some, length, length-replicate,
  replicate, get_elem?, map, Result, ok, arith,
}
use tls_dvnizk.Base.Bytes.{Bytes}
use tls_dvnizk.Sessions.Cache.{
  lookup, SessionCache, expired, purge_loop, set_first, purge, found, found_after, get_item,
  set_item, new_cache,
}
use tls_dvnizk.Sessions.Queue.{Entry, pair, stamp, fresh, added}
use tls_dvnizk.Sessions.Places.{Holds, drop_first, first_place, moved_on, start_wraps}
use tls_dvnizk.Sessions.Refinement.{set_item-Leaves, cache, IsCache, Leaves, delete_first}

same_index : (i j : ℕ) → i ≡ j → (i == j) ≡ true
same_index i j e = ground arith

other_index : (i j : ℕ) → j ≢ i → (i == j) ≡ false
other_index i j e = ground arith

module _ {ℓ} {S : Type ℓ} where
  -- The loop has ended at an index from which the places hold what is still fresh.
  record Purged (n age now first : ℕ) (q : List (Entry S)) (places : List (Option (Bytes × ℕ)))
      (last : ℕ) (r : Result ℕ × SessionCache S) : Type ℓ where
    index : ℕ
    result : r ≡ (ok index, cache (fresh now age q) places first last age)
    holds : Holds n places index last (fresh now age q)
    free : length (fresh now age q) < n

  -- `first` is the first index of the object, which the loop does not change.
  purge_loop-Purged :
      (fuel n age now first index last : ℕ) (q : List (Entry S))
      (places : List (Option (Bytes × ℕ)))
      → length q ≤ fuel
      → length q < n
      → Holds n places index last q
      → Purged n age now first q places last
          (purge_loop fuel now index (cache q places first last age))
  unfolding purge_loop expired
  purge_loop-Purged zero n age now first index last [] places h room holds = record {
    index = index;
    result = refl;
    holds = holds;
    free = room;
  }
  purge_loop-Purged zero n age now first index last (e ∷ q) places h room holds =
      absurd (omega arith)
  purge_loop-Purged (suc fuel) n age now first index last [] places h room holds =
      let at_end : (index == last) ≡ true =
        same_index index last (sym (holds.end ∙ start_wraps n index holds.inside)) in
      record { index = index; result = rw at_end refl; holds = holds; free = room }
  purge_loop-Purged (suc fuel) n age now first index last (e ∷ q) places h room holds =
      let goes_on : (index == last) ≡ false =
        other_index index last
          (λ p. moved_on n index (length q) holds.inside room (sym holds.end ∙ p)) in
      let here : get_elem? places index ≡ some (some (stamp e)) =
        first_place n places index (stamp e) holds.inside (holds.window.0) in
      elim (Bool-cases (ltb age (now - e.time))) [
        | inl old ↦
            let rest =
              purge_loop-Purged fuel n age now first ((index + 1) % length places) last q places
                (omega arith) (omega arith) (drop_first n places index last e q holds) in
            record {
              index = rest.index;
              result =
                  rw (goes_on, here, delete_first e q places first last age, old) (rest.result);
              holds = rw old rest.holds;
              free = rw old rest.free;
            }
        | inr young ↦ record {
          index = index;
          result = rw (goes_on, here, young) refl;
          holds = rw young holds;
          free = rw young room;
        }
      ]

  purge-Leaves :
      (n age now first last : ℕ) (q : List (Entry S)) (places : List (Option (Bytes × ℕ)))
      → length q < n
      → Holds n places first last q
      → Leaves n age (ok tt) (fresh now age q) (purge now (cache q places first last age))
  unfolding purge
  purge-Leaves n age now first last q places room holds =
      let done =
        purge_loop-Purged (length places) n age now first first last q places
          (omega (arith, holds.size)) room holds in
      record {
        after = cache (fresh now age q) places done.index last age;
        result = ap set_first done.result;
        is_cache = record {
          places = places;
          first = done.index;
          last = last;
          shape = refl;
          holds = done.holds;
          free = done.free;
        };
      }

  get_cache :
      (n age now first last : ℕ) (q : List (Entry S)) (places : List (Option (Bytes × ℕ)))
      (valid : S → Bool) (id : Bytes)
      → length q < n
      → Holds n places first last q
      → Leaves n age
          (found valid (lookup id (map pair (fresh now age q))))
          (fresh now age q)
          (get_item valid now id (cache q places first last age))
  unfolding get_item
  get_cache n age now first last q places valid id room holds =
      let done = purge-Leaves n age now first last q places room holds in
      record {
        after = done.after;
        result =
            ap (found_after valid id) done.result
            ∙ ap (λ (c : SessionCache S). (found valid (lookup id c.entries_dict), done.after))
                done.is_cache.shape;
        is_cache = done.is_cache;
      }

  -- `__getitem__` lets the entries that are too old go, from the oldest on, and gives the session of what is left that
  -- has the key, if that session is valid, or else raises KeyError.
  pub get_item-Leaves :
      (n age now : ℕ) (valid : S → Bool) (id : Bytes) (q : List (Entry S)) (c : SessionCache S)
      → IsCache n age q c
      → Leaves n age
          (found valid (lookup id (map pair (fresh now age q))))
          (fresh now age q)
          (get_item valid now id c)
  get_item-Leaves n age now valid id q c is =
      subst
        (λ (d : SessionCache S).
          Leaves n age (found valid (lookup id (map pair (fresh now age q)))) (fresh now age q)
            (get_item valid now id d))
        (sym is.shape) (get_cache n age now is.first is.last q is.places valid id is.free is.holds)

  new_cache-IsCache : (n age : ℕ) → 1 ≤ n → IsCache {S = S} n age [] (new_cache {S = S} n age)
  new_cache-IsCache n age h = record {
    places = replicate n none;
    first = 0;
    last = 0;
    shape = refl;
    holds = record {
      size = length-replicate n none;
      inside = omega arith;
      room = omega arith;
      end = sym (start_wraps n 0 (omega arith));
      window = tt;
    };
    free = omega arith;
  }

  -- Caches that calls lead to from a new one, beside the queue of their entries.
  pub data Runs (n age : ℕ) : List (Entry S) → SessionCache S → Type ℓ where
    new : (c : SessionCache S) → c ≡ new_cache n age → Runs n age [] c
    setting :
        (q : List (Entry S)) (c : SessionCache S) (e : Entry S)
        → Runs n age q c
        → lookup e.id c.entries_dict ≡ none
        → Runs n age (added n e q) ((set_item e.time e.id e.session c).1)
    getting :
        (q : List (Entry S)) (c : SessionCache S) (now : ℕ) (valid : S → Bool) (id : Bytes)
        → Runs n age q c
        → Runs n age (fresh now age q) ((get_item valid now id c).1)

  left_by {κ} :
      (A : Type κ) (n age : ℕ) (a : Result A) (q : List (Entry S)) (r : Result A × SessionCache S)
      → Leaves n age a q r
      → IsCache n age q (r.1)
  left_by A n age a q r l =
      subst (IsCache n age q) (ap (λ (x : Result A × SessionCache S). x.1) (sym l.result))
        l.is_cache

  -- Whatever calls lead to a cache from a new one with a place at least, where each key that is set is not in the cache,
  -- the circular list and the dictionary hold the same queue of fewer entries than there are places.
  pub Runs-IsCache :
      (n age : ℕ) (q : List (Entry S)) (c : SessionCache S)
      → 1 ≤ n
      → Runs n age q c
      → IsCache n age q c
  Runs-IsCache n age _ c h (new _ e) = subst (IsCache n age []) (sym e) (new_cache-IsCache n age h)
  Runs-IsCache n age _ _ h (setting q c e runs absent) =
      left_by (Unit {0}) n age (ok tt) (added n e q) (set_item e.time e.id e.session c)
        (set_item-Leaves n age e.time e.id e.session q c (Runs-IsCache n age q c h runs) absent)
  Runs-IsCache n age _ _ h (getting q c now valid id runs) =
      left_by S n age (found valid (lookup id (map pair (fresh now age q)))) (fresh now age q)
        (get_item valid now id c)
        (get_item-Leaves n age now valid id q c (Runs-IsCache n age q c h runs))
