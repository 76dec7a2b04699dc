-- ===== src/Sessions/Refinement.antt =====
-- tlslite/sessioncache.py: `__setitem__` on the circular list and the dictionary, beside the queue.
use tls_dvnizk.Base.{
  ℕ, ◌+◌, ◌%◌, ◌<◌, ◌≡◌, refl, sym, ap, subst, ◌∙◌, List, [], ◌∷◌, ◌++◌, true, false, Bool-cases,
  inl, inr, leb, ◌==◌, Option, none, some, length, length-append, set, map, Result, ok, arith,
}
use tls_dvnizk.Base.Bytes.{Bytes}
use tls_dvnizk.Sessions.Cache.{lookup, SessionCache, delete, make_room, set_item}
use tls_dvnizk.Sessions.Ring.{wrap}
use tls_dvnizk.Sessions.Queue.{
  Entry, pair, stamp, without_first, added, put_fresh, lookup_first, remove_first,
}
use tls_dvnizk.Sessions.Places.{
  Holds, wrap-lt, is_full, not_full, outside, first_place, drop_first, add_last,
}

module _ {ℓ} {S : Type ℓ} where
  abbrev pub cache : List (Entry S) → List (Option (Bytes × ℕ)) → ℕ → ℕ → ℕ → SessionCache S
  cache q places first last age = record {
    entries_dict = map pair q;
    entries_list = places;
    first_index = first;
    last_index = last;
    max_age = age;
  }

  -- A cache that holds the queue, with a place free.
  pub record IsCache (n age : ℕ) (q : List (Entry S)) (c : SessionCache S) : Type ℓ where
    pub places : List (Option (Bytes × ℕ))
    pub first : ℕ
    pub last : ℕ
    pub shape : c ≡ cache q places first last age
    pub holds : Holds n places first last q
    pub free : length q < n

  -- A method has ended with this and left a cache that holds the queue.
  pub record Leaves {κ} {A : Type κ} (n age : ℕ) (a : Result A) (q : List (Entry S))
      (r : Result A × SessionCache S) : Type (ℓ ⊔ κ) where
    pub after : SessionCache S
    pub result : r ≡ (a, after)
    pub is_cache : IsCache n age q after

  pub delete_first :
      (e : Entry S) (q : List (Entry S)) (places : List (Option (Bytes × ℕ))) (first last age : ℕ)
      → delete (some (some (stamp e))) (cache (e ∷ q) places first last age)
        ≡ (ok tt, cache q places first last age)
  unfolding delete
  delete_first e q places first last age =
      rw (lookup_first e (map pair q), delete)
        (ap
          (λ (d : List (Bytes × S)).
            (ok tt, record (cache q places first last age) { entries_dict = d }))
          (remove_first e (map pair q)))

  -- The test for a full cache.
  test_full :
      (n : ℕ) (places : List (Option (Bytes × ℕ))) (first last : ℕ) (q : List (Entry S)) (k : ℕ)
      → Holds n places first last q
      → length q ≡ k + 1
      → (last == first) ≡ (k + 1 == n)
  test_full n places first last q k h e =
      ap (λ (l : ℕ). l == first) (h.end ∙ ap (wrap n) (omega arith))
      ∙ is_full n first k h.inside (omega (arith, h.room))

  -- The oldest entry goes.
  first_goes :
      (n : ℕ) (places : List (Option (Bytes × ℕ))) (first last age : ℕ) (e : Entry S)
      (q : List (Entry S))
      → Holds n places first last (e ∷ q)
      → (last == first) ≡ true
      → Leaves n age (ok tt) q (make_room (cache (e ∷ q) places first last age))
  unfolding make_room
  first_goes n places first last age e q h full = record {
    after = cache q places ((first + 1) % length places) last age;
    result =
        rw
          (
            full,
            first_place n places first (stamp e) h.inside (h.window.0),
            delete_first e q places first last age,
          )
          refl;
    is_cache = record {
      places = places;
      first = (first + 1) % length places;
      last = last;
      shape = refl;
      holds = drop_first n places first last e q h;
      free = omega (arith, h.room);
    };
  }

  makes_room :
      (n : ℕ) (places : List (Option (Bytes × ℕ))) (first last age : ℕ) (e : Entry S)
      (q : List (Entry S))
      → Holds n places first last (q ++ (e ∷ []))
      → (last == first) ≡ true
      → Leaves n age
          (ok tt)
          (without_first (q ++ (e ∷ [])))
          (make_room (cache (q ++ (e ∷ [])) places first last age))
  makes_room n places first last age e [] h full = first_goes n places first last age e [] h full
  makes_room n places first last age e (d ∷ q) h full =
      first_goes n places first last age d (q ++ (e ∷ [])) h full

  -- A free place is left.
  room_left :
      (n : ℕ) (places : List (Option (Bytes × ℕ))) (first last age : ℕ) (q : List (Entry S))
      → Holds n places first last q
      → (last == first) ≡ false
      → length q < n
      → Leaves n age (ok tt) q (make_room (cache q places first last age))
  unfolding make_room
  room_left n places first last age q h some_left room = record {
    after = cache q places first last age;
    result = rw some_left refl;
    is_cache = record {
      places = places;
      first = first;
      last = last;
      shape = refl;
      holds = h;
      free = room;
    };
  }

  make_room-Leaves :
      (n : ℕ) (places : List (Option (Bytes × ℕ))) (first last age : ℕ) (e : Entry S)
      (q : List (Entry S))
      → Holds n places first last (q ++ (e ∷ []))
      → Leaves n age (ok tt) (added n e q) (make_room (cache (q ++ (e ∷ [])) places first last age))
  make_room-Leaves n places first last age e q h =
      let long : length (q ++ (e ∷ [])) ≡ length q + 1 = length-append q (e ∷ []) in
      let test : (last == first) ≡ (length q + 1 == n) =
        test_full n places first last (q ++ (e ∷ [])) (length q) h long in
      elim (Bool-cases (length q + 1 == n)) [
        | inl full ↦ rw full (makes_room n places first last age e q h (test ∙ full))
        | inr some_left ↦ rw some_left (
            room_left n places first last age (q ++ (e ∷ [])) h (test ∙ some_left)
              (not_full n (length q) (length (q ++ (e ∷ []))) long h.room some_left))
      ]

  set_cache :
      (n : ℕ) (places : List (Option (Bytes × ℕ))) (first last age : ℕ) (e : Entry S)
      (q : List (Entry S))
      → Holds n places first last q
      → length q < n
      → lookup e.id (map pair q) ≡ none
      → Leaves n age
          (ok tt)
          (added n e q)
          (set_item e.time e.id e.session (cache q places first last age))
  unfolding set_item
  set_cache n places first last age e q h room new =
      let inside : leb (length places) last ≡ false =
        outside (length places) last
          (omega (arith, h.end, h.size, wrap-lt n (first + length q) (omega (arith, h.inside)))) in
      rw (put_fresh q e new, inside)
        (make_room-Leaves n (set places last (some (stamp e))) first ((last + 1) % length places)
          age e q (add_last n places first last e q room h))

  -- With a key that is not in the cache, `__setitem__` adds the entry and lets the oldest one go if no place is left.
  pub set_item-Leaves :
      (n age now : ℕ) (id : Bytes) (session : S) (q : List (Entry S)) (c : SessionCache S)
      → IsCache n age q c
      → lookup id c.entries_dict ≡ none
      → Leaves n age
          (ok tt)
          (added n (record { id = id; time = now; session = session }) q)
          (set_item now id session c)
  set_item-Leaves n age now id session q c is new =
      subst
        (λ (d : SessionCache S).
          lookup id d.entries_dict ≡ none
          → Leaves n age (ok tt) (added n (record { id = id; time = now; session = session }) q)
              (set_item now id session d))
        (sym is.shape)
        (λ absent.
          set_cache n is.places is.first is.last age
            (record { id = id; time = now; session = session }) q is.holds is.free absent)
        new
