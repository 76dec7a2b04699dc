-- ===== src/Sessions/Tests.antt =====
-- The witnesses: a cache of three places for sessions that are numbers.
use tls_dvnizk.Base.{ℕ, ◌≡◌, refl, [], ◌∷◌, true, none, ok, arith, map}
use tls_dvnizk.Sessions.Cache.{
  SessionCache, lookup, new_cache, found, get_item, set_item, put, make_room,
}
use tls_dvnizk.Sessions.Queue.{Entry, pair, added, fresh}
use tls_dvnizk.Sessions.Refinement.{IsCache, Leaves, set_item-Leaves}
use tls_dvnizk.Sessions.Purging.{Runs, new, setting, Runs-IsCache, get_item-Leaves}

abbrev empty : SessionCache ℕ
empty = new_cache 3 100

abbrev entry : Entry ℕ
entry = record { id = 1 ∷ 2 ∷ []; time = 50; session = 7 }

abbrev cached : SessionCache ℕ
cached = (set_item entry.time entry.id entry.session empty).1

absent : lookup entry.id empty.entries_dict ≡ none
unfolding lookup
absent = refl

cached-Runs : Runs 3 100 (entry ∷ []) cached
cached-Runs = setting [] empty entry (new empty refl) absent

Runs-IsCache_example : IsCache 3 100 (entry ∷ []) cached
Runs-IsCache_example = Runs-IsCache 3 100 (entry ∷ []) cached (omega arith) cached-Runs

get_item-Leaves_example :
    Leaves 3 100
      (found (λ s. true) (lookup (1 ∷ 2 ∷ []) (map pair (fresh 60 100 (entry ∷ [])))))
      (fresh 60 100 (entry ∷ []))
      (get_item (λ s. true) 60 (1 ∷ 2 ∷ []) cached)
get_item-Leaves_example =
    get_item-Leaves 3 100 60 (λ s. true) (1 ∷ 2 ∷ []) (entry ∷ []) cached
      (Runs-IsCache 3 100 (entry ∷ []) cached (omega arith) cached-Runs)

other_absent : lookup (9 ∷ []) cached.entries_dict ≡ none
unfolding lookup set_item put make_room
other_absent = refl

set_item-Leaves_example :
    Leaves 3 100
      (ok tt)
      (added 3 (record { id = 9 ∷ []; time = 70; session = 8 }) (entry ∷ []))
      (set_item 70 (9 ∷ []) 8 cached)
set_item-Leaves_example =
    set_item-Leaves 3 100 70 (9 ∷ []) 8 (entry ∷ []) cached
      (Runs-IsCache 3 100 (entry ∷ []) cached (omega arith) cached-Runs) other_absent
