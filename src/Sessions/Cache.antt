-- ===== src/Sessions/Cache.antt =====
-- tlslite/sessioncache.py: class `SessionCache`. A session is any value; `valid` and the clock are arguments of the
-- methods that ask for them.
use tls_dvnizk.Base.{
  ℕ, zero, suc, ◌+◌, ◌-◌, ◌%◌, List, [], ◌∷◌, Bool, true, false, ltb, leb, ◌==◌, if◌then◌else◌,
  Option, none, some, length, get_elem?, set, replicate, Method, Result, ok, err, key_error,
  index_error, type_error,
}
use tls_dvnizk.Base.Bytes.{Bytes, same_bytes}

-- A dictionary with keys of bytes.
module _ {ℓ} {V : Type ℓ} where
  unfoldable pub lookup : Bytes → List (Bytes × V) → Option V
  lookup key [] = none
  lookup key ((k, v) ∷ entries) = if same_bytes k key then some v else lookup key entries

  -- `d[key] = value`
  unfoldable pub put : Bytes → V → List (Bytes × V) → List (Bytes × V)
  put key value [] = (key, value) ∷ []
  put key value ((k, v) ∷ entries) =
      if same_bytes k key then (k, value) ∷ entries else (k, v) ∷ put key value entries

  -- `del d[key]`, for a key that is there.
  unfoldable pub remove : Bytes → List (Bytes × V) → List (Bytes × V)
  remove key [] = []
  remove key ((k, v) ∷ entries) = if same_bytes k key then entries else (k, v) ∷ remove key entries

-- `currentTime - self.entriesList[index][1] > self.maxAge`; the time `None` of a free place is no number.
unfoldable pub expired : ℕ → ℕ → Option (Option (Bytes × ℕ)) → Result Bool
expired now max_age none = err index_error
expired now max_age (some none) = err type_error
expired now max_age (some (some (id, time))) = ok (ltb max_age (now - time))

pub record SessionCache {ℓ} (S : Type ℓ) : Type ℓ where
  pub entries_dict : List (Bytes × S)
  pub entries_list : List (Option (Bytes × ℕ))
  pub first_index : ℕ
  pub last_index : ℕ
  pub max_age : ℕ

module _ {ℓ} {S : Type ℓ} where
  abbrev pub new_cache : ℕ → ℕ → SessionCache S
  new_cache max_entries max_age = record {
    entries_dict = [];
    entries_list = replicate max_entries none;
    first_index = 0;
    last_index = 0;
    max_age = max_age;
  }

  -- `del(self.entriesDict[entry[0]])`; the key `None` of a free place is not there.
  unfoldable pub delete : Option (Option (Bytes × ℕ)) → Method (SessionCache S) (Unit {0})
  delete none c = (err index_error, c)
  delete (some none) c = (err key_error, c)
  delete (some (some (id, time))) c = elim (lookup id c.entries_dict) [
    | none ↦ (err key_error, c)
    | some session ↦ (ok tt, record c { entries_dict = remove id c.entries_dict })
  ]

  abbrev pub next_index : ℕ → SessionCache S → ℕ
  next_index i c = (i + 1) % length c.entries_list

  -- The end of a turn of the loop of `_purge`; `rest` is what the turns after it come to.
  abbrev pub go_on :
      Result (Unit {0}) × SessionCache S → Result ℕ × SessionCache S → Result ℕ × SessionCache S
  go_on (ok done, c) rest = rest
  go_on (err problem, c) rest = (err problem, c)

  abbrev pub purge_turn :
      Result Bool → ℕ → SessionCache S → Result ℕ × SessionCache S → Result ℕ × SessionCache S
  purge_turn (err problem) index c deleted = (err problem, c)
  purge_turn (ok true) index c deleted = deleted
  purge_turn (ok false) index c deleted = (ok index, c)

  -- The loop of `_purge` from an index on: the index where it ends.
  unfoldable pub purge_loop : ℕ → ℕ → ℕ → Method (SessionCache S) ℕ
  purge_loop zero now index c = (ok index, c)
  purge_loop (suc fuel) now index c =
      let entry = get_elem? c.entries_list index in
      let deleted = delete entry c in
      let rest = purge_loop fuel now (next_index index c) (deleted.1) in
      if index == c.last_index
      then (ok index, c)
      else purge_turn (expired now c.max_age entry) index c (go_on deleted rest)

  abbrev pub set_first : Result ℕ × SessionCache S → Result (Unit {0}) × SessionCache S
  set_first (ok index, c) = (ok tt, record c { first_index = index })
  set_first (err problem, c) = (err problem, c)

  -- The indices go round once at most.
  unfoldable pub purge : ℕ → Method (SessionCache S) (Unit {0})
  purge now c = set_first (purge_loop (length c.entries_list) now c.first_index c)

  -- `__getitem__` after the purge.
  abbrev pub found : (S → Bool) → Option S → Result S
  found valid none = err key_error
  found valid (some session) = if valid session then ok session else err key_error

  abbrev pub found_after :
      (S → Bool) → Bytes → Result (Unit {0}) × SessionCache S → Result S × SessionCache S
  found_after valid id (ok done, c) = (found valid (lookup id c.entries_dict), c)
  found_after valid id (err problem, c) = (err problem, c)

  unfoldable pub get_item : (S → Bool) → ℕ → Bytes → Method (SessionCache S) S
  get_item valid now id c = found_after valid id (purge now c)

  abbrev pub advance_first : Result (Unit {0}) × SessionCache S → Result (Unit {0}) × SessionCache S
  advance_first (ok done, c) = (ok tt, record c { first_index = next_index c.first_index c })
  advance_first (err problem, c) = (err problem, c)

  -- `__setitem__` from the test of a full cache on.
  unfoldable pub make_room : Method (SessionCache S) (Unit {0})
  make_room c =
      if c.last_index == c.first_index
      then advance_first (delete (get_elem? c.entries_list c.first_index) c)
      else (ok tt, c)

  -- Writing the entry raises where the list has no place.
  unfoldable pub set_item : ℕ → Bytes → S → Method (SessionCache S) (Unit {0})
  set_item now id session c =
      let added = record c { entries_dict = put id session c.entries_dict } in
      if leb (length c.entries_list) c.last_index
      then (err index_error, added)
      else (make_room (record added {
        entries_list = set c.entries_list c.last_index (some (id, now));
        last_index = next_index c.last_index c;
      }))
