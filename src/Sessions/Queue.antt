-- ===== src/Sessions/Queue.antt =====
-- tlslite/sessioncache.py: the cache as a queue of sessions, the oldest first.
use tls_dvnizk.Base.{
  ℕ, ◌+◌, ◌-◌, ◌≡◌, refl, List, [], ◌∷◌, ◌++◌, ltb, ◌==◌, if◌then◌else◌, none, some, length, map,
  arith,
}
use tls_dvnizk.Base.Bytes.{Bytes, same_bytes_refl}
use tls_dvnizk.Sessions.Cache.{lookup, put, remove}

pub record Entry {ℓ} (S : Type ℓ) : Type ℓ where
  pub id : Bytes
  pub time : ℕ
  pub session : S

module _ {ℓ} {S : Type ℓ} where
  abbrev pub pair : Entry S → Bytes × S
  pair e = (e.id, e.session)

  abbrev pub stamp : Entry S → Bytes × ℕ
  stamp e = (e.id, e.time)

  -- What is left after a purge.
  abbrev pub fresh : ℕ → ℕ → List (Entry S) → List (Entry S)
  fresh now max_age [] = []
  fresh now max_age (e ∷ q) = if ltb max_age (now - e.time) then fresh now max_age q else e ∷ q

  abbrev pub without_first : List (Entry S) → List (Entry S)
  without_first [] = []
  without_first (e ∷ q) = q

  -- At most `n - 1` entries stay, the newest.
  abbrev pub added : ℕ → Entry S → List (Entry S) → List (Entry S)
  added n e q = if length q + 1 == n then without_first (q ++ (e ∷ [])) else q ++ (e ∷ [])

  pub put_fresh :
      (q : List (Entry S)) (e : Entry S)
      → lookup e.id (map pair q) ≡ none
      → put e.id e.session (map pair q) ≡ map pair (q ++ (e ∷ []))
  unfolding lookup put
  put_fresh [] e h = refl
  put_fresh (d ∷ q) e h = ground (arith, put_fresh q e)

  pub lookup_first :
      (e : Entry S) (d : List (Bytes × S)) → lookup e.id (pair e ∷ d) ≡ some e.session
  unfolding lookup
  lookup_first e d = ground (arith, same_bytes_refl e.id)

  pub remove_first : (e : Entry S) (d : List (Bytes × S)) → remove e.id (pair e ∷ d) ≡ d
  unfolding remove
  remove_first e d = ground (arith, same_bytes_refl e.id)
