-- ===== src/Cache/Steps.antt =====
-- What the methods of Cache reach (pkg/cache/sqlite.go), by their steps.
use websearch_mcpserver_dash.Prelude.{
  ℕ, ◌-◌, String, Bool, true, false, ◌≡◌, Option, none, some, List, if◌then◌else◌, keep, str_eq,
}
use mathlib.Core.Path.{subst}
use websearch_mcpserver_dash.Core.{SearchResult}
use websearch_mcpserver_dash.Cache.Table.{CacheKey, Row, Db, select_exact, update_last_hit, upsert}
use websearch_mcpserver_dash.Cache.Methods.{
  Statement, exact_match, query_match, touch, write, LookedUp, lookup_failed, cache_key,
  touch_last_hit, found_exact, found_newest, lookup_query, lookup, store, update_summary,
  evict_stale, clear,
}
use websearch_mcpserver_dash.Cache.Keys.{
  IsValid, update_last_hit-IsValid, summarized-IsValid, delete_stale-IsValid, delete_all-IsValid,
  upsert-IsValid,
}

-- What the methods of a cache do to its table, whichever of their statements fail.
pub data Step (F : Type 0) (db : Db) : Db → Type 0 where
  by_lookup :
      (fault : Statement → Bool) (newest : List Row → Option Row) (now : ℕ) (query intent : String)
      (academic : Bool)
      → Step F db (lookup fault newest now query intent academic db).0
  by_store :
      (fault : Statement → Bool) (marshal : List (SearchResult F) → Option String) (now : ℕ)
      (query intent : String) (academic : Bool) (results : List (SearchResult F)) (summary : String)
      {db' : Db}
      → store fault marshal now query intent academic results summary db ≡ some db'
      → Step F db db'
  by_summary :
      (fault : Statement → Bool) (query intent summary : String) {db' : Db}
      → update_summary fault query intent summary db ≡ some db'
      → Step F db db'
  by_eviction :
      (fault : Statement → Bool) (now max_age : ℕ) {db' : Db} {n : ℕ}
      → evict_stale fault now max_age db ≡ some (db', n)
      → Step F db db'
  by_clear :
      (fault : Statement → Bool) {db' : Db} {n : ℕ} → clear fault db ≡ some (db', n) → Step F db db'

pub data Reach (F : Type 0) (db : Db) : Db → Type 0 where
  here : Reach F db db
  next : {t u : Db} → Reach F db t → Step F t u → Reach F db u

touch_last_hit-IsValid :
    (fault : Statement → Bool) (id now : ℕ) (db : Db)
    → IsValid db
    → IsValid (touch_last_hit fault id now db)
unfolding touch_last_hit
touch_last_hit-IsValid fault id now db v = pick (fault touch)
  where
    pick : (f : Bool) → IsValid (if f then db else update_last_hit id now db)
    pick true = v
    pick false = update_last_hit-IsValid id now db v

found_newest-IsValid :
    (fault : Statement → Bool) (now : ℕ) (db : Db) (found : Option Row)
    → IsValid db
    → IsValid (found_newest fault now db found).0
found_newest-IsValid fault now db none v = v
found_newest-IsValid fault now db (some r) v = touch_last_hit-IsValid fault r.id now db v

lookup_query-IsValid :
    (fault : Statement → Bool) (newest : List Row → Option Row) (now : ℕ) (query : String) (db : Db)
    → IsValid db
    → IsValid (lookup_query fault newest now query db).0
unfolding lookup_query
lookup_query-IsValid fault newest now query db v = pick (fault query_match)
  where
    found : Option Row
    found = newest (keep (λ r. str_eq query r.query) db.rows)

    pick :
        (f : Bool) → IsValid (if f then (db, lookup_failed) else found_newest fault now db found).0
    pick true = v
    pick false = found_newest-IsValid fault now db found v

lookup-IsValid :
    (fault : Statement → Bool) (newest : List Row → Option Row) (now : ℕ) (query intent : String)
    (academic : Bool) (db : Db)
    → IsValid db
    → IsValid (lookup fault newest now query intent academic db).0
unfolding lookup
lookup-IsValid fault newest now query intent academic db v =
    pick (fault exact_match) (select_exact (cache_key query intent academic) db)
  where
    pick :
        (f : Bool) (o : Option Row)
        → let p : Db × LookedUp = if f then (db, lookup_failed) else elim o [
          | some r ↦ found_exact fault now db r
          | none ↦ lookup_query fault newest now query db
        ] in
          IsValid p.0
    pick true o = v
    pick false (some r) = touch_last_hit-IsValid fault r.id now db v
    pick false none = lookup_query-IsValid fault newest now query db v

-- What an optional result holds, if there is one.
abbrev Held {ℓ} : {A : Type ℓ} → (A → Type 0) → Option A → Type 0
Held P none = Unit {0}
Held P (some x) = P x

held : {A : Type 0} (P : A → Type 0) (o : Option A) {x : A} → Held P o → o ≡ some x → P x
held P none h eq = absurd (cc eq)
held P (some y) h eq = let same : y ≡ _ = cc eq in subst P same h

guarded :
    {A : Type 0} (P : A → Type 0) (f : Bool) (x : A) → P x → Held P (if f then none else some x)
guarded P true x h = tt
guarded P false x h = h

stored-IsValid :
    (f : Bool) (k : CacheKey) (now : ℕ) (summary : String) (db : Db) (raw : Option String)
    → IsValid db
    → Held IsValid
        (elim raw [ none ↦ none | some r ↦ if f then none else some (upsert k now r summary db) ])
stored-IsValid f k now summary db none v = tt
stored-IsValid f k now summary db (some r) v =
    guarded IsValid f _ (upsert-IsValid k now r summary db v)

Step-IsValid : {F : Type 0} {db db' : Db} → Step F db db' → IsValid db → IsValid db'
unfolding store update_summary evict_stale clear
Step-IsValid (by_lookup fault newest now q i a) v = lookup-IsValid fault newest now q i a _ v
Step-IsValid (by_store fault marshal now q i a rs s eq) v =
    held IsValid _ (stored-IsValid (fault write) (cache_key q i a) now s _ (marshal rs) v) eq
Step-IsValid (by_summary fault q i s eq) v =
    held IsValid _ (guarded IsValid (fault write) _ (summarized-IsValid q i s _ v)) eq
Step-IsValid (by_eviction fault now age eq) v =
    held (λ p. IsValid p.0) _
      (guarded (λ p. IsValid p.0) (fault write) _ (delete_stale-IsValid (now - age) _ v)) eq
Step-IsValid (by_clear fault eq) v =
    held (λ p. IsValid p.0) _ (guarded (λ p. IsValid p.0) (fault write) _ (delete_all-IsValid _)) eq

-- No sequence of calls, whichever of their statements fail, leads from a valid table, such as the new
-- one, to a table with two rows of one key or of one id.
pub Reach-IsValid : {F : Type 0} {db db' : Db} → Reach F db db' → IsValid db → IsValid db'
Reach-IsValid here v = v
Reach-IsValid (next r s) v = Step-IsValid s (Reach-IsValid r v)
