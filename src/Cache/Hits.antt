-- ===== src/Cache/Hits.antt =====
-- What Lookup returns (pkg/cache/sqlite.go).
use websearch_mcpserver_dash.Prelude.{
  ℕ, String, Bool, true, false, ◌≡◌, ◌↔◌, refl, sym, ap, ◌∙◌, Option, none, some, List, [], ◌∷◌,
  arith, ◌==◌, if◌then◌else◌, keep, find, str_eq, tally, find-some, find-tally, keep-nil,
  Bool-cases, inl, inr,
}
use mathlib.Core.Path.{subst}
use websearch_mcpserver_dash.Core.{SearchResult}
use websearch_mcpserver_dash.Cache.Table.{
  CacheKey, Row, Db, key_of, same_key, same_key_iff, select_exact, overwritten, inserted,
  upsert_rows, upsert,
}
use websearch_mcpserver_dash.Cache.Methods.{
  Statement, exact_match, query_match, write, CacheRecord, exact_intent, query_only, hit, miss,
  record_of, cache_key, academic_int, found_newest, lookup_query, lookup, store,
}
use websearch_mcpserver_dash.Cache.Keys.{has_key}

find-upsert_rows :
    (id : ℕ) (k : CacheKey) (now : ℕ) (raw summary : String) (rs : List Row)
    → (r : Row) × (find (has_key k) (upsert_rows id k now raw summary rs) ≡ some r)
      × (r.raw_results ≡ raw)
      × (r.summary ≡ summary)
      × (r.academic ≡ k.academic)
unfolding upsert_rows
find-upsert_rows id k now raw summary [] =
    (inserted id k now raw summary, rw ((same_key_iff k k).1 refl) refl, refl, refl, refl)
find-upsert_rows id k now raw summary (r ∷ rs) = elim (Bool-cases (same_key k (key_of r))) [
  | inl same ↦ (
    overwritten now raw summary r,
    ground (arith, same),
    refl,
    refl,
    ap (λ l. l.academic) (sym ((same_key_iff k (key_of r)).0 same)),
  )
  | inr other ↦
      let (found, at, is_raw, is_summary, kind) = find-upsert_rows id k now raw summary rs in
      (found, ground (arith, other, at), is_raw, is_summary, kind)
]

lookup-exact :
    (fault : Statement → Bool) (newest : List Row → Option Row) (now : ℕ) (query intent : String)
    (academic : Bool) (db : Db) (r : Row)
    → fault exact_match ≡ false
    → select_exact (cache_key query intent academic) db ≡ some r
    → (lookup fault newest now query intent academic db).1
      ≡ hit (record_of r) (if str_eq r.summary "" then query_only else exact_intent)
unfolding lookup
lookup-exact fault newest now query intent academic db r works found = ground (arith, works, found)

store-upsert :
    {F : Type 0} (fault : Statement → Bool) (marshal : List (SearchResult F) → Option String)
    (now : ℕ) (query intent : String) (academic : Bool) (results : List (SearchResult F))
    (summary : String) (db db' : Db)
    → store fault marshal now query intent academic results summary db ≡ some db'
    → (raw : String) × (marshal results ≡ some raw)
      × (upsert (cache_key query intent academic) now raw summary db ≡ db')
unfolding store
store-upsert fault marshal now query intent academic results summary db db' stored =
    pick (fault write) (marshal results) refl stored
  where
    k : CacheKey
    k = cache_key query intent academic

    pick :
        (f : Bool) (o : Option String)
        → marshal results ≡ o
        → elim o [ none ↦ none | some raw ↦ if f then none else some (upsert k now raw summary db) ]
          ≡ some db'
        → (raw : String) × (marshal results ≡ some raw) × (upsert k now raw summary db ≡ db')
    pick f none eq h = absurd (cc h)
    pick true (some raw) eq h = absurd (cc h)
    pick false (some raw) eq h = (raw, eq, cc h)

academic_int-eq : (b : Bool) → (academic_int b == 1) ≡ b
academic_int-eq true = refl
academic_int-eq false = refl

-- What was stored is what the next Lookup of the same query, intent and kind of search returns: Lookup
-- whose query does not fail gives a record from which the stored results are decoded again, with the
-- stored summary and kind of search, and as an exact hit unless the summary is empty. `marshal` and `unmarshal` are those of
-- encoding/json, of which it is assumed that they are inverse.
pub lookup-store :
    {F : Type 0} (marshal : List (SearchResult F) → Option String)
    (unmarshal : String → Option (List (SearchResult F)))
    → ((rs : List (SearchResult F)) (raw : String)
        → marshal rs ≡ some raw
        → unmarshal raw ≡ some rs)
    → (fault later_fault : Statement → Bool) (newest : List Row → Option Row) (now later : ℕ)
      (query intent : String) (academic : Bool) (results : List (SearchResult F)) (summary : String)
      (db db' : Db)
    → store fault marshal now query intent academic results summary db ≡ some db'
    → later_fault exact_match ≡ false
    → (rec : CacheRecord) × ((lookup later_fault newest later query intent academic db').1
        ≡ hit rec (if str_eq summary "" then query_only else exact_intent))
      × (unmarshal rec.raw_results ≡ some results)
      × (rec.summary ≡ summary)
      × (rec.academic ≡ academic)
unfolding upsert select_exact
lookup-store marshal unmarshal inverse fault later_fault newest now later q i a results summary db
      db' stored works =
    let (raw, coded, is_db) = store-upsert fault marshal now q i a results summary db db' stored in
    let (r, at, is_raw, is_summary, kind) =
      find-upsert_rows db.next_id (cache_key q i a) now raw summary db.rows in
    let here =
      lookup-exact later_fault newest later q i a (upsert (cache_key q i a) now raw summary db) r
        works at in
    (
      record_of r,
      subst
          (λ d.
            (lookup later_fault newest later q i a d).1
            ≡ hit (record_of r) (if str_eq summary "" then query_only else exact_intent))
          is_db
          (here
            ∙ ap (λ t. hit (record_of r) (if str_eq t "" then query_only else exact_intent))
                is_summary),
      ap unmarshal is_raw ∙ inverse results raw coded,
      is_summary,
      ap (λ k. k == 1) kind ∙ academic_int-eq a,
    )

lookup-query :
    (fault : Statement → Bool) (newest : List Row → Option Row) (now : ℕ) (query intent : String)
    (academic : Bool) (db : Db) (found : Option Row)
    → fault exact_match ≡ false
    → fault query_match ≡ false
    → select_exact (cache_key query intent academic) db ≡ none
    → newest (keep (λ r. str_eq query r.query) db.rows) ≡ found
    → (lookup fault newest now query intent academic db).1 ≡ (found_newest fault now db found).1
unfolding lookup lookup_query
lookup-query fault newest now query intent academic db found w w' none_exact is_found =
    ground (arith, w, w', none_exact, is_found)

key-query :
    (query intent : String) (academic : Bool) (r : Row)
    → same_key (cache_key query intent academic) (key_of r) ≡ true
    → str_eq query r.query ≡ true
unfolding same_key
key-query query intent academic r h = ground (arith, h)

-- Lookup whose queries do not fail misses exactly when no row at all has the query. `newest` picks a
-- row of those that it is given, and none only if there is none.
pub lookup-miss :
    (fault : Statement → Bool) (newest : List Row → Option Row)
    → ((rs : List Row) → (newest rs ≡ none) ↔ (rs ≡ []))
    → (now : ℕ) (query intent : String) (academic : Bool) (db : Db) → fault exact_match ≡ false
    → fault query_match ≡ false
    → ((lookup fault newest now query intent academic db).1 ≡ miss)
      ↔ (tally (λ r. str_eq query r.query) db.rows ≡ 0)
unfolding select_exact
lookup-miss fault newest picks now q i a db w w' = by_exact (select_exact (cache_key q i a) db) refl
  where
    rows : List Row
    rows = keep (λ r. str_eq q r.query) db.rows

    by_newest :
        (found : Option Row)
        → select_exact (cache_key q i a) db ≡ none
        → newest rows ≡ found
        → ((lookup fault newest now q i a db).1 ≡ miss)
          ↔ (tally (λ r. str_eq q r.query) db.rows ≡ 0)
    by_newest none no_exact eq = (
      (λ m. (keep-nil (λ r. str_eq q r.query) db.rows).0 ((picks rows).0 eq)),
      (λ z. lookup-query fault newest now q i a db none w w' no_exact eq),
    )
    by_newest (some r) no_exact eq =
        let found = lookup-query fault newest now q i a db (some r) w w' no_exact eq in
        (
          (λ m. absurd (cc (found, m))),
          (λ z. absurd (cc (eq, (picks rows).1 ((keep-nil (λ s. str_eq q s.query) db.rows).1 z)))),
        )

    by_exact :
        (exact : Option Row)
        → select_exact (cache_key q i a) db ≡ exact
        → ((lookup fault newest now q i a db).1 ≡ miss)
          ↔ (tally (λ r. str_eq q r.query) db.rows ≡ 0)
    by_exact none eq = by_newest (newest rows) eq refl
    by_exact (some r) eq =
        let found = lookup-exact fault newest now q i a db r w eq in
        let has = find-some (has_key (cache_key q i a)) db.rows r eq in
        let some_row =
          find-tally (has_key (cache_key q i a)) (λ s. str_eq q s.query) db.rows r eq
            (key-query q i a r has) in
        ((λ m. absurd (cc (found, m))), (λ z. absurd (omega (arith, some_row, z))))
