-- ===== src/Cache/Methods.antt =====
-- The methods of Cache (pkg/cache/sqlite.go). A method is one step, since the database has one
-- connection; `fault` says which of its statements fail, and one that fails changes nothing.
use websearch_mcpserver_dash.Prelude.{
  ℕ, ◌-◌, String, Bool, Option, none, some, List, map, ◌==◌, if◌then◌else◌, length, keep, str_eq,
}
use websearch_mcpserver_dash.Core.{SearchResult}
use websearch_mcpserver_dash.Cache.Table.{
  CacheKey, Row, Db, select_exact, update_last_hit, upsert, summarized, delete_stale, delete_all,
}

pub data Statement : Type 0 where
  exact_match query_match touch write : Statement

pub record CacheRecord : Type 0 where
  pub id : ℕ
  pub query : String
  pub intent : String
  pub academic : Bool
  pub raw_results : String
  pub summary : String
  pub created_at : ℕ
  pub last_hit_at : ℕ

pub data HitType : Type 0 where
  exact_intent query_only : HitType

-- What Lookup returns: a record, nothing, or an error.
pub data LookedUp : Type 0 where
  hit : CacheRecord → HitType → LookedUp
  miss : LookedUp
  lookup_failed : LookedUp

abbrev pub record_of : Row → CacheRecord
record_of r = record {
  id = r.id;
  query = r.query;
  intent = r.intent;
  academic = r.academic == 1;
  raw_results = r.raw_results;
  summary = r.summary;
  created_at = r.created_at;
  last_hit_at = r.last_hit_at;
}

abbrev pub academic_int : Bool → ℕ
academic_int b = if b then 1 else 0

abbrev pub cache_key : String → String → Bool → CacheKey
cache_key query intent academic = record {
  query = query;
  intent = intent;
  academic = academic_int academic;
}

module _ (fault : Statement → Bool) where
  unfoldable pub touch_last_hit : ℕ → ℕ → Db → Db
  touch_last_hit id now db = if fault touch then db else update_last_hit id now db

  -- A record found by its key, touched.
  abbrev pub found_exact : ℕ → Db → Row → Db × LookedUp
  found_exact now db r = (
    touch_last_hit r.id now db,
    hit (record_of r) (if str_eq r.summary "" then query_only else exact_intent),
  )

  abbrev pub found_newest : ℕ → Db → Option Row → Db × LookedUp
  found_newest now db none = (db, miss)
  found_newest now db (some r) = (touch_last_hit r.id now db, hit (record_of r) query_only)

  -- The second step of Lookup. `newest` is `ORDER BY last_hit_at DESC LIMIT 1`.
  unfoldable pub lookup_query : (List Row → Option Row) → ℕ → String → Db → Db × LookedUp
  lookup_query newest now query db =
      if fault query_match
      then (db, lookup_failed)
      else found_newest now db (newest (keep (λ r. str_eq query r.query) db.rows))

  unfoldable pub lookup : (List Row → Option Row) → ℕ → String → String → Bool → Db → Db × LookedUp
  lookup newest now query intent academic db =
      if fault exact_match
      then (db, lookup_failed)
      else elim (select_exact (cache_key query intent academic) db) [
        | some r ↦ found_exact now db r
        | none ↦ lookup_query newest now query db
      ]

  -- Store: `none` is its error. `marshal` is json.Marshal.
  unfoldable pub store :
      {F : Type 0}
      → (List (SearchResult F) → Option String)
      → ℕ
      → String
      → String
      → Bool
      → List (SearchResult F)
      → String
      → Db
      → Option Db
  store marshal now query intent academic results summary db = elim (marshal results) [
    | none ↦ none
    | some raw ↦
        if fault write
        then none
        else some (upsert (cache_key query intent academic) now raw summary db)
  ]

  unfoldable pub update_summary : String → String → String → Db → Option Db
  update_summary query intent summary db =
      if fault write
      then none
      else some (record db { rows = map (summarized query intent summary) db.rows })

  -- EvictStale, with the number of deleted rows.
  unfoldable pub evict_stale : ℕ → ℕ → Db → Option (Db × ℕ)
  evict_stale now max_age db =
      let left = delete_stale (now - max_age) db in
      if fault write then none else some (left, length db.rows - length left.rows)

  unfoldable pub clear : Db → Option (Db × ℕ)
  clear db = if fault write then none else some (delete_all db, length db.rows)

-- StaleMaxAge, six hours.
abbrev pub stale_max_age : ℕ
stale_max_age = 21600
