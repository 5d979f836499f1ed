-- ===== src/Cache/Tests.antt =====
-- The cache on concrete tables (pkg/cache/sqlite.go).
use websearch_mcpserver_dash.Prelude.{
  ℕ, false, ◌≡◌, ◌↔◌, refl, none, some, List, [], ◌∷◌, arith, tally,
}
use websearch_mcpserver_dash.Cache.Table.{Row, Db, select_exact, upsert, upsert_rows, same_key}
use websearch_mcpserver_dash.Cache.Methods.{
  CacheRecord, query_only, hit, lookup, lookup_query, store, cache_key,
}
use websearch_mcpserver_dash.Cache.Sample.{
  empty_db, newest, no_fault, titled, is_empty, is_titled, marshal, unmarshal, unmarshal-marshal,
}
use websearch_mcpserver_dash.Cache.Keys.{IsValid}
use websearch_mcpserver_dash.Cache.View.{put, on_table, on_map, view, on_table-on_map}
use websearch_mcpserver_dash.Cache.Steps.{here, next, by_store, by_lookup, Reach-IsValid}
use websearch_mcpserver_dash.Cache.Hits.{lookup-store}

empty_db-IsValid : IsValid empty_db
unfolding tally
empty_db-IsValid = record { keys = λ k. omega arith; ids = λ i. omega arith; below = λ i le. refl }

newest-none : (rs : List Row) → (newest rs ≡ none) ↔ (rs ≡ [])
unfolding newest
newest-none [] = (λ _. refl, λ _. refl)
newest-none (r ∷ rs) = (λ h. absurd (ground arith), λ h. absurd (cc h))

-- The table after a first search has been stored.
abbrev one_row : Row
one_row = record {
  id = 1;
  query = "go";
  intent = "docs";
  academic = 0;
  raw_results = "spec";
  summary = "";
  created_at = 50;
  last_hit_at = 50;
}

abbrev one : Db
one = record { rows = one_row ∷ []; next_id = 2 }

stored_one : store no_fault marshal 50 "go" "docs" false (titled "spec" ∷ []) "" empty_db ≡ some one
unfolding store marshal is_titled is_empty upsert upsert_rows select_exact
stored_one = refl

one-IsValid : IsValid one
unfolding tally same_key
one-IsValid = record {
  keys = λ k. ground arith;
  ids = λ i. ground arith;
  below = λ i le. ground arith;
}

falls_back :
    (lookup no_fault newest 60 "go" "news" false one).1
    ≡ hit
        (record {
          id = 1;
          query = "go";
          intent = "docs";
          academic = false;
          raw_results = "spec";
          summary = "";
          created_at = 50;
          last_hit_at = 50;
        })
        query_only
unfolding lookup lookup_query select_exact newest same_key
falls_back = refl

on_table-on_map_example :
    view
      (on_table (put (cache_key "go" "docs" false) 70 "new" "s") one)
      (cache_key "go" "news" false)
    ≡ on_map
        (put (cache_key "go" "docs" false) 70 "new" "s")
        (view one)
        (cache_key "go" "news" false)
on_table-on_map_example =
    on_table-on_map one one-IsValid (put (cache_key "go" "docs" false) 70 "new" "s")
      (cache_key "go" "news" false)

Reach-IsValid_example : IsValid (lookup no_fault newest 60 "go" "news" false one).0
Reach-IsValid_example =
    Reach-IsValid {F = ℕ}
      (next
        (next here
          (by_store no_fault marshal 50 "go" "docs" false (titled "spec" ∷ []) "" stored_one))
        (by_lookup no_fault newest 60 "go" "news" false))
      empty_db-IsValid

lookup-store_example :
    (rec : CacheRecord) × ((lookup no_fault newest 60 "go" "docs" false one).1 ≡ hit rec query_only)
    × (unmarshal rec.raw_results ≡ some (titled "spec" ∷ []))
    × (rec.summary ≡ "")
    × (rec.academic ≡ false)
lookup-store_example =
    lookup-store marshal unmarshal unmarshal-marshal no_fault no_fault newest 50 60 "go" "docs"
      false (titled "spec" ∷ []) "" empty_db one stored_one refl
