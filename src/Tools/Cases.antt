-- ===== src/Tools/Cases.antt =====
-- The four ways in which a call of smartsearch ends (`doWebSearch` in mcp/tool_search.go).
use websearch_mcpserver_dash.Prelude.{
  ℕ, String, Bool, true, false, ◌==◌, ◌≡◌, refl, Option, none, some, List, if◌then◌else◌,
}
use websearch_mcpserver_dash.Go.{Text}
use websearch_mcpserver_dash.Core.{Float, SearchResult}
use websearch_mcpserver_dash.Cache.{
  CacheRecord, exact_intent, query_only, Db, LookedUp, hit, miss, lookup_failed, lookup,
}
use websearch_mcpserver_dash.Tools.Types.{ℤ, Fallible, good, bad, SearchEngine, Server, ToolText}
use websearch_mcpserver_dash.Tools.Finish.{
  SummaryTask, web_search_cache_query, finish_cached_web_search,
}
use websearch_mcpserver_dash.Tools.WebSearch.{
  Handled, Outside, Found, find_results, after_search, web_search, from_query, at_query,
  second_lookup, from_cache, at_key, with_api,
}

module _ {F : Type 0} (fl : Float F) (text : Text) (tool : ToolText) (server : Server F)
    (outside : Outside F) (api : SearchEngine F) (query intent : String) (n : ℕ) (days : ℤ)
    (P : Handled F → Type 0)
    (on_results : (rs : List (SearchResult F)) (db : Db)
      → (find_results fl text tool server api query days).results ≡ good rs
      → P (
          after_search fl text tool server outside api query intent n
            (find_results fl text tool server api query days)
            (good rs)
            db))
    (on_error : (err : String) (db : Db)
      → (find_results fl text tool server api query days).results ≡ bad err
      → P (
          after_search fl text tool server outside api query intent n
            (find_results fl text tool server api query days)
            (bad err)
            db))
    (on_query : (rs : List (SearchResult F)) (db : Db)
      → P (from_query fl text tool server outside api query intent n (some rs) days db))
    (on_key : (answer : String) (task : Option (SummaryTask F)) (rec : CacheRecord) (db : Db)
      → P (
          from_cache fl text tool server outside api query intent n
            (some (answer, task))
            rec
            days
            db)) where
  web_search-cases :
      (db : Db) → P (web_search fl text tool server outside api query intent n days db)
  unfolding web_search
  web_search-cases db = by_results found.results refl
    where
      found : Found F
      found = find_results fl text tool server api query days

      by_results :
          (rs : Fallible (List (SearchResult F)))
          → found.results ≡ rs
          → P (after_search fl text tool server outside api query intent n found rs db)
      by_results (bad err) eq = on_error err db eq
      by_results (good rs) eq = on_results rs db eq

  from_query-cases :
      (o : Option (List (SearchResult F))) (db : Db)
      → P (from_query fl text tool server outside api query intent n o days db)
  from_query-cases none db = web_search-cases db
  from_query-cases (some rs) db = on_query rs db

  at_query-cases :
      (found : LookedUp) (db : Db)
      → P (at_query fl text tool server outside api query intent n found days db)
  at_query-cases lookup_failed db = web_search-cases db
  at_query-cases miss db = web_search-cases db
  at_query-cases (hit rec exact_intent) db = web_search-cases db
  at_query-cases (hit rec query_only) db = by_kind rec.academic
    where
      by_kind :
          (b : Bool)
          → P (
              if b
              then web_search fl text tool server outside api query intent n days db
              else from_query fl text tool server outside api query intent n
                  (outside.calls.unmarshal rec.raw_results)
                  days
                  db)
      by_kind true = web_search-cases db
      by_kind false = from_query-cases (outside.calls.unmarshal rec.raw_results) db

  second_lookup-cases :
      (db : Db) → P (second_lookup fl text tool server outside api query intent n days db)
  unfolding second_lookup
  second_lookup-cases db = by_n (n == 0)
    where
      looked : Db × LookedUp
      looked =
          lookup outside.calls.second_fault outside.calls.newest outside.calls.second_at query
            intent false db

      by_n :
          (b : Bool)
          → P (
              if b
              then web_search fl text tool server outside api query intent n days db
              else at_query fl text tool server outside api query intent n looked.1 days looked.0)
      by_n true = web_search-cases db
      by_n false = at_query-cases looked.1 looked.0

  from_cache-cases :
      (o : Option (String × Option (SummaryTask F))) (rec : CacheRecord) (db : Db)
      → P (from_cache fl text tool server outside api query intent n o rec days db)
  from_cache-cases none rec db = second_lookup-cases db
  from_cache-cases (some (answer, task)) rec db = on_key answer task rec db

  at_key-cases :
      (found : LookedUp) (db : Db)
      → P (at_key fl text tool server outside api query intent n found days db)
  at_key-cases lookup_failed db = second_lookup-cases db
  at_key-cases miss db = second_lookup-cases db
  at_key-cases (hit rec kind) db = by_kind rec.academic
    where
      cached : Option (String × Option (SummaryTask F))
      cached =
          finish_cached_web_search server api outside.calls.unmarshal rec kind query
            (web_search_cache_query text tool query n) intent

      by_kind :
          (b : Bool)
          → P (
              if b
              then second_lookup fl text tool server outside api query intent n days db
              else from_cache fl text tool server outside api query intent n cached rec days db)
      by_kind true = second_lookup-cases db
      by_kind false = from_cache-cases cached rec db

  pub with_api-cases :
      (db : Db) → P (with_api fl text tool server outside api query intent n days db)
  unfolding with_api
  with_api-cases db = by_cache server.has_cache
    where
      looked : Db × LookedUp
      looked =
          lookup outside.calls.first_fault outside.calls.newest outside.calls.first_at
            (web_search_cache_query text tool query n) intent false db

      by_cache :
          (b : Bool)
          → P (
              if b
              then at_key fl text tool server outside api query intent n looked.1 days looked.0
              else web_search fl text tool server outside api query intent n days db)
      by_cache true = at_key-cases looked.1 looked.0
      by_cache false = web_search-cases db
