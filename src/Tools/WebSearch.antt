-- ===== src/Tools/WebSearch.antt =====
-- The handler of smartsearch (`doWebSearch` in mcp/tool_search.go): the cache, the search, the fallback
-- to Bing and the events that it records.
use websearch_mcpserver_dash.Prelude.{
  ℕ, String, Bool, true, false, ◌||◌, ◌==◌, Option, none, some, List, [], ◌∷◌, if◌then◌else◌,
  str_eq, length,
}
use websearch_mcpserver_dash.Go.{Text}
use websearch_mcpserver_dash.Core.{Float, SearchResult}
use websearch_mcpserver_dash.Cache.{
  CacheRecord, exact_intent, query_only, Db, LookedUp, hit, miss, lookup_failed, lookup,
}
use websearch_mcpserver_dash.Tools.Types.{
  ℤ, Fallible, good, bad, SearchEngine, Server, CacheCalls, ToolText, effective_fetch_top_n,
  lookback_days,
}
use websearch_mcpserver_dash.Tools.Enrich.{enrich_top_n}
use websearch_mcpserver_dash.Tools.Filter.{post_search_filter}
use websearch_mcpserver_dash.Tools.Finish.{
  SummaryTask, web_search_cache_query, finish_cached_web_search, finish_web_search,
}

-- The fields of telemetry.Event that the handler sets; `tool` has the kind "tool".
pub record ToolEvent : Type 0 where
  pub kind : String
  pub provider : String
  pub query : String
  pub success : Bool
  pub cache_hit : Bool
  pub result_count : ℕ

-- What a call leaves: the table, the answer, the events, the names of the engines that were called,
-- and the summary that was started in the background.
pub record Handled (F : Type 0) : Type 0 where
  pub db : Db
  pub reply : Fallible String
  pub events : List ToolEvent
  pub searched : List String
  pub task : Option (SummaryTask F)

abbrev pub is_good : {A : Type 0} → Fallible A → Bool
is_good (good a) = true
is_good (bad e) = false

-- The deferred function.
unfoldable pub events_of : String → String → Bool → Bool → ℕ → List ToolEvent
events_of query engine_name success cache_hit result_count =
    record {
      kind = "tool";
      provider = engine_name;
      query = query;
      success = success;
      cache_hit = cache_hit;
      result_count = result_count;
    }
    ∷ (if cache_hit
          || str_eq engine_name ""
          || str_eq engine_name "hybrid"
          || str_eq engine_name "apipool"
        then []
        else record {
          kind = "provider";
          provider = engine_name;
          query = query;
          success = success;
          cache_hit = false;
          result_count = result_count;
        }
          ∷ [])

-- What the outside does during one call: the pages, by the index of their result, and the cache.
pub record Outside (F : Type 0) : Type 0 where
  pub cancelled : ℕ → Bool
  pub fetch : ℕ → String → Fallible String
  pub sort_by_score : List (SearchResult F) → List (SearchResult F)
  pub calls : CacheCalls F

-- What was found by the engines: the engines called, the last one's name, and what it answered.
pub record Found (F : Type 0) : Type 0 where
  pub searched : List String
  pub engine_name : String
  pub results : Fallible (List (SearchResult F))

module _ {F : Type 0} (fl : Float F) (text : Text) (tool : ToolText) (server : Server F) where
  abbrev pub ask : SearchEngine F → String → ℤ → Fallible (List (SearchResult F))
  ask api query days = elim api.ranged [
    | some search_range ↦ search_range query days
    | none ↦ api.search_raw query
  ]

  -- After a failed search of the primary engine.
  abbrev pub fall_back : SearchEngine F → String → String → Found F
  fall_back api query err = elim server.fallback_search [
    | none ↦ record { searched = api.name ∷ []; engine_name = api.name; results = bad err }
    | some bing ↦
        if server.fallback_is_searchapi
        then record { searched = api.name ∷ []; engine_name = api.name; results = bad err }
        else record {
          searched = api.name ∷ "bing" ∷ [];
          engine_name = "bing";
          results = bing.search_raw query;
        }
  ]

  unfoldable pub find_results : SearchEngine F → String → ℤ → Found F
  find_results api query days = elim (ask api query days) [
    | good rs ↦ record { searched = api.name ∷ []; engine_name = api.name; results = good rs }
    | bad err ↦ fall_back api query err
  ]

  module _ (outside : Outside F) (api : SearchEngine F) (query intent : String) (n : ℕ) where
    abbrev pub key : String
    key = web_search_cache_query text tool query n

    abbrev pub enriched : List (SearchResult F) → List (SearchResult F)
    enriched rs = enrich_top_n text tool outside.cancelled outside.fetch rs n

    -- finishWebSearch with the deferred events.
    abbrev pub finished : Bool → ℕ → Found F → List (SearchResult F) → Db → Handled F
    finished cache_hit count found rs db =
        let (db', reply) = finish_web_search server api outside.calls query intent key rs db in
        record {
          db = db';
          reply = reply;
          events = events_of query found.engine_name (is_good reply) cache_hit count;
          searched = found.searched;
          task = none;
        }

    -- The results that a single engine returns are filtered; a hybrid search has filtered its own.
    abbrev pub filtered : String → List (SearchResult F) → List (SearchResult F)
    filtered engine_name rs =
        if api.is_hybrid
        then rs
        else post_search_filter fl outside.sort_by_score server.smart_search_conf rs engine_name

    abbrev pub after_search : Found F → Fallible (List (SearchResult F)) → Db → Handled F
    after_search found (bad err) db = record {
      db = db;
      reply = bad err;
      events = events_of query found.engine_name false false 0;
      searched = found.searched;
      task = none;
    }
    after_search found (good rs) db =
        let out = enriched (filtered found.engine_name rs) in
        finished false (length out) found out db

    unfoldable pub web_search : ℤ → Db → Handled F
    web_search days db =
        let found = find_results api query days in after_search found found.results db

    abbrev pub not_searched : Found F
    not_searched = record { searched = []; engine_name = api.name; results = good [] }

    -- The cached results of the query without pages, to which the pages are added now.
    abbrev pub from_query : Option (List (SearchResult F)) → ℤ → Db → Handled F
    from_query none days db = web_search days db
    from_query (some rs) days db = finished true (length rs) not_searched (enriched rs) db

    abbrev pub at_query : LookedUp → ℤ → Db → Handled F
    at_query lookup_failed days db = web_search days db
    at_query miss days db = web_search days db
    at_query (hit rec exact_intent) days db = web_search days db
    at_query (hit rec query_only) days db =
        if rec.academic
        then web_search days db
        else from_query (outside.calls.unmarshal rec.raw_results) days db

    unfoldable pub second_lookup : ℤ → Db → Handled F
    second_lookup days db =
        if n == 0
        then web_search days db
        else let c = outside.calls in
          let (db', found) = lookup c.second_fault c.newest c.second_at query intent false db in
          at_query found days db'

    abbrev pub count_of : Option (List (SearchResult F)) → ℕ
    count_of none = 0
    count_of (some rs) = length rs

    abbrev pub from_cache :
        Option (String × Option (SummaryTask F)) → CacheRecord → ℤ → Db → Handled F
    from_cache none rec days db = second_lookup days db
    from_cache (some (answer, task)) rec days db = record {
      db = db;
      reply = good answer;
      events =
          events_of query api.name true true (count_of (outside.calls.unmarshal rec.raw_results));
      searched = [];
      task = task;
    }

    abbrev pub at_key : LookedUp → ℤ → Db → Handled F
    at_key lookup_failed days db = second_lookup days db
    at_key miss days db = second_lookup days db
    at_key (hit rec kind) days db =
        if rec.academic
        then second_lookup days db
        else from_cache
            (finish_cached_web_search server api outside.calls.unmarshal rec kind query key intent)
            rec days db

    unfoldable pub with_api : ℤ → Db → Handled F
    with_api days db =
        if server.has_cache
        then (let c = outside.calls in
            let (db', found) = lookup c.first_fault c.newest c.first_at key intent false db in
            at_key found days db')
        else web_search days db

  -- `none` is a nil searchapi.
  abbrev pub handled :
      Option (SearchEngine F) → Outside F → String → String → ℤ → Option ℤ → Db → Handled F
  handled none outside query intent months top_n db = record {
    db = db;
    reply = bad "api 初始化未完成";
    events = events_of query "" false false 0;
    searched = [];
    task = none;
  }
  handled (some api) outside query intent months top_n db =
      with_api outside api query intent (effective_fetch_top_n server.smart_search_conf top_n)
        (lookback_days months) db

  unfoldable pub do_web_search : Outside F → String → String → ℤ → Option ℤ → Db → Handled F
  do_web_search outside query intent months top_n db =
      handled server.searchapi outside query intent months top_n db
