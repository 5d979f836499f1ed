-- ===== src/Tools/Finish.antt =====
-- The text that answers a search, from the cache or from its results (mcp/tool_search.go).
use websearch_mcpserver_dash.Prelude.{
  ℕ, String, Bool, true, false, not, ◌&&◌, ◌==◌, Option, none, some, List, if◌then◌else◌, str_eq,
}
use websearch_mcpserver_dash.Go.{Text}
use websearch_mcpserver_dash.Core.{SearchResult}
use websearch_mcpserver_dash.Cache.{
  Statement, CacheRecord, HitType, exact_intent, query_only, Db, store, update_summary,
}
use websearch_mcpserver_dash.Tools.Types.{
  Fallible, good, bad, SearchEngine, Summarizer, Server, CacheCalls, ToolText,
}

unfoldable pub web_search_cache_query : Text → ToolText → String → ℕ → String
web_search_cache_query text tool query n =
    if n == 0 then query else text.concat (text.concat query "|fetch_top_n=") (tool.itoa n)

-- The arguments of asyncSummarize, started in the background.
pub record SummaryTask (F : Type 0) : Type 0 where
  pub query : String
  pub cache_query : String
  pub intent : String
  pub results : List (SearchResult F)

abbrev pub is_some : {A : Type 0} → Option A → Bool
is_some none = false
is_some (some a) = true

abbrev pub formatted : {A : Type 0} → Fallible String → A → Option (String × A)
formatted (bad e) a = none
formatted (good t) a = some (t, a)

module _ {F : Type 0} (server : Server F) (api : SearchEngine F) where
  abbrev pub wants_summary : String → Bool
  wants_summary intent = not (str_eq intent "") && is_some server.summarizer_inst

  abbrev pub task_for :
      String → String → String → CacheRecord → List (SearchResult F) → Option (SummaryTask F)
  task_for query cache_query intent rec results =
      if wants_summary intent && str_eq rec.summary ""
      then some
          (record { query = query; cache_query = cache_query; intent = intent; results = results })
      else none

  -- The case `query_only`, to which an exact hit without a summary falls through.
  unfoldable pub raw_answer :
      (String → Option (List (SearchResult F)))
      → CacheRecord
      → String
      → String
      → String
      → Option (String × Option (SummaryTask F))
  raw_answer unmarshal rec query cache_query intent = elim (unmarshal rec.raw_results) [
    | none ↦ none
    | some results ↦
        formatted (api.merge_content query results) (task_for query cache_query intent rec results)
  ]

  unfoldable pub finish_cached_web_search :
      (String → Option (List (SearchResult F)))
      → CacheRecord
      → HitType
      → String
      → String
      → String
      → Option (String × Option (SummaryTask F))
  finish_cached_web_search unmarshal rec exact_intent query cache_query intent =
      if not (str_eq rec.summary "")
      then some (rec.summary, none)
      else raw_answer unmarshal rec query cache_query intent
  finish_cached_web_search unmarshal rec query_only query cache_query intent =
      raw_answer unmarshal rec query cache_query intent

  -- The stream, and the plain call after a failed stream. Without a session neither is called, and
  -- sumErr stays nil with an empty output.
  unfoldable pub summary_of :
      Summarizer F → String → String → List (SearchResult F) → Fallible String
  summary_of s query intent results =
      if server.has_session
      then elim (s.stream query intent results) [
        | good output ↦ good output
        | bad e ↦ s.summarize query intent results
      ]
      else good ""

  -- The output of the summary, if one is wanted and made.
  unfoldable pub summary_output : String → String → List (SearchResult F) → Option String
  summary_output query intent results =
      if str_eq intent "" then none else elim server.summarizer_inst [
        | none ↦ none
        | some s ↦ elim (summary_of s query intent results) [
          | good output ↦ some output
          | bad e ↦ none
        ]
      ]

  -- `_ = cacheInst.Store(...)`: an error is ignored.
  unfoldable pub stored : CacheCalls F → String → String → List (SearchResult F) → String → Db → Db
  stored calls cache_query intent results summary db =
      if server.has_cache
      then elim (store calls.store_fault calls.marshal calls.store_at cache_query intent false
          results summary db) [ none ↦ db | some db' ↦ db' ]
      else db

  unfoldable pub finish_web_search :
      CacheCalls F → String → String → String → List (SearchResult F) → Db → Db × Fallible String
  finish_web_search calls query intent cache_query results db =
      elim (summary_output query intent results) [
        | some output ↦ (stored calls cache_query intent results output db, good output)
        | none ↦ elim (api.merge_content query results) [
          | bad e ↦ (db, bad e)
          | good text ↦ (stored calls cache_query intent results "" db, good text)
        ]
      ]

-- asyncSummarize, run some time later; a panic of the summarizer is one of its errors.
unfoldable pub async_summarize :
    {F : Type 0} → Server F → (Statement → Bool) → SummaryTask F → Db → Db
async_summarize server fault task db = elim server.summarizer_inst [
  | none ↦ db
  | some s ↦ elim (s.summarize task.query task.intent task.results) [
    | bad e ↦ db
    | good output ↦
        if server.has_cache
        then elim (update_summary fault task.cache_query task.intent output db) [
          | none ↦ db
          | some db' ↦ db'
        ]
        else db
  ]
]
