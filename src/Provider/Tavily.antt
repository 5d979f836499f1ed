-- ===== src/Provider/Tavily.antt =====
-- pkg/search/provider/tavily.go: the Tavily engine. `http` is the API: the reply to a request at a
-- time, with a key, a query and a `time_range`. The engine's `timeRange` is an argument: the source
-- sets the field for the time of a call, and that two calls at once share it is not modelled.
use websearch_mcpserver_dash.Prelude.{
  ℕ, String, some, List, [], ◌∷◌, map, ◌≡◌, leb, ◌==◌, if◌then◌else◌, length, arith,
}
use websearch_mcpserver_dash.Core.{SearchResult}
use websearch_mcpserver_dash.KeyPool.{KeyPool}
use websearch_mcpserver_dash.ApiPool.{Outcome, ok, err, key_error, other_error, Search, Engine}
use websearch_mcpserver_dash.Provider.Request.{
  Reply, transport_error, response, first_nonempty, web_result, with_key,
}

pub record TavilyResult (F : Type 0) : Type 0 where
  pub title : String
  pub url : String
  pub content : String
  pub raw_content : String
  pub score : F

unfoldable pub lookback_days_to_tavily_range : ℕ → String
lookback_days_to_tavily_range d =
    if leb d 0
    then ""
    else if leb d 1
    then "day"
    else if leb d 7
    then "week"
    else if leb d 30
    then "month"
    else "year"

module _ {F : Type 0} (trim : String → String)
    (http : ℕ → String → String → String → Reply (List (TavilyResult F))) where
  abbrev pub tavily_item : TavilyResult F → SearchResult F
  tavily_item v =
      web_result v.score v.title (trim v.url) (first_nonempty trim (v.raw_content ∷ v.content ∷ []))
        "tavily_api"

  unfoldable pub tavily_outcome : String → Reply (List (TavilyResult F)) → Outcome F
  tavily_outcome key transport_error = err (key_error key)
  tavily_outcome key (response status rs) =
      if status == 200
      then (if length rs == 0 then err other_error else ok (map tavily_item rs))
      else err (key_error key)

  -- SearchRaw, with the engine's `timeRange`.
  unfoldable pub tavily_search : String → Search F KeyPool
  tavily_search range query now =
      with_key (λ key. tavily_outcome key (http now key query range)) now

  -- SearchRaw, and SearchRawWithTimeRange, which sets `timeRange` for the time of the call.
  unfoldable pub tavily_engine : String → Engine F KeyPool
  tavily_engine range = record {
    engine_name = "tavily_api";
    search_raw = tavily_search range;
    search_range = some (λ days. tavily_search (lookback_days_to_tavily_range days));
  }

  -- A KeyError of Tavily names the key of the request.
  pub tavily_outcome-key_error :
      (key : String) (r : Reply (List (TavilyResult F))) (k : String)
      → tavily_outcome key r ≡ err (key_error k)
      → k ≡ key
  unfolding tavily_outcome
  tavily_outcome-key_error key transport_error k h = ground arith
  tavily_outcome-key_error key (response status rs) k h = ground arith
