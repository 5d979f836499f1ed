-- ===== src/Tools/Answers.antt =====
-- When smartsearch answers, and what it records (`doWebSearch` in mcp/tool_search.go).
use websearch_mcpserver_dash.Prelude.{
  String, Bool, true, false, not, ◌&&◌, ◌||◌, ◌≡◌, refl, sym, ap, ◌∙◌, Option, none, some, List, [],
  ◌∷◌, arith, ◌==◌, length,
}
use mathlib.Core.Path.{subst}
use websearch_mcpserver_dash.Go.{Text}
use websearch_mcpserver_dash.Core.{Float, SearchResult}
use websearch_mcpserver_dash.Cache.{Db}
use websearch_mcpserver_dash.Tools.Types.{
  ℤ, Fallible, SearchEngine, Server, CacheCalls, ToolText, effective_fetch_top_n, lookback_days,
}
use websearch_mcpserver_dash.Tools.Enrich.{enrich_top_n}
use websearch_mcpserver_dash.Tools.Fetched.{length-enrich_top_n}
use websearch_mcpserver_dash.Tools.Finish.{web_search_cache_query, finish_web_search}
use websearch_mcpserver_dash.Tools.Cases.{with_api-cases}
use websearch_mcpserver_dash.Tools.WebSearch.{
  ToolEvent, Handled, Outside, is_good, ask, find_results, events_of, handled, do_web_search,
}

abbrev pub bing_answers : {F : Type 0} → Server F → Option (SearchEngine F) → String → Bool
bing_answers server none query = false
bing_answers server (some bing) query =
    not server.fallback_is_searchapi && is_good (bing.search_raw query)

abbrev pub has_none : {A : Type 0} → List A → Bool
has_none [] = true
has_none (x ∷ xs) = false

abbrev pub Tells : {F : Type 0} → Handled F → Type 0
Tells h =
    (e : ToolEvent) × (es : List ToolEvent) × (h.events ≡ e ∷ es)
    × (e.kind ≡ "tool")
    × (e.success ≡ is_good h.reply)
    × (e.cache_hit ≡ has_none h.searched)
    × ((e.cache_hit && not (has_none es)) ≡ false)

-- The event of the tool tells of no results.
abbrev pub counts_none : List ToolEvent → Bool
counts_none [] = false
counts_none (e ∷ es) = e.result_count == 0

module _ {F : Type 0} (server : Server F) (api : SearchEngine F) (calls : CacheCalls F)
    (merges : (query : String) (rs : List (SearchResult F))
      → has_none rs ≡ false
      → is_good (api.merge_content query rs) ≡ true) where
  finish_web_search-is_good :
      (query intent key : String) (rs : List (SearchResult F)) (db : Db)
      → (is_good (finish_web_search server api calls query intent key rs db).1 || (length rs == 0))
        ≡ true
  unfolding finish_web_search
  finish_web_search-is_good query intent key [] db = ground arith
  finish_web_search-is_good query intent key (r ∷ rs) db =
      ground (arith, merges query (r ∷ rs) refl)

module _ {F : Type 0} (fl : Float F) (text : Text) (tool : ToolText) (server : Server F)
    (api : SearchEngine F) (query : String) (days : ℤ) where
  find_results-is_good :
      (is_good (ask fl text tool server api query days)
          || bing_answers server server.fallback_search query)
        ≡ true
      → is_good (find_results fl text tool server api query days).results ≡ true
  unfolding find_results
  find_results-is_good h = ground (arith, h)

  find_results-asks : has_none (find_results fl text tool server api query days).searched ≡ false
  unfolding find_results
  find_results-asks = ground arith

module _ {F : Type 0} (fl : Float F) (text : Text) (tool : ToolText) (server : Server F)
    (outside : Outside F) (api : SearchEngine F) where
  handled-api :
      (query intent : String) (months : ℤ) (top_n : Option ℤ) (db : Db)
      → server.searchapi ≡ some api
      → do_web_search fl text tool server outside query intent months top_n db
        ≡ handled fl text tool server (some api) outside query intent months top_n db
  unfolding do_web_search
  handled-api query intent months top_n db is_api =
      ap (λ a. handled fl text tool server a outside query intent months top_n db) is_api

  -- When the search engine answers the query, or it fails and Bing, if that is another engine, answers,
  -- and the engine can write every list of results but the empty one as a text, smartsearch answers with
  -- a text, whatever fails in the cache, in the pages that it fetches, or in the summary; only if there
  -- was no result at all, of the engines after the filter or in the cache, may it answer with an error,
  -- and then the event of the tool counts none.
  pub do_web_search-answers :
      server.searchapi ≡ some api
      → ((query : String) (rs : List (SearchResult F))
          → has_none rs ≡ false
          → is_good (api.merge_content query rs) ≡ true)
      → (query intent : String) (months : ℤ) (top_n : Option ℤ) (db : Db)
      → (is_good (ask fl text tool server api query (lookback_days months))
          || bing_answers server server.fallback_search query)
        ≡ true
      → (is_good (do_web_search fl text tool server outside query intent months top_n db).reply
          || counts_none
              (do_web_search fl text tool server outside query intent months top_n db).events)
        ≡ true
  unfolding events_of
  do_web_search-answers is_api merges query intent months top_n db answers =
      let n = effective_fetch_top_n server.smart_search_conf top_n in
      let days = lookback_days months in
      let key = web_search_cache_query text tool query n in
      let found = find_results-is_good fl text tool server api query days answers in
      let size : (rs : List (SearchResult F))
          → length (enrich_top_n text tool outside.cancelled outside.fetch rs n) ≡ length rs =
        λ rs. length-enrich_top_n text tool outside.cancelled outside.fetch rs n in
      let finished_reply : List (SearchResult F) → Db → Fallible String = λ rs d.
        (finish_web_search server api outside.calls query intent key
          (enrich_top_n text tool outside.cancelled outside.fetch rs n) d).1 in
      let ends = finish_web_search-is_good server api outside.calls merges query intent key in
      ap (λ h. is_good h.reply || counts_none h.events)
        (handled-api query intent months top_n db is_api)
      ∙ with_api-cases fl text tool server outside api query intent n days
          (λ h. (is_good h.reply || counts_none h.events) ≡ true) (λ rs d eq. ends _ d)
          (λ err d eq. absurd (cc (found, ap is_good eq)))
          (λ rs d.
            ap (λ k. is_good (finished_reply rs d) || (k == 0)) (sym (size rs))
            ∙ ends (enrich_top_n text tool outside.cancelled outside.fetch rs n) d)
          (λ answer task rec d. refl) db

  -- Each call records one event of the tool first, which is a success exactly when there is an answer;
  -- it tells of a cache hit exactly when no engine was called, and then it is the only event.
  pub do_web_search-Tells :
      server.searchapi ≡ some api
      → (query intent : String) (months : ℤ) (top_n : Option ℤ) (db : Db)
      → Tells (do_web_search fl text tool server outside query intent months top_n db)
  unfolding events_of
  do_web_search-Tells is_api query intent months top_n db =
      let n = effective_fetch_top_n server.smart_search_conf top_n in
      let asked = find_results-asks fl text tool server api query (lookback_days months) in
      subst Tells (sym (handled-api query intent months top_n db is_api)) (
        with_api-cases fl text tool server outside api query intent n (lookback_days months) Tells
          (λ rs d eq. (_, _, refl, refl, refl, sym asked, refl))
          (λ err d eq. (_, _, refl, refl, refl, sym asked, refl))
          (λ rs d. (_, _, refl, refl, refl, refl, refl))
          (λ answer task rec d. (_, _, refl, refl, refl, refl, refl)) db)
