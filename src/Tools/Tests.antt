-- ===== src/Tools/Tests.antt =====
-- smartsearch on concrete inputs (mcp/tool_search.go, mcp/security.go).
use websearch_mcpserver_dash.Prelude.{
  String, ◌||◌, ℕ, true, false, ◌≡◌, refl, ap, ◌∙◌, none, some, List, [], ◌∷◌, ltb, leb,
}
use websearch_mcpserver_dash.Go.{Text}
use websearch_mcpserver_dash.Core.{Float, SearchResult, has_score, filter_by_score}
use websearch_mcpserver_dash.Cache.{lookup, lookup_query, select_exact}
use websearch_mcpserver_dash.Cache.Sample.{
  empty_db, newest, no_fault, titled, is_empty, is_titled, marshal, unmarshal, unmarshal-marshal,
}
use websearch_mcpserver_dash.Tools.Types.{
  pos, negsuc, Fallible, good, bad, SearchEngine, ToolConfig, Server, ToolText, clamp_fetch_top_n,
  effective_fetch_top_n, lookback_days,
}
use websearch_mcpserver_dash.Tools.Enrich.{enrich_one, enrich_from, enrich_top_n}
use websearch_mcpserver_dash.Tools.Filter.{configured_filter, post_search_filter}
use websearch_mcpserver_dash.Tools.Finish.{
  web_search_cache_query, summary_output, finish_web_search,
}
use websearch_mcpserver_dash.Tools.WebSearch.{
  Handled, Outside, is_good, find_results, web_search, second_lookup, with_api, do_web_search,
}
use websearch_mcpserver_dash.Tools.Answers.{
  Tells, has_none, counts_none, do_web_search-answers, do_web_search-Tells,
}
use websearch_mcpserver_dash.Tools.Again.{Encodes}
use websearch_mcpserver_dash.Tools.Repeated.{do_web_search-again}

abbrev pub text : Text
text = record {
  trim_space = λ s. s;
  to_lower = λ s. s;
  has_suffix = λ s t. false;
  trim_prefix = λ s t. s;
  concat = λ s t. s;
  parsed_host = λ s. none;
}

abbrev pub tool : ToolText
tool = record {
  contains = λ s t. false;
  itoa = λ n. "3";
  byte_length = λ s. 2;
  first_bytes = λ s n. s;
}

abbrev pub whole : Float ℕ
whole = record { nil = 0; lt = ltb; le = leb }

abbrev pub found : List (SearchResult ℕ)
found = titled "spec" ∷ []

-- MergeContent has no text for no results.
abbrev merged_text : String → List (SearchResult ℕ) → Fallible String
merged_text query [] = bad "no results"
merged_text query (r ∷ rs) = good "an answer"

merged_text-is_good :
    (query : String) (rs : List (SearchResult ℕ))
    → has_none rs ≡ false
    → is_good (merged_text query rs) ≡ true
merged_text-is_good query [] h = absurd (cc h)
merged_text-is_good query (r ∷ rs) h = refl

abbrev tavily : SearchEngine ℕ
tavily = record {
  name = "tavily";
  is_hybrid = false;
  search_raw = λ query. good found;
  ranged = none;
  merge_content = merged_text;
}

abbrev broken_engine : SearchEngine ℕ
broken_engine = record {
  name = "exa";
  is_hybrid = false;
  search_raw = λ query. bad "HTTP 500";
  ranged = some (λ query days. bad "HTTP 500");
  merge_content = merged_text;
}

abbrev pub conf : ToolConfig ℕ
conf = record { fetch_top_n = pos 0; max_size = 3; engines = [] }

abbrev server : Server ℕ
server = record {
  searchapi = some tavily;
  fallback_search = none;
  fallback_is_searchapi = false;
  smart_search_conf = conf;
  has_cache = true;
  summarizer_inst = none;
  has_session = true;
}

-- The primary engine is down, and Bing is another engine.
abbrev degraded : Server ℕ
degraded = record server { searchapi = some broken_engine; fallback_search = some tavily }

abbrev pub outside : Outside ℕ
outside = record {
  cancelled = λ i. false;
  fetch = λ i url. bad "WAF";
  sort_by_score = λ rs. rs;
  calls = record {
    first_fault = no_fault;
    second_fault = no_fault;
    store_fault = no_fault;
    first_at = 10;
    second_at = 11;
    store_at = 12;
    newest = newest;
    marshal = marshal;
    unmarshal = unmarshal;
  };
}

abbrev first_call : Handled ℕ
first_call = do_web_search whole text tool server outside "go" "" (pos 1) (some (pos 2)) empty_db

first_reply : first_call.reply ≡ good "an answer"
unfolding do_web_search with_api second_lookup web_search find_results finish_web_search
    summary_output web_search_cache_query lookup lookup_query newest select_exact
    effective_fetch_top_n clamp_fetch_top_n enrich_top_n enrich_from post_search_filter has_score
    filter_by_score configured_filter
first_reply = refl

first_searched : first_call.searched ≡ "tavily" ∷ []
unfolding do_web_search with_api second_lookup web_search find_results finish_web_search
    summary_output web_search_cache_query lookup lookup_query newest select_exact
    effective_fetch_top_n clamp_fetch_top_n
first_searched = refl

-- The result list of the first call, after the filter and the fetch of pages.
left_of : List (SearchResult ℕ) → List (SearchResult ℕ)
left_of rs =
    enrich_top_n text tool outside.cancelled outside.fetch
      (post_search_filter whole outside.sort_by_score conf rs "tavily") 2

first_encoded : marshal (left_of found) ≡ some "spec"
unfolding left_of marshal is_titled is_empty enrich_top_n enrich_from enrich_one post_search_filter
    filter_by_score configured_filter has_score
first_encoded = refl

first_Encodes :
    Encodes whole text tool server outside tavily "go" ""
      (effective_fetch_top_n conf (some (pos 2)))
      (lookback_days (pos 1))
unfolding find_results effective_fetch_top_n clamp_fetch_top_n left_of
first_Encodes rs found_rs is_none =
    let same : rs ≡ found = cc found_rs in
    let encoded : marshal (left_of rs) ≡ some "spec" =
      ap (λ l. marshal (left_of l)) same ∙ first_encoded in
    absurd (cc (encoded, is_none))

-- The second call asks for the results of a year.
do_web_search-again_example :
    ((do_web_search whole text tool server outside "go" ""
        (pos 12)
        (some (pos 2))
        first_call.db).reply
      ≡ good "an answer")
    × ((do_web_search whole text tool server outside "go" ""
          (pos 12)
          (some (pos 2))
          first_call.db).searched
        ≡ [])
do_web_search-again_example =
    do_web_search-again whole text tool server tavily outside outside refl refl unmarshal-marshal
      refl refl "go" "" (pos 1) (pos 12) (some (pos 2)) empty_db first_call.db "an answer" "tavily"
      [] first_Encodes first_reply first_searched (λ e. absurd (cc e)) refl

do_web_search-answers_example :
    (is_good (do_web_search whole text tool degraded outside "go" "" (pos 0) none empty_db).reply
      || counts_none
          (do_web_search whole text tool degraded outside "go" "" (pos 0) none empty_db).events)
    ≡ true
unfolding lookback_days
do_web_search-answers_example =
    do_web_search-answers whole text tool degraded outside broken_engine refl merged_text-is_good
      "go" "" (pos 0) none empty_db refl

do_web_search-Tells_example :
    Tells (do_web_search whole text tool degraded outside "go" "" (negsuc 0) none empty_db)
do_web_search-Tells_example =
    do_web_search-Tells whole text tool degraded outside broken_engine refl "go" "" (negsuc 0) none
      empty_db
