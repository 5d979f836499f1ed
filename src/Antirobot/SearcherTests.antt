-- ===== src/Antirobot/SearcherTests.antt =====
-- An adapter over two page engines (pkg/search/adapter/engine_adapter.go).
use websearch_mcpserver_dash.Prelude.{
  ℕ, String, Bool, false, ◌≡◌, refl, none, [], ◌∷◌, map, dedup_by,
}
use websearch_mcpserver_dash.Go.{Text}
use websearch_mcpserver_dash.Antirobot.Results.{
  Result, normalize_doi, result_key, deduplicate_results,
}
use websearch_mcpserver_dash.Antirobot.Searcher.{
  PageEngine, replied, context_done, raw_results, converted, engine_search_raw, bing_search_raw,
  search_serial, search_engines, gathered, answered,
}
use websearch_mcpserver_dash.Antirobot.FirstAnswer.{reached, engine_search_raw-first}

abbrev identity : Text
identity = record {
  trim_space = λ s. s;
  to_lower = λ s. s;
  has_suffix = λ s suffix. false;
  trim_prefix = λ s prefix. s;
  concat = λ s t. t;
  parsed_host = λ u. none;
}

abbrev page : String → Result ℕ
page url = record {
  kind = "web";
  title = "";
  url = url;
  content = "";
  pdf_url = "";
  authors = "";
  published_at = "";
  doi = "";
  journal = "";
  cited_by = 0;
  score = 1;
  engine = "";
}

abbrev too_slow : PageEngine ℕ
too_slow = record { name = "google"; react = λ query page. context_done }

abbrev answering : PageEngine ℕ
answering = record {
  name = "baidu";
  react = λ query n.
      replied
        (record { engine = "baidu"; results = page "a" ∷ page "b" ∷ page "a" ∷ []; error = "" });
}

abbrev never : ℕ → Bool
never i = false

-- Bing alone, with its duplicate dropped.
bing_answers :
    bing_search_raw identity never "timeout" "go" answering
    ≡ raw_results (map (converted identity "bing") (page "a" ∷ page "b" ∷ []))
unfolding bing_search_raw search_engines search_serial answered gathered deduplicate_results
    dedup_by result_key normalize_doi
bing_answers = refl

engine_search_raw-first_example :
    engine_search_raw identity never "timeout" "go" "web" (too_slow ∷ answering ∷ [])
    ≡ raw_results (
        map
          (converted identity "web")
          (deduplicate_results identity (page "a" ∷ page "b" ∷ page "a" ∷ [])))
unfolding reached
engine_search_raw-first_example =
    engine_search_raw-first identity never "timeout" "go" "web" (too_slow ∷ answering ∷ [])
