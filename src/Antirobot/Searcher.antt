-- ===== src/Antirobot/Searcher.antt =====
-- The searcher over several engines (pkg/antirobot/searcher.go) and the adapters that make one search
-- of it (pkg/search/adapter). How an engine answers under its time limit is an argument, and so is
-- whether the context has ended before the engine at an index is called.
use websearch_mcpserver_dash.Prelude.{
  ℕ, suc, String, Bool, ◌&&◌, List, [], ◌∷◌, ◌++◌, map, ltb, ◌==◌, if◌then◌else◌, length, take,
  str_eq,
}
use websearch_mcpserver_dash.Core.{SearchResult}
use websearch_mcpserver_dash.Go.{Text}
use websearch_mcpserver_dash.Antirobot.Results.{Result, deduplicate_results}

pub record SearchResponse (F : Type 0) : Type 0 where
  pub engine : String
  pub results : List (Result F)
  pub error : String

-- What execOne meets: a response, a nil response, an error with its text, or the end of the context.
pub data Reaction (F : Type 0) : Type 0 where
  replied : SearchResponse F → Reaction F
  nil_response : Reaction F
  errored : String → Reaction F
  context_done : Reaction F

-- An antirobot.Engine, with its answer to a query and a page.
pub record PageEngine (F : Type 0) : Type 0 where
  pub name : String
  pub react : String → ℕ → Reaction F

pub data SearcherStrategy : Type 0 where
  strategy_parallel strategy_serial : SearcherStrategy

-- The fields that Search reads; `timeout_text` is the error of an engine that is too late.
pub record Searcher (F : Type 0) : Type 0 where
  pub strategy : SearcherStrategy
  pub max_results : ℕ
  pub engines : List (PageEngine F)
  pub timeout_text : String

-- What SearchRaw of an adapter returns.
pub data RawResults (F : Type 0) : Type 0 where
  raw_results : List (SearchResult F) → RawResults F
  no_search_results : RawResults F

module _ {F : Type 0} where
  abbrev pub new_searcher : String → SearcherStrategy → List (PageEngine F) → Searcher F
  new_searcher timeout_text strategy engines = record {
    strategy = strategy;
    max_results = 0;
    engines = engines;
    timeout_text = timeout_text;
  }

  abbrev pub has_results : SearchResponse F → Bool
  has_results r = str_eq r.error "" && ltb 0 (length r.results)

  abbrev pub without_results : String → String → SearchResponse F
  without_results name error = record { engine = name; results = []; error = error }

  abbrev pub response_of : String → String → Reaction F → SearchResponse F
  response_of timeout_text name (replied r) = r
  response_of timeout_text name nil_response = without_results name ""
  response_of timeout_text name (errored text) = without_results name text
  response_of timeout_text name context_done = without_results name timeout_text

  abbrev pub truncate_results : ℕ → List (Result F) → List (Result F)
  truncate_results max rs = if ltb 0 max && ltb max (length rs) then take max rs else rs

  module _ (s : Searcher F) (query : String) (page : ℕ) where
    abbrev pub exec_one : PageEngine F → SearchResponse F
    exec_one e = response_of s.timeout_text e.name (e.react query page)

    abbrev pub serial_response : PageEngine F → SearchResponse F
    serial_response e =
        let r = exec_one e in record r { results = truncate_results s.max_results r.results }

    -- Every engine writes its own place, so the order in which they end does not show.
    abbrev pub search_parallel : List (PageEngine F) → List (SearchResponse F)
    search_parallel es = map exec_one es

  module _ (done : ℕ → Bool) (s : Searcher F) (query : String) (page : ℕ) where
    unfoldable pub search_serial : ℕ → List (PageEngine F) → List (SearchResponse F)
    search_serial i [] = []
    search_serial i (e ∷ es) =
        let rest = search_serial (suc i) es in
        let resp = serial_response s query page e in
        if done i then [] else if has_results resp then resp ∷ [] else resp ∷ rest

    unfoldable pub search_engines : List (SearchResponse F)
    search_engines = elim s.strategy [
      | strategy_serial ↦ search_serial 0 s.engines
      | strategy_parallel ↦ search_parallel s query page s.engines
    ]

  -- The loop that skips the responses with an error.
  unfoldable pub gathered : List (SearchResponse F) → List (Result F)
  gathered [] = []
  gathered (r ∷ rs) = if str_eq r.error "" then r.results ++ gathered rs else gathered rs

  module _ (text : Text) where
    abbrev pub converted : String → Result F → SearchResult F
    converted name r = record {
      title = r.title;
      url = text.trim_space r.url;
      content = r.content;
      publish_date = r.published_at;
      score = r.score;
      engine = name;
      engines = [];
      kind = "";
      authors = "";
      doi = "";
      journal = "";
      cited_by = 0;
      pdf_url = "";
    }

    -- From the responses on, as both adapters do.
    unfoldable pub answered : String → List (SearchResponse F) → RawResults F
    answered name responses =
        let all = deduplicate_results text (gathered responses) in
        if length all == 0 then no_search_results else raw_results (map (converted name) all)

    module _ (done : ℕ → Bool) (timeout_text query : String) where
      -- EngineSearchAdapter.SearchRaw on the engines that NewEngineSearchAdapter is given.
      unfoldable pub engine_search_raw : String → List (PageEngine F) → RawResults F
      engine_search_raw name es =
          answered name (search_engines done (new_searcher timeout_text strategy_serial es) query 1)

      unfoldable pub bing_search_raw : PageEngine F → RawResults F
      bing_search_raw bing =
          answered "bing"
            (search_engines done (new_searcher timeout_text strategy_serial (bing ∷ [])) query 1)
