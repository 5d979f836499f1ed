-- ===== src/Provider/Anysearch.antt =====
-- pkg/search/provider/anysearch.go: the AnySearch engine, which filters blocked hosts itself.
-- `http` is the API: the reply to a request at a time, with a key, a query and a number of results.
use websearch_mcpserver_dash.Prelude.{
  ℕ, String, Bool, false, not, ◌||◌, none, some, List, [], ◌∷◌, map, ◌≡◌, ◌==◌, if◌then◌else◌,
  length, keep, str_eq, arith,
}
use websearch_mcpserver_dash.Core.{SearchResult}
use websearch_mcpserver_dash.Go.{Text}
use websearch_mcpserver_dash.KeyPool.{KeyPool}
use websearch_mcpserver_dash.ApiPool.{Outcome, ok, err, key_error, other_error, Search, Engine}
use websearch_mcpserver_dash.Provider.Request.{
  Reply, transport_error, response, web_result, with_key,
}

pub record AnysearchResult : Type 0 where
  pub title : String
  pub url : String
  pub snippet : String
  pub content : String

-- The decoded body: the code of the API and the results.
pub record AnysearchBody : Type 0 where
  pub code : ℕ
  pub results : List AnysearchResult

module _ (text : Text) where
  -- The host by which a URL is blocked: its own, or the whole text if it has none.
  abbrev pub blocking_host : String → String
  blocking_host raw = elim (text.parsed_host raw) [
    | none ↦ text.to_lower (text.trim_space raw)
    | some host ↦ host
  ]

  -- `host == d || strings.HasSuffix(host, "."+d)`, for a domain that is not blank.
  abbrev pub blocks : String → String → Bool
  blocks host domain =
      let d = text.to_lower (text.trim_space domain) in
      if str_eq d "" then false else str_eq host d || text.has_suffix host (text.concat "." d)

  unfoldable pub any_blocks : String → List String → Bool
  any_blocks host [] = false
  any_blocks host (d ∷ ds) = blocks host d || any_blocks host ds

  unfoldable pub is_blocked_host : String → List String → Bool
  is_blocked_host raw blocked =
      if length blocked == 0 || str_eq raw "" then false else any_blocks (blocking_host raw) blocked

module _ {F : Type 0} (nil : F) (text : Text) (http : ℕ → String → String → ℕ → Reply AnysearchBody)
    (exclude : List String) where
  abbrev pub anysearch_item : AnysearchResult → SearchResult F
  anysearch_item r =
      web_result nil r.title (text.trim_space r.url)
        (if str_eq r.content "" then r.snippet else r.content) "anysearch"

  -- The loop that drops the blocked results.
  abbrev pub anysearch_items : List AnysearchResult → List (SearchResult F)
  anysearch_items rs = map anysearch_item (keep (λ r. not (is_blocked_host text r.url exclude)) rs)

  unfoldable pub anysearch_outcome : String → Reply AnysearchBody → Outcome F
  anysearch_outcome key transport_error = err (key_error key)
  anysearch_outcome key (response status body) =
      if status == 200
      then (if body.code == 0
          then (if length body.results == 0
              then err other_error
              else ok (anysearch_items body.results))
          else err (key_error key))
      else err (key_error key)

  unfoldable pub anysearch_search : ℕ → Search F KeyPool
  anysearch_search n query now = with_key (λ key. anysearch_outcome key (http now key query n)) now

  -- NewAnysearchSearch; the engine takes no time range.
  unfoldable pub anysearch_engine : ℕ → Engine F KeyPool
  anysearch_engine n = record {
    engine_name = "anysearch";
    search_raw = anysearch_search (if n == 0 then 10 else n);
    search_range = none;
  }

  -- A KeyError of AnySearch names the key of the request.
  pub anysearch_outcome-key_error :
      (key : String) (r : Reply AnysearchBody) (k : String)
      → anysearch_outcome key r ≡ err (key_error k)
      → k ≡ key
  unfolding anysearch_outcome
  anysearch_outcome-key_error key transport_error k h = ground arith
  anysearch_outcome-key_error key (response status body) k h = ground arith
