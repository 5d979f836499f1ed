-- ===== src/Provider/Exa.antt =====
-- pkg/search/provider/exa.go: the Exa engine. `http` is the API: the reply to a request at a time,
-- with a key, a query and the number of days to look back.
use websearch_mcpserver_dash.Prelude.{
  ℕ, zero, suc, String, some, List, map, ◌≡◌, ◌==◌, if◌then◌else◌, length, str_eq, arith,
}
use websearch_mcpserver_dash.Core.{SearchResult}
use websearch_mcpserver_dash.KeyPool.{KeyPool}
use websearch_mcpserver_dash.ApiPool.{Outcome, ok, err, key_error, other_error, Search, Engine}
use websearch_mcpserver_dash.Provider.Request.{
  Reply, transport_error, response, web_result, with_key,
}

pub record ExaResult : Type 0 where
  pub title : String
  pub url : String
  pub published_date : String
  pub text : String
  pub highlights : List String

-- `if lookbackDays <= 0 { lookbackDays = 90 }` of newExaSearch.
abbrev pub own_days : ℕ → ℕ
own_days d = if d == 0 then 90 else d

-- `nil` is the score 0; `join` is strings.Join with a line break.
module _ {F : Type 0} (nil : F) (trim : String → String) (join : List String → String)
    (http : ℕ → String → String → ℕ → Reply (List ExaResult)) where
  abbrev pub exa_item : ExaResult → SearchResult F
  exa_item r =
      let content = if str_eq (trim r.text) "" then join r.highlights else trim r.text in
      record (web_result nil r.title (trim r.url) content "exa") { publish_date = r.published_date }

  unfoldable pub exa_outcome : String → Reply (List ExaResult) → Outcome F
  exa_outcome key transport_error = err (key_error key)
  exa_outcome key (response status rs) =
      if status == 200
      then (if length rs == 0 then err other_error else ok (map exa_item rs))
      else err (key_error key)

  -- SearchRaw, with the engine's `lookbackDays`.
  unfoldable pub exa_search : ℕ → Search F KeyPool
  exa_search days query now = with_key (λ key. exa_outcome key (http now key query days)) now

  -- SearchRawWithTimeRange: the engine's own days if those asked for are not positive.
  unfoldable pub exa_search_range : ℕ → ℕ → Search F KeyPool
  exa_search_range own zero = exa_search own
  exa_search_range own (suc d) = exa_search (suc d)

  unfoldable pub exa_engine : ℕ → Engine F KeyPool
  exa_engine days = record {
    engine_name = "exa";
    search_raw = exa_search (own_days days);
    search_range = some (exa_search_range (own_days days));
  }

  -- A KeyError of Exa names the key of the request.
  pub exa_outcome-key_error :
      (key : String) (r : Reply (List ExaResult)) (k : String)
      → exa_outcome key r ≡ err (key_error k)
      → k ≡ key
  unfolding exa_outcome
  exa_outcome-key_error key transport_error k h = ground arith
  exa_outcome-key_error key (response status rs) k h = ground arith
