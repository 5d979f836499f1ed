-- ===== src/Provider/DoubaoLoop.antt =====
-- The retry loop of the API pool around a query that Doubao refuses before it takes a key
-- (pkg/search/apipool/apipool.go, pkg/search/provider/doubao.go).
use websearch_mcpserver_dash.Prelude.{
  ℕ, zero, suc, ◌+◌, String, Bool, true, ◌≡◌, ◌≢◌, refl, none, some, List, arith,
}
use websearch_mcpserver_dash.Core.{Float}
use websearch_mcpserver_dash.Go.{Text}
use websearch_mcpserver_dash.KeyPool.{KeyPool, available, mark_last_invalid}
use websearch_mcpserver_dash.ApiPool.{
  err, other_error, Entry, chosen_search, call_single, retry, out_of_fuel, mark_failure,
}
use websearch_mcpserver_dash.Provider.Request.{Reply}
use websearch_mcpserver_dash.Provider.Doubao.{DoubaoSearch, GlobalRequest, GlobalBody, CustomBody}
use websearch_mcpserver_dash.Provider.DoubaoSearch.{is_bad_query, doubao_search_raw, doubao_engine}

module _ (text : Text) (contains : String → String → Bool) (join : List String → String)
    (rune_count : String → ℕ) {F : Type 0} (fl : Float F)
    (http_global : ℕ → String → GlobalRequest → Reply GlobalBody)
    (http_custom : ℕ → String → DoubaoSearch → String → Reply (CustomBody F)) (d : DoubaoSearch)
    (name : String) (query : String) where
  abbrev doubao : Entry F KeyPool
  doubao = record {
    name = name;
    engine = doubao_engine text contains join rune_count fl http_global http_custom d;
  }

  refused :
      (lookback now : ℕ) (pool : KeyPool)
      → is_bad_query text rune_count query ≡ true
      → chosen_search lookback doubao.engine query now pool ≡ some (pool, err other_error)
  unfolding chosen_search doubao_engine doubao_search_raw
  refused zero now pool bad = ground (arith, bad)
  refused (suc l) now pool bad = ground (arith, bad)

  -- With a query that Doubao refuses, and a pool of which no key was used yet but some key is available
  -- at every time, the retry loop never ends: it runs out of any amount of fuel.
  pub retry-never_ends :
      (clock : ℕ → ℕ) (max lookback fuel t : ℕ) (pool : KeyPool)
      → is_bad_query text rune_count query ≡ true
      → pool.last_key ≡ none
      → ((now : ℕ) → available now pool ≢ 0)
      → (retry clock max query lookback fuel doubao t pool).end ≡ out_of_fuel
  unfolding retry call_single mark_failure mark_last_invalid
  retry-never_ends clock max lookback zero t pool bad unused usable = refl
  retry-never_ends clock max lookback (suc fuel) t pool bad unused usable =
      let still = usable (clock (t + 2)) in
      let again = retry-never_ends clock max lookback fuel (t + 3) pool bad unused usable in
      ground (arith, refused lookback (clock t) pool bad, unused, still, again)
