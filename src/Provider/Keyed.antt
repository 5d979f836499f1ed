-- ===== src/Provider/Keyed.antt =====
-- The engines of pkg/search/provider keep to the protocol of the API pool's retry loop.
use websearch_mcpserver_dash.Prelude.{ℕ, zero, suc, ◌+◌, ◌<◌, String, List, length}
use websearch_mcpserver_dash.KeyPool.{KeyPool, IsValid, u64_mod}
use websearch_mcpserver_dash.ApiPool.{chosen_search}
use websearch_mcpserver_dash.Go.{Text}
use websearch_mcpserver_dash.Provider.Request.{Reply, TakesKey, TakesKeys, with_key-TakesKey}
use websearch_mcpserver_dash.Provider.Tavily.{
  TavilyResult, tavily_engine, tavily_search, tavily_outcome-key_error,
}
use websearch_mcpserver_dash.Provider.Exa.{
  ExaResult, exa_search, exa_search_range, exa_engine, exa_outcome-key_error,
}
use websearch_mcpserver_dash.Provider.Anysearch.{
  AnysearchBody, anysearch_engine, anysearch_search, anysearch_outcome-key_error,
}

module _ {F : Type 0} (name : String) where
  -- Whatever the API replies, and whichever of its two methods is called, the Tavily engine takes
  -- exactly one key by Next, and a KeyError that it returns names that key.
  pub tavily_engine-TakesKeys :
      (trim : String → String) (http : ℕ → String → String → String → Reply (List (TavilyResult F)))
      (range : String)
      → TakesKeys (record { name = name; engine = tavily_engine trim http range })
  unfolding chosen_search tavily_engine tavily_search
  tavily_engine-TakesKeys trim http range = record {
    call = λ query lookback. by_lookback query lookback;
  }
    where
      by_lookback :
          (query : String) (lookback now : ℕ) (pool : KeyPool)
          → IsValid pool
          → pool.idx + length pool.keys < u64_mod
          → TakesKey now pool
              (chosen_search lookback (tavily_engine trim http range) query now pool)
      by_lookback query zero now pool v fits =
          with_key-TakesKey _ now pool (λ key k. tavily_outcome-key_error trim http key _ k) v fits
      by_lookback query (suc d) now pool v fits =
          with_key-TakesKey _ now pool (λ key k. tavily_outcome-key_error trim http key _ k) v fits

  -- Whatever the API replies, and whichever of its two methods is called, the Exa engine takes exactly
  -- one key by Next, and a KeyError that it returns names that key.
  pub exa_engine-TakesKeys :
      (nil : F) (trim : String → String) (join : List String → String)
      (http : ℕ → String → String → ℕ → Reply (List ExaResult)) (days : ℕ)
      → TakesKeys (record { name = name; engine = exa_engine nil trim join http days })
  unfolding chosen_search exa_engine exa_search exa_search_range
  exa_engine-TakesKeys nil trim join http days = record {
    call = λ query lookback. by_lookback query lookback;
  }
    where
      by_lookback :
          (query : String) (lookback now : ℕ) (pool : KeyPool)
          → IsValid pool
          → pool.idx + length pool.keys < u64_mod
          → TakesKey now pool
              (chosen_search lookback (exa_engine nil trim join http days) query now pool)
      by_lookback query zero now pool v fits =
          with_key-TakesKey _ now pool (λ key k. exa_outcome-key_error nil trim join http key _ k) v
            fits
      by_lookback query (suc d) now pool v fits =
          with_key-TakesKey _ now pool (λ key k. exa_outcome-key_error nil trim join http key _ k) v
            fits

  -- Whatever the API replies, the AnySearch engine takes exactly one key by Next, and a KeyError that
  -- it returns names that key.
  pub anysearch_engine-TakesKeys :
      (nil : F) (text : Text) (http : ℕ → String → String → ℕ → Reply AnysearchBody)
      (exclude : List String) (n : ℕ)
      → TakesKeys (record { name = name; engine = anysearch_engine nil text http exclude n })
  unfolding chosen_search anysearch_engine anysearch_search
  anysearch_engine-TakesKeys nil text http exclude n = record {
    call = λ query lookback. by_lookback query lookback;
  }
    where
      by_lookback :
          (query : String) (lookback now : ℕ) (pool : KeyPool)
          → IsValid pool
          → pool.idx + length pool.keys < u64_mod
          → TakesKey now pool
              (chosen_search lookback (anysearch_engine nil text http exclude n) query now pool)
      by_lookback query zero now pool v fits =
          with_key-TakesKey _ now pool
            (λ key k. anysearch_outcome-key_error nil text http exclude key _ k) v fits
      by_lookback query (suc d) now pool v fits =
          with_key-TakesKey _ now pool
            (λ key k. anysearch_outcome-key_error nil text http exclude key _ k) v fits
