-- ===== src/Provider/AllKeyed.antt =====
-- The engines of pkg/search/provider that take a key at each call, together.
use websearch_mcpserver_dash.Prelude.{ℕ, zero, suc, ◌≡◌, refl, sym, String, List}
use mathlib.Core.Path.{subst}
use websearch_mcpserver_dash.Go.{Text}
use websearch_mcpserver_dash.KeyPool.{KeyPool}
use websearch_mcpserver_dash.ApiPool.{Outcome, err, key_error, Engine, chosen_search}
use websearch_mcpserver_dash.Provider.Request.{
  Reply, TakesKey, TakesKeys, with_key, with_key-TakesKey,
}
use websearch_mcpserver_dash.Provider.Tavily.{TavilyResult, tavily_engine}
use websearch_mcpserver_dash.Provider.Exa.{ExaResult, exa_engine}
use websearch_mcpserver_dash.Provider.Anysearch.{AnysearchBody, anysearch_engine}
use websearch_mcpserver_dash.Provider.Baidu.{
  Reference, BaiduAiBody, recency_for, baidu_api_search, baidu_api_engine, baidu_outcome,
  baidu_outcome-key_error, baidu_ai_search, baidu_ai_engine, baidu_ai_outcome,
  baidu_ai_outcome-key_error,
}
use websearch_mcpserver_dash.Provider.Keyed.{
  tavily_engine-TakesKeys, exa_engine-TakesKeys, anysearch_engine-TakesKeys,
}

-- An engine each of whose calls is one request with a key, by whose key its errors are named.
module _ {F : Type 0} (name : String) (e : Engine F KeyPool)
    (use_key : ℕ → String → ℕ → String → Outcome F)
    (is_request : (lookback : ℕ) (query : String) (now : ℕ) (pool : KeyPool)
      → chosen_search lookback e query now pool ≡ with_key (use_key lookback query now) now pool)
    (names : (lookback : ℕ) (query : String) (now : ℕ) (key k : String)
      → use_key lookback query now key ≡ err (key_error k)
      → k ≡ key) where
  request-TakesKeys : TakesKeys (record { name = name; engine = e })
  request-TakesKeys = record {
    call = λ query lookback now pool v fits.
        subst (TakesKey now pool) (sym (is_request lookback query now pool)) (
          with_key-TakesKey (use_key lookback query now) now pool (names lookback query now) v
            fits);
  }

module _ {F : Type 0} (nil : F) where
  baidu_api-request :
      (http : ℕ → String → String → String → Reply (List Reference)) (lookback : ℕ) (query : String)
      (now : ℕ) (pool : KeyPool)
      → chosen_search lookback (baidu_api_engine nil http) query now pool
        ≡ with_key
            (λ key. baidu_outcome nil http key (http now key query (recency_for lookback)))
            now
            pool
  unfolding chosen_search baidu_api_engine baidu_api_search
  baidu_api-request http zero query now pool = refl
  baidu_api-request http (suc d) query now pool = refl

  baidu_ai-request :
      (http : ℕ → String → String → String → Reply BaiduAiBody) (lookback : ℕ) (query : String)
      (now : ℕ) (pool : KeyPool)
      → chosen_search lookback (baidu_ai_engine nil http) query now pool
        ≡ with_key
            (λ key. baidu_ai_outcome nil http key (http now key query (recency_for lookback)))
            now
            pool
  unfolding chosen_search baidu_ai_engine baidu_ai_search
  baidu_ai-request http zero query now pool = refl
  baidu_ai-request http (suc d) query now pool = refl

  -- Whatever the APIs reply, and whichever of its two methods is called, each of the engines of Tavily,
  -- Exa, AnySearch and the two of Baidu takes exactly one key by Next and leaves the pool as this Next
  -- does, and a KeyError that it returns names that key.
  pub engines-TakesKeys :
      (text : Text) (join : List String → String)
      (tavily : ℕ → String → String → String → Reply (List (TavilyResult F)))
      (exa : ℕ → String → String → ℕ → Reply (List ExaResult))
      (anysearch : ℕ → String → String → ℕ → Reply AnysearchBody)
      (baidu_api : ℕ → String → String → String → Reply (List Reference))
      (baidu_ai : ℕ → String → String → String → Reply BaiduAiBody) (range : String) (days n : ℕ)
      (exclude : List String) (name : String)
      → TakesKeys (record { name = name; engine = tavily_engine text.trim_space tavily range })
        × TakesKeys (record { name = name; engine = exa_engine nil text.trim_space join exa days })
        × TakesKeys (record { name = name; engine = anysearch_engine nil text anysearch exclude n })
        × TakesKeys (record { name = name; engine = baidu_api_engine nil baidu_api })
        × TakesKeys (record { name = name; engine = baidu_ai_engine nil baidu_ai })
  engines-TakesKeys text join tavily exa anysearch baidu_api baidu_ai range days n exclude name = (
    tavily_engine-TakesKeys name text.trim_space tavily range,
    exa_engine-TakesKeys name nil text.trim_space join exa days,
    anysearch_engine-TakesKeys name nil text anysearch exclude n,
    request-TakesKeys name (baidu_api_engine nil baidu_api)
        (λ lookback query now key.
          baidu_outcome nil baidu_api key (baidu_api now key query (recency_for lookback)))
        (baidu_api-request baidu_api)
        (λ lookback query now key k.
          baidu_outcome-key_error nil baidu_api key (baidu_api now key query (recency_for lookback))
            k),
    request-TakesKeys name (baidu_ai_engine nil baidu_ai)
        (λ lookback query now key.
          baidu_ai_outcome nil baidu_ai key (baidu_ai now key query (recency_for lookback)))
        (baidu_ai-request baidu_ai)
        (λ lookback query now key k.
          baidu_ai_outcome-key_error nil baidu_ai key
            (baidu_ai now key query (recency_for lookback)) k),
  )
