-- ===== src/Provider/Tests.antt =====
-- The engines of the search APIs on concrete replies (pkg/search/provider).
use websearch_mcpserver_dash.Prelude.{
  ℕ, String, Bool, true, false, ◌≡◌, ◌≢◌, refl, none, List, [], ◌∷◌, arith, ltb, leb, str_eq,
}
use websearch_mcpserver_dash.Core.{Float}
use websearch_mcpserver_dash.Go.{Text}
use websearch_mcpserver_dash.KeyPool.{KeyPool, IsValid, available}
use websearch_mcpserver_dash.ApiPool.{retry, out_of_fuel}
use websearch_mcpserver_dash.Provider.Request.{
  TakesKey, TakesKeys, Reply, response, transport_error,
}
use websearch_mcpserver_dash.Provider.Tavily.{TavilyResult, tavily_engine}
use websearch_mcpserver_dash.Provider.Exa.{ExaResult, exa_engine}
use websearch_mcpserver_dash.Provider.Anysearch.{AnysearchBody, anysearch_engine}
use websearch_mcpserver_dash.Provider.Baidu.{
  Reference, BaiduAiBody, baidu_api_engine, baidu_ai_engine,
}
use websearch_mcpserver_dash.Provider.Doubao.{DoubaoSearch, GlobalBody}
use websearch_mcpserver_dash.Provider.DoubaoSearch.{
  is_bad_query, doubao_search_raw, doubao_engine, doubao_search_raw-TakesKey,
}
use websearch_mcpserver_dash.Provider.DoubaoLoop.{retry-never_ends}
use websearch_mcpserver_dash.Provider.AllKeyed.{engines-TakesKeys}

abbrev plain : String → String
plain s = s

-- Every request is answered with 401.
abbrev refused_tavily : ℕ → String → String → String → Reply (List (TavilyResult ℕ))
refused_tavily now key query range = response 401 []

abbrev refused_exa : ℕ → String → String → ℕ → Reply (List ExaResult)
refused_exa now key query days = response 401 []

abbrev refused_anysearch : ℕ → String → String → ℕ → Reply AnysearchBody
refused_anysearch now key query n = response 401 (record { code = 401; results = [] })

abbrev first_of : List String → String
first_of [] = ""
first_of (s ∷ ss) = s

-- Texts on which no operation does anything.
abbrev inert : Text
inert = record {
  trim_space = plain;
  to_lower = plain;
  has_suffix = λ s suffix. false;
  trim_prefix = λ s prefix. s;
  concat = λ s t. s;
  parsed_host = λ u. none;
}

abbrev refused_baidu : ℕ → String → String → String → Reply (List Reference)
refused_baidu now key query range = response 401 []

abbrev refused_baidu_ai : ℕ → String → String → String → Reply BaiduAiBody
refused_baidu_ai now key query range = response 401 (record { choices = []; references = [] })

engines-TakesKeys_example :
    TakesKeys {F = ℕ} (record { name = "p"; engine = tavily_engine plain refused_tavily "week" })
    × TakesKeys {F = ℕ} (record { name = "p"; engine = exa_engine 0 plain first_of refused_exa 7 })
    × TakesKeys {F = ℕ} (record {
      name = "p";
      engine = anysearch_engine 0 inert refused_anysearch ("a.com" ∷ []) 10;
    })
    × TakesKeys {F = ℕ} (record { name = "p"; engine = baidu_api_engine 0 refused_baidu })
    × TakesKeys {F = ℕ} (record { name = "p"; engine = baidu_ai_engine 0 refused_baidu_ai })
engines-TakesKeys_example =
    engines-TakesKeys 0 inert first_of refused_tavily refused_exa refused_anysearch refused_baidu
      refused_baidu_ai "week" 7 10 ("a.com" ∷ []) "p"

abbrev whole : Float ℕ
whole = record { nil = 0; lt = ltb; le = leb }

abbrev contains : String → String → Bool
contains s part = str_eq s part

-- Every query counts as one of 101 characters.
abbrev long : String → ℕ
long s = 101

abbrev short : String → ℕ
short s = 2

abbrev no_body : Reply GlobalBody
no_body = response 429 (record { metadata_error = none; result = none })

abbrev doubao : DoubaoSearch
doubao = record {
  num_results = 10;
  exclude_domains = [];
  is_custom = false;
  time_range = "";
  max_snippet_length = 0;
  max_image_count_per_doc = 0;
}

abbrev two_keys : KeyPool
two_keys = record { keys = "k1" ∷ "k2" ∷ []; states = none ∷ none ∷ []; idx = 0; last_key = none }

two_keys-IsValid : IsValid two_keys
two_keys-IsValid = record {
  nonempty = omega arith;
  matched = refl;
  distinct = (refl, (refl, tt));
  counter = omega arith;
}

short_is_fine : is_bad_query inert short "go" ≡ false
unfolding is_bad_query
short_is_fine = refl

long_is_bad : is_bad_query inert long "go" ≡ true
unfolding is_bad_query
long_is_bad = refl

two_usable : (now : ℕ) → available now two_keys ≢ 0
unfolding available
two_usable now h = absurd (omega (arith, h))

doubao_search_raw-TakesKey_example : TakesKey 50 two_keys (
    doubao_search_raw inert contains first_of short whole
      (λ now key q. no_body)
      (λ now key d q. transport_error)
      doubao
      "go"
      50
      two_keys)
doubao_search_raw-TakesKey_example =
    doubao_search_raw-TakesKey inert contains first_of short whole (λ now key q. no_body)
      (λ now key d q. transport_error) doubao "go" 50 two_keys short_is_fine two_keys-IsValid
      (omega arith)

-- Both keys stay available, since none was used.
retry-never_ends_example :
    (retry
      (λ t. t)
      4
      "go"
      90
      1000
      (record {
        name = "doubao";
        engine =
            doubao_engine inert contains first_of long whole
              (λ now key q. no_body)
              (λ now key d q. transport_error)
              doubao;
      })
      0
      two_keys).end
    ≡ out_of_fuel
retry-never_ends_example =
    retry-never_ends inert contains first_of long whole (λ now key q. no_body)
      (λ now key d q. transport_error) doubao "doubao" "go" (λ t. t) 4 90 1000 0 two_keys
      long_is_bad refl two_usable
