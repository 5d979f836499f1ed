-- ===== src/Dashboard/Running.antt =====
-- The engines that a search runs, by the names under which the dashboard lists them.
use websearch_mcpserver_dash.Prelude.{
  String, Bool, true, false, ◌&&◌, ◌||◌, ◌≡◌, refl, Option, none, some, List, [], ◌∷◌, arith,
  str_eq,
}
use mathlib.Core.Option
use websearch_mcpserver_dash.Modes.Types.{
  EngineChoice, anysearch_search, baidu_ai_search, baidu_search, tavily_search, exa_search,
  doubao_search, baidu_web, google_page, duck_duck_go_page, bing_page, nil_bing,
  baidu_with_fallback, ProviderChoice, SearchInf, nil_search, one, hybrid_search, apipool_search,
}
use websearch_mcpserver_dash.Modes.Build.{if_there}

abbrev pub present : {A : Type 0} → Option A → Bool
present none = false
present (some x) = true

-- Whether the engine, or one that it falls back to, is the named source.
unfoldable pub is_source : String → EngineChoice → Bool
is_source id (anysearch_search pool n blocked) = str_eq id "anysearch"
is_source id (baidu_ai_search pool blocked model source reasoning deep mode) = str_eq id "baidu"
is_source id (baidu_search pool blocked) = str_eq id "baidu"
is_source id (tavily_search pool blocked raw) = str_eq id "tavily"
is_source id (exa_search pool n days blocked size) = str_eq id "exa"
is_source id (doubao_search pool options) = str_eq id "doubao"
is_source id (baidu_web o) = str_eq id "baidu_web"
is_source id (google_page o) = str_eq id "google"
is_source id (duck_duck_go_page o) = str_eq id "duckduckgo"
is_source id (bing_page o) = str_eq id "bing"
is_source id nil_bing = false
is_source id (baidu_with_fallback primary fallback) = is_source id primary || is_source id fallback

unfoldable pub any_source : String → List EngineChoice → Bool
any_source id [] = false
any_source id (e ∷ es) = is_source id e || any_source id es

unfoldable pub any_provider : String → List ProviderChoice → Bool
any_provider id [] = false
any_provider id (p ∷ ps) = is_source id p.engine || any_provider id ps

abbrev pub runs : {F : Type 0} → String → SearchInf F → Bool
runs id nil_search = false
runs id (one e) = is_source id e
runs id (hybrid_search es s) = any_source id es
runs id (apipool_search s ps ws n) = any_provider id ps

-- The next engine of a list, if it is there, is the source `name`.
pub any_source-if_there :
    {A : Type 0} (id name : String) (from : A → EngineChoice)
    → ((x : A) → is_source id (from x) ≡ str_eq id name)
    → (o : Option A) (here : Bool) → present o ≡ here
    → (es : List EngineChoice) (rest : Bool) → any_source id es ≡ rest
    → any_source id (if_there (Option.map from o) es) ≡ ((str_eq id name && here) || rest)
unfolding any_source
any_source-if_there id name from is none here h es rest k = ground (arith, h, k)
any_source-if_there id name from is (some x) here h es rest k = ground (arith, h, k, is x)

pub any_provider-if_there :
    (id : String) (o : Option ProviderChoice) (ps : List ProviderChoice)
    → any_provider id (if_there o ps) ≡ (any_provider id (if_there o []) || any_provider id ps)
unfolding any_provider
any_provider-if_there id none ps = refl
any_provider-if_there id (some p) ps = ground arith
