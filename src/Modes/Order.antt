-- ===== src/Modes/Order.antt =====
-- Which providers an API pool gets, and in which order (BuildApipoolMode in pkg/search/mode/factory.go).
use websearch_mcpserver_dash.Prelude.{
  String, Bool, true, false, ◌≡◌, refl, sym, ap, ◌∙◌, Option, none, some, List, [], ◌∷◌, ◌++◌, map,
  if◌then◌else◌, keep, str_eq, eq_iff,
}
use websearch_mcpserver_dash.Go.{Text}
use websearch_mcpserver_dash.KeyPool.{KeyPool}
use websearch_mcpserver_dash.Modes.Config.{Config, get_mode, apipool_mode, get_engines}
use websearch_mcpserver_dash.Modes.Pages.{PageOptions, init_baidu_web_engine}
use websearch_mcpserver_dash.Modes.Types.{
  EngineChoice, anysearch_search, baidu_ai_search, baidu_search, tavily_search, exa_search,
  doubao_search, baidu_web, google_page, duck_duck_go_page, bing_page, nil_bing,
  baidu_with_fallback, ProviderChoice, SearchInf, nil_search, one, hybrid_search, apipool_search,
  Pools,
}
use websearch_mcpserver_dash.Modes.Build.{
  if_there, anysearch_from_conf, new_baidu_search_from_conf, tavily_from_conf, exa_from_conf,
  new_doubao_from_conf, provider_of, apipool_provider, apipool_providers, build_apipool_mode,
  apipool_or_nil,
}
use websearch_mcpserver_dash.Modes.Group.{init_pages, init_pools, build_mode, new_from_config}

abbrev is_there : Option KeyPool → Bool
is_there none = false
is_there (some pool) = true

-- The pool of a provider by its name; a name that is not known has none.
abbrev pub pool_of : Pools → String → Option KeyPool
pool_of pools name =
    if str_eq name "anysearch"
    then pools.anysearch
    else if str_eq name "baidu"
    then pools.baidu
    else if str_eq name "tavily"
    then pools.tavily
    else if str_eq name "exa"
    then pools.exa
    else if str_eq name "doubao"
    then pools.doubao
    else none

abbrev pub has_pool : Pools → String → Bool
has_pool pools name = is_there (pool_of pools name)

-- The provider that an engine searches.
abbrev pub source_of : EngineChoice → String
source_of (anysearch_search pool n blocked) = "anysearch"
source_of (baidu_ai_search pool blocked model source reasoning deep mode) = "baidu"
source_of (baidu_search pool blocked) = "baidu"
source_of (tavily_search pool blocked raw) = "tavily"
source_of (exa_search pool n days blocked size) = "exa"
source_of (doubao_search pool options) = "doubao"
source_of (baidu_web o) = "baidu_web"
source_of (google_page o) = "google"
source_of (duck_duck_go_page o) = "duckduckgo"
source_of (bing_page o) = "bing"
source_of nil_bing = ""
source_of (baidu_with_fallback primary fallback) = ""

-- A provider's name, what its engine searches, and the pool that it marks.
abbrev pub Listed : Type 0
Listed = String × String × Option KeyPool

abbrev pub listed : ProviderChoice → Listed
listed p = (p.name, source_of p.engine, p.pool)

-- The providers of an API pool; without any there is to be no search engine.
abbrev pub providers_of : {F : Type 0} → SearchInf F → Option (List Listed)
providers_of nil_search = none
providers_of (one e) = some []
providers_of (hybrid_search es s) = some []
providers_of (apipool_search s ps ws n) = some (map listed ps)

abbrev pub unless_empty : List Listed → Option (List Listed)
unless_empty [] = none
unless_empty (x ∷ xs) = some (x ∷ xs)

-- The provider of a name that has a pool.
abbrev pub keyed_listed : Pools → String → Listed
keyed_listed pools name = (name, name, pool_of pools name)

abbrev pub web_listed : Option PageOptions → List Listed
web_listed none = []
web_listed (some o) = ("baidu_web", "baidu_web", none) ∷ []

abbrev as_list : Option ProviderChoice → List Listed
as_list none = []
as_list (some p) = listed p ∷ []

abbrev if_pool : String → Option KeyPool → List Listed
if_pool name pool = if is_there pool then (name, name, pool) ∷ [] else []

if_pool-append :
    (name : String) (pool : Option KeyPool) (names : List String) (rest : String → Listed)
    (tail : List Listed)
    → rest name ≡ (name, name, pool)
    → if_pool name pool ++ (map rest names ++ tail)
      ≡ map rest (if is_there pool then name ∷ names else names) ++ tail
if_pool-append name none names rest tail e = refl
if_pool-append name (some pool) names rest tail e = ap (λ x. x ∷ map rest names ++ tail) (sym e)

module _ {F : Type 0} (text : Text) (conf : Config F) where
  source_of-baidu :
      (pool : KeyPool) → source_of (new_baidu_search_from_conf text conf pool) ≡ "baidu"
  source_of-baidu pool = by_kind conf.baidu.enable_ai_search
    where
      by_kind :
          (b : Bool)
          → source_of (
              if b
              then baidu_ai_search pool conf.black_list_host conf.baidu.model
                  conf.baidu.search_source conf.baidu.enable_reasoning conf.baidu.enable_deep_search
                  conf.baidu.search_mode
              else baidu_search pool conf.black_list_host)
            ≡ "baidu"
      by_kind true = refl
      by_kind false = refl

  provider_of-listed :
      (name known : String) (from_conf : KeyPool → EngineChoice) (pool other : Option KeyPool)
      (rest : Option ProviderChoice) (b : Bool)
      → ((p : KeyPool) → source_of (from_conf p) ≡ known)
      → str_eq name known ≡ b
      → as_list rest ≡ if_pool name other
      → as_list (if b then provider_of text conf known from_conf pool else rest)
        ≡ if_pool name (if b then pool else other)
  provider_of-listed name known from_conf none other rest true is e h = refl
  provider_of-listed name known from_conf (some pool) other rest true is e h =
      let same : name ≡ known = (eq_iff name known).0 e in
      λ i. (sym same i, (is pool ∙ sym same) i, some pool) ∷ []
  provider_of-listed name known from_conf pool other rest false is e h = h

  apipool_provider-listed :
      (pools : Pools) (name : String)
      → as_list (apipool_provider text conf pools name) ≡ if_pool name (pool_of pools name)
  unfolding apipool_provider
  apipool_provider-listed pools name =
      let is : String → Bool = str_eq name in
      provider_of-listed name "anysearch" (anysearch_from_conf text conf) pools.anysearch _ _
        (is "anysearch") (λ p. refl) refl
        (provider_of-listed name "baidu" (new_baidu_search_from_conf text conf) pools.baidu _ _
          (is "baidu") source_of-baidu refl
          (provider_of-listed name "tavily" (tavily_from_conf text conf) pools.tavily _ _
            (is "tavily") (λ p. refl) refl
            (provider_of-listed name "exa" (exa_from_conf text conf) pools.exa _ _ (is "exa")
              (λ p. refl) refl
              (provider_of-listed name "doubao" (new_doubao_from_conf text conf) pools.doubao none
                none (is "doubao") (λ p. refl) refl refl))))

  if_there-listed :
      (o : Option ProviderChoice) (ps : List ProviderChoice)
      → map listed (if_there o ps) ≡ as_list o ++ map listed ps
  if_there-listed none ps = refl
  if_there-listed (some p) ps = refl

  apipool_providers-listed :
      (pools : Pools) (web : Option PageOptions) (names : List String)
      → map listed (apipool_providers text conf pools web names)
        ≡ map (keyed_listed pools) (keep (has_pool pools) (map text.to_lower names))
          ++ web_listed web
  unfolding apipool_providers
  apipool_providers-listed pools (some o) [] = refl
  apipool_providers-listed pools none [] = refl
  apipool_providers-listed pools web (name ∷ names) =
      let n = text.to_lower name in
      let rest = keep (has_pool pools) (map text.to_lower names) in
      if_there-listed (apipool_provider text conf pools n)
        (apipool_providers text conf pools web names)
      ∙ (λ i. apipool_provider-listed pools n i ++ apipool_providers-listed pools web names i)
      ∙ if_pool-append n (pool_of pools n) rest (keyed_listed pools) (web_listed web) refl

  apipool_or_nil-listed :
      (ps : List ProviderChoice)
      → providers_of (apipool_or_nil text conf ps) ≡ unless_empty (map listed ps)
  apipool_or_nil-listed [] = refl
  apipool_or_nil-listed (p ∷ ps) = refl

  -- In the mode apipool the providers are the configured engines which have a pool of keys, in the
  -- configured order and under their names in lower case, each with an engine of its name and with the
  -- pool of that name, and after them Baidu's page engine, without a pool, if it is enabled; without any of
  -- these there is no search engine.
  pub new_from_config-providers :
      get_mode text conf.mode ≡ apipool_mode
      → providers_of (new_from_config text conf)
        ≡ unless_empty (
            map (keyed_listed (init_pools text conf)) (
              keep (has_pool (init_pools text conf)) (map text.to_lower (get_engines conf.apipool)))
            ++ web_listed (init_baidu_web_engine text conf))
  unfolding new_from_config build_apipool_mode
  new_from_config-providers mode =
      ap (λ m. providers_of (build_mode text conf m (init_pages text conf) (init_pools text conf)))
        mode
      ∙ apipool_or_nil-listed (
          apipool_providers text conf (init_pools text conf) (init_baidu_web_engine text conf)
            (get_engines conf.apipool))
      ∙ ap unless_empty (
          apipool_providers-listed (init_pools text conf) (init_baidu_web_engine text conf)
            (get_engines conf.apipool))
