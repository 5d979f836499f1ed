-- ===== src/Modes/Build.antt =====
-- The search engine of each mode (pkg/search/mode/factory.go).
use websearch_mcpserver_dash.Prelude.{
  ℕ, String, Bool, true, Option, none, some, List, [], ◌∷◌, ◌==◌, if◌then◌else◌, str_eq,
}
use mathlib.Core.Option
use websearch_mcpserver_dash.Go.{Text}
use websearch_mcpserver_dash.KeyPool.{KeyPool}
use websearch_mcpserver_dash.Modes.Pages.{PageOptions}
use websearch_mcpserver_dash.Modes.Types.{
  EngineChoice, anysearch_search, baidu_ai_search, baidu_search, tavily_search, exa_search,
  doubao_search, baidu_web, google_page, duck_duck_go_page, bing_page, nil_bing,
  baidu_with_fallback, ProviderChoice, HybridSettings, SearchInf, nil_search, one, hybrid_search,
  apipool_search, Pages, Pools,
}
use websearch_mcpserver_dash.Modes.Config.{
  Config, get_version, get_strategy, get_engines, get_weights,
}

-- `if x != nil { engines = append(engines, x) }`, before the engines that follow.
abbrev pub if_there : {A : Type 0} → Option A → List A → List A
if_there none rest = rest
if_there (some e) rest = e ∷ rest

-- A *bool whose default is true.
abbrev pub unless_false : Option Bool → Bool
unless_false none = true
unless_false (some b) = b

abbrev pub or_number : ℕ → ℕ → ℕ
or_number n def = if n == 0 then def else n

-- The *BingSearchAdapter as an interface.
abbrev pub fallback_search : {F : Type 0} → Pages → SearchInf F
fallback_search pages = elim pages.bing [ none ↦ one nil_bing | some o ↦ one (bing_page o) ]

module _ {F : Type 0} (text : Text) (conf : Config F) where
  abbrev pub apply_smart_search_filters : HybridSettings F
  apply_smart_search_filters = record {
    max_size = conf.smart_search.max_size;
    enhance = unless_false conf.smart_search.enhance;
    relevance_threshold = conf.smart_search.relevance_threshold;
    mmr = conf.smart_search.mmr;
    engine_map = conf.smart_search.engines;
  }

  abbrev pub anysearch_from_conf : KeyPool → EngineChoice
  anysearch_from_conf pool = anysearch_search pool conf.anysearch.num_results conf.black_list_host

  abbrev pub new_baidu_search_from_conf : KeyPool → EngineChoice
  new_baidu_search_from_conf pool =
      let c = conf.baidu in
      if c.enable_ai_search
      then baidu_ai_search pool conf.black_list_host c.model c.search_source c.enable_reasoning
          c.enable_deep_search c.search_mode
      else baidu_search pool conf.black_list_host

  -- With tavilyOptions.
  abbrev pub tavily_from_conf : KeyPool → EngineChoice
  tavily_from_conf pool =
      tavily_search pool conf.black_list_host (unless_false conf.tavily.include_raw_content)

  -- With exaOptions.
  abbrev pub exa_from_conf : KeyPool → EngineChoice
  exa_from_conf pool =
      exa_search pool (or_number conf.exa.num_results 5) (or_number conf.exa.lookback_days 90)
        conf.black_list_host
        (if unless_false conf.exa.include_text then some conf.exa.text_max_characters else none)

  abbrev pub new_doubao_from_conf : KeyPool → EngineChoice
  new_doubao_from_conf pool =
      let c = conf.doubao in
      doubao_search pool (record {
        num_results = c.num_results;
        exclude_domains = conf.black_list_host;
        version = get_version text c;
        time_range = c.time_range;
        auth_level = c.auth_level;
        query_rewrite = c.query_rewrite;
        need_content = c.need_content;
        max_snippet_length = c.max_snippet_length;
        max_image_count_per_doc = c.max_image_count_per_doc;
        icp_host_only = c.icp_host_only;
      })

  abbrev pub hybrid_or_nil : List EngineChoice → SearchInf F
  hybrid_or_nil [] = nil_search
  hybrid_or_nil (e ∷ es) = hybrid_search (e ∷ es) apply_smart_search_filters

  abbrev pub engine_or_hybrid : List EngineChoice → SearchInf F
  engine_or_hybrid [] = nil_search
  engine_or_hybrid (e ∷ []) = one e
  engine_or_hybrid (e ∷ d ∷ es) = hybrid_search (e ∷ d ∷ es) apply_smart_search_filters

  unfoldable pub build_engine_mode : Pages → SearchInf F
  build_engine_mode pages = engine_or_hybrid (
      if_there (Option.map baidu_web pages.baidu) (
        if_there (Option.map bing_page pages.bing) (
          if_there (Option.map google_page pages.google)
            (if_there (Option.map duck_duck_go_page pages.duck_duck_go) []))))

  unfoldable pub build_baidu_mode : Pages → Option KeyPool → SearchInf F
  build_baidu_mode pages (some pool) =
      let primary = new_baidu_search_from_conf pool in
      elim pages.baidu [
        | none ↦ one primary
        | some o ↦ one (baidu_with_fallback primary (baidu_web o))
      ]
  build_baidu_mode pages none = elim pages.baidu [
    | some o ↦ one (baidu_web o)
    | none ↦ elim pages.bing [ none ↦ nil_search | some o ↦ one (bing_page o) ]
  ]

  -- BuildTavilyMode, BuildExaMode, BuildAnysearchMode and BuildDoubaoMode, each with its constructor.
  unfoldable pub build_provider_mode :
      (KeyPool → EngineChoice) → Pages → Option KeyPool → SearchInf F
  build_provider_mode from_conf pages none = fallback_search pages
  build_provider_mode from_conf pages (some pool) = one (from_conf pool)

  abbrev pub provider_of :
      String → (KeyPool → EngineChoice) → Option KeyPool → Option ProviderChoice
  provider_of name from_conf none = none
  provider_of name from_conf (some pool) =
      some (record { name = name; engine = from_conf pool; pool = some pool })

  -- The switch of BuildApipoolMode over the name of a configured engine.
  unfoldable pub apipool_provider : Pools → String → Option ProviderChoice
  apipool_provider pools name =
      if str_eq name "anysearch"
      then provider_of "anysearch" anysearch_from_conf pools.anysearch
      else if str_eq name "baidu"
      then provider_of "baidu" new_baidu_search_from_conf pools.baidu
      else if str_eq name "tavily"
      then provider_of "tavily" tavily_from_conf pools.tavily
      else if str_eq name "exa"
      then provider_of "exa" exa_from_conf pools.exa
      else if str_eq name "doubao"
      then provider_of "doubao" new_doubao_from_conf pools.doubao
      else none

  unfoldable pub apipool_providers : Pools → Option PageOptions → List String → List ProviderChoice
  apipool_providers pools web [] =
      if_there
        (Option.map (λ o. record { name = "baidu_web"; engine = baidu_web o; pool = none }) web) []
  apipool_providers pools web (name ∷ names) =
      if_there (apipool_provider pools (text.to_lower name)) (apipool_providers pools web names)

  -- Without SetWeights the weights are a nil map.
  abbrev pub apipool_or_nil : List ProviderChoice → SearchInf F
  apipool_or_nil [] = nil_search
  apipool_or_nil (p ∷ ps) =
      let strategy = get_strategy text conf.apipool in
      apipool_search strategy (p ∷ ps)
        (if str_eq strategy "weighted" then get_weights conf.apipool else [])
        conf.smart_search.max_size

  unfoldable pub build_apipool_mode : Pages → Pools → SearchInf F
  build_apipool_mode pages pools =
      apipool_or_nil (apipool_providers pools pages.baidu (get_engines conf.apipool))

  unfoldable pub build_hybrid_mode : Pages → Pools → SearchInf F
  build_hybrid_mode pages pools = hybrid_or_nil (
      if_there (Option.map anysearch_from_conf pools.anysearch) (
        if_there (Option.map new_baidu_search_from_conf pools.baidu) (
          if_there (Option.map baidu_web pages.baidu) (
            if_there (Option.map tavily_from_conf pools.tavily) (
              if_there (Option.map exa_from_conf pools.exa) (
                if_there (Option.map new_doubao_from_conf pools.doubao) (
                  if_there (Option.map bing_page pages.bing) (
                    if_there (Option.map google_page pages.google)
                      (if_there (Option.map duck_duck_go_page pages.duck_duck_go) [])))))))))
