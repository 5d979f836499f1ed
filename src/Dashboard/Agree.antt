-- ===== src/Dashboard/Agree.antt =====
-- The active sources of the modes engine and hybrid (pkg/dashboard/sources.go), and the engines that
-- their builders list (pkg/search/mode/factory.go).
use websearch_mcpserver_dash.Prelude.{
  String, Bool, true, false, ◌&&◌, ◌||◌, ◌≡◌, refl, sym, ap, ◌∙◌, none, some, List, [], ◌∷◌, arith,
  if◌then◌else◌, str_eq,
}
use mathlib.Core.Option
use websearch_mcpserver_dash.Go.{Text}
use websearch_mcpserver_dash.KeyPool.{KeyPool}
use websearch_mcpserver_dash.Modes.Config.{Config}
use websearch_mcpserver_dash.Modes.Pages.{
  init_baidu_web_engine, init_google_engine, init_duck_duck_go_engine, init_bing_engine,
}
use websearch_mcpserver_dash.Modes.Types.{
  EngineChoice, baidu_ai_search, baidu_search, baidu_web, google_page, duck_duck_go_page, bing_page,
}
use websearch_mcpserver_dash.Modes.Build.{
  if_there, hybrid_or_nil, engine_or_hybrid, new_baidu_search_from_conf, tavily_from_conf,
  exa_from_conf, anysearch_from_conf, new_doubao_from_conf, build_engine_mode, build_hybrid_mode,
}
use websearch_mcpserver_dash.Modes.Group.{init_pages, init_pools}
use websearch_mcpserver_dash.Dashboard.Catalog.{has_keys, api_configured, engine_configured}
use websearch_mcpserver_dash.Dashboard.Running.{
  present, is_source, any_source, runs, any_source-if_there,
}

present-if : {A : Type 0} (b : Bool) (x : A) → present (if b then some x else none) ≡ b
present-if true x = refl
present-if false x = refl

-- The page engine of Baidu stands between the keyed engines.
between :
    (a b c d e w r : Bool)
    → ((a || b || c || d || e) || (w || r)) ≡ (a || (b || (w || (c || (d || (e || r))))))
between a b c d e w r = ground arith

pages_right : (w b g d : Bool) → (w || b || g || d) ≡ (w || (b || (g || (d || false))))
pages_right w b g d = ground arith

module _ {F : Type 0} (text : Text) (conf : Config F) where
  -- A list of keys is empty or has a key that is not blank.
  pub record Keyed : Type 0 where
    pub anysearch : present (init_pools text conf).anysearch ≡ has_keys conf.anysearch.keys
    pub baidu : present (init_pools text conf).baidu ≡ has_keys conf.baidu.keys
    pub tavily : present (init_pools text conf).tavily ≡ has_keys conf.tavily.keys
    pub exa : present (init_pools text conf).exa ≡ has_keys conf.exa.keys
    pub doubao : present (init_pools text conf).doubao ≡ has_keys conf.doubao.keys

  runs-engine_or_hybrid :
      (id : String) (es : List EngineChoice)
      → runs id (engine_or_hybrid text conf es) ≡ any_source id es
  unfolding any_source
  runs-engine_or_hybrid id [] = refl
  runs-engine_or_hybrid id (e ∷ []) = ground arith
  runs-engine_or_hybrid id (e ∷ d ∷ es) = refl

  runs-hybrid_or_nil :
      (id : String) (es : List EngineChoice)
      → runs id (hybrid_or_nil text conf es) ≡ any_source id es
  unfolding any_source
  runs-hybrid_or_nil id [] = refl
  runs-hybrid_or_nil id (e ∷ es) = refl

  pub is_source-baidu :
      (id : String) (pool : KeyPool)
      → is_source id (new_baidu_search_from_conf text conf pool) ≡ str_eq id "baidu"
  unfolding is_source
  is_source-baidu id pool = by_kind conf.baidu.enable_ai_search
    where
      by_kind :
          (b : Bool)
          → is_source id (
              if b
              then baidu_ai_search pool conf.black_list_host conf.baidu.model
                  conf.baidu.search_source conf.baidu.enable_reasoning conf.baidu.enable_deep_search
                  conf.baidu.search_mode
              else baidu_search pool conf.black_list_host)
            ≡ str_eq id "baidu"
      by_kind true = refl
      by_kind false = refl

  module _ (id : String) where
    abbrev switched : String → Bool → Bool
    switched name on = str_eq id name && on

    web : present (init_baidu_web_engine text conf) ≡ conf.baidu.web_enabled
    web = present-if _ _

    bing : present (init_bing_engine text conf) ≡ conf.bing_enabled
    bing = present-if _ _

    google : present (init_google_engine text conf) ≡ conf.google_enabled
    google = present-if _ _

    duck :
        present (init_duck_duck_go_engine text conf) ≡ (conf.duck_duck_go_enabled && conf.has_proxy)
    duck = present-if _ _

    -- The page engines that stand last in both lists.
    abbrev from_bing : List EngineChoice
    from_bing = if_there (Option.map bing_page (init_bing_engine text conf)) (
        if_there (Option.map google_page (init_google_engine text conf))
          (if_there (Option.map duck_duck_go_page (init_duck_duck_go_engine text conf)) []))

    abbrev last_pages : Bool
    last_pages =
        switched "bing" conf.bing_enabled
        || (switched "google" conf.google_enabled
            || (switched "duckduckgo" (conf.duck_duck_go_enabled && conf.has_proxy) || false))

    any_source-from_bing : any_source id from_bing ≡ last_pages
    unfolding is_source any_source
    any_source-from_bing =
        let from_duck =
          if_there (Option.map duck_duck_go_page (init_duck_duck_go_engine text conf)) [] in
        let from_google =
          if_there (Option.map google_page (init_google_engine text conf)) from_duck in
        any_source-if_there id "bing" bing_page (λ o. refl) _ _ bing from_google _
          (any_source-if_there id "google" google_page (λ o. refl) _ _ google from_duck _
            (any_source-if_there id "duckduckgo" duck_duck_go_page (λ o. refl) _ _ duck [] false
              refl))

    runs-engine :
        runs id (build_engine_mode text conf (init_pages text conf))
        ≡ (switched "baidu_web" conf.baidu.web_enabled || last_pages)
    unfolding build_engine_mode is_source
    runs-engine =
        runs-engine_or_hybrid id
          (if_there (Option.map baidu_web (init_baidu_web_engine text conf)) from_bing)
        ∙ any_source-if_there id "baidu_web" baidu_web (λ o. refl) _ _ web from_bing _
            any_source-from_bing

    runs-hybrid :
        Keyed
        → runs id (build_hybrid_mode text conf (init_pages text conf) (init_pools text conf)) ≡ (
            switched "anysearch" (has_keys conf.anysearch.keys)
            || (switched "baidu" (has_keys conf.baidu.keys)
                || (switched "baidu_web" conf.baidu.web_enabled
                    || (switched "tavily" (has_keys conf.tavily.keys)
                        || (switched "exa" (has_keys conf.exa.keys)
                            || (switched "doubao" (has_keys conf.doubao.keys) || last_pages))))))
    unfolding build_hybrid_mode is_source
    runs-hybrid keyed =
        let pools = init_pools text conf in
        let from_doubao =
          if_there (Option.map (new_doubao_from_conf text conf) pools.doubao) from_bing in
        let from_exa = if_there (Option.map (exa_from_conf text conf) pools.exa) from_doubao in
        let from_tavily =
          if_there (Option.map (tavily_from_conf text conf) pools.tavily) from_exa in
        let from_web =
          if_there (Option.map baidu_web (init_baidu_web_engine text conf)) from_tavily in
        let from_baidu =
          if_there (Option.map (new_baidu_search_from_conf text conf) pools.baidu) from_web in
        let from_anysearch =
          if_there (Option.map (anysearch_from_conf text conf) pools.anysearch) from_baidu in
        runs-hybrid_or_nil id from_anysearch
        ∙ any_source-if_there id "anysearch" (anysearch_from_conf text conf) (λ p. refl) _ _
            keyed.anysearch from_baidu _
            (any_source-if_there id "baidu" (new_baidu_search_from_conf text conf)
              (is_source-baidu id) _ _ keyed.baidu from_web _
              (any_source-if_there id "baidu_web" baidu_web (λ o. refl) _ _ web from_tavily _
                (any_source-if_there id "tavily" (tavily_from_conf text conf) (λ p. refl) _ _
                  keyed.tavily from_exa _
                  (any_source-if_there id "exa" (exa_from_conf text conf) (λ p. refl) _ _ keyed.exa
                    from_doubao _
                    (any_source-if_there id "doubao" (new_doubao_from_conf text conf) (λ p. refl) _
                      _ keyed.doubao from_bing _ any_source-from_bing)))))

    engine_configured-right : engine_configured text conf id ≡ (
        switched "baidu_web" conf.baidu.web_enabled
        || (switched "bing" conf.bing_enabled
            || (switched "google" conf.google_enabled
                || (switched "duckduckgo" (conf.duck_duck_go_enabled && conf.has_proxy) || false))))
    unfolding engine_configured
    engine_configured-right =
        pages_right (switched "baidu_web" conf.baidu.web_enabled)
          (switched "bing" conf.bing_enabled) (switched "google" conf.google_enabled)
          (switched "duckduckgo" (conf.duck_duck_go_enabled && conf.has_proxy))

    pub engine-agrees :
        engine_configured text conf id
        ≡ runs id (build_engine_mode text conf (init_pages text conf))
    engine-agrees = engine_configured-right ∙ sym runs-engine

    pub hybrid-agrees :
        Keyed
        → (api_configured text conf id || engine_configured text conf id)
          ≡ runs id (build_hybrid_mode text conf (init_pages text conf) (init_pools text conf))
    unfolding api_configured
    hybrid-agrees keyed =
        ap (λ b. api_configured text conf id || b) engine_configured-right
        ∙ between (switched "anysearch" (has_keys conf.anysearch.keys))
            (switched "baidu" (has_keys conf.baidu.keys))
            (switched "tavily" (has_keys conf.tavily.keys))
            (switched "exa" (has_keys conf.exa.keys))
            (switched "doubao" (has_keys conf.doubao.keys))
            (switched "baidu_web" conf.baidu.web_enabled)
            (switched "bing" conf.bing_enabled
              || (switched "google" conf.google_enabled
                  || (switched "duckduckgo" (conf.duck_duck_go_enabled && conf.has_proxy)
                      || false)))
        ∙ sym (runs-hybrid keyed)
