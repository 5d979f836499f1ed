-- ===== src/Modes/Usable.antt =====
-- When a configuration gives an engine that can be called (pkg/search/factory.go).
use websearch_mcpserver_dash.Prelude.{
  Bool, true, false, ◌≡◌, refl, Option, none, some, List, [], ◌∷◌, arith, ap, ◌∙◌, if◌then◌else◌,
}
use mathlib.Core.Option
use websearch_mcpserver_dash.Go.{Text}
use websearch_mcpserver_dash.KeyPool.{KeyPool}
use websearch_mcpserver_dash.Modes.Config.{
  Config, Mode, get_mode, engine_mode, baidu_mode, apipool_mode, tavily_mode, exa_mode,
  anysearch_mode, doubao_mode, hybrid_mode,
}
use websearch_mcpserver_dash.Modes.Pages.{
  PageOptions, page_options, init_baidu_web_engine, init_google_engine, init_duck_duck_go_engine,
}
use websearch_mcpserver_dash.Modes.Types.{
  EngineChoice, SearchInf, nil_search, one, hybrid_search, apipool_search, nil_bing, Pages, Pools,
  baidu_web, bing_page, google_page, duck_duck_go_page,
}
use websearch_mcpserver_dash.Modes.Build.{
  if_there, hybrid_or_nil, new_baidu_search_from_conf, tavily_from_conf, exa_from_conf,
  anysearch_from_conf, new_doubao_from_conf, build_engine_mode, build_baidu_mode,
  build_provider_mode, build_hybrid_mode,
}
use websearch_mcpserver_dash.Modes.Group.{init_pages, init_pools, build_mode, new_from_config}

-- Neither a nil interface nor an interface with a nil pointer.
abbrev pub is_usable : {F : Type 0} → SearchInf F → Bool
is_usable nil_search = false
is_usable (one nil_bing) = false
is_usable (one e) = true
is_usable (hybrid_search es s) = true
is_usable (apipool_search s ps ws n) = true

abbrev pub is_apipool : Mode → Bool
is_apipool apipool_mode = true
is_apipool m = false

abbrev has_engine : List EngineChoice → Bool
has_engine [] = false
has_engine (e ∷ es) = true

has_engine-if_there :
    (o : Option EngineChoice) (es : List EngineChoice)
    → has_engine es ≡ true
    → has_engine (if_there o es) ≡ true
has_engine-if_there none es h = h
has_engine-if_there (some e) es h = refl

-- The page engines of which Bing is one.
abbrev with_bing :
    PageOptions → Option PageOptions → Option PageOptions → Option PageOptions → Pages
with_bing o baidu google duck = record {
  baidu = baidu;
  google = google;
  duck_duck_go = duck;
  bing = some o;
}

module _ {F : Type 0} (text : Text) (conf : Config F) where
  hybrid_or_nil-is_usable :
      (es : List EngineChoice)
      → has_engine es ≡ true
      → is_usable (hybrid_or_nil text conf es) ≡ true
  hybrid_or_nil-is_usable [] h = absurd (cc h)
  hybrid_or_nil-is_usable (e ∷ es) h = refl

  engine-is_usable :
      (o : PageOptions) (baidu google duck : Option PageOptions)
      → is_usable (build_engine_mode text conf (with_bing o baidu google duck)) ≡ true
  unfolding build_engine_mode
  engine-is_usable o (some b) google duck = refl
  engine-is_usable o none (some g) duck = refl
  engine-is_usable o none none (some d) = refl
  engine-is_usable o none none none = refl

  from_conf-is_usable :
      (ai : Bool) (pool : KeyPool)
      → conf.baidu.enable_ai_search ≡ ai
      → is_usable {F = F} (one (new_baidu_search_from_conf text conf pool)) ≡ true
  from_conf-is_usable true pool h = ground (arith, h)
  from_conf-is_usable false pool h = ground (arith, h)

  baidu-is_usable :
      (o : PageOptions) (baidu google duck : Option PageOptions) (pool : Option KeyPool)
      → is_usable (build_baidu_mode text conf (with_bing o baidu google duck) pool) ≡ true
  unfolding build_baidu_mode
  baidu-is_usable o (some b) google duck (some pool) = refl
  baidu-is_usable o none google duck (some pool) =
      from_conf-is_usable conf.baidu.enable_ai_search pool refl
  baidu-is_usable o (some b) google duck none = refl
  baidu-is_usable o none google duck none = refl

  hybrid-is_usable :
      (o : PageOptions) (baidu google duck : Option PageOptions) (pools : Pools)
      → is_usable (build_hybrid_mode text conf (with_bing o baidu google duck) pools) ≡ true
  unfolding build_hybrid_mode
  hybrid-is_usable o baidu google duck pools =
      let bing =
        bing_page o
        ∷ if_there (Option.map google_page google)
            (if_there (Option.map duck_duck_go_page duck) []) in
      let doubao = Option.map (new_doubao_from_conf text conf) pools.doubao in
      let exa = Option.map (exa_from_conf text conf) pools.exa in
      let tavily = Option.map (tavily_from_conf text conf) pools.tavily in
      let web = Option.map baidu_web baidu in
      let qianfan = Option.map (new_baidu_search_from_conf text conf) pools.baidu in
      let anysearch = Option.map (anysearch_from_conf text conf) pools.anysearch in
      let from_doubao = if_there doubao bing in
      let from_exa = if_there exa from_doubao in
      let from_tavily = if_there tavily from_exa in
      let from_web = if_there web from_tavily in
      let from_qianfan = if_there qianfan from_web in
      hybrid_or_nil-is_usable (if_there anysearch from_qianfan) (
        has_engine-if_there anysearch from_qianfan (
          has_engine-if_there qianfan from_web (
            has_engine-if_there web from_tavily (
              has_engine-if_there tavily from_exa
                (has_engine-if_there exa from_doubao (has_engine-if_there doubao bing refl))))))

  provider-is_usable :
      (from_conf : KeyPool → EngineChoice)
      → ((pool : KeyPool) → is_usable {F = F} (one (from_conf pool)) ≡ true)
      → (o : PageOptions) (baidu google duck : Option PageOptions) (pool : Option KeyPool)
      → is_usable (build_provider_mode text conf from_conf (with_bing o baidu google duck) pool)
        ≡ true
  unfolding build_provider_mode
  provider-is_usable from_conf h o baidu google duck none = refl
  provider-is_usable from_conf h o baidu google duck (some pool) = h pool

  build_mode-is_usable :
      (mode : Mode) (o : PageOptions) (baidu google duck : Option PageOptions) (pools : Pools)
      → is_apipool mode ≡ false
      → is_usable (build_mode text conf mode (with_bing o baidu google duck) pools) ≡ true
  build_mode-is_usable engine_mode o baidu google duck pools h =
      engine-is_usable o baidu google duck
  build_mode-is_usable baidu_mode o baidu google duck pools h =
      baidu-is_usable o baidu google duck pools.baidu
  build_mode-is_usable apipool_mode o baidu google duck pools h = absurd (cc h)
  build_mode-is_usable tavily_mode o baidu google duck pools h =
      provider-is_usable (tavily_from_conf text conf) (λ pool. refl) o baidu google duck
        pools.tavily
  build_mode-is_usable exa_mode o baidu google duck pools h =
      provider-is_usable (exa_from_conf text conf) (λ pool. refl) o baidu google duck pools.exa
  build_mode-is_usable anysearch_mode o baidu google duck pools h =
      provider-is_usable (anysearch_from_conf text conf) (λ pool. refl) o baidu google duck
        pools.anysearch
  build_mode-is_usable doubao_mode o baidu google duck pools h =
      provider-is_usable (new_doubao_from_conf text conf) (λ pool. refl) o baidu google duck
        pools.doubao
  build_mode-is_usable hybrid_mode o baidu google duck pools h =
      hybrid-is_usable o baidu google duck pools

  -- In every mode but the API pool, Bing's page engine enabled is enough for a search engine that is
  -- neither nil nor a nil pointer, whichever keys and other engines are configured.
  pub new_from_config-is_usable :
      conf.bing_enabled ≡ true
      → is_apipool (get_mode text conf.mode) ≡ false
      → is_usable (new_from_config text conf) ≡ true
  unfolding new_from_config
  new_from_config-is_usable bing mode =
      let options = page_options text conf conf.bing_blocked in
      let pages : init_pages text conf
          ≡ with_bing options (init_baidu_web_engine text conf) (init_google_engine text conf)
              (init_duck_duck_go_engine text conf) =
        λ i. record (init_pages text conf) { bing = if bing i then some options else none } in
      ap (λ p. is_usable (build_mode text conf (get_mode text conf.mode) p (init_pools text conf)))
        pages
      ∙ build_mode-is_usable (get_mode text conf.mode) options (init_baidu_web_engine text conf)
          (init_google_engine text conf) (init_duck_duck_go_engine text conf) (init_pools text conf)
          mode
