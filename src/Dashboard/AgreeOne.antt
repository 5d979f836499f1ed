-- ===== src/Dashboard/AgreeOne.antt =====
-- The active sources of the modes with one engine (pkg/dashboard/sources.go), and the engine that
-- their builders make (pkg/search/mode/factory.go).
use websearch_mcpserver_dash.Prelude.{
  String, Bool, true, false, ◌&&◌, ◌||◌, ◌≡◌, refl, sym, ap, ◌∙◌, Option, none, some, [], arith,
  if◌then◌else◌, str_eq,
}
use websearch_mcpserver_dash.Go.{Text}
use websearch_mcpserver_dash.KeyPool.{KeyPool}
use websearch_mcpserver_dash.Modes.Config.{Config, baidu_mode}
use websearch_mcpserver_dash.Modes.Pages.{PageOptions, page_options}
use websearch_mcpserver_dash.Modes.Types.{EngineChoice, bing_page, nil_bing, SearchInf, one}
use websearch_mcpserver_dash.Modes.Build.{build_baidu_mode, build_provider_mode}
use websearch_mcpserver_dash.Modes.Group.{init_pages}
use websearch_mcpserver_dash.Dashboard.Catalog.{
  has_keys, api_configured, activated_provider, active_in,
}
use websearch_mcpserver_dash.Dashboard.Running.{present, is_source, runs}
use websearch_mcpserver_dash.Dashboard.Agree.{is_source-baidu}

module _ {F : Type 0} (text : Text) (conf : Config F) (id : String) where
  bing-agrees :
      (b : Bool) (o : PageOptions)
      → (str_eq id "bing" && b)
        ≡ runs {F = F} id (elim (if b then some o else none) as (λ _. SearchInf F) [
          | none ↦ one nil_bing
          | some p ↦ one (bing_page p)
        ])
  unfolding is_source
  bing-agrees true o = ground arith
  bing-agrees false o = ground arith

  pub provider-agrees :
      (name : String) (from_conf : KeyPool → EngineChoice) (pool : Option KeyPool)
      → api_configured text conf name ≡ present pool
      → ((p : KeyPool) → is_source id (from_conf p) ≡ str_eq id name)
      → activated_provider text conf name id
        ≡ runs id (build_provider_mode text conf from_conf (init_pages text conf) pool)
  unfolding build_provider_mode
  provider-agrees name from_conf none there is =
      ap (λ b. if b then str_eq id name else str_eq id "bing" && conf.bing_enabled) there
      ∙ bing-agrees conf.bing_enabled _
  provider-agrees name from_conf (some p) there is =
      ap (λ b. if b then str_eq id name else str_eq id "bing" && conf.bing_enabled) there
      ∙ sym (is p)

  pub baidu-agrees :
      (pool : Option KeyPool)
      → present pool ≡ has_keys conf.baidu.keys
      → active_in text conf baidu_mode id
        ≡ runs id (build_baidu_mode text conf (init_pages text conf) pool)
  unfolding build_baidu_mode active_in is_source
  baidu-agrees pool there =
      by_switches pool (has_keys conf.baidu.keys) conf.baidu.web_enabled conf.bing_enabled
        (page_options text conf []) (page_options text conf conf.bing_blocked) there
    where
      by_switches :
          (pool : Option KeyPool) (keys web_on bing_on : Bool) (o p : PageOptions)
          → present pool ≡ keys
          → (if keys
              then str_eq id "baidu" || (str_eq id "baidu_web" && web_on)
              else if web_on
              then str_eq id "baidu_web"
              else str_eq id "bing" && bing_on)
            ≡ runs id (
                build_baidu_mode text conf
                  (record (init_pages text conf) {
                    baidu = if web_on then some o else none;
                    bing = if bing_on then some p else none;
                  })
                  pool)
      by_switches none true web_on bing_on o p h = absurd (cc h)
      by_switches none false true bing_on o p h = refl
      by_switches none false false true o p h = ground arith
      by_switches none false false false o p h = ground arith
      by_switches (some k) false web_on bing_on o p h = absurd (cc h)
      by_switches (some k) true true bing_on o p h = ground (arith, is_source-baidu text conf id k)
      by_switches (some k) true false bing_on o p h = ground (arith, is_source-baidu text conf id k)
