-- ===== src/Dashboard/Active.antt =====
-- The dashboard marks as active the sources that the search engine runs (webSourceCatalog in
-- pkg/dashboard/sources.go, and NewFromConfig in pkg/search/factory.go).
use websearch_mcpserver_dash.Prelude.{String, ◌≡◌, refl, [], ◌∷◌, arith, map}
use websearch_mcpserver_dash.Go.{Text}
use websearch_mcpserver_dash.Modes.Config.{
  Config, Mode, get_mode, engine_mode, baidu_mode, apipool_mode, tavily_mode, exa_mode,
  anysearch_mode, doubao_mode, hybrid_mode,
}
use websearch_mcpserver_dash.Modes.Build.{
  tavily_from_conf, exa_from_conf, anysearch_from_conf, new_doubao_from_conf,
}
use websearch_mcpserver_dash.Modes.Group.{init_pages, init_pools, build_mode, new_from_config}
use websearch_mcpserver_dash.Dashboard.Catalog.{
  api_configured, active_in, active, web_source_catalog,
}
use websearch_mcpserver_dash.Dashboard.Running.{is_source, runs}
use websearch_mcpserver_dash.Dashboard.Agree.{Keyed, engine-agrees, hybrid-agrees}
use websearch_mcpserver_dash.Dashboard.AgreeOne.{provider-agrees, baidu-agrees}
use websearch_mcpserver_dash.Dashboard.AgreePool.{apipool-agrees}

module _ {F : Type 0} (text : Text) (conf : Config F) where
  active_in-runs :
      Keyed text conf
      → (id : String) (mode : Mode)
      → active_in text conf mode id
        ≡ runs id (build_mode text conf mode (init_pages text conf) (init_pools text conf))
  unfolding active_in api_configured is_source
  active_in-runs keyed id engine_mode = engine-agrees text conf id
  active_in-runs keyed id hybrid_mode = hybrid-agrees text conf id keyed
  active_in-runs keyed id apipool_mode = apipool-agrees text conf id keyed
  active_in-runs keyed id baidu_mode =
      baidu-agrees text conf id (init_pools text conf).baidu keyed.baidu
  active_in-runs keyed id tavily_mode =
      provider-agrees text conf id "tavily" (tavily_from_conf text conf)
        (init_pools text conf).tavily (ground (arith, keyed.tavily)) (λ p. refl)
  active_in-runs keyed id exa_mode =
      provider-agrees text conf id "exa" (exa_from_conf text conf) (init_pools text conf).exa
        (ground (arith, keyed.exa)) (λ p. refl)
  active_in-runs keyed id anysearch_mode =
      provider-agrees text conf id "anysearch" (anysearch_from_conf text conf)
        (init_pools text conf).anysearch (ground (arith, keyed.anysearch)) (λ p. refl)
  active_in-runs keyed id doubao_mode =
      provider-agrees text conf id "doubao" (new_doubao_from_conf text conf)
        (init_pools text conf).doubao (ground (arith, keyed.doubao)) (λ p. refl)

  active-runs :
      Keyed text conf → (id : String) → active text conf id ≡ runs id (new_from_config text conf)
  unfolding new_from_config
  active-runs keyed id = active_in-runs keyed id (get_mode text conf.mode)

  -- In every mode the catalog marks a source of the web as active just if the search engine that the
  -- same configuration gives runs it, alone, in a list or as a fallback, if each list of keys is empty
  -- or has a key that is not blank.
  pub web_source_catalog-runs :
      Keyed text conf
      → map (λ s. s.active) (web_source_catalog text conf)
        ≡ map (λ s. runs s.id (new_from_config text conf)) (web_source_catalog text conf)
  unfolding web_source_catalog
  web_source_catalog-runs keyed = λ i.
      active-runs keyed "anysearch" i
      ∷ active-runs keyed "baidu" i
      ∷ active-runs keyed "tavily" i
      ∷ active-runs keyed "exa" i
      ∷ active-runs keyed "doubao" i
      ∷ active-runs keyed "baidu_web" i
      ∷ active-runs keyed "bing" i
      ∷ active-runs keyed "google" i
      ∷ active-runs keyed "duckduckgo" i
      ∷ []
