-- ===== src/Modes/Group.antt =====
-- The group of engines of a configuration (pkg/search/factory.go), less its academic engine.
use websearch_mcpserver_dash.Prelude.{Option, none, String, List, ◌==◌, if◌then◌else◌, length}
use websearch_mcpserver_dash.Go.{Text}
use websearch_mcpserver_dash.KeyPool.{KeyPool, new_key_pool}
use websearch_mcpserver_dash.Modes.Config.{
  Config, effective_sk_list, get_mode, engine_mode, baidu_mode, apipool_mode, tavily_mode, exa_mode,
  anysearch_mode, doubao_mode, hybrid_mode, Mode,
}
use websearch_mcpserver_dash.Modes.Pages.{
  init_baidu_web_engine, init_google_engine, init_duck_duck_go_engine, init_bing_engine,
}
use websearch_mcpserver_dash.Modes.Types.{SearchInf, Pages, Pools}
use websearch_mcpserver_dash.Modes.Build.{
  tavily_from_conf, exa_from_conf, anysearch_from_conf, new_doubao_from_conf, build_engine_mode,
  build_baidu_mode, build_provider_mode, build_apipool_mode, build_hybrid_mode,
}

-- A pool that NewKeyPool refuses is nil.
unfoldable pub new_key_pool_from_list : (String → String) → List String → Option KeyPool
new_key_pool_from_list trim keys = if length keys == 0 then none else new_key_pool trim keys

module _ {F : Type 0} (text : Text) (conf : Config F) where
  abbrev pub init_pages : Pages
  init_pages = record {
    baidu = init_baidu_web_engine text conf;
    google = init_google_engine text conf;
    duck_duck_go = init_duck_duck_go_engine text conf;
    bing = init_bing_engine text conf;
  }

  abbrev pub init_pools : Pools
  init_pools = record {
    anysearch = new_key_pool_from_list text.trim_space (effective_sk_list conf.anysearch.keys);
    baidu = new_key_pool_from_list text.trim_space (effective_sk_list conf.baidu.keys);
    tavily = new_key_pool_from_list text.trim_space (effective_sk_list conf.tavily.keys);
    exa = new_key_pool_from_list text.trim_space (effective_sk_list conf.exa.keys);
    doubao = new_key_pool_from_list text.trim_space (effective_sk_list conf.doubao.keys);
  }

  abbrev pub build_mode : Mode → Pages → Pools → SearchInf F
  build_mode engine_mode pages pools = build_engine_mode text conf pages
  build_mode tavily_mode pages pools =
      build_provider_mode text conf (tavily_from_conf text conf) pages pools.tavily
  build_mode exa_mode pages pools =
      build_provider_mode text conf (exa_from_conf text conf) pages pools.exa
  build_mode anysearch_mode pages pools =
      build_provider_mode text conf (anysearch_from_conf text conf) pages pools.anysearch
  build_mode doubao_mode pages pools =
      build_provider_mode text conf (new_doubao_from_conf text conf) pages pools.doubao
  build_mode apipool_mode pages pools = build_apipool_mode text conf pages pools
  build_mode hybrid_mode pages pools = build_hybrid_mode text conf pages pools
  build_mode baidu_mode pages pools = build_baidu_mode text conf pages pools.baidu

  -- The Primary of the group.
  unfoldable pub new_from_config : SearchInf F
  new_from_config = build_mode (get_mode text conf.mode) init_pages init_pools
