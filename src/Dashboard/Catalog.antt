-- ===== src/Dashboard/Catalog.antt =====
-- The sources of the web that the dashboard lists (pkg/dashboard/sources.go). A Go map from names to
-- Booleans is a function.
use websearch_mcpserver_dash.Prelude.{
  String, Bool, true, false, ◌&&◌, ◌||◌, List, [], ◌∷◌, ltb, if◌then◌else◌, length, str_eq,
}
use websearch_mcpserver_dash.Go.{Text}
use websearch_mcpserver_dash.Modes.Config.{
  Config, Mode, get_mode, engine_mode, baidu_mode, apipool_mode, tavily_mode, exa_mode,
  anysearch_mode, doubao_mode, hybrid_mode, Keys, effective_sk_list, get_engines,
}
use websearch_mcpserver_dash.Dashboard.Sources.{SourceView, source_view}

abbrev pub has_keys : Keys → Bool
has_keys k = ltb 0 (length (effective_sk_list k))

-- NeedsProxy holds just if ProxyResolver is not nil.
module _ {F : Type 0} (text : Text) (conf : Config F) where
  unfoldable pub api_configured : String → Bool
  api_configured id =
      (str_eq id "anysearch" && has_keys conf.anysearch.keys)
      || (str_eq id "baidu" && has_keys conf.baidu.keys)
      || (str_eq id "tavily" && has_keys conf.tavily.keys)
      || (str_eq id "exa" && has_keys conf.exa.keys)
      || (str_eq id "doubao" && has_keys conf.doubao.keys)

  unfoldable pub engine_configured : String → Bool
  engine_configured id =
      (str_eq id "baidu_web" && conf.baidu.web_enabled)
      || (str_eq id "bing" && conf.bing_enabled)
      || (str_eq id "google" && conf.google_enabled)
      || (str_eq id "duckduckgo" && (conf.duck_duck_go_enabled && conf.has_proxy))

  -- The loop over the engines of the API pool.
  unfoldable pub activated_api : List String → String → Bool
  activated_api [] id = false
  activated_api (name ∷ names) id =
      (str_eq id (text.to_lower name) && api_configured (text.to_lower name))
      || activated_api names id

  abbrev pub activated_provider : String → String → Bool
  activated_provider selected id =
      if api_configured selected then str_eq id selected else str_eq id "bing" && conf.bing_enabled

  unfoldable pub active_in : Mode → String → Bool
  active_in hybrid_mode id = api_configured id || engine_configured id
  active_in engine_mode id = engine_configured id
  active_in apipool_mode id =
      activated_api (get_engines conf.apipool) id
      || (str_eq id "baidu_web" && conf.baidu.web_enabled)
  active_in baidu_mode id =
      if has_keys conf.baidu.keys
      then str_eq id "baidu" || (str_eq id "baidu_web" && conf.baidu.web_enabled)
      else if conf.baidu.web_enabled
      then str_eq id "baidu_web"
      else str_eq id "bing" && conf.bing_enabled
  active_in tavily_mode id = activated_provider "tavily" id
  active_in exa_mode id = activated_provider "exa" id
  active_in anysearch_mode id = activated_provider "anysearch" id
  active_in doubao_mode id = activated_provider "doubao" id

  abbrev pub active : String → Bool
  active id = active_in (get_mode text conf.mode) id

  abbrev pub is_apipool_mode : Mode → Bool
  is_apipool_mode apipool_mode = true
  is_apipool_mode m = false

  abbrev pub api_source : String → List String → SourceView F
  api_source id aliases = source_view id "web" (api_configured id) (active id) aliases

  abbrev pub engine_source : String → List String → SourceView F
  engine_source id aliases = source_view id "web" (engine_configured id) (active id) aliases

  -- In the mode of the API pool the page engine of Baidu goes by another name.
  unfoldable pub web_source_catalog : List (SourceView F)
  web_source_catalog =
      let pool = is_apipool_mode (get_mode text conf.mode) in
      api_source "anysearch" ("anysearch" ∷ [])
      ∷ api_source "baidu"
          (if pool then "baidu_ai" ∷ "baidu_api" ∷ "baidu" ∷ [] else "baidu_ai" ∷ "baidu_api" ∷ [])
      ∷ api_source "tavily" ("tavily" ∷ "tavily_api" ∷ [])
      ∷ api_source "exa" ("exa" ∷ [])
      ∷ api_source "doubao" ("doubao" ∷ [])
      ∷ engine_source "baidu_web" (if pool then "baidu_web" ∷ [] else "baidu" ∷ [])
      ∷ engine_source "bing" ("bing" ∷ [])
      ∷ engine_source "google" ("google" ∷ [])
      ∷ engine_source "duckduckgo" ("duckduckgo" ∷ [])
      ∷ []
