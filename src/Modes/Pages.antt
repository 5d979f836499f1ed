-- ===== src/Modes/Pages.antt =====
-- The page engines that a configuration enables, with their options (pkg/search/mode/factory.go, and
-- MergeBlocked of pkg/search/engine/bing/bing_engine.go).
use websearch_mcpserver_dash.Prelude.{
  ℕ, String, ◌&&◌, Option, none, some, List, [], ◌++◌, if◌then◌else◌,
}
use websearch_mcpserver_dash.Go.{Text}
use websearch_mcpserver_dash.KeyPool.{filter_keys}
use websearch_mcpserver_dash.Modes.Config.{Config, get_rate_limit_per_sec, get_rate_limit_per_min}

-- The options of an engine that is enabled, less the proxy and the switch itself.
pub record PageOptions : Type 0 where
  pub blocked : List String
  pub per_sec : ℕ
  pub per_min : ℕ

-- The two loops are one over both lists, which NewKeyPool's loop is as well: they drop blanks and
-- repetitions.
abbrev pub merge_blocked : Text → List String → List String → List String
merge_blocked text black_list_host blocked =
    filter_keys (λ d. text.to_lower (text.trim_space d)) [] (black_list_host ++ blocked)

module _ {F : Type 0} (text : Text) where
  abbrev pub page_options : Config F → List String → PageOptions
  page_options conf blocked = record {
    blocked = merge_blocked text conf.black_list_host blocked;
    per_sec = get_rate_limit_per_sec conf;
    per_min = get_rate_limit_per_min conf;
  }

  abbrev pub init_baidu_web_engine : Config F → Option PageOptions
  init_baidu_web_engine conf = if conf.baidu.web_enabled then some (page_options conf []) else none

  abbrev pub init_google_engine : Config F → Option PageOptions
  init_google_engine conf =
      if conf.google_enabled then some (page_options conf conf.google_blocked) else none

  -- Without a proxy there is no engine.
  abbrev pub init_duck_duck_go_engine : Config F → Option PageOptions
  init_duck_duck_go_engine conf =
      if conf.duck_duck_go_enabled && conf.has_proxy
      then some (page_options conf conf.duck_duck_go_blocked)
      else none

  abbrev pub init_bing_engine : Config F → Option PageOptions
  init_bing_engine conf =
      if conf.bing_enabled then some (page_options conf conf.bing_blocked) else none
