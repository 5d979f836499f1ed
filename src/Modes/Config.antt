-- ===== src/Modes/Config.antt =====
-- The configuration that selects the engines, with its getters (pkg/config/config.go). An int of which
-- only the positive values count is a natural number, 0 for the others; `none` is a nil pointer.
use websearch_mcpserver_dash.Prelude.{
  ℕ, String, Bool, not, Option, List, [], ◌∷◌, ◌++◌, ltb, if◌then◌else◌, length, str_eq, ◌||◌,
}
use websearch_mcpserver_dash.Go.{Text}
use websearch_mcpserver_dash.ApiPool.{Weight, positive}
use websearch_mcpserver_dash.Hybrid.{EngineFilter}
use websearch_mcpserver_dash.Enhance.{MmrConfig}

pub record Keys : Type 0 where
  pub api_key : String
  pub sk_list : List String

pub record BaiduConfig : Type 0 where
  pub web_enabled : Bool
  pub keys : Keys
  pub enable_ai_search : Bool
  pub model : String
  pub search_source : String
  pub enable_reasoning : Bool
  pub enable_deep_search : Bool
  pub search_mode : String

pub record TavilyConfig : Type 0 where
  pub keys : Keys
  pub include_raw_content : Option Bool

pub record ExaConfig : Type 0 where
  pub keys : Keys
  pub num_results : ℕ
  pub lookback_days : ℕ
  pub include_text : Option Bool
  pub text_max_characters : ℕ

pub record AnysearchConfig : Type 0 where
  pub keys : Keys
  pub num_results : ℕ

pub record DoubaoConfig : Type 0 where
  pub keys : Keys
  pub num_results : ℕ
  pub version : String
  pub time_range : String
  pub auth_level : ℕ
  pub query_rewrite : Bool
  pub need_content : Bool
  pub max_snippet_length : ℕ
  pub max_image_count_per_doc : ℕ
  pub icp_host_only : Bool

pub record SmartSearchConfig (F : Type 0) : Type 0 where
  pub max_size : ℕ
  pub enhance : Option Bool
  pub relevance_threshold : F
  pub mmr : MmrConfig F
  pub engines : List (String × EngineFilter F)

pub record ApipoolConfig : Type 0 where
  pub strategy : String
  pub engines : List String
  pub weights : List (String × Weight)

-- The fields that choose engines; `has_proxy` says that ProxyResolver is not nil.
pub record Config (F : Type 0) : Type 0 where
  pub mode : String
  pub black_list_host : List String
  pub baidu : BaiduConfig
  pub tavily : TavilyConfig
  pub exa : ExaConfig
  pub anysearch : AnysearchConfig
  pub doubao : DoubaoConfig
  pub bing_enabled : Bool
  pub bing_blocked : List String
  pub google_enabled : Bool
  pub google_blocked : List String
  pub duck_duck_go_enabled : Bool
  pub duck_duck_go_blocked : List String
  pub rate_per_sec : ℕ
  pub rate_per_min : ℕ
  pub has_proxy : Bool
  pub smart_search : SmartSearchConfig F
  pub apipool : ApipoolConfig

pub data Mode : Type 0 where
  engine_mode baidu_mode apipool_mode tavily_mode exa_mode : Mode
  anysearch_mode doubao_mode hybrid_mode : Mode

abbrev pub effective_sk_list : Keys → List String
effective_sk_list k =
    if ltb 0 (length k.sk_list)
    then k.sk_list
    else if not (str_eq k.api_key "")
    then k.api_key ∷ []
    else []

module _ (text : Text) where
  unfoldable pub get_version : DoubaoConfig → String
  get_version c =
      if str_eq (text.to_lower (text.trim_space c.version)) "custom" then "custom" else "global"

  unfoldable pub get_mode : String → Mode
  get_mode mode =
      let m = text.to_lower mode in
      if str_eq m "apipool"
      then apipool_mode
      else if str_eq m "tavily"
      then tavily_mode
      else if str_eq m "exa"
      then exa_mode
      else if str_eq m "anysearch"
      then anysearch_mode
      else if str_eq m "doubao"
      then doubao_mode
      else if str_eq m "hybrid" || str_eq m "hybird"
      then hybrid_mode
      else if str_eq m "engine"
      then engine_mode
      else baidu_mode

  unfoldable pub get_strategy : ApipoolConfig → String
  get_strategy c =
      let s = text.to_lower c.strategy in
      if str_eq s "priority"
      then "priority"
      else if str_eq s "weighted"
      then "weighted"
      else "round-robin"

abbrev pub get_engines : ApipoolConfig → List String
get_engines c =
    if ltb 0 (length c.engines) then c.engines else "anysearch" ∷ "baidu" ∷ "tavily" ∷ "exa" ∷ []

-- A map as the list of its entries: the configured ones are found before the defaults.
abbrev pub get_weights : ApipoolConfig → List (String × Weight)
get_weights c =
    c.weights
    ++ ("anysearch", positive 30000)
      ∷ ("baidu", positive 1500)
      ∷ ("tavily", positive 1200)
      ∷ ("exa", positive 1200)
      ∷ ("doubao", positive 500)
      ∷ []

abbrev pub get_rate_limit_per_sec : {F : Type 0} → Config F → ℕ
get_rate_limit_per_sec conf = if ltb 0 conf.rate_per_sec then conf.rate_per_sec else 3

abbrev pub get_rate_limit_per_min : {F : Type 0} → Config F → ℕ
get_rate_limit_per_min conf = if ltb 0 conf.rate_per_min then conf.rate_per_min else 60
