-- ===== src/Modes/Types.antt =====
-- The engines and searches that a configuration can select (pkg/search/mode/factory.go).
-- An engine is described by the constructor that makes it, with the constructor's arguments.
use websearch_mcpserver_dash.Prelude.{ℕ, String, Bool, Option, List}
use websearch_mcpserver_dash.KeyPool.{KeyPool}
use websearch_mcpserver_dash.ApiPool.{Weight}
use websearch_mcpserver_dash.Hybrid.{EngineFilter}
use websearch_mcpserver_dash.Enhance.{MmrConfig}
use websearch_mcpserver_dash.Modes.Pages.{PageOptions}

pub record DoubaoOptions : Type 0 where
  pub num_results : ℕ
  pub exclude_domains : List String
  pub version : String
  pub time_range : String
  pub auth_level : ℕ
  pub query_rewrite : Bool
  pub need_content : Bool
  pub max_snippet_length : ℕ
  pub max_image_count_per_doc : ℕ
  pub icp_host_only : Bool

-- An engine that is not made of a list of others. `nil_bing` is a nil *BingSearchAdapter.
pub data EngineChoice : Type 0 where
  anysearch_search : KeyPool → ℕ → List String → EngineChoice
  baidu_ai_search : KeyPool → List String → String → String → Bool → Bool → String → EngineChoice
  baidu_search : KeyPool → List String → EngineChoice
  tavily_search : KeyPool → List String → Bool → EngineChoice
  exa_search : KeyPool → ℕ → ℕ → List String → Option ℕ → EngineChoice
  doubao_search : KeyPool → DoubaoOptions → EngineChoice
  baidu_web google_page duck_duck_go_page bing_page : PageOptions → EngineChoice
  nil_bing : EngineChoice
  baidu_with_fallback : EngineChoice → EngineChoice → EngineChoice

pub record ProviderChoice : Type 0 where
  pub name : String
  pub engine : EngineChoice
  pub pool : Option KeyPool

-- What the setters of a hybrid search are given.
pub record HybridSettings (F : Type 0) : Type 0 where
  pub max_size : ℕ
  pub enhance : Bool
  pub relevance_threshold : F
  pub mmr : MmrConfig F
  pub engine_map : List (String × EngineFilter F)

-- core.SearchInf: nil, one engine, a hybrid search, or an API pool with its strategy, weights and size.
pub data SearchInf (F : Type 0) : Type 0 where
  nil_search : SearchInf F
  one : EngineChoice → SearchInf F
  hybrid_search : List EngineChoice → HybridSettings F → SearchInf F
  apipool_search : String → List ProviderChoice → List (String × Weight) → ℕ → SearchInf F

-- Which page engines there are, and the pools of the providers.
pub record Pages : Type 0 where
  pub baidu : Option PageOptions
  pub google : Option PageOptions
  pub duck_duck_go : Option PageOptions
  pub bing : Option PageOptions

pub record Pools : Type 0 where
  pub anysearch : Option KeyPool
  pub baidu : Option KeyPool
  pub tavily : Option KeyPool
  pub exa : Option KeyPool
  pub doubao : Option KeyPool
