-- ===== src/Modes/Sample.antt =====
-- Test data: concrete configurations.
use websearch_mcpserver_dash.Prelude.{ℕ, String, Bool, true, false, none, [], ◌∷◌}
use websearch_mcpserver_dash.Go.{Text}
use websearch_mcpserver_dash.Modes.Config.{Keys, Config}

abbrev pub same_text : Text
same_text = record {
  trim_space = λ s. s;
  to_lower = λ s. s;
  has_suffix = λ s suffix. false;
  trim_prefix = λ s prefix. s;
  concat = λ s t. s;
  parsed_host = λ u. none;
}

abbrev pub no_keys : Keys
no_keys = record { api_key = ""; sk_list = [] }

-- A configuration with no keys but Tavily's.
abbrev pub config : String → Keys → Bool → Config ℕ
config mode tavily bing = record {
  mode = mode;
  black_list_host = [];
  baidu = record {
    web_enabled = true;
    keys = no_keys;
    enable_ai_search = true;
    model = "";
    search_source = "";
    enable_reasoning = false;
    enable_deep_search = false;
    search_mode = "auto";
  };
  tavily = record { keys = tavily; include_raw_content = none };
  exa = record {
    keys = no_keys;
    num_results = 0;
    lookback_days = 0;
    include_text = none;
    text_max_characters = 0;
  };
  anysearch = record { keys = no_keys; num_results = 0 };
  doubao = record {
    keys = no_keys;
    num_results = 0;
    version = "";
    time_range = "";
    auth_level = 0;
    query_rewrite = false;
    need_content = false;
    max_snippet_length = 0;
    max_image_count_per_doc = 0;
    icp_host_only = false;
  };
  bing_enabled = bing;
  bing_blocked = [];
  google_enabled = false;
  google_blocked = [];
  duck_duck_go_enabled = false;
  duck_duck_go_blocked = [];
  rate_per_sec = 0;
  rate_per_min = 100;
  has_proxy = false;
  smart_search = record {
    max_size = 0;
    enhance = none;
    relevance_threshold = 0;
    mmr = record { enabled = false; lambda = 0; target_count = 0 };
    engines = [];
  };
  apipool = record { strategy = ""; engines = "exa" ∷ "tavily" ∷ []; weights = [] };
}

abbrev pub one_key : Keys
one_key = record { api_key = "tvly-1"; sk_list = [] }
