-- ===== src/Tools/Types.antt =====
-- The objects that the handler of the tool smartsearch calls (mcp/tool.go, mcp/tool_search.go). An
-- engine, a summarizer and a fetcher are the answers that they give during one call of the tool.
use websearch_mcpserver_dash.Prelude.{
  ℕ, ◌+◌, ◌*◌, zero, suc, String, Bool, Option, none, some, List, ltb, if◌then◌else◌,
}
use websearch_mcpserver_dash.Core.{SearchResult}
use websearch_mcpserver_dash.Hybrid.{EngineFilter}
use websearch_mcpserver_dash.Cache.{Statement, Row}

-- Go's int, as the agent passes it: `negsuc n` is -(n + 1).
pub data ℤ : Type 0 where
  pos : ℕ → ℤ
  negsuc : ℕ → ℤ

-- A value, or an error with its text.
pub data Fallible (A : Type 0) : Type 0 where
  good : A → Fallible A
  bad : String → Fallible A

-- core.SearchInf; `ranged` is there if the engine is a SearchTimeRanger too.
pub record SearchEngine (F : Type 0) : Type 0 where
  pub name : String
  pub is_hybrid : Bool
  pub search_raw : String → Fallible (List (SearchResult F))
  pub ranged : Option (String → ℤ → Fallible (List (SearchResult F)))
  pub merge_content : String → List (SearchResult F) → Fallible String

-- streamSummarize, which needs a session, and llm.Summarizer.Summarize.
pub record Summarizer (F : Type 0) : Type 0 where
  pub stream : String → String → List (SearchResult F) → Fallible String
  pub summarize : String → String → List (SearchResult F) → Fallible String

-- The part of smartSearchConf that the tool reads; a MaxSize that is not positive is 0.
pub record ToolConfig (F : Type 0) : Type 0 where
  pub fetch_top_n : ℤ
  pub max_size : ℕ
  pub engines : List (String × EngineFilter F)

-- The package's variables, and whether the request has a session.
pub record Server (F : Type 0) : Type 0 where
  pub searchapi : Option (SearchEngine F)
  pub fallback_search : Option (SearchEngine F)
  pub fallback_is_searchapi : Bool
  pub smart_search_conf : ToolConfig F
  pub has_cache : Bool
  pub summarizer_inst : Option (Summarizer F)
  pub has_session : Bool

-- What the three calls of the cache meet: the statements that fail, the clock, and the codec.
pub record CacheCalls (F : Type 0) : Type 0 where
  pub first_fault : Statement → Bool
  pub second_fault : Statement → Bool
  pub store_fault : Statement → Bool
  pub first_at : ℕ
  pub second_at : ℕ
  pub store_at : ℕ
  pub newest : List Row → Option Row
  pub marshal : List (SearchResult F) → Option String
  pub unmarshal : String → Option (List (SearchResult F))

-- strings.Contains(s, part), strconv.Itoa on a number that is not negative, and `s[:n]`.
pub record ToolText : Type 0 where
  pub contains : String → String → Bool
  pub itoa : ℕ → String
  pub byte_length : String → ℕ
  pub first_bytes : String → ℕ → String

abbrev pub max_fetch_top_n : ℕ
max_fetch_top_n = 5

unfoldable pub clamp_fetch_top_n : ℤ → ℕ
clamp_fetch_top_n (negsuc n) = 0
clamp_fetch_top_n (pos n) = if ltb max_fetch_top_n n then max_fetch_top_n else n

-- The agent's own number counts before the configured one.
unfoldable pub effective_fetch_top_n : {F : Type 0} → ToolConfig F → Option ℤ → ℕ
effective_fetch_top_n conf none = clamp_fetch_top_n conf.fetch_top_n
effective_fetch_top_n conf (some n) = clamp_fetch_top_n n

-- `timeRangeMonths * 30`, with 3 months for 0.
unfoldable pub lookback_days : ℤ → ℤ
lookback_days (pos zero) = pos 90
lookback_days (pos (suc n)) = pos (suc n * 30)
lookback_days (negsuc n) = negsuc (n * 30 + 29)
