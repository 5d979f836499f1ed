-- ===== src/Telemetry/Store.antt =====
-- Record and Cleanup of the telemetry store, with its two tables (pkg/telemetry/store.go). Counts and
-- milliseconds are natural numbers.
use websearch_mcpserver_dash.Prelude.{
  ℕ, ◌+◌, ◌-◌, String, Bool, true, false, not, ◌&&◌, Option, List, [], ◌∷◌, ltb, if◌then◌else◌,
  keep, str_eq,
}
use websearch_mcpserver_dash.Go.{Text}
use websearch_mcpserver_dash.Telemetry.ErrorKind.{Patterns, classify_error_kind}

-- telemetry.Event; `none` is a nil error.
pub record CallEvent : Type 0 where
  pub kind : String
  pub tool : String
  pub provider : String
  pub query : String
  pub success : Bool
  pub duration_ms : ℕ
  pub cache_hit : Bool
  pub result_count : ℕ
  pub error : Option String
  pub error_kind : String
  pub detail : String
  pub request_id : String
  pub attempt_chain : String

-- What summarizeQuery returns.
pub record QuerySummary : Type 0 where
  pub query_hash : String
  pub query_chars : ℕ
  pub query_language : String
  pub query_topic : String
  pub query_keywords : String

-- A row of `usage_events`.
pub record StoredEvent : Type 0 where
  pub id : ℕ
  pub occurred_at : ℕ
  pub day : String
  pub kind : String
  pub tool : String
  pub provider : String
  pub success : ℕ
  pub duration_ms : ℕ
  pub cache_hit : ℕ
  pub result_count : ℕ
  pub error_summary : String
  pub summary : QuerySummary
  pub detail : String
  pub error_kind : String
  pub request_id : String
  pub attempt_chain : String

-- The primary key of `daily_usage`, and its row.
pub record DailyKey : Type 0 where
  pub day : String
  pub kind : String
  pub tool : String
  pub provider : String

pub record DailyUsage : Type 0 where
  pub key : DailyKey
  pub requests : ℕ
  pub successes : ℕ
  pub failures : ℕ
  pub cache_hits : ℕ
  pub duration_ms : ℕ
  pub result_count : ℕ

pub record Store : Type 0 where
  pub usage_events : List StoredEvent
  pub daily_usage : List DailyUsage
  pub next_id : ℕ

-- How the transaction of Record ends.
pub data Transaction : Type 0 where
  not_begun insert_failed upsert_failed not_committed committed : Transaction

abbrev pub bool_int : Bool → ℕ
bool_int true = 1
bool_int false = 0

unfoldable pub same_daily_key : DailyKey → DailyKey → Bool
same_daily_key a b =
    str_eq a.day b.day
    && str_eq a.kind b.kind
    && str_eq a.tool b.tool
    && str_eq a.provider b.provider

-- `if e.Kind == ""`
abbrev pub kind_or_tool : String → String
kind_or_tool kind = if str_eq kind "" then "tool" else kind

-- The values that the statement on `daily_usage` inserts.
abbrev pub daily_values : String → CallEvent → DailyUsage
daily_values day e = record {
  key = record { day = day; kind = kind_or_tool e.kind; tool = e.tool; provider = e.provider };
  requests = 1;
  successes = bool_int e.success;
  failures = 1 - bool_int e.success;
  cache_hits = bool_int e.cache_hit;
  duration_ms = e.duration_ms;
  result_count = e.result_count;
}

-- `ON CONFLICT(day,kind,tool,provider) DO UPDATE SET`
abbrev pub with_excluded : DailyUsage → DailyUsage → DailyUsage
with_excluded new row = record row {
  requests = row.requests + 1;
  successes = row.successes + new.successes;
  failures = row.failures + new.failures;
  cache_hits = row.cache_hits + new.cache_hits;
  duration_ms = row.duration_ms + new.duration_ms;
  result_count = row.result_count + new.result_count;
}

unfoldable pub upsert_daily : DailyUsage → List DailyUsage → List DailyUsage
upsert_daily new [] = new ∷ []
upsert_daily new (row ∷ rows) =
    let rest = row ∷ upsert_daily new rows in
    if same_daily_key new.key row.key then with_excluded new row ∷ rows else rest

module _ (patterns : Patterns) (text : Text) (summarize_query : String → QuerySummary)
    (summarize_error : Option String → String) where
  abbrev pub stored_event : ℕ → ℕ → String → CallEvent → StoredEvent
  stored_event id now day e = record {
    id = id;
    occurred_at = now;
    day = day;
    kind = kind_or_tool e.kind;
    tool = e.tool;
    provider = e.provider;
    success = bool_int e.success;
    duration_ms = e.duration_ms;
    cache_hit = bool_int e.cache_hit;
    result_count = e.result_count;
    error_summary = summarize_error e.error;
    summary = summarize_query e.query;
    detail = e.detail;
    error_kind =
        if str_eq e.error_kind "" then classify_error_kind patterns text e.error else e.error_kind;
    request_id = e.request_id;
    attempt_chain = e.attempt_chain;
  }

  -- Whether Record succeeds, and the tables that it leaves: a transaction that does not commit leaves
  -- them as they were.
  unfoldable pub record_event : Transaction → ℕ → String → CallEvent → Store → Bool × Store
  record_event committed now day e s = (
    true,
    record {
      usage_events = stored_event s.next_id now day e ∷ s.usage_events;
      daily_usage = upsert_daily (daily_values day e) s.daily_usage;
      next_id = s.next_id + 1;
    },
  )
  record_event not_begun now day e s = (false, s)
  record_event insert_failed now day e s = (false, s)
  record_event upsert_failed now day e s = (false, s)
  record_event not_committed now day e s = (false, s)

-- `DELETE FROM usage_events WHERE occurred_at < ?`, if the statement does not fail.
unfoldable pub cleanup : Bool → ℕ → Store → Bool × Store
cleanup false cutoff s = (false, s)
cleanup true cutoff s =
    (true, record s { usage_events = keep (λ e. not (ltb e.occurred_at cutoff)) s.usage_events })

-- SUM(column), for each of the six columns.
pub data Column : Type 0 where
  requests_column successes_column failures_column : Column
  cache_hits_column duration_column result_count_column : Column

abbrev pub column : Column → DailyUsage → ℕ
column requests_column d = d.requests
column successes_column d = d.successes
column failures_column d = d.failures
column cache_hits_column d = d.cache_hits
column duration_column d = d.duration_ms
column result_count_column d = d.result_count

-- `SELECT COALESCE(SUM(column),0) FROM daily_usage WHERE ...`
unfoldable pub sum_where : (DailyKey → Bool) → Column → List DailyUsage → ℕ
sum_where test c [] = 0
sum_where test c (d ∷ ds) = (if test d.key then column c d else 0) + sum_where test c ds

-- `WHERE day=? AND kind='tool'`
abbrev pub tool_day : String → DailyKey → Bool
tool_day day k = str_eq k.day day && str_eq k.kind "tool"

-- Overview.Today
unfoldable pub today : String → Store → DailyUsage
today day s =
    let sum : Column → ℕ = λ c. sum_where (tool_day day) c s.daily_usage in
    record {
      key = record { day = day; kind = "tool"; tool = ""; provider = "" };
      requests = sum requests_column;
      successes = sum successes_column;
      failures = sum failures_column;
      cache_hits = sum cache_hits_column;
      duration_ms = sum duration_column;
      result_count = sum result_count_column;
    }
