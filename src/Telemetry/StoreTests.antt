-- ===== src/Telemetry/StoreTests.antt =====
-- Records of the telemetry store on concrete calls (pkg/telemetry/store.go, pkg/telemetry/errorkind.go).
use websearch_mcpserver_dash.Prelude.{
  ℕ, ◌+◌, ◌≤◌, String, Bool, true, false, ◌≡◌, refl, Option, none, some, List, [], ◌∷◌, str_eq,
  length, tally,
}
use websearch_mcpserver_dash.Go.{Text}
use websearch_mcpserver_dash.Telemetry.ErrorKind.{
  Patterns, contains_any, kind_of_message, status_code_from_message, atoi_safe,
  classify_error_message, classify_error_kind,
}
use websearch_mcpserver_dash.Telemetry.Store.{
  CallEvent, QuerySummary, committed, insert_failed, today, same_daily_key, upsert_daily,
  record_event, cleanup, sum_where, Store,
}
use websearch_mcpserver_dash.Telemetry.Recent.{EventFilter, all_hold, recent_filtered}
use websearch_mcpserver_dash.Suspension.{default_suspension_policy}
use websearch_mcpserver_dash.Telemetry.Health.{UsageEvent}
use websearch_mcpserver_dash.Telemetry.Streak.{leading_failures}
use websearch_mcpserver_dash.Telemetry.Source.{source_events, source_health, source_health-verdict}
use websearch_mcpserver_dash.Telemetry.Tests.{fractions, exact, insertion_sort}
use websearch_mcpserver_dash.Telemetry.Totals.{
  StoreCall, recording, cleaning, recorded, rows_of, run,
}
use websearch_mcpserver_dash.Telemetry.Days.{opened, run-totals}

abbrev unchanged : Text
unchanged = record {
  trim_space = λ s. s;
  to_lower = λ s. s;
  has_suffix = λ s suffix. false;
  trim_prefix = λ s prefix. s;
  concat = λ s t. s;
  parsed_host = λ u. none;
}

-- A message contains its own words only, and every other one tells of the status 429.
abbrev status_429 : Patterns
status_429 = record {
  contains = str_eq;
  http_status = λ msg. some "429";
  bare_http_code = λ msg. none;
  runes = λ s. 52 ∷ 50 ∷ 57 ∷ [];
}

timed_out : classify_error_kind status_429 unchanged (some "timed out") ≡ "timeout"
unfolding classify_error_kind classify_error_message kind_of_message contains_any
timed_out = refl

too_many : classify_error_kind status_429 unchanged (some "status 429") ≡ "rate_limit"
unfolding classify_error_kind classify_error_message kind_of_message contains_any
    status_code_from_message atoi_safe
too_many = refl

abbrev no_query : String → QuerySummary
no_query q = record {
  query_hash = "";
  query_chars = 0;
  query_language = "";
  query_topic = "";
  query_keywords = "";
}

abbrev no_error : Option String → String
no_error e = ""

abbrev search_call : Bool → CallEvent
search_call ok = record {
  kind = "";
  tool = "smartsearch";
  provider = "";
  query = "antt";
  success = ok;
  duration_ms = 40;
  cache_hit = false;
  result_count = 3;
  error = none;
  error_kind = "";
  detail = "";
  request_id = "";
  attempt_chain = "";
}

abbrev busy_day : List StoreCall
busy_day =
    recording committed 100 "2026-01-01" (search_call true)
    ∷ recording insert_failed 101 "2026-01-01" (search_call true)
    ∷ recording committed 102 "2026-01-01" (search_call false)
    ∷ cleaning true 102
    ∷ []

two_requests :
    (today "2026-01-01" (run status_429 unchanged no_query no_error busy_day opened)).requests ≡ 2
unfolding today run record_event cleanup upsert_daily same_daily_key sum_where
two_requests = refl

run-totals_example :
    (today "2026-01-01" (run status_429 unchanged no_query no_error busy_day opened)
      ≡ today "2026-01-01" (record opened { daily_usage = recorded busy_day }))
    × ((today "2026-01-01" (run status_429 unchanged no_query no_error busy_day opened)).requests
        ≡ (today "2026-01-01"
            (run status_429 unchanged no_query no_error busy_day opened)).successes
          + (today "2026-01-01"
              (run status_429 unchanged no_query no_error busy_day opened)).failures)
    × (rows_of
          (record { day = "2026-01-01"; kind = "tool"; tool = "smartsearch"; provider = "" })
          (run status_429 unchanged no_query no_error busy_day opened).daily_usage
        ≤ 1)
run-totals_example =
    run-totals status_429 unchanged no_query no_error busy_day "2026-01-01"
      (record { day = "2026-01-01"; kind = "tool"; tool = "smartsearch"; provider = "" })

abbrev failures_of_tools : EventFilter
failures_of_tools = record {
  kind = "tool";
  status = "failure";
  source = "";
  error_kind = "";
  request_id = "";
  limit = 1;
}

abbrev two_events : Store
two_events =
    run status_429 unchanged no_query no_error
      (recording committed 100 "2026-01-01" (search_call false)
        ∷ recording committed 102 "2026-01-01" (search_call true)
        ∷ [])
      opened

-- Only the failure is listed.
one_failure : length (recent_filtered (λ es. es) failures_of_tools two_events) ≡ 1
unfolding recent_filtered all_hold run record_event
one_failure = refl

abbrev exa_failure : CallEvent
exa_failure = record (search_call false) {
  kind = "provider";
  provider = "exa";
  error_kind = "timeout";
}

abbrev three_failures : Store
three_failures =
    run status_429 unchanged no_query no_error
      (recording committed 100 "2026-01-01" exa_failure
        ∷ recording committed 101 "2026-01-01" exa_failure
        ∷ recording committed 102 "2026-01-01" (search_call true)
        ∷ recording committed 103 "2026-01-01" exa_failure
        ∷ [])
      opened

abbrev exa_event : ℕ → UsageEvent
exa_event at = record {
  occurred_at = at;
  success = false;
  error_summary = "";
  duration_ms = 40;
  error_kind = "timeout";
}

exa_rows :
    source_events (λ es. es) "provider" "exa" three_failures
    ≡ exa_event 103 ∷ exa_event 101 ∷ exa_event 100 ∷ []
unfolding source_events run record_event
exa_rows = refl

source_health-verdict_example :
    ((source_health fractions insertion_sort
        (λ ks. ks)
        (λ es. es)
        default_suspension_policy
        200000000000
        "provider"
        "exa"
        three_failures).status
      ≡ "down")
    × ((source_health fractions insertion_sort
          (λ ks. ks)
          (λ es. es)
          default_suspension_policy
          200000000000
          "provider"
          "exa"
          three_failures).state
        ≡ "suspended")
unfolding leading_failures tally
source_health-verdict_example =
    source_health-verdict fractions insertion_sort (λ ks. ks) (λ es. es) exact
      default_suspension_policy 200000000000 "provider" "exa" three_failures (exa_event 103)
      (exa_event 101 ∷ exa_event 100 ∷ []) exa_rows
