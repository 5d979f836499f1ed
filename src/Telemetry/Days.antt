-- ===== src/Telemetry/Days.antt =====
-- Overview.Today against the calls that were recorded (pkg/telemetry/store.go).
use websearch_mcpserver_dash.Prelude.{
  ◌+◌, ◌≤◌, String, Bool, ◌≡◌, refl, ap, sym, Option, none, some, List, [], ◌∷◌, arith, tally,
}
use mathlib.Core.Path.{subst}
use websearch_mcpserver_dash.Go.{Text}
use websearch_mcpserver_dash.Telemetry.ErrorKind.{Patterns}
use websearch_mcpserver_dash.Telemetry.Store.{
  CallEvent, QuerySummary, DailyKey, DailyUsage, Store, daily_values, Column, requests_column,
  successes_column, failures_column, cache_hits_column, duration_column, result_count_column,
  sum_where, tool_day, today, same_daily_key,
}
use websearch_mcpserver_dash.Telemetry.Totals.{
  StoreCall, recorded_by, recorded, with_row, with_recorded, rows_of, sum_where-upsert_daily,
  rows_of-upsert_daily, step, run, step-daily,
}

abbrev pub opened : Store
opened = record { usage_events = []; daily_usage = []; next_id = 1 }

module _ (test : DailyKey → Bool) (c : Column) where
  sum_where-with_recorded :
      (o : Option (String × CallEvent)) (rows rest : List DailyUsage)
      → sum_where test c (with_recorded o rows) + sum_where test c rest
        ≡ sum_where test c rows + sum_where test c (with_row o rest)
  unfolding sum_where
  sum_where-with_recorded none rows rest = refl
  sum_where-with_recorded (some (day, e)) rows rest =
      omega (arith, sum_where-upsert_daily test c day e rows)

-- Every row that one call adds counts a success or a failure.
balanced-with_row :
    (test : DailyKey → Bool) (o : Option (String × CallEvent)) (rest : List DailyUsage)
    → sum_where test requests_column rest
      ≡ sum_where test successes_column rest + sum_where test failures_column rest
    → sum_where test requests_column (with_row o rest)
      ≡ sum_where test successes_column (with_row o rest)
        + sum_where test failures_column (with_row o rest)
unfolding sum_where
balanced-with_row test none rest h = h
balanced-with_row test (some (day, e)) rest h = ground (arith, h)

recorded-balanced :
    (test : DailyKey → Bool) (calls : List StoreCall)
    → sum_where test requests_column (recorded calls)
      ≡ sum_where test successes_column (recorded calls)
        + sum_where test failures_column (recorded calls)
unfolding sum_where recorded
recorded-balanced test [] = ground arith
recorded-balanced test (call ∷ calls) =
    balanced-with_row test (recorded_by call) (recorded calls) (recorded-balanced test calls)

rows_of-with_recorded :
    (k : DailyKey) (o : Option (String × CallEvent)) (rows : List DailyUsage)
    → rows_of k rows ≤ 1
    → rows_of k (with_recorded o rows) ≤ 1
rows_of-with_recorded k none rows h = h
rows_of-with_recorded k (some (day, e)) rows h =
    let new = daily_values day e in
    rows_of-upsert_daily k new rows (same_daily_key k new.key) refl h

module _ (patterns : Patterns) (text : Text) (summarize_query : String → QuerySummary)
    (summarize_error : Option String → String) where
  abbrev after : List StoreCall → Store → Store
  after = run patterns text summarize_query summarize_error

  after-daily :
      (call : StoreCall) (s : Store)
      → (step patterns text summarize_query summarize_error call s).daily_usage
        ≡ with_recorded (recorded_by call) s.daily_usage
  after-daily call s = step-daily patterns text summarize_query summarize_error call s

  sum_where-run :
      (test : DailyKey → Bool) (c : Column) (calls : List StoreCall) (s : Store)
      → sum_where test c (after calls s).daily_usage
        ≡ sum_where test c s.daily_usage + sum_where test c (recorded calls)
  unfolding run recorded sum_where
  sum_where-run test c [] s = ground arith
  sum_where-run test c (call ∷ calls) s = omega (
    arith,
    sum_where-run test c calls (step patterns text summarize_query summarize_error call s),
    ap (sum_where test c) (after-daily call s),
    sum_where-with_recorded test c (recorded_by call) s.daily_usage (recorded calls),
  )

  rows_of-run :
      (k : DailyKey) (calls : List StoreCall) (s : Store)
      → rows_of k s.daily_usage ≤ 1
      → rows_of k (after calls s).daily_usage ≤ 1
  unfolding run
  rows_of-run k [] s h = h
  rows_of-run k (call ∷ calls) s h =
      rows_of-run k calls (step patterns text summarize_query summarize_error call s) (
        subst (λ rows. rows_of k rows ≤ 1) (sym (after-daily call s))
          (rows_of-with_recorded k (recorded_by call) s.daily_usage h))

  -- After any calls of Record and Cleanup on a new store, whichever of them fail, the day's totals of
  -- Overview are those of the calls that were recorded, each counted once as a success or a failure, and
  -- no key has two rows.
  pub run-totals :
      (calls : List StoreCall) (day : String) (k : DailyKey)
      → (today day (after calls opened)
          ≡ today day (record opened { daily_usage = recorded calls }))
        × ((today day (after calls opened)).requests
            ≡ (today day (after calls opened)).successes
              + (today day (after calls opened)).failures)
        × (rows_of k (after calls opened).daily_usage ≤ 1)
  unfolding today sum_where tally
  run-totals calls day k =
      let sum : (c : Column)
          → sum_where (tool_day day) c (after calls opened).daily_usage
            ≡ sum_where (tool_day day) c (recorded calls) =
        λ c. omega (arith, sum_where-run (tool_day day) c calls opened) in
      (
        λ i. record {
          key = record { day = day; kind = "tool"; tool = ""; provider = "" };
          requests = sum requests_column i;
          successes = sum successes_column i;
          failures = sum failures_column i;
          cache_hits = sum cache_hits_column i;
          duration_ms = sum duration_column i;
          result_count = sum result_count_column i;
        },
        omega (
          arith,
          sum requests_column,
          sum successes_column,
          sum failures_column,
          recorded-balanced (tool_day day) calls,
        ),
        rows_of-run k calls opened (omega arith),
      )
