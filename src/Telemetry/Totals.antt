-- ===== src/Telemetry/Totals.antt =====
-- What the table of the days says of the calls that were recorded (pkg/telemetry/store.go).
use websearch_mcpserver_dash.Prelude.{
  ℕ, ◌+◌, ◌≤◌, String, Bool, true, false, ◌≡◌, ◌↔◌, refl, ap, sym, Option, none, some, List, [],
  ◌∷◌, arith, eq_iff, tally,
}
use mathlib.Core.Path.{subst}
use websearch_mcpserver_dash.Go.{Text}
use websearch_mcpserver_dash.Telemetry.ErrorKind.{Patterns}
use websearch_mcpserver_dash.Telemetry.Store.{
  CallEvent, QuerySummary, DailyKey, DailyUsage, Store, Transaction, not_begun, insert_failed,
  upsert_failed, not_committed, committed, same_daily_key, daily_values, with_excluded,
  upsert_daily, record_event, cleanup, Column, requests_column, successes_column, failures_column,
  cache_hits_column, duration_column, result_count_column, column, sum_where,
}

same_daily_key_iff : (a b : DailyKey) → (same_daily_key a b ≡ true) ↔ (a ≡ b)
unfolding same_daily_key
same_daily_key_iff a b = (
  λ h. ground (
    arith,
    eq_iff a.day b.day,
    eq_iff a.kind b.kind,
    eq_iff a.tool b.tool,
    eq_iff a.provider b.provider,
  ),
  λ h. ground (
    arith,
    eq_iff a.day b.day,
    eq_iff a.kind b.kind,
    eq_iff a.tool b.tool,
    eq_iff a.provider b.provider,
  ),
)

-- A call of the store's methods: Record at a time and a day, and Cleanup with its cutoff.
pub data StoreCall : Type 0 where
  recording : Transaction → ℕ → String → CallEvent → StoreCall
  cleaning : Bool → ℕ → StoreCall

-- The day and the event that a call records.
abbrev pub recorded_by : StoreCall → Option (String × CallEvent)
recorded_by (recording committed now day e) = some (day, e)
recorded_by (recording not_begun now day e) = none
recorded_by (recording insert_failed now day e) = none
recorded_by (recording upsert_failed now day e) = none
recorded_by (recording not_committed now day e) = none
recorded_by (cleaning ran cutoff) = none

abbrev pub with_row : Option (String × CallEvent) → List DailyUsage → List DailyUsage
with_row none rows = rows
with_row (some (day, e)) rows = daily_values day e ∷ rows

abbrev pub with_recorded : Option (String × CallEvent) → List DailyUsage → List DailyUsage
with_recorded none rows = rows
with_recorded (some (day, e)) rows = upsert_daily (daily_values day e) rows

-- One row for each call that was recorded.
unfoldable pub recorded : List StoreCall → List DailyUsage
recorded [] = []
recorded (call ∷ calls) = with_row (recorded_by call) (recorded calls)

column-with_excluded :
    (day : String) (e : CallEvent) (row : DailyUsage) (c : Column)
    → column c (with_excluded (daily_values day e) row)
      ≡ column c row + column c (daily_values day e)
column-with_excluded day e row requests_column = omega arith
column-with_excluded day e row successes_column = omega arith
column-with_excluded day e row failures_column = omega arith
column-with_excluded day e row cache_hits_column = omega arith
column-with_excluded day e row duration_column = omega arith
column-with_excluded day e row result_count_column = omega arith

module _ (test : DailyKey → Bool) (c : Column) where
  pub sum_where-upsert_daily :
      (day : String) (e : CallEvent) (rows : List DailyUsage)
      → sum_where test c (upsert_daily (daily_values day e) rows)
        ≡ sum_where test c (daily_values day e ∷ rows)
  unfolding sum_where upsert_daily
  sum_where-upsert_daily day e [] = refl
  sum_where-upsert_daily day e (row ∷ rows) =
      let new = daily_values day e in
      let same : same_daily_key new.key row.key ≡ true → test new.key ≡ test row.key =
        λ h. ap test ((same_daily_key_iff new.key row.key).0 h) in
      ground (arith, same, column-with_excluded day e row c, sum_where-upsert_daily day e rows)

-- The rows of one key.
abbrev pub rows_of : DailyKey → List DailyUsage → ℕ
rows_of k rows = tally (λ d. same_daily_key k d.key) rows

rows_of-upsert_daily_ne :
    (k : DailyKey) (new : DailyUsage) (rows : List DailyUsage)
    → same_daily_key k new.key ≡ false
    → rows_of k (upsert_daily new rows) ≡ rows_of k rows
unfolding upsert_daily tally
rows_of-upsert_daily_ne k new [] h = ground (arith, h)
rows_of-upsert_daily_ne k new (row ∷ rows) h =
    ground (arith, h, rows_of-upsert_daily_ne k new rows h)

rows_of-upsert_daily_self :
    (new : DailyUsage) (rows : List DailyUsage)
    → rows_of new.key rows ≤ 1
    → rows_of new.key (upsert_daily new rows) ≤ 1
unfolding upsert_daily tally
rows_of-upsert_daily_self new [] h = ground arith
rows_of-upsert_daily_self new (row ∷ rows) h = ground (arith, h, rows_of-upsert_daily_self new rows)

pub rows_of-upsert_daily :
    (k : DailyKey) (new : DailyUsage) (rows : List DailyUsage) (b : Bool)
    → same_daily_key k new.key ≡ b
    → rows_of k rows ≤ 1
    → rows_of k (upsert_daily new rows) ≤ 1
rows_of-upsert_daily k new rows true same h =
    subst (λ l. rows_of l rows ≤ 1 → rows_of l (upsert_daily new rows) ≤ 1)
      (sym ((same_daily_key_iff k new.key).0 same)) (rows_of-upsert_daily_self new rows) h
rows_of-upsert_daily k new rows false same h =
    omega (arith, rows_of-upsert_daily_ne k new rows same, h)

module _ (patterns : Patterns) (text : Text) (summarize_query : String → QuerySummary)
    (summarize_error : Option String → String) where
  abbrev pub step : StoreCall → Store → Store
  step (recording tx now day e) s =
      (record_event patterns text summarize_query summarize_error tx now day e s).1
  step (cleaning ran cutoff) s = (cleanup ran cutoff s).1

  unfoldable pub run : List StoreCall → Store → Store
  run [] s = s
  run (c ∷ cs) s = run cs (step c s)

  pub step-daily :
      (call : StoreCall) (s : Store)
      → (step call s).daily_usage ≡ with_recorded (recorded_by call) s.daily_usage
  unfolding record_event cleanup
  step-daily (recording not_begun now day e) s = refl
  step-daily (recording insert_failed now day e) s = refl
  step-daily (recording upsert_failed now day e) s = refl
  step-daily (recording not_committed now day e) s = refl
  step-daily (recording committed now day e) s = refl
  step-daily (cleaning true cutoff) s = refl
  step-daily (cleaning false cutoff) s = refl
