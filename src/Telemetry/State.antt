-- ===== src/Telemetry/State.antt =====
-- The status of a source and its pause, by the history of its calls (`health` in
-- pkg/telemetry/store.go).
use websearch_mcpserver_dash.Prelude.{
  ℕ, suc, ◌+◌, ◌*◌, ◌≤◌, ◌<◌, String, Bool, true, false, not, ◌||◌, ◌≡◌, refl, ap, ◌∙◌, Option,
  none, some, List, ◌∷◌, arith, ltb, leb, ◌==◌, if◌then◌else◌, length,
}
use websearch_mcpserver_dash.Core.{Numbers}
use websearch_mcpserver_dash.Suspension.{SuspensionPolicy, evaluate_suspension}
use websearch_mcpserver_dash.Telemetry.Health.{
  UsageEvent, Window, seconds, one_day, empty_window, see, scan_events, window_suspension, reported,
  health, counted, diagnosed, judged, rate_of,
}
use websearch_mcpserver_dash.Telemetry.Streak.{
  count, leading_failures, failures, failures-le, scan_events-sample_size, scan_events-first,
  scan_events-consecutive, scan_events-failure_rate,
}

-- On counts up to 20, the share of failures is above the constant 0.20 exactly when more than a fifth of
-- the calls failed.
abbrev pub IsExact : {F : Type 0} → Numbers F → Type 0
IsExact num =
    (f n : ℕ)
    → 0 < n
    → n ≤ 20
    → f ≤ n
    → num.float.lt (num.dec 20 2) (num.div (count num f) (num.of_int n)) ≡ ltb n (5 * f)

-- Status and State by the time of the latest call, the failures since the last success, and whether
-- there is other trouble.
abbrev pub ruling : ℕ → ℕ → ℕ → Bool → String × String
ruling now at streak trouble =
    if ltb (seconds at + one_day) now
    then ("unknown", "stale")
    else if leb 3 streak
    then ("down", "suspended")
    else if trouble
    then ("degraded", "degraded")
    else ("healthy", "healthy")

-- Those of a source whose latest call is `e`, before which were `es`.
abbrev pub verdict : ℕ → UsageEvent → List UsageEvent → String × String
verdict now e es =
    ruling now e.occurred_at (leading_failures (e ∷ es))
      (not e.success || ltb (length (e ∷ es)) (5 * failures (e ∷ es)))

evaluate_suspension-streak :
    (p : SuspensionPolicy) (streak : ℕ) (kind : String) (at : Option ℕ) (now : ℕ)
    → (evaluate_suspension p streak kind at now).suspended ≡ true
    → leb 3 streak ≡ true
unfolding evaluate_suspension
evaluate_suspension-streak p streak kind none now h = absurd (cc h)
evaluate_suspension-streak p streak kind (some at) now h = ground (arith, h)

module _ {F : Type 0} (num : Numbers F) where
  judged-ruling :
      (now : ℕ) (w : Window F) (suspended trouble : Bool)
      → (suspended ≡ true → leb 3 w.consecutive_failures ≡ true)
      → (not w.latest_success || num.float.lt (num.dec 20 2) (rate_of num w)) ≡ trouble
      → judged num now w (if suspended then "suspended" else "")
        ≡ ruling now w.last_ts w.consecutive_failures trouble
  judged-ruling now w true trouble s bad = ground (arith, s refl, bad)
  judged-ruling now w false trouble s bad = ground (arith, bad)

  pub reported-diagnosed :
      (sort : List ℕ → List ℕ) (sort_kinds : List (String × ℕ) → List (String × ℕ))
      (policy : SuspensionPolicy) (now : ℕ) (w : Window F)
      → 0 < w.sample_size
      → reported num sort sort_kinds policy now w ≡ diagnosed num sort sort_kinds policy now w
  unfolding reported
  reported-diagnosed sort sort_kinds policy now w some_rows =
      let some_row : (w.sample_size == 0) ≡ false = ground (arith, some_rows) in
      ap
        (λ b.
          if b then counted num sort sort_kinds w else diagnosed num sort sort_kinds policy now w)
        some_row

  reported-ruling :
      (sort : List ℕ → List ℕ) (sort_kinds : List (String × ℕ) → List (String × ℕ))
      (policy : SuspensionPolicy) (now : ℕ) (w : Window F) (trouble : Bool)
      → 0 < w.sample_size
      → (not w.latest_success || num.float.lt (num.dec 20 2) (rate_of num w)) ≡ trouble
      → ((reported num sort sort_kinds policy now w).status
          ≡ (ruling now w.last_ts w.consecutive_failures trouble).0)
        × ((reported num sort sort_kinds policy now w).state
            ≡ (ruling now w.last_ts w.consecutive_failures trouble).1)
  reported-ruling sort sort_kinds policy now w trouble some_rows bad =
      let s = window_suspension num policy now w in
      let streak =
        evaluate_suspension-streak policy w.consecutive_failures w.last_failure_kind
          (some (seconds w.last_failure_ts)) now in
      let rule = judged-ruling now w s.suspended trouble streak bad in
      let shown = reported-diagnosed sort sort_kinds policy now w some_rows in
      (ap (λ h. h.status) shown ∙ ap (λ r. r.0) rule, ap (λ h. h.state) shown ∙ ap (λ r. r.1) rule)

  rate_of-count :
      (w : Window F) (k n : ℕ)
      → w.sample_size ≡ n
      → 0 < n
      → w.failure_rate ≡ count num k
      → rate_of num w ≡ num.div (count num k) (num.of_int n)
  rate_of-count w k n size some_rows rate = ground (arith, size, some_rows, rate)

  -- The window of all the rows, of which `e` is the newest.
  abbrev pub window : UsageEvent → List UsageEvent → Window F
  window e es = scan_events num (e ∷ es) (empty_window num)

  pub window-sample_size :
      (e : UsageEvent) (es : List UsageEvent) → (window e es).sample_size ≡ suc (length es)
  window-sample_size e es = omega (arith, scan_events-sample_size num (e ∷ es) (empty_window num))

  pub window-consecutive :
      (e : UsageEvent) (es : List UsageEvent)
      → (window e es).consecutive_failures ≡ leading_failures (e ∷ es)
  window-consecutive e es =
      omega (arith, scan_events-consecutive num (e ∷ es) (empty_window num) refl refl)

  window-failure_rate :
      (e : UsageEvent) (es : List UsageEvent)
      → (window e es).failure_rate ≡ count num (failures (e ∷ es))
  unfolding count
  window-failure_rate e es =
      ground (arith, scan_events-failure_rate num (e ∷ es) (empty_window num) 0 refl)

  window-latest :
      (e : UsageEvent) (es : List UsageEvent)
      → ((window e es).last_ts ≡ e.occurred_at) × ((window e es).latest_success ≡ e.success)
  unfolding scan_events
  window-latest e es =
      let (ts, ok) = scan_events-first num es (see num e (empty_window num)) (ground arith) in
      ground (arith, ts, ok)

  module _ (sort : List ℕ → List ℕ) (sort_kinds : List (String × ℕ) → List (String × ℕ)) where
    -- Where the comparison with 0.20 is exact on counts, a source with at most 20 rows is shown by its
    -- history: stale if its latest call is more than a day old; down if the latest three calls failed;
    -- degraded if the latest failed, or more than a fifth of all; and healthy otherwise.
    pub health-verdict :
        IsExact num
        → (policy : SuspensionPolicy) (now : ℕ) (e : UsageEvent) (es : List UsageEvent)
        → length (e ∷ es) ≤ 20
        → ((health num sort sort_kinds policy now (e ∷ es)).status ≡ (verdict now e es).0)
          × ((health num sort sort_kinds policy now (e ∷ es)).state ≡ (verdict now e es).1)
    unfolding health
    health-verdict exact policy now e es small =
        let (ts, ok) = window-latest e es in
        let above =
          exact (failures (e ∷ es)) (length (e ∷ es)) (omega arith) small (failures-le (e ∷ es)) in
        let rate =
          rate_of-count (window e es) (failures (e ∷ es)) (length (e ∷ es))
            (window-sample_size e es) (omega arith) (window-failure_rate e es) in
        let trouble : not (window e es).latest_success
              || num.float.lt (num.dec 20 2) (rate_of num (window e es))
            ≡ (not e.success || ltb (length (e ∷ es)) (5 * failures (e ∷ es))) =
          λ i. not (ok i) || (ap (num.float.lt (num.dec 20 2)) rate ∙ above) i in
        let (status, state) =
          reported-ruling sort sort_kinds policy now (window e es)
            (not e.success || ltb (length (e ∷ es)) (5 * failures (e ∷ es)))
            (omega (arith, window-sample_size e es)) trouble in
        let same : ruling now (window e es).last_ts (window e es).consecutive_failures
              (not e.success || ltb (length (e ∷ es)) (5 * failures (e ∷ es)))
            ≡ verdict now e es =
          λ i.
            ruling now (ts i) (window-consecutive e es i)
              (not e.success || ltb (length (e ∷ es)) (5 * failures (e ∷ es))) in
        (status ∙ ap (λ r. r.0) same, state ∙ ap (λ r. r.1) same)
