-- ===== src/Telemetry/Streak.antt =====
-- What the loop over the rows of a source counts (`health` in pkg/telemetry/store.go).
use websearch_mcpserver_dash.Prelude.{
  ℕ, zero, suc, ◌+◌, ◌≤◌, ◌<◌, true, false, not, ◌≡◌, refl, none, List, [], ◌∷◌, arith,
  if◌then◌else◌, length, tally, str_eq,
}
use websearch_mcpserver_dash.Core.{Numbers}
use websearch_mcpserver_dash.Telemetry.Health.{UsageEvent, Window, see, scan_events}

-- The failures since the newest success.
unfoldable pub leading_failures : List UsageEvent → ℕ
leading_failures [] = 0
leading_failures (e ∷ es) = if e.success then 0 else suc (leading_failures es)

abbrev pub failures : List UsageEvent → ℕ
failures es = tally (λ e. not e.success) es

pub failures-le : (es : List UsageEvent) → failures es ≤ length es
unfolding tally
failures-le [] = omega arith
failures-le (e ∷ es) = ground (arith, failures-le es)

module _ {F : Type 0} (num : Numbers F) where
  -- A float64 that was counted up from 0.
  unfoldable pub count : ℕ → F
  count zero = num.float.nil
  count (suc k) = num.add (count k) (num.of_int 1)

  pub scan_events-sample_size :
      (es : List UsageEvent) (w : Window F)
      → (scan_events num es w).sample_size ≡ w.sample_size + length es
  unfolding scan_events
  scan_events-sample_size [] w = omega arith
  scan_events-sample_size (e ∷ es) w = ground (arith, scan_events-sample_size es (see num e w))

  pub scan_events-first :
      (es : List UsageEvent) (w : Window F)
      → 0 < w.sample_size
      → ((scan_events num es w).last_ts ≡ w.last_ts)
        × ((scan_events num es w).latest_success ≡ w.latest_success)
  unfolding scan_events
  scan_events-first [] w h = (refl, refl)
  scan_events-first (e ∷ es) w h = ground (arith, h, scan_events-first es (see num e w))

  pub scan_events-stopped :
      (es : List UsageEvent) (w : Window F)
      → w.counting_consecutive ≡ false
      → (scan_events num es w).consecutive_failures ≡ w.consecutive_failures
  unfolding scan_events
  scan_events-stopped [] w h = refl
  scan_events-stopped (e ∷ es) w h = ground (arith, h, scan_events-stopped es (see num e w))

  pub scan_events-consecutive :
      (es : List UsageEvent) (w : Window F)
      → w.counting_consecutive ≡ true
      → w.last_success_at ≡ none
      → (scan_events num es w).consecutive_failures ≡ w.consecutive_failures + leading_failures es
  unfolding scan_events leading_failures
  scan_events-consecutive [] w h s = omega arith
  scan_events-consecutive (e ∷ es) w h s =
      ground (
        arith,
        h,
        s,
        scan_events-stopped es (see num e w),
        scan_events-consecutive es (see num e w),
      )

  pub scan_events-failure_rate :
      (es : List UsageEvent) (w : Window F) (k : ℕ)
      → w.failure_rate ≡ count k
      → (scan_events num es w).failure_rate ≡ count (k + failures es)
  unfolding scan_events count tally
  scan_events-failure_rate [] w k h = ground (arith, h)
  scan_events-failure_rate (e ∷ es) w k h = ground (
    arith,
    h,
    scan_events-failure_rate es (see num e w) k,
    scan_events-failure_rate es (see num e w) (suc k),
  )

  pub scan_events-anchor :
      (es : List UsageEvent) (w : Window F)
      → str_eq w.last_failure_kind "" ≡ false
      → ((scan_events num es w).last_failure_ts ≡ w.last_failure_ts)
        × ((scan_events num es w).last_failure_kind ≡ w.last_failure_kind)
  unfolding scan_events
  scan_events-anchor [] w h = (refl, refl)
  scan_events-anchor (e ∷ es) w h = ground (arith, h, scan_events-anchor es (see num e w))
