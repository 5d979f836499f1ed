-- ===== src/Telemetry/Pause.antt =====
-- Until when a source is shown as paused (`health` in pkg/telemetry/store.go).
use websearch_mcpserver_dash.Prelude.{
  ℕ, String, Bool, true, false, not, ◌&&◌, ◌||◌, ◌≡◌, refl, ap, ◌∙◌, Option, none, some, List, ◌∷◌,
  sym, arith, if◌then◌else◌, str_eq,
}
use websearch_mcpserver_dash.Core.{Numbers}
use websearch_mcpserver_dash.Suspension.{SuspensionPolicy, SuspensionState, evaluate_suspension}
use websearch_mcpserver_dash.Telemetry.Health.{
  UsageEvent, seconds, empty_window, see, scan_events, window_suspension, health,
}
use websearch_mcpserver_dash.Telemetry.Streak.{leading_failures, scan_events-anchor}
use websearch_mcpserver_dash.Telemetry.State.{
  reported-diagnosed, window, window-sample_size, window-consecutive,
}

abbrev pub shown_until : SuspensionState → Option ℕ
shown_until s = if s.suspended then s.until else none

shown_until-no_streak :
    (p : SuspensionPolicy) {streak : ℕ} (kind : String) (at now : ℕ)
    → streak ≡ 0
    → shown_until (evaluate_suspension p streak kind (some at) now) ≡ none
unfolding evaluate_suspension
shown_until-no_streak p kind at now h = ground (arith, h)

module _ {F : Type 0} (num : Numbers F) where
  window-anchor :
      (e : UsageEvent) (es : List UsageEvent)
      → (not e.success && not (str_eq e.error_kind "")) ≡ true
      → ((window num e es).last_failure_ts ≡ e.occurred_at)
        × ((window num e es).last_failure_kind ≡ e.error_kind)
  unfolding scan_events
  window-anchor e es h =
      let (ts, kind) =
        scan_events-anchor num es (see num e (empty_window num)) (ground (arith, h)) in
      ground (arith, h, ts, kind)

  window-shown :
      (e : UsageEvent) (es : List UsageEvent) (policy : SuspensionPolicy) (now : ℕ) (ok : Bool)
      → e.success ≡ ok
      → (ok || not (str_eq e.error_kind "")) ≡ true
      → shown_until (window_suspension num policy now (window num e es))
        ≡ shown_until (
            evaluate_suspension policy
              (leading_failures (e ∷ es))
              e.error_kind
              (some (seconds e.occurred_at))
              now)
  unfolding leading_failures
  window-shown e es policy now true success named =
      let streak : leading_failures (e ∷ es) ≡ 0 = ground (arith, success) in
      shown_until-no_streak policy (window num e es).last_failure_kind
        (seconds (window num e es).last_failure_ts) now (window-consecutive num e es ∙ streak)
      ∙ sym (shown_until-no_streak policy e.error_kind (seconds e.occurred_at) now streak)
  window-shown e es policy now false failure named =
      let (ts, kind) = window-anchor e es (ground (arith, failure, named)) in
      λ i. shown_until (
        evaluate_suspension policy (window-consecutive num e es i) (kind i) (some (seconds (ts i)))
          now)

  module _ (sort : List ℕ → List ℕ) (sort_kinds : List (String × ℕ) → List (String × ℕ)) where
    -- If the latest call of a source succeeded, or failed with a kind of error, then the pause that is
    -- shown is the one that the policy gives for the failures since the last success, counted from that
    -- call.
    pub health-suspended_until :
        (policy : SuspensionPolicy) (now : ℕ) (e : UsageEvent) (es : List UsageEvent)
        → (e.success || not (str_eq e.error_kind "")) ≡ true
        → (health num sort sort_kinds policy now (e ∷ es)).suspended_until
          ≡ shown_until (
              evaluate_suspension policy
                (leading_failures (e ∷ es))
                e.error_kind
                (some (seconds e.occurred_at))
                now)
    unfolding health
    health-suspended_until policy now e es named =
        ap (λ h. h.suspended_until)
          (reported-diagnosed num sort sort_kinds policy now (window num e es)
            (omega (arith, window-sample_size num e es)))
        ∙ window-shown e es policy now e.success refl named
