-- ===== src/Telemetry/Source.antt =====
-- The health of a source from the rows of the store: the query of `health` before its loop
-- (pkg/telemetry/store.go). `newest` is `ORDER BY occurred_at DESC,id DESC`.
use websearch_mcpserver_dash.Prelude.{
  ℕ, ◌≤◌, String, Bool, ◌&&◌, ◌≡◌, ap, ◌∙◌, List, ◌∷◌, arith, ◌==◌, if◌then◌else◌, length,
  length-map, length-take-le, map, take, keep, str_eq,
}
use mathlib.Core.Path.{subst}
use websearch_mcpserver_dash.Core.{Numbers}
use websearch_mcpserver_dash.Suspension.{SuspensionPolicy}
use websearch_mcpserver_dash.Telemetry.Store.{StoredEvent, Store}
use websearch_mcpserver_dash.Telemetry.Health.{UsageEvent, Health, health}
use websearch_mcpserver_dash.Telemetry.State.{IsExact, verdict, health-verdict}

-- `success` holds 0 or 1, as Record writes it.
abbrev pub usage_event : StoredEvent → UsageEvent
usage_event e = record {
  occurred_at = e.occurred_at;
  success = e.success == 1;
  error_summary = e.error_summary;
  duration_ms = e.duration_ms;
  error_kind = e.error_kind;
}

-- `WHERE kind=? AND provider=?`, or the tool in place of the provider.
abbrev pub is_of_source : String → String → StoredEvent → Bool
is_of_source kind name e =
    str_eq e.kind kind
    && (if str_eq kind "tool" then str_eq e.tool name else str_eq e.provider name)

unfoldable pub source_events :
    (List StoredEvent → List StoredEvent) → String → String → Store → List UsageEvent
source_events newest kind name s =
    map usage_event (take 20 (newest (keep (is_of_source kind name) s.usage_events)))

module _ {F : Type 0} (num : Numbers F) (sort : List ℕ → List ℕ)
    (sort_kinds : List (String × ℕ) → List (String × ℕ))
    (newest : List StoredEvent → List StoredEvent) where
  unfoldable pub source_health : SuspensionPolicy → ℕ → String → String → Store → Health F
  source_health policy now kind name s =
      health num sort sort_kinds policy now (source_events newest kind name s)

  source_events-few :
      (kind name : String) (s : Store) → length (source_events newest kind name s) ≤ 20
  unfolding source_events
  source_events-few kind name s =
      let rows = newest (keep (is_of_source kind name) s.usage_events) in
      omega (arith, length-map usage_event (take 20 rows), length-take-le 20 rows)

  -- Where the comparison with 0.20 is exact on counts, a source that has rows is shown by its latest 20
  -- calls: stale if the latest is more than a day old; down if the latest three failed; degraded if the
  -- latest failed, or more than a fifth of them; and healthy otherwise.
  pub source_health-verdict :
      IsExact num
      → (policy : SuspensionPolicy) (now : ℕ) (kind name : String) (s : Store) (e : UsageEvent)
        (es : List UsageEvent)
      → source_events newest kind name s ≡ e ∷ es
      → ((source_health policy now kind name s).status ≡ (verdict now e es).0)
        × ((source_health policy now kind name s).state ≡ (verdict now e es).1)
  unfolding source_health
  source_health-verdict exact policy now kind name s e es rows =
      let few : length (e ∷ es) ≤ 20 =
        subst (λ l. length l ≤ 20) rows (source_events-few kind name s) in
      let (status, state) = health-verdict num sort sort_kinds exact policy now e es few in
      let same = ap (health num sort sort_kinds policy now) rows in
      (ap (λ h. h.status) same ∙ status, ap (λ h. h.state) same ∙ state)
