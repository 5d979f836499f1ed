-- ===== src/Telemetry/Tests.antt =====
-- The health of a source on concrete calls (pkg/telemetry/store.go).
use websearch_mcpserver_dash.Prelude.{
  ℕ, zero, suc, ◌+◌, ◌*◌, String, Bool, false, ◌≡◌, refl, some, List, [], ◌∷◌, arith, ltb, leb,
  if◌then◌else◌,
}
use websearch_mcpserver_dash.Core.{Numbers}
use websearch_mcpserver_dash.Suspension.{default_suspension_policy, evaluate_suspension}
use websearch_mcpserver_dash.Telemetry.Health.{
  UsageEvent, seconds, empty_window, scan_events, health,
}
use websearch_mcpserver_dash.Telemetry.Streak.{count, leading_failures}
use websearch_mcpserver_dash.Telemetry.State.{IsExact}
use websearch_mcpserver_dash.Telemetry.Pause.{shown_until, health-suspended_until}

-- Fractions.
abbrev pub fractions : Numbers (ℕ × ℕ)
fractions = record {
  float = record {
    nil = (0, 1);
    lt = λ a b. ltb (a.0 * b.1) (b.0 * a.1);
    le = λ a b. leb (a.0 * b.1) (b.0 * a.1);
  };
  add = λ a b. (a.0 * b.1 + b.0 * a.1, a.1 * b.1);
  sub = λ a b. a;
  mul = λ a b. (a.0 * b.0, a.1 * b.1);
  div = λ a b. (a.0 * b.1, a.1 * b.0);
  dec = λ n k. (n, 100);
  of_int = λ n. (n, 1);
  neg_inf = (0, 1);
}

count-fractions : (k : ℕ) → count fractions k ≡ (k, 1)
unfolding count
count-fractions zero = refl
count-fractions (suc k) = ground (arith, count-fractions k)

pub exact : IsExact fractions
exact f n some_rows small few = ground (arith, count-fractions f)

abbrev pub call : ℕ → Bool → String → UsageEvent
call at ok kind = record {
  occurred_at = at;
  success = ok;
  error_summary = "";
  duration_ms = at;
  error_kind = kind;
}

abbrev three_down : List UsageEvent
three_down = call 103 false "captcha" ∷ call 102 false "timeout" ∷ call 101 false "" ∷ []

-- Insertion of a number into an ascending list, and the sort by it.
unfoldable pub insert : ℕ → List ℕ → List ℕ
insert v [] = v ∷ []
insert v (x ∷ xs) = if leb v x then v ∷ x ∷ xs else x ∷ insert v xs

unfoldable pub insertion_sort : List ℕ → List ℕ
insertion_sort [] = []
insertion_sort (x ∷ xs) = insert x (insertion_sort xs)

health-suspended_until_example :
    (health fractions insertion_sort
      (λ ks. ks)
      default_suspension_policy
      200000000000
      three_down).suspended_until
    ≡ shown_until (
        evaluate_suspension default_suspension_policy 3 "captcha" (some (seconds 103)) 200000000000)
unfolding leading_failures
health-suspended_until_example =
    health-suspended_until fractions insertion_sort (λ ks. ks) default_suspension_policy
      200000000000 (call 103 false "captcha") (call 102 false "timeout" ∷ call 101 false "" ∷ [])
      refl

-- Failures without a kind do not keep the time of the newest: the oldest of them is the anchor.
oldest_anchor :
    (scan_events fractions
      (call 103 false "" ∷ call 102 false "" ∷ call 101 false "" ∷ [])
      (empty_window fractions)).last_failure_ts
    ≡ 101
unfolding scan_events
oldest_anchor = refl
