-- ===== src/Suspension/Tests.antt =====
-- The suspension of a source on concrete inputs (pkg/telemetry/suspension.go).
use websearch_mcpserver_dash.Prelude.{◌≤◌, true, false, some, ◌≡◌, refl, arith}
use websearch_mcpserver_dash.Suspension.Policy.{
  SuspensionPolicy, normalize, evaluate_suspension, base_of,
}

-- Only a pause for one kind of error is given.
abbrev partial_policy : SuspensionPolicy
partial_policy = record {
  ban_time_ms = 0;
  max_ban_time_ms = 0;
  suspended_times_ms = λ kind. some 7000;
}

-- Seven seconds after the failure the pause is over.
until_seven_seconds :
    (evaluate_suspension partial_policy 3 "captcha" (some 100) 7000000099).suspended ≡ true
unfolding evaluate_suspension normalize base_of
until_seven_seconds = refl

over_at_seven_seconds :
    (evaluate_suspension partial_policy 3 "captcha" (some 100) 7000000100).suspended ≡ false
unfolding evaluate_suspension normalize base_of
over_at_seven_seconds = refl

cap_fits : (normalize partial_policy).max_ban_time_ms ≤ 9223372036854
unfolding normalize
cap_fits = omega arith
