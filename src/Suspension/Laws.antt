-- ===== src/Suspension/Laws.antt =====
-- The bounds of a suspension (pkg/telemetry/suspension.go).
use websearch_mcpserver_dash.Prelude.{
  ℕ, ◌+◌, ◌*◌, ◌≤◌, ◌<◌, String, true, false, Option, none, some, ◌≡◌, refl, arith,
}
use websearch_mcpserver_dash.Suspension.Policy.{
  SuspensionPolicy, default_suspended_times, or_default, merged_time, normalize, base_of,
  add_millis, evaluate_suspension,
}

merged_time_twice : (v def : Option ℕ) → merged_time (merged_time v def) def ≡ merged_time v def
merged_time_twice none none = refl
merged_time_twice none (some d) = ground arith
merged_time_twice (some v) none = ground arith
merged_time_twice (some v) (some d) = ground arith

or_default_twice : (v def : ℕ) → or_default (or_default v def) def ≡ or_default v def
or_default_twice v def = ground arith

cap_twice :
    (p : SuspensionPolicy)
    → (normalize (normalize p)).max_ban_time_ms ≡ (normalize p).max_ban_time_ms
unfolding normalize
cap_twice p = ground arith

-- Normalize changes nothing in a policy that it has normalized.
pub normalize-normalize : (p : SuspensionPolicy) → normalize (normalize p) ≡ normalize p
unfolding normalize
normalize-normalize p = λ i. record {
  ban_time_ms = or_default_twice p.ban_time_ms 5000 i;
  max_ban_time_ms = cap_twice p i;
  suspended_times_ms =
      λ k. merged_time_twice (p.suspended_times_ms k) (default_suspended_times k) i;
}

base_of-le : (p : SuspensionPolicy) (kind : String) → base_of p kind ≤ p.max_ban_time_ms
unfolding base_of
base_of-le p kind = ground arith

add_millis-small : (t base : ℕ) → base ≤ 9223372036854 → add_millis t base ≡ t + base * 1000000
add_millis-small t base le = ground arith

-- Under a cap that is not above 9,223,372,036,854 ms, a source is shown as suspended only after three
-- failures in a row, and only until the cap has passed since the last one.
evaluate_suspension-bound :
    (p : SuspensionPolicy) (failures : ℕ) (kind : String) (at now : ℕ)
    → (normalize p).max_ban_time_ms ≤ 9223372036854
    → (evaluate_suspension p failures kind (some at) now).suspended ≡ true
    → (3 ≤ failures) × (now < at + (normalize p).max_ban_time_ms * 1000000)
unfolding evaluate_suspension
evaluate_suspension-bound p failures kind at now cap h =
    let base = base_of (normalize p) kind in
    let le = base_of-le (normalize p) kind in
    let fits = add_millis-small at base (omega (arith, le, cap)) in ground (arith, le, fits, h)

-- Without a new failure a suspension that is over does not come back.
pub evaluate_suspension-over :
    (p : SuspensionPolicy) (failures : ℕ) (kind : String) (last : Option ℕ) (now later : ℕ)
    → now ≤ later
    → (evaluate_suspension p failures kind last now).suspended ≡ false
    → (evaluate_suspension p failures kind last later).suspended ≡ false
unfolding evaluate_suspension
evaluate_suspension-over p failures kind none now later le h = refl
evaluate_suspension-over p failures kind (some at) now later le h = ground arith
