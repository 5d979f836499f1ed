-- ===== src/Suspension/Policy.antt =====
-- How long a source is shown as suspended (pkg/telemetry/suspension.go). A map is a function to
-- options. Milliseconds are int64s of which only the positive ones count: 0 stands for the others too.
-- Points in time are nanoseconds, and the zero time is `none`.
use websearch_mcpserver_dash.Prelude.{
  ℕ, ◌+◌, ◌-◌, ◌*◌, ◌%◌, String, Bool, false, Option, none, some, ltb, ◌==◌, if◌then◌else◌, str_eq,
}

pub record SuspensionPolicy : Type 0 where
  pub ban_time_ms : ℕ
  pub max_ban_time_ms : ℕ
  pub suspended_times_ms : String → Option ℕ

abbrev pub default_suspended_times : String → Option ℕ
default_suspended_times kind =
    if str_eq kind "rate_limit"
    then some 180000
    else if str_eq kind "captcha"
    then some 3600000
    else if str_eq kind "access_denied"
    then some 86400000
    else if str_eq kind "timeout"
    then some 300000
    else if str_eq kind "network"
    then some 300000
    else if str_eq kind "parse"
    then some 900000
    else if str_eq kind "no_result"
    then some 300000
    else none

abbrev pub default_suspension_policy : SuspensionPolicy
default_suspension_policy = record {
  ban_time_ms = 5000;
  max_ban_time_ms = 86400000;
  suspended_times_ms = default_suspended_times;
}

-- A field that is not positive takes its default.
abbrev pub or_default : ℕ → ℕ → ℕ
or_default v def = if v == 0 then def else v

-- The entry of `merged`: a positive one of the policy, or else the default's.
abbrev pub merged_time : Option ℕ → Option ℕ → Option ℕ
merged_time none def = def
merged_time (some v) def = if ltb 0 v then some v else def

unfoldable pub normalize : SuspensionPolicy → SuspensionPolicy
normalize p =
    let def = default_suspension_policy in
    let ban = or_default p.ban_time_ms def.ban_time_ms in
    let max = or_default p.max_ban_time_ms def.max_ban_time_ms in
    record {
      ban_time_ms = ban;
      max_ban_time_ms = if ltb max ban then ban else max;
      suspended_times_ms = λ k. merged_time (p.suspended_times_ms k) (def.suspended_times_ms k);
    }

pub record SuspensionState : Type 0 where
  pub suspended : Bool
  pub until : Option ℕ
  pub base_time_ms : ℕ
  pub error_kind : String
  pub failure_streak : ℕ

-- `override, ok := ...; ok && override > 0`
abbrev pub overridden : Option ℕ → ℕ → ℕ
overridden none base = base
overridden (some v) base = if ltb 0 v then v else base

-- The pause of a normalized policy for a kind of error, under the cap.
unfoldable pub base_of : SuspensionPolicy → String → ℕ
base_of p kind =
    let base = overridden (p.suspended_times_ms kind) p.ban_time_ms in
    if ltb p.max_ban_time_ms base then p.max_ban_time_ms else base

-- `t.Add(time.Duration(base) * time.Millisecond)`: the product is an int64, so from 2^63 on it wraps
-- to a negative duration.
abbrev pub add_millis : ℕ → ℕ → ℕ
add_millis t base =
    let d = (base * 1000000) % 18446744073709551616 in
    if ltb d 9223372036854775808 then t + d else t - (18446744073709551616 - d)

abbrev pub paused : ℕ → String → ℕ → ℕ → ℕ → SuspensionState
paused failures kind base until now = record {
  suspended = ltb now until;
  until = some until;
  base_time_ms = base;
  error_kind = kind;
  failure_streak = failures;
}

abbrev pub not_suspended : ℕ → String → SuspensionState
not_suspended failures kind = record {
  suspended = false;
  until = none;
  base_time_ms = 0;
  error_kind = kind;
  failure_streak = failures;
}

unfoldable pub evaluate_suspension : SuspensionPolicy → ℕ → String → Option ℕ → ℕ → SuspensionState
evaluate_suspension policy failures kind none now = not_suspended failures kind
evaluate_suspension policy failures kind (some at) now =
    let base = base_of (normalize policy) kind in
    if ltb failures 3
    then not_suspended failures kind
    else paused failures kind base (add_millis at base) now
