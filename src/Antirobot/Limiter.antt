-- ===== src/Antirobot/Limiter.antt =====
-- The sliding-window limiter of requests (pkg/antirobot/limiter.go). Times and durations are
-- nanoseconds; the clock's reading is an argument, and the mutex makes each call one step. A limit or
-- an interval below 0 does what 0 does.
use websearch_mcpserver_dash.Prelude.{
  ℕ, ◌+◌, Bool, true, false, ◌&&◌, ◌||◌, Option, none, some, List, [], ◌∷◌, ◌++◌, ltb, leb,
  if◌then◌else◌, length, keep,
}

pub record RateLimiter : Type 0 where
  pub per_sec : ℕ
  pub per_min : ℕ
  pub min_interval : ℕ
  pub last : Option ℕ
  pub sec_window : List ℕ
  pub min_window : List ℕ

abbrev pub new_rate_limiter : ℕ → ℕ → RateLimiter
new_rate_limiter per_sec per_min = record {
  per_sec = per_sec;
  per_min = per_min;
  min_interval = 0;
  last = none;
  sec_window = [];
  min_window = [];
}

abbrev pub with_min_interval : ℕ → RateLimiter → RateLimiter
with_min_interval d r = record r { min_interval = d }

abbrev pub second : ℕ
second = 1000000000

abbrev pub minute : ℕ
minute = 60000000000

-- `t.After(now.Add(-span))`
abbrev pub recent : ℕ → ℕ → ℕ → Bool
recent span now t = ltb now (t + span)

unfoldable pub filter_after : ℕ → ℕ → List ℕ → List ℕ
filter_after span now w = keep (recent span now) w

-- `!last.IsZero() && now.Sub(last) < minInterval`
abbrev pub within_interval : ℕ → ℕ → Option ℕ → Bool
within_interval now d none = false
within_interval now d (some l) = ltb now (l + d)

abbrev pub too_soon : ℕ → RateLimiter → Bool
too_soon now r = ltb 0 r.min_interval && within_interval now r.min_interval r.last

abbrev pub pruned : ℕ → RateLimiter → RateLimiter
pruned now r = record r {
  sec_window = filter_after second now r.sec_window;
  min_window = filter_after minute now r.min_window;
}

-- `len(secWindow) >= perSec || len(minWindow) >= perMin`
abbrev pub is_full : RateLimiter → Bool
is_full r = leb r.per_sec (length r.sec_window) || leb r.per_min (length r.min_window)

abbrev pub recorded : ℕ → RateLimiter → RateLimiter
recorded now r = record r {
  last = some now;
  sec_window = r.sec_window ++ now ∷ [];
  min_window = r.min_window ++ now ∷ [];
}

-- The two early returns of Allow, and what it does past them.
abbrev pub decide : Bool → Bool → ℕ → RateLimiter → RateLimiter × Bool
decide soon full now r =
    if soon
    then (r, false)
    else if full
    then (pruned now r, false)
    else (recorded now (pruned now r), true)

unfoldable pub allow : ℕ → RateLimiter → RateLimiter × Bool
allow now r = decide (too_soon now r) (is_full (pruned now r)) now r

-- The times of the calls of Allow that return true, of calls at the given times.
unfoldable pub allowed_times : RateLimiter → List ℕ → List ℕ
allowed_times r [] = []
allowed_times r (t ∷ ts) =
    let step = allow t r in let rest = allowed_times step.0 ts in if step.1 then t ∷ rest else rest
