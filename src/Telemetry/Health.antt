-- ===== src/Telemetry/Health.antt =====
-- The health of one source by its latest calls, newest first (`health` in pkg/telemetry/store.go).
-- `occurred_at` is in seconds, `now` in nanoseconds. A formatted time is the second that it stands for,
-- and `none` where the text is empty; the field SuspendCountdown, which reads the clock again, is left
-- out.
use websearch_mcpserver_dash.Prelude.{
  ℕ, ◌+◌, ◌*◌, String, Bool, true, false, not, ◌&&◌, ◌||◌, Option, none, some, List, [], ◌∷◌, ◌++◌,
  ltb, leb, ◌==◌, if◌then◌else◌, str_eq,
}
use websearch_mcpserver_dash.Core.{Numbers}
use websearch_mcpserver_dash.Suspension.{SuspensionPolicy, SuspensionState, evaluate_suspension}
use websearch_mcpserver_dash.Telemetry.Percentile.{calculate_p95}

-- The columns that the query reads of `usage_events`.
pub record UsageEvent : Type 0 where
  pub occurred_at : ℕ
  pub success : Bool
  pub error_summary : String
  pub duration_ms : ℕ
  pub error_kind : String

-- The variables of the loop over the rows.
pub record Window (F : Type 0) : Type 0 where
  pub sample_size : ℕ
  pub durations : List ℕ
  pub error_kinds : List (String × ℕ)
  pub newest_first : List Bool
  pub last_ts : ℕ
  pub latest_success : Bool
  pub last_error : String
  pub last_seen_at : Option ℕ
  pub last_success_at : Option ℕ
  pub last_failure_at : Option ℕ
  pub counting_consecutive : Bool
  pub consecutive_failures : ℕ
  pub failure_rate : F
  pub last_failure_ts : ℕ
  pub last_failure_kind : String

pub record Health (F : Type 0) : Type 0 where
  pub status : String
  pub state : String
  pub confidence : String
  pub last_seen_at : Option ℕ
  pub last_success_at : Option ℕ
  pub last_failure_at : Option ℕ
  pub last_error : String
  pub failure_rate : F
  pub sample_size : ℕ
  pub consecutive_failures : ℕ
  pub recent_outcomes : List Bool
  pub p95_ms : Option ℕ
  pub error_kinds : List (String × ℕ)
  pub suspended_until : Option ℕ
  pub suspend_reason : String

-- `errorKinds[kind]++`
unfoldable pub count_kind : String → List (String × ℕ) → List (String × ℕ)
count_kind kind [] = (kind, 1) ∷ []
count_kind kind ((k, n) ∷ rest) =
    if str_eq kind k then (k, n + 1) ∷ rest else (k, n) ∷ count_kind kind rest

-- `if h.LastFailureAt == ""`
abbrev pub or_at : Option ℕ → ℕ → Option ℕ
or_at none at = some at
or_at (some t) at = some t

abbrev pub is_none : Option ℕ → Bool
is_none none = true
is_none (some t) = false

-- The loop that turns the outcomes around.
unfoldable pub oldest_first : List Bool → List Bool
oldest_first [] = []
oldest_first (b ∷ bs) = oldest_first bs ++ b ∷ []

abbrev pub seconds : ℕ → ℕ
seconds n = n * 1000000000

-- 24 * time.Hour
abbrev pub one_day : ℕ
one_day = 86400000000000

abbrev pub min_sample_size : ℕ
min_sample_size = 5

module _ {F : Type 0} (num : Numbers F) where
  abbrev pub empty_window : Window F
  empty_window = record {
    sample_size = 0;
    durations = [];
    error_kinds = [];
    newest_first = [];
    last_ts = 0;
    latest_success = false;
    last_error = "";
    last_seen_at = none;
    last_success_at = none;
    last_failure_at = none;
    counting_consecutive = true;
    consecutive_failures = 0;
    failure_rate = num.float.nil;
    last_failure_ts = 0;
    last_failure_kind = "";
  }

  -- What the loop does for every row, and what `SampleSize == 1` adds for the first.
  abbrev pub sampled : UsageEvent → Window F → Window F
  sampled e w = record w {
    sample_size = w.sample_size + 1;
    durations = w.durations ++ e.duration_ms ∷ [];
    error_kinds =
        if not e.success && not (str_eq e.error_kind "")
        then count_kind e.error_kind w.error_kinds
        else w.error_kinds;
    newest_first = w.newest_first ++ e.success ∷ [];
    last_ts = if w.sample_size == 0 then e.occurred_at else w.last_ts;
    latest_success = if w.sample_size == 0 then e.success else w.latest_success;
    last_error = if w.sample_size == 0 then e.error_summary else w.last_error;
    last_seen_at = if w.sample_size == 0 then some e.occurred_at else w.last_seen_at;
  }

  abbrev pub after_success : UsageEvent → Window F → Window F
  after_success e w = record w {
    last_success_at = or_at w.last_success_at e.occurred_at;
    counting_consecutive = if is_none w.last_success_at then false else w.counting_consecutive;
  }

  abbrev pub after_failure : UsageEvent → Window F → Window F
  after_failure e w = record w {
    last_failure_ts = if str_eq w.last_failure_kind "" then e.occurred_at else w.last_failure_ts;
    last_failure_kind = if str_eq w.last_failure_kind "" then e.error_kind else w.last_failure_kind;
    consecutive_failures =
        if w.counting_consecutive then w.consecutive_failures + 1 else w.consecutive_failures;
    failure_rate = num.add w.failure_rate (num.of_int 1);
    last_failure_at = or_at w.last_failure_at e.occurred_at;
  }

  abbrev pub see : UsageEvent → Window F → Window F
  see e w = if e.success then after_success e (sampled e w) else after_failure e (sampled e w)

  unfoldable pub scan_events : List UsageEvent → Window F → Window F
  scan_events [] w = w
  scan_events (e ∷ es) w = scan_events es (see e w)

  -- The division of FailureRate, if there is a row.
  abbrev pub rate_of : Window F → F
  rate_of w =
      if w.sample_size == 0
      then w.failure_rate
      else num.div w.failure_rate (num.of_int w.sample_size)

  -- The switch, with the Status and the State that it sets; `state` is the State before it.
  abbrev pub judged : ℕ → Window F → String → String × String
  judged now w state =
      if ltb (seconds w.last_ts + one_day) now
      then ("unknown", "stale")
      else if leb 3 w.consecutive_failures
      then ("down", if str_eq state "" then "suspended" else state)
      else if not w.latest_success || num.float.lt (num.dec 20 2) (rate_of w)
      then ("degraded", "degraded")
      else ("healthy", "healthy")

  abbrev pub window_suspension : SuspensionPolicy → ℕ → Window F → SuspensionState
  window_suspension policy now w =
      evaluate_suspension policy w.consecutive_failures w.last_failure_kind
        (some (seconds w.last_failure_ts)) now

  module _ (sort : List ℕ → List ℕ) (sort_kinds : List (String × ℕ) → List (String × ℕ)) where
    -- What the loop leaves, before the part that needs a row.
    abbrev pub counted : Window F → Health F
    counted w = record {
      status = "unknown";
      state = "";
      confidence = "";
      last_seen_at = w.last_seen_at;
      last_success_at = w.last_success_at;
      last_failure_at = w.last_failure_at;
      last_error = w.last_error;
      failure_rate = rate_of w;
      sample_size = w.sample_size;
      consecutive_failures = w.consecutive_failures;
      recent_outcomes = oldest_first w.newest_first;
      p95_ms = calculate_p95 sort w.durations;
      error_kinds = sort_kinds w.error_kinds;
      suspended_until = none;
      suspend_reason = "";
    }

    abbrev pub diagnosed : SuspensionPolicy → ℕ → Window F → Health F
    diagnosed policy now w =
        let s = window_suspension policy now w in
        let judgement = judged now w (if s.suspended then "suspended" else "") in
        record (counted w) {
          status = judgement.0;
          state = judgement.1;
          confidence = if ltb w.sample_size min_sample_size then "insufficient" else "ok";
          suspended_until = if s.suspended then s.until else none;
          suspend_reason = if s.suspended then s.error_kind else "";
        }

    unfoldable pub reported : SuspensionPolicy → ℕ → Window F → Health F
    reported policy now w = if w.sample_size == 0 then counted w else diagnosed policy now w

    -- The body of the loop over the names, from the rows of one name.
    unfoldable pub health : SuspensionPolicy → ℕ → List UsageEvent → Health F
    health policy now es = reported policy now (scan_events es empty_window)
