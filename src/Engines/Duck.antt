-- ===== src/Engines/Duck.antt =====
-- The page engine of DuckDuckGo, with its cooldown after a rate limit (pkg/search/engine/ddg). The
-- answers of the site and the readings of the clock during one search are arguments.
use websearch_mcpserver_dash.Prelude.{
  ℕ, ◌+◌, ◌-◌, ◌*◌, ◌%◌, String, Bool, not, ◌||◌, Option, none, some, List, ltb, leb, ◌==◌,
  if◌then◌else◌, str_eq,
}
use websearch_mcpserver_dash.Go.{Text}
use websearch_mcpserver_dash.Antirobot.{Result, RateLimiter, new_rate_limiter, allow}
use websearch_mcpserver_dash.Engines.Session.{
  word, less, Session, pre_delay, record_fail, record_success, rotate_session_if_needed, ddg_pace,
}
use websearch_mcpserver_dash.Engines.Blocked.{without_blocked}
use websearch_mcpserver_dash.Engines.Simple.{PageSearch, limited, found, blocked_by}

abbrev pub secs : ℕ → ℕ
secs n = n * 1000000000

abbrev pub ddg_rate_cooldown : ℕ
ddg_rate_cooldown = secs 20

abbrev pub ddg_rate_cooldown_max : ℕ
ddg_rate_cooldown_max = secs 120

abbrev pub ddg_retry_request_estimate : ℕ
ddg_retry_request_estimate = secs 2

-- `cooldown_until` is 0 for the zero time; a timeout that is not positive is 0.
pub record DuckState : Type 0 where
  pub limiter : RateLimiter
  pub session : Session
  pub cooldown : ℕ
  pub cooldown_until : ℕ

pub record DuckOptions : Type 0 where
  pub blocked : List String
  pub per_sec : ℕ
  pub per_min : ℕ
  pub timeout : ℕ

-- No page, or a page with its status, its Retry-After as a word and its body.
pub data DuckReply : Type 0 where
  no_page : String → DuckReply
  duck_page : ℕ → ℕ → String → DuckReply

-- The clock at the start, at Allow, at the test of the cooldown, after the first answer, and when a
-- cooldown is entered; and the random part of the sleep before the first request.
pub record Clock : Type 0 where
  pub start : ℕ
  pub allowed : ℕ
  pub checked : ℕ
  pub answered : ℕ
  pub cooled : ℕ
  pub jitter : ℕ

-- What one search leaves: the state, the sleep of preDelay before the first request, the requests sent,
-- the sleep before a second one, and the outcome.
pub record DuckSearch (F : Type 0) : Type 0 where
  pub state : DuckState
  pub delayed : ℕ
  pub sent : ℕ
  pub slept : ℕ
  pub outcome : PageSearch F

abbrev pub clamped : ℕ → ℕ → ℕ
clamped limit n = if n == 0 then limit else if ltb limit n then limit else n

-- A new session has no requests yet.
unfoldable pub new_duck_duck_go : DuckOptions → DuckState
new_duck_duck_go o = record {
  limiter = new_rate_limiter (clamped 1 o.per_sec) (clamped 6 o.per_min);
  session = record { req_count = 0; backoff = 0; consec_fails = 0 };
  cooldown = 0;
  cooldown_until = 0;
}

-- `atoi` is strconv.Atoi where it gives a positive number, and `left_until` the positive time until an
-- HTTP date.
unfoldable pub parse_retry_after : Text → (String → Option ℕ) → (String → Option ℕ) → String → ℕ
parse_retry_after text atoi left_until v =
    let s = text.trim_space v in
    if str_eq s "" then 0 else elim (atoi s) [
      | some n ↦ n * 1000000000 % word
      | none ↦ elim (left_until s) [ some d ↦ d | none ↦ 0 ]
    ]

unfoldable pub cooldown_duration : ℕ → ℕ → ℕ
cooldown_duration cooldown retry_after =
    let cd = if cooldown == 0 then ddg_rate_cooldown else cooldown * 2 in
    let capped = if ltb ddg_rate_cooldown_max cd then ddg_rate_cooldown_max else cd in
    if less 0 retry_after
    then (if less ddg_rate_cooldown_max retry_after then ddg_rate_cooldown_max else retry_after)
    else capped

unfoldable pub enter_cooldown : ℕ → ℕ → DuckState → DuckState
enter_cooldown now retry_after e =
    let cd = cooldown_duration e.cooldown retry_after in
    record e { cooldown = cd; cooldown_until = now + cd }

abbrev pub duck_failed : DuckState → DuckState
duck_failed e = record e { session = record_fail ddg_pace e.session }

abbrev pub duck_succeeded : DuckState → DuckState
duck_succeeded e = record e {
  session = rotate_session_if_needed ddg_pace (record_success e.session);
  cooldown = 0;
  cooldown_until = 0;
}

abbrev pub search_budget : DuckOptions → ℕ
search_budget o = if o.timeout == 0 then secs 10 else o.timeout

abbrev pub is_rate_limited : ℕ → Bool
is_rate_limited status = status == 202 || status == 429

module _ {F : Type 0} (text : Text) (contains : String → String → Bool)
    (parse_results : String → List (Result F)) (o : DuckOptions) where
  -- `sent` and `slept` are what the search has done so far; `delayed` is set at the end.
  unfoldable pub finish_ok : ℕ → ℕ → String → DuckState → DuckSearch F
  finish_ok sent slept body e =
      if contains body "result"
      then record {
        state = duck_succeeded e;
        delayed = 0;
        sent = sent;
        slept = slept;
        outcome = found (without_blocked text o.blocked (parse_results body));
      }
      else record {
        state = duck_failed e;
        delayed = 0;
        sent = sent;
        slept = slept;
        outcome = blocked_by "no results container found, possibly blocked";
      }

  abbrev pub give_up : Clock → ℕ → ℕ → ℕ → DuckState → DuckSearch F
  give_up clock sent slept retry_after e = record {
    state = duck_failed (enter_cooldown clock.cooled retry_after e);
    delayed = 0;
    sent = sent;
    slept = slept;
    outcome = blocked_by "HTTP 202/429 rate-limited";
  }

  -- The second request.
  abbrev pub after_wait : Clock → ℕ → ℕ → DuckReply → DuckState → DuckSearch F
  after_wait clock wait retry_after (no_page err) e = give_up clock 2 wait retry_after e
  after_wait clock wait retry_after (duck_page status later body) e =
      if status == 200 then finish_ok 2 wait body e else give_up clock 2 wait retry_after e

  unfoldable pub handle_rate_limited : Clock → ℕ → DuckReply → DuckState → DuckSearch F
  handle_rate_limited clock retry_after again e =
      let wait = cooldown_duration e.cooldown retry_after in
      if leb (clock.answered - clock.start + wait + ddg_retry_request_estimate) (search_budget o)
      then after_wait clock wait retry_after again e
      else give_up clock 1 0 retry_after e

  abbrev pub after_post : Clock → DuckReply → DuckReply → DuckState → DuckSearch F
  after_post clock (no_page err) again e = record {
    state = duck_failed e;
    delayed = 0;
    sent = 1;
    slept = 0;
    outcome = blocked_by err;
  }
  after_post clock (duck_page status retry_after body) again e =
      if is_rate_limited status
      then handle_rate_limited clock retry_after again e
      else finish_ok 1 0 body e

  abbrev pub unsent : PageSearch F → DuckState → DuckSearch F
  unsent out e = record { state = e; delayed = 0; sent = 0; slept = 0; outcome = out }

  unfoldable pub duck_search : Clock → DuckReply → DuckReply → DuckState → DuckSearch F
  duck_search clock reply again e =
      let (limiter, allowed) = allow clock.allowed e.limiter in
      let e' = record e { limiter = limiter } in
      if not allowed
      then unsent limited e'
      else if ltb clock.checked e'.cooldown_until
      then unsent (blocked_by "rate-limited by server, cooling down") e'
      else record (after_post clock reply again e') {
        delayed = pre_delay ddg_pace clock.jitter e'.session;
      }
