-- ===== src/Engines/Session.antt =====
-- What the page engines of pkg/search/engine keep between two searches: the failures in a row, the pause
-- that they cost, and the requests of a session. A duration is an int64 of nanoseconds, written as a
-- word of 64 bits.
use websearch_mcpserver_dash.Prelude.{
  ℕ, suc, ◌+◌, ◌*◌, ◌%◌, ◌^◌, Bool, ◌&&◌, leb, ltb, if◌then◌else◌,
}

abbrev pub word : ℕ
word = 18446744073709551616

abbrev pub sign_bit : ℕ
sign_bit = 9223372036854775808

-- `a < b` and `0 < b` on int64, for an `a` that is not negative.
abbrev pub less : ℕ → ℕ → Bool
less a b = ltb a b && ltb b sign_bit

-- The constants of one engine.
pub record Pace : Type 0 where
  pub base_delay : ℕ
  pub max_backoff : ℕ
  pub session_lifetime : ℕ

pub record Session : Type 0 where
  pub req_count : ℕ
  pub backoff : ℕ
  pub consec_fails : ℕ

-- `time.Duration(1<<uint(n))`, which is 0 from 64 on.
abbrev pub shifted : ℕ → ℕ
shifted n = 2 ^ n % word

-- `baseDelay * time.Duration(1<<uint(n))`, capped.
unfoldable pub backoff_after : Pace → ℕ → ℕ
backoff_after pace n =
    let bo = pace.base_delay * shifted n % word in
    if less pace.max_backoff bo then pace.max_backoff else bo

unfoldable pub record_fail : Pace → Session → Session
record_fail pace s = record s {
  consec_fails = suc s.consec_fails;
  backoff = backoff_after pace (suc s.consec_fails);
}

unfoldable pub record_success : Session → Session
record_success s = record s { backoff = 0; consec_fails = 0 }

-- The sleep before a request; `jitter` is the random part.
unfoldable pub pre_delay : Pace → ℕ → Session → ℕ
pre_delay pace jitter s = pace.base_delay + jitter + (if less 0 s.backoff then s.backoff else 0)

-- A new session also takes a new client and another User-Agent.
unfoldable pub rotate_session_if_needed : Pace → Session → Session
rotate_session_if_needed pace s = record s {
  req_count = if leb pace.session_lifetime (suc s.req_count) then 0 else suc s.req_count;
}

abbrev pub ms : ℕ → ℕ
ms n = n * 1000000

abbrev pub bing_pace : Pace
bing_pace = record { base_delay = ms 500; max_backoff = ms 60000; session_lifetime = 30 }

abbrev pub baidu_pace : Pace
baidu_pace = record { base_delay = ms 500; max_backoff = ms 60000; session_lifetime = 30 }

abbrev pub google_pace : Pace
google_pace = record { base_delay = ms 1000; max_backoff = ms 120000; session_lifetime = 20 }

abbrev pub ddg_pace : Pace
ddg_pace = record { base_delay = ms 800; max_backoff = ms 90000; session_lifetime = 25 }
