-- ===== src/Engines/Tests.antt =====
-- The page engines on concrete inputs (pkg/search/engine).
use websearch_mcpserver_dash.Prelude.{
  ℕ, ◌+◌, ◌*◌, ◌^◌, ◌≤◌, ◌<◌, String, Bool, true, false, ◌&&◌, ◌≡◌, refl, some, List, [], ◌∷◌,
  arith, ltb, ◌==◌, if◌then◌else◌, min, str_eq,
}
use websearch_mcpserver_dash.Go.{Text}
use websearch_mcpserver_dash.Antirobot.{Result, allow, filter_after}
use websearch_mcpserver_dash.Engines.Session.{
  Session, bing_pace, google_pace, ddg_pace, backoff_after, record_fail, record_success, pre_delay,
  ms,
}
use websearch_mcpserver_dash.Engines.Blocked.{extract_host, is_hit}
use websearch_mcpserver_dash.Engines.Backoff.{failures, failures-min, failures-forgotten}
use websearch_mcpserver_dash.Engines.Duck.{
  secs, DuckOptions, DuckReply, duck_page, Clock, DuckSearch, new_duck_duck_go, cooldown_duration,
  enter_cooldown, handle_rate_limited, duck_search,
}
use websearch_mcpserver_dash.Engines.Cooldown.{here, next, Reach-sends}
use websearch_mcpserver_dash.Engines.Polite.{oversleeps, duck_search-Polite}

abbrev fresh : Session
fresh = record { req_count = 0; backoff = 0; consec_fails = 0 }

-- 500 ms doubled three times.
failures-min_example : (failures bing_pace 3 fresh).backoff ≡ min (ms 60000) (ms 500 * 2 ^ 3)
failures-min_example =
    failures-min bing_pace 3 fresh refl (omega arith) (omega arith) (omega arith) (omega arith)

failures-forgotten_example :
    pre_delay ddg_pace 7 (failures ddg_pace 53 fresh) ≡ pre_delay ddg_pace 7 (record_success fresh)
failures-forgotten_example =
    failures-forgotten ddg_pace 390625 11 53 7 fresh refl refl (omega arith) (omega arith)

google_forgotten :
    pre_delay google_pace 7 (failures google_pace 55 fresh)
    ≡ pre_delay google_pace 7 (record_success fresh)
google_forgotten =
    failures-forgotten google_pace 1953125 9 55 7 fresh refl refl (omega arith) (omega arith)

bing_forgotten :
    pre_delay bing_pace 7 (failures bing_pace 56 fresh)
    ≡ pre_delay bing_pace 7 (record_success fresh)
bing_forgotten =
    failures-forgotten bing_pace 1953125 8 56 7 fresh refl refl (omega arith) (omega arith)

-- From the 34th failure on the doubled delay is negative, and no pause either.
negative_backoff : pre_delay ddg_pace 7 (failures ddg_pace 34 fresh) ≡ ms 800 + 7
unfolding failures record_fail backoff_after pre_delay
negative_backoff = refl

abbrev text : Text
text = record {
  trim_space = λ s. s;
  to_lower = λ s. s;
  has_suffix = λ s t. false;
  trim_prefix = λ s t. if str_eq t "www." && str_eq s "www.example.com" then "example.com" else s;
  concat = λ s t. s;
  parsed_host = λ s. some s;
}

abbrev options : DuckOptions
options = record { blocked = []; per_sec = 0; per_min = 0; timeout = 0 }

abbrev at : ℕ → Clock
at t = record { start = t; allowed = t; checked = t; answered = t; cooled = t + 1; jitter = 7 }

abbrev limit_page : DuckReply
limit_page = duck_page 202 0 ""

abbrev no_results : String → List (Result ℕ)
no_results body = []

abbrev contains : String → String → Bool
contains s part = str_eq s part

abbrev once : DuckSearch ℕ
once =
    duck_search text contains no_results options (at 5) limit_page limit_page
      (new_duck_duck_go options)

-- The first search is limited, with 20 s of cooldown that do not fit into the budget of 10 s.
once_cooled : once.state.cooldown_until ≡ 6 + secs 20
unfolding duck_search allow filter_after new_duck_duck_go handle_rate_limited enter_cooldown
    cooldown_duration
once_cooled = refl

once_allowed : (allow (6 + secs 120) once.state.limiter).1 ≡ true
unfolding duck_search allow filter_after new_duck_duck_go handle_rate_limited enter_cooldown
    cooldown_duration
once_allowed = refl

Reach-sends_example :
    0
    < (duck_search text contains no_results options
        (at (6 + secs 120))
        limit_page
        limit_page
        once.state).sent
Reach-sends_example =
    Reach-sends text contains no_results options (at (6 + secs 120)) limit_page limit_page
      (next {t' = 6} (at 5) limit_page limit_page (here 5) (omega arith) (omega arith)) once_allowed
      (omega arith)

duck_search-Polite_example :
    (once.sent ≤ 2)
    × ((ltb 5 (new_duck_duck_go options).cooldown_until && ltb 0 once.sent) ≡ false)
    × ((ltb 0 once.sent && ltb once.delayed (ms 800)) ≡ false)
    × (once.delayed
        ≤ (if once.sent == 0 then 0 else ms 800 + 7 + (new_duck_duck_go options).session.backoff))
    × (oversleeps text contains no_results options (at 5) once ≡ false)
duck_search-Polite_example =
    duck_search-Polite text contains no_results options (at 5) limit_page limit_page
      (new_duck_duck_go options)

-- A site that is blocked by its name with "www." is not left out.
www_not_blocked : is_hit text (extract_host text "www.example.com") ("www.example.com" ∷ []) ≡ false
unfolding is_hit extract_host
www_not_blocked = refl
