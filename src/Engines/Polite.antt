-- ===== src/Engines/Polite.antt =====
-- What one search of DuckDuckGo's engine sends (pkg/search/engine/ddg).
use websearch_mcpserver_dash.Prelude.{
  ℕ, ◌+◌, ◌-◌, ◌==◌, if◌then◌else◌, ◌≤◌, String, Bool, false, ◌&&◌, ◌≡◌, List, arith, ltb,
}
use websearch_mcpserver_dash.Go.{Text}
use websearch_mcpserver_dash.Antirobot.{Result, allow}
use websearch_mcpserver_dash.Engines.Session.{ms, pre_delay}
use websearch_mcpserver_dash.Engines.Cooldown.{sent_after_post}
use websearch_mcpserver_dash.Engines.Duck.{
  secs, DuckState, DuckOptions, DuckReply, no_page, duck_page, Clock, DuckSearch, cooldown_duration,
  search_budget, finish_ok, handle_rate_limited, after_post, duck_search,
}

module _ {F : Type 0} (text : Text) (contains : String → String → Bool)
    (parse_results : String → List (Result F)) (o : DuckOptions) where
  -- The sleep does not fit, with what has passed and two seconds for the second request, into the budget.
  abbrev pub oversleeps : Clock → DuckSearch F → Bool
  oversleeps clock s =
      ltb 0 s.slept && ltb (search_budget o) (clock.answered - clock.start + s.slept + secs 2)

  abbrev Modest : Clock → DuckSearch F → Type 0
  Modest clock s = (s.sent ≤ 2) × (oversleeps clock s ≡ false)

  finish_ok-Modest :
      (clock : Clock) (sent slept : ℕ) (body : String) (e : DuckState)
      → sent ≤ 2
      → (ltb 0 slept && ltb (search_budget o) (clock.answered - clock.start + slept + secs 2))
        ≡ false
      → Modest clock (finish_ok text contains parse_results o sent slept body e)
  unfolding finish_ok
  finish_ok-Modest clock sent slept body e few awake = (ground (arith, few), ground (arith, awake))

  handle_rate_limited-Modest :
      (clock : Clock) (retry_after : ℕ) (again : DuckReply) (e : DuckState)
      → Modest clock (handle_rate_limited text contains parse_results o clock retry_after again e)
  unfolding handle_rate_limited
  handle_rate_limited-Modest clock retry_after (no_page err) e = (ground arith, ground arith)
  handle_rate_limited-Modest clock retry_after (duck_page status later body) e =
      let f = finish_ok-Modest clock 2 (cooldown_duration e.cooldown retry_after) body e in
      (ground (arith, f), ground (arith, f))

  after_post-Modest :
      (clock : Clock) (reply again : DuckReply) (e : DuckState)
      → Modest clock (after_post text contains parse_results o clock reply again e)
  after_post-Modest clock (no_page err) again e = (omega arith, ground arith)
  after_post-Modest clock (duck_page status retry_after body) again e =
      let h = handle_rate_limited-Modest clock retry_after again e in
      let f = finish_ok-Modest clock 1 0 body e (omega arith) (ground arith) in
      (ground (arith, h, f), ground (arith, h, f))

  -- One search sends at most two requests, and none in a cooldown. Before the first one it sleeps for at
  -- least 800 ms, and at most for 800 ms, the random part and the backoff together; without a request it
  -- does not sleep. It sleeps before the second one only if what has passed since its start, the sleep
  -- and two seconds for the request fit into the search's budget, which does not bound the first sleep.
  pub duck_search-Polite :
      (clock : Clock) (reply again : DuckReply) (e : DuckState)
      → ((duck_search text contains parse_results o clock reply again e).sent ≤ 2)
        × ((ltb clock.checked e.cooldown_until
              && ltb 0 (duck_search text contains parse_results o clock reply again e).sent)
            ≡ false)
        × ((ltb 0 (duck_search text contains parse_results o clock reply again e).sent
              && ltb
                  (duck_search text contains parse_results o clock reply again e).delayed
                  (ms 800))
            ≡ false)
        × ((duck_search text contains parse_results o clock reply again e).delayed ≤ (
            if (duck_search text contains parse_results o clock reply again e).sent == 0
            then 0
            else ms 800 + clock.jitter + e.session.backoff))
        × (oversleeps clock (duck_search text contains parse_results o clock reply again e) ≡ false)
  unfolding duck_search pre_delay
  duck_search-Polite clock reply again e =
      let e' = record e { limiter = (allow clock.allowed e.limiter).0 } in
      let (few, awake) = after_post-Modest clock reply again e' in
      let some_sent = sent_after_post text contains parse_results o clock reply again e' in
      (
        ground (arith, few),
        ground arith,
        ground arith,
        ground (arith, some_sent),
        ground (arith, awake),
      )
