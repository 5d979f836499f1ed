-- ===== src/Engines/Cooldown.antt =====
-- How long DuckDuckGo's engine stays away after a rate limit (pkg/search/engine/ddg).
use websearch_mcpserver_dash.Prelude.{
  ℕ, zero, suc, ◌+◌, ◌*◌, ◌^◌, ◌≤◌, ◌<◌, String, Bool, true, ◌≡◌, List, arith, min,
}
use native.Mathlib.Nat.{pow-suc}
use websearch_mcpserver_dash.Go.{Text}
use websearch_mcpserver_dash.Antirobot.{Result, allow}
use websearch_mcpserver_dash.Engines.Duck.{
  ddg_rate_cooldown, ddg_rate_cooldown_max, DuckState, DuckOptions, DuckReply, no_page, duck_page,
  Clock, DuckSearch, new_duck_duck_go, cooldown_duration, enter_cooldown, finish_ok,
  handle_rate_limited, after_wait, after_post, duck_search,
}

cooldown_duration_bounds :
    (cooldown retry_after : ℕ)
    → (0 < cooldown_duration cooldown retry_after)
      × (cooldown_duration cooldown retry_after ≤ ddg_rate_cooldown_max)
unfolding cooldown_duration
cooldown_duration_bounds cooldown retry_after = ground arith

-- Rate limits in a row without a Retry-After.
limits : ℕ → DuckState → DuckState
limits zero e = e
limits (suc n) e = enter_cooldown 0 0 (limits n e)

-- The first rate limit without a Retry-After costs 20 s, and each further one twice the last, up to 120 s.
limits-cooldown :
    (n : ℕ) (e : DuckState)
    → e.cooldown ≡ 0
    → (limits (suc n) e).cooldown ≡ min ddg_rate_cooldown_max (ddg_rate_cooldown * 2 ^ n)
unfolding limits enter_cooldown cooldown_duration
limits-cooldown zero e fresh = ground (arith, fresh)
limits-cooldown (suc n) e fresh = ground (arith, limits-cooldown n e fresh, pow-suc 2 n)

-- The cooldown ends at most 120 s after the time `now`.
pub record IsCool (now : ℕ) (e : DuckState) : Type 0 where
  pub short : e.cooldown ≤ ddg_rate_cooldown_max
  pub soon : e.cooldown_until ≤ now + ddg_rate_cooldown_max

module _ {F : Type 0} (text : Text) (contains : String → String → Bool)
    (parse_results : String → List (Result F)) (o : DuckOptions) where
  abbrev Cools : ℕ → DuckSearch F → Type 0
  Cools now s = IsCool now s.state

  finish_ok-IsCool :
      (now sent slept : ℕ) (body : String) (e : DuckState)
      → IsCool now e
      → Cools now (finish_ok text contains parse_results o sent slept body e)
  unfolding finish_ok
  finish_ok-IsCool now sent slept body e c = ground arith

  entered-IsCool :
      (now cooled retry_after : ℕ) (e : DuckState)
      → cooled ≤ now
      → IsCool now (enter_cooldown cooled retry_after e)
  unfolding enter_cooldown
  entered-IsCool now cooled retry_after e le =
      let b = cooldown_duration_bounds e.cooldown retry_after in
      record { short = b.1; soon = omega (arith, b.1) }

  after_wait-IsCool :
      (now : ℕ) (clock : Clock) (wait retry_after : ℕ) (again : DuckReply) (e : DuckState)
      → clock.cooled ≤ now
      → IsCool now e
      → Cools now (after_wait text contains parse_results o clock wait retry_after again e)
  after_wait-IsCool now clock wait retry_after (no_page err) e le c =
      let d = entered-IsCool now clock.cooled retry_after e le in
      record { short = d.short; soon = d.soon }
  after_wait-IsCool now clock wait retry_after (duck_page status later body) e le c =
      let d = entered-IsCool now clock.cooled retry_after e le in
      ground (arith, finish_ok-IsCool now 2 wait body e c, d.short, d.soon)

  handle_rate_limited-IsCool :
      (now : ℕ) (clock : Clock) (retry_after : ℕ) (again : DuckReply) (e : DuckState)
      → clock.cooled ≤ now
      → IsCool now e
      → Cools now (handle_rate_limited text contains parse_results o clock retry_after again e)
  unfolding handle_rate_limited
  handle_rate_limited-IsCool now clock retry_after again e le c =
      let wait = cooldown_duration e.cooldown retry_after in
      let d = entered-IsCool now clock.cooled retry_after e le in
      let w = after_wait-IsCool now clock wait retry_after again e le c in
      ground (arith, d.short, d.soon, w.short, w.soon)

  after_post-IsCool :
      (now : ℕ) (clock : Clock) (reply again : DuckReply) (e : DuckState)
      → clock.cooled ≤ now
      → IsCool now e
      → Cools now (after_post text contains parse_results o clock reply again e)
  after_post-IsCool now clock (no_page err) again e le c = record { short = c.short; soon = c.soon }
  after_post-IsCool now clock (duck_page status retry_after body) again e le c =
      let h = handle_rate_limited-IsCool now clock retry_after again e le c in
      let f = finish_ok-IsCool now 1 0 body e c in ground (arith, h.short, h.soon, f.short, f.soon)

  pub duck_search-IsCool :
      (now : ℕ) (clock : Clock) (reply again : DuckReply) (e : DuckState)
      → clock.cooled ≤ now
      → IsCool now e
      → Cools now (duck_search text contains parse_results o clock reply again e)
  unfolding duck_search
  duck_search-IsCool now clock reply again e le c =
      let e' = record e { limiter = (allow clock.allowed e.limiter).0 } in
      let p =
        after_post-IsCool now clock reply again e' le (record { short = c.short; soon = c.soon }) in
      ground (arith, c.short, c.soon, p.short, p.soon)

  -- The states to which searches lead, each entering its cooldown no earlier than the last one's end.
  pub data Reach : DuckState → ℕ → Type 0 where
    here : (t : ℕ) → Reach (new_duck_duck_go o) t
    next :
        {e : DuckState} {t t' : ℕ} (clock : Clock) (reply again : DuckReply)
        → Reach e t
        → t ≤ t'
        → clock.cooled ≤ t'
        → Reach (duck_search text contains parse_results o clock reply again e).state t'

  new-IsCool : (t : ℕ) → IsCool t (new_duck_duck_go o)
  unfolding new_duck_duck_go
  new-IsCool t = record { short = omega arith; soon = omega arith }

  Reach-IsCool : {e : DuckState} {t : ℕ} → Reach e t → IsCool t e
  Reach-IsCool (here t) = new-IsCool t
  Reach-IsCool (next {e = e} {t' = t'} clock reply again r le cooled) =
      let c = Reach-IsCool r in
      duck_search-IsCool t' clock reply again e cooled
        (record { short = c.short; soon = omega (arith, c.soon) })

  pub sent_after_post :
      (clock : Clock) (reply again : DuckReply) (e : DuckState)
      → 0 < (after_post text contains parse_results o clock reply again e).sent
  unfolding handle_rate_limited finish_ok
  sent_after_post clock (no_page err) again e = omega arith
  sent_after_post clock (duck_page status retry_after body) (no_page err) e = ground arith
  sent_after_post clock (duck_page status retry_after body) (duck_page s l b) e = ground arith

  -- However often the site has limited the engine and whatever waits it has asked for, a search that the
  -- limiter lets through 120 s after the last search, or later, sends a request again.
  pub Reach-sends :
      {e : DuckState} {t : ℕ} (clock : Clock) (reply again : DuckReply)
      → Reach e t
      → (allow clock.allowed e.limiter).1 ≡ true
      → t + ddg_rate_cooldown_max ≤ clock.checked
      → 0 < (duck_search text contains parse_results o clock reply again e).sent
  unfolding duck_search
  Reach-sends {e = e} clock reply again r allows late =
      let c = Reach-IsCool r in
      let e' = record e { limiter = (allow clock.allowed e.limiter).0 } in
      ground (arith, c.soon, allows, sent_after_post clock reply again e')
