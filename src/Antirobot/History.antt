-- ===== src/Antirobot/History.antt =====
-- The limiter of pkg/antirobot/limiter.go against the whole history of the requests it allowed.
use websearch_mcpserver_dash.Prelude.{
  ℕ, ◌≤◌, Bool, true, false, not, ◌&&◌, ◌||◌, Option, none, some, List, [], ◌∷◌, ◌++◌, ◌≡◌, refl,
  ap, ◌∙◌, arith, ltb, leb, if◌then◌else◌, length, tally, tally-append,
}
use websearch_mcpserver_dash.Antirobot.Limiter.{
  RateLimiter, second, minute, recent, filter_after, within_interval, too_soon, pruned, is_full,
  decide, allow, allowed_times, new_rate_limiter, with_min_interval,
}

-- The times of the calls do not go back.
abbrev pub Ordered : ℕ → List ℕ → Type 0
Ordered now [] = Unit {0}
Ordered now (t ∷ ts) = (now ≤ t) × Ordered t ts

abbrev pub newest : List ℕ → Option ℕ
newest [] = none
newest (t ∷ log) = some t

-- What the limits say of a request, by the log of all the requests allowed so far, newest first.
abbrev pub permitted : ℕ → ℕ → ℕ → List ℕ → ℕ → Bool
permitted per_sec per_min d log now =
    not (ltb 0 d && within_interval now d (newest log))
    && not
        (leb per_sec (tally (recent second now) log) || leb per_min (tally (recent minute now) log))

unfoldable pub permitted_times : ℕ → ℕ → ℕ → List ℕ → List ℕ → List ℕ
permitted_times a b d log [] = []
permitted_times a b d log (t ∷ ts) =
    let more = t ∷ permitted_times a b d (t ∷ log) ts in
    let skip = permitted_times a b d log ts in if permitted a b d log t then more else skip

-- A window agrees with the log on everything recent, from a time on.
abbrev Tracks : ℕ → ℕ → List ℕ → List ℕ → Type 0
Tracks span now w log = (c : ℕ) → now ≤ c → tally (recent span c) w ≡ tally (recent span c) log

tally-filter_after :
    (span now c : ℕ) (w : List ℕ)
    → now ≤ c
    → tally (recent span c) (filter_after span now w) ≡ tally (recent span c) w
unfolding tally filter_after
tally-filter_after span now c [] le = refl
tally-filter_after span now c (t ∷ w) le = ground (arith, tally-filter_after span now c w le)

length-filter_after :
    (span now : ℕ) (w : List ℕ) → length (filter_after span now w) ≡ tally (recent span now) w
unfolding tally filter_after
length-filter_after span now [] = refl
length-filter_after span now (t ∷ w) = ground (arith, length-filter_after span now w)

filter_after-Tracks :
    (span now t : ℕ) (w log : List ℕ)
    → Tracks span now w log
    → now ≤ t
    → Tracks span t (filter_after span t w) log
filter_after-Tracks span now t w log tracks le c le' =
    omega (arith, tally-filter_after span t c w le', tracks c (omega arith))

append-Tracks :
    (span t : ℕ) (w log : List ℕ) → Tracks span t w log → Tracks span t (w ++ t ∷ []) (t ∷ log)
unfolding tally
append-Tracks span t w log tracks c le =
    omega (arith, tally-append (recent span c) w (t ∷ []), tracks c le)

record Follows (a b d : ℕ) (r : RateLimiter) (log : List ℕ) (now : ℕ) : Type 0 where
  limits : (r.per_sec ≡ a) × (r.per_min ≡ b) × (r.min_interval ≡ d)
  last_is : r.last ≡ newest log
  sec : Tracks second now r.sec_window log
  min : Tracks minute now r.min_window log

module _ (a b d : ℕ) where
  decide-answer :
      (soon full : Bool) (t : ℕ) (r : RateLimiter)
      → (decide soon full t r).1 ≡ (not soon && not full)
  decide-answer true full t r = refl
  decide-answer false true t r = refl
  decide-answer false false t r = refl

  is_full-pruned :
      (r : RateLimiter) (log : List ℕ) (now t : ℕ)
      → Follows a b d r log now
      → now ≤ t
      → is_full (pruned t r)
        ≡ (leb a (tally (recent second t) log) || leb b (tally (recent minute t) log))
  is_full-pruned r log now t f le =
      let s = length-filter_after second t r.sec_window ∙ f.sec t le in
      let m = length-filter_after minute t r.min_window ∙ f.min t le in
      cc (s, m, f.limits.0, f.limits.1)

  too_soon_lem :
      (r : RateLimiter) (log : List ℕ) (now t : ℕ)
      → Follows a b d r log now
      → too_soon t r ≡ (ltb 0 d && within_interval t d (newest log))
  too_soon_lem r log now t f = cc (f.limits.2, f.last_is)

  allow-permitted :
      (r : RateLimiter) (log : List ℕ) (now t : ℕ)
      → Follows a b d r log now
      → now ≤ t
      → (allow t r).1 ≡ permitted a b d log t
  unfolding allow
  allow-permitted r log now t f le =
      decide-answer (too_soon t r) (is_full (pruned t r)) t r
      ∙ cc (too_soon_lem r log now t f, is_full-pruned r log now t f le)

  pruned-Follows :
      (r : RateLimiter) (log : List ℕ) (now t : ℕ)
      → Follows a b d r log now
      → now ≤ t
      → Follows a b d (pruned t r) log t
  pruned-Follows r log now t f le = record {
    limits = f.limits;
    last_is = f.last_is;
    sec = filter_after-Tracks second now t r.sec_window log f.sec le;
    min = filter_after-Tracks minute now t r.min_window log f.min le;
  }

  decide-Follows :
      (soon full : Bool) (r : RateLimiter) (log : List ℕ) (now t : ℕ)
      → Follows a b d r log now
      → now ≤ t
      → let p = decide soon full t r in Follows a b d p.0 (if p.1 then t ∷ log else log) t
  decide-Follows true full r log now t f le = record {
    limits = f.limits;
    last_is = f.last_is;
    sec = λ c le'. f.sec c (omega arith);
    min = λ c le'. f.min c (omega arith);
  }
  decide-Follows false true r log now t f le = pruned-Follows r log now t f le
  decide-Follows false false r log now t f le =
      let g = pruned-Follows r log now t f le in
      record {
        limits = f.limits;
        last_is = refl;
        sec = append-Tracks second t (pruned t r).sec_window log g.sec;
        min = append-Tracks minute t (pruned t r).min_window log g.min;
      }

  -- One call, by its answer, for a history that the later calls follow.
  allowed_times-step :
      (answer : Bool) (q : RateLimiter) (log : List ℕ) (t : ℕ) (ts : List ℕ)
      → answer ≡ permitted a b d log t
      → Follows a b d q (if answer then t ∷ log else log) t
      → ((l : List ℕ) → Follows a b d q l t → allowed_times q ts ≡ permitted_times a b d l ts)
      → (if answer then t ∷ allowed_times q ts else allowed_times q ts)
        ≡ permitted_times a b d log (t ∷ ts)
  unfolding permitted_times
  allowed_times-step true q log t ts eq f ih = rw (← eq) (ap (◌∷◌ t) (ih (t ∷ log) f))
  allowed_times-step false q log t ts eq f ih = rw (← eq) (ih log f)

  allowed_times-eq :
      (r : RateLimiter) (log : List ℕ) (now : ℕ) (ts : List ℕ)
      → Follows a b d r log now
      → Ordered now ts
      → allowed_times r ts ≡ permitted_times a b d log ts
  unfolding allowed_times permitted_times allow
  allowed_times-eq r log now [] f o = refl
  allowed_times-eq r log now (t ∷ ts) f (le, o) =
      let q = allow t r in
      allowed_times-step q.1 q.0 log t ts (allow-permitted r log now t f le)
        (decide-Follows (too_soon t r) (is_full (pruned t r)) r log now t f le)
        (λ l g. allowed_times-eq q.0 l t ts g o)

-- Of calls whose times do not go back, a new limiter allows exactly those that the limits permit by
-- the log of all the requests it has allowed: fewer than `perSec` of them in the last second, fewer
-- than `perMin` in the last minute, and the last one at least `minInterval` ago. What the windows have
-- dropped makes no difference.
pub allowed_times-permitted_times :
    (per_sec per_min d : ℕ) (ts : List ℕ)
    → Ordered 0 ts
    → allowed_times (with_min_interval d (new_rate_limiter per_sec per_min)) ts
      ≡ permitted_times per_sec per_min d [] ts
allowed_times-permitted_times per_sec per_min d ts o =
    allowed_times-eq per_sec per_min d (with_min_interval d (new_rate_limiter per_sec per_min)) [] 0
      ts
      (record {
        limits = (refl, refl, refl);
        last_is = refl;
        sec = λ c le. refl;
        min = λ c le. refl;
      })
      o
