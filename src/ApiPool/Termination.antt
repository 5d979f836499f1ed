-- ===== src/ApiPool/Termination.antt =====
-- callProviderWithRetry ends (pkg/search/apipool/apipool.go): its loop has no counter, and is
-- bounded by the keys that it puts out of use.
use mathlib.Core.Path.{subst}
use websearch_mcpserver_dash.Prelude.{
  ℕ, zero, suc, ◌+◌, ◌-◌, ◌*◌, ◌<◌, ◌≤◌, String, false, ◌≡◌, refl, sym, ap, ◌∙◌, some, List, [],
  ◌∷◌, arith, ◌==◌, if◌then◌else◌, length, length-keep-le,
}
use websearch_mcpserver_dash.Core.{SearchResult}
use websearch_mcpserver_dash.KeyPool.{KeyPool, IsValid, u64_mod, key_invalid_ttl, available, usable}
use websearch_mcpserver_dash.KeyPool.Marking.{marked, available_mono}
use websearch_mcpserver_dash.ApiPool.Types.{
  Failure, key_error, Outcome, ok, err, Event, Entry, keyed,
}
use websearch_mcpserver_dash.ApiPool.Retry.{
  End, Run, returned, all_failed, panicked, out_of_fuel, chosen_search, logged, ended, retry,
}
use websearch_mcpserver_dash.ApiPool.Ending.{
  Answer, IsKeyed, Spent, mark_failure_lem, marked-Spent, retry_returns, retry_fails,
}

-- The readings of the clock never go back, and lie within thirty minutes of the first.
pub record InHalfHour (clock : ℕ → ℕ) : Type 0 where
  pub step : (j : ℕ) → clock j ≤ clock (suc j)
  pub late : (j : ℕ) → clock j ≤ clock 0 + key_invalid_ttl

abbrev pub HasEnded : {F : Type 0} → End F → Type 0
HasEnded (returned rs) = Unit
HasEnded (all_failed f) = Unit
HasEnded panicked = ⊥
HasEnded out_of_fuel = ⊥

-- A run that ends in a result or an error, within so many calls; it is an error only when no key
-- of the pool was available at the last reading of the clock.
pub record Finishes {F : Type 0} (clock : ℕ → ℕ) (calls : ℕ) (r : Run F) : Type 0 where
  pub has_ended : HasEnded r.end
  pub within : length r.events ≤ calls
  pub no_key_left :
      (f : Failure)
      → r.end ≡ all_failed f
      → (p : Entry F KeyPool) × (q : KeyPool) × (last : ℕ) × (r.provider ≡ keyed p q)
        × (r.ticks ≡ suc last)
        × (available (clock last) q ≡ 0)

suc-ne-zero : (n : ℕ) → (suc n == 0) ≡ false
suc-ne-zero n = ground arith

module _ {F : Type 0} {clock : ℕ → ℕ} (p : Entry F KeyPool) (q : KeyPool) (t : ℕ) where
  returned-Finishes :
      (c : ℕ) (rs : List (SearchResult F)) (e : Event)
      → Finishes clock (suc c) (ended (returned rs) (keyed p q) (e ∷ []) (t + 1))
  returned-Finishes c rs e = record {
    has_ended = tt;
    within = omega arith;
    no_key_left = λ f eq. cc eq;
  }

  failed-Finishes :
      (c : ℕ) (f : Failure) (e : Event)
      → available (clock (t + 2)) q ≡ 0
      → Finishes clock (suc c) (ended (all_failed f) (keyed p q) (e ∷ []) (t + 3))
  failed-Finishes c f e h = record {
    has_ended = tt;
    within = omega arith;
    no_key_left = λ f' eq. (p, q, t + 2, refl, omega arith, h);
  }

  again-Finishes :
      (c : ℕ) (e : Event) (r : Run F) → Finishes clock c r → Finishes clock (suc c) (logged e r)
  again-Finishes c e r h = record {
    has_ended = h.has_ended;
    within = omega (arith, h.within);
    no_key_left = h.no_key_left;
  }

  choose-Finishes :
      (c left : ℕ) (f : Failure) (e : Event) (r : Run F)
      → left ≡ available (clock (t + 2)) q
      → (0 < left → Finishes clock c r)
      → Finishes clock
          (suc c)
          (if left == 0 then ended (all_failed f) (keyed p q) (e ∷ []) (t + 3) else logged e r)
  choose-Finishes c zero f e r eq h = failed-Finishes c f e (sym eq)
  choose-Finishes c (suc left) f e r eq h =
      subst
        (λ b.
          Finishes clock (suc c)
            (if b then ended (all_failed f) (keyed p q) (e ∷ []) (t + 3) else logged e r))
        (sym (suc-ne-zero left)) (again-Finishes c e r (h (omega arith)))

module _ {F : Type 0} (clock : ℕ → ℕ) (max : ℕ) (query : String) (lookback : ℕ)
    (p : Entry F KeyPool) (keyed_by : IsKeyed p) (time : InHalfHour clock) where
  horizon : ℕ
  horizon = clock 0 + key_invalid_ttl

  since_start : (j : ℕ) → clock 0 ≤ clock j
  since_start zero = omega arith
  since_start (suc j) = omega (arith, since_start j, time.step j)

  -- One round of the loop, when what comes after it finishes.
  round-Finishes :
      (fuel c t : ℕ) (pool : KeyPool)
      → IsValid pool
      → pool.idx + length pool.keys < u64_mod
      → ((q : KeyPool)
          → Spent (clock t) (clock (t + 1)) pool q
          → 0 < available (clock (t + 2)) q
          → Finishes clock c (retry clock max query lookback fuel p (t + 3) q))
      → Finishes clock (suc c) (retry clock max query lookback (suc fuel) p t pool)
  round-Finishes fuel c t pool v fits rest = by_outcome a.outcome (a.is_answer) a.names_key
    where
      a : Answer (clock t) pool (chosen_search lookback p.engine query (clock t) pool)
      a = keyed_by.answer query lookback (clock t) pool v fits

      by_outcome :
          (out : Outcome F)
          → chosen_search lookback p.engine query (clock t) pool ≡ some (a.pool_after, out)
          → ((k : String) → out ≡ err (key_error k) → k ≡ a.key)
          → Finishes clock (suc c) (retry clock max query lookback (suc fuel) p t pool)
      by_outcome (ok rs) eq names =
          rw (retry_returns clock max query lookback p fuel t pool a.pool_after rs eq)
            (returned-Finishes p a.pool_after t c _ _)
      by_outcome (err f) eq names =
          let mark = clock (t + 1) in
          let q' = marked mark a.gives.place a.pool_after in
          rw
            (retry_fails clock max query lookback p fuel t pool a.pool_after q' f eq (
              mark_failure_lem (clock t) mark pool a.pool_after a.key a.gives f
                (λ k' e. names k' (ap err e))))
            (choose-Finishes p q' t c _ f _ _ refl
              (rest q' (marked-Spent (clock t) mark pool a.pool_after a.key a.gives)))

  abbrev run : ℕ → ℕ → KeyPool → Run F
  run fuel t pool = retry clock max query lookback fuel p t pool

  next_reading : (t : ℕ) → clock (t + 2) ≤ clock (t + 3)
  next_reading t = subst (λ j. clock (t + 2) ≤ clock j) (omega arith) (time.step (t + 2))

  still_available :
      (t : ℕ) (q : KeyPool) → 0 < available (clock (t + 2)) q → 0 < available (clock (t + 3)) q
  still_available t q pos = omega (arith, available_mono _ _ q (next_reading t))

  -- The horizon is after every reading of the clock, and before the end of a mark made now.
  before_mark_ends : (t : ℕ) → horizon ≤ clock (t + 1) + key_invalid_ttl
  unfolding horizon
  before_mark_ends t = omega (arith, since_start (t + 1))

  before_horizon : (t : ℕ) → clock t ≤ horizon
  unfolding horizon
  before_horizon t = time.late t

  module _ (n : ℕ) where
    ends_from :
        (fuel t : ℕ) (pool : KeyPool)
        → IsValid pool
        → length pool.keys ≡ n
        → pool.idx + fuel * n < u64_mod
        → 0 < available (clock t) pool
        → available horizon pool < fuel
        → Finishes clock (available horizon pool) (run fuel t pool)
    ends_from zero t pool v size fits pos lt = absurd (omega arith)
    ends_from (suc fuel) t pool v size fits pos lt =
        let c = available horizon pool - 1 in
        let full : suc c ≡ available horizon pool =
          omega (arith, available_mono (clock t) horizon pool (before_horizon t)) in
        subst (λ m. Finishes clock m (run (suc fuel) t pool)) full
          (round-Finishes fuel c t pool v (omega arith) (λ q s left.
            let less : available horizon q ≡ c =
              omega (arith, s.one_fewer horizon pos (before_horizon t) (before_mark_ends t)) in
            subst (λ m. Finishes clock m (run fuel (t + 3) q)) less
              (ends_from fuel (t + 3) q s.valid (ap length s.same_keys ∙ size)
                (omega (arith, s.moved)) (still_available t q left) (omega arith))))

Finishes-more :
    {F : Type 0} {clock : ℕ → ℕ} {r : Run F} (a b : ℕ)
    → a ≤ b
    → Finishes clock a r
    → Finishes clock b r
Finishes-more a b le h = record {
  has_ended = h.has_ended;
  within = omega (arith, h.within);
  no_key_left = h.no_key_left;
}

available-le-length : (t : ℕ) (pool : KeyPool) → IsValid pool → available t pool ≤ length pool.keys
unfolding available
available-le-length t pool v = omega (arith, length-keep-le (usable t) pool.states, v.matched)

-- The loop ends. Let an engine take one key for each call and name it in its KeyErrors, and let
-- the whole run stay within thirty minutes on a clock that does not go back. Then, from any
-- well-formed pool whose counter has room, the run over the provider ends with a result or an
-- error, without a panic, in at most one call more than the pool has keys; and it ends with an
-- error only when no key was left at the last reading of the clock.
pub retry-Finishes :
    {F : Type 0} (clock : ℕ → ℕ) (max : ℕ) (query : String) (lookback : ℕ) (p : Entry F KeyPool)
    (fuel t : ℕ) (pool : KeyPool)
    → IsKeyed p
    → InHalfHour clock
    → IsValid pool
    → pool.idx + fuel * length pool.keys < u64_mod
    → length pool.keys + 2 ≤ fuel
    → Finishes clock (length pool.keys + 1) (retry clock max query lookback fuel p t pool)
retry-Finishes clock max query lookback p zero t pool k time v fits enough = absurd (omega arith)
retry-Finishes clock max query lookback p (suc fuel) t pool k time v fits enough =
    subst (λ m. Finishes clock m (retry clock max query lookback (suc fuel) p t pool)) (omega arith)
      (round-Finishes clock max query lookback p k time fuel n t pool v (omega arith) (λ q s left.
        let size : length q.keys ≡ n = ap length s.same_keys in
        let few = available-le-length (horizon clock max query lookback p k time) q s.valid in
        Finishes-more _ n (omega arith) (
          ends_from clock max query lookback p k time n fuel (t + 3) q s.valid size
            (omega (arith, s.moved)) (still_available clock max query lookback p k time t q left)
            (omega arith))))
  where
    n : ℕ
    n = length pool.keys
