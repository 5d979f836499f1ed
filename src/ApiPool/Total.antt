-- ===== src/ApiPool/Total.antt =====
-- A search of the API pool always answers (pkg/search/apipool/apipool.go).
use native.Mathlib.Nat.{le_refl, mod-lt}
use mathlib.Core.Path.{subst}
use websearch_mcpserver_dash.Prelude.{
  ℕ, zero, suc, ◌+◌, ◌*◌, ◌%◌, ◌<◌, ◌≤◌, ◌≡◌, ◌≢◌, refl, sym, ◌∙◌, String, Option, none, some, List,
  arith, length, get_elem?, set, get_elem?-lt,
}
use websearch_mcpserver_dash.KeyPool.{IsValid, u64_mod}
use websearch_mcpserver_dash.ApiPool.Types.{Failure, Outcome, ok, err, Entry, Provider, keyed, free}
use websearch_mcpserver_dash.ApiPool.Retry.{
  End, returned, all_failed, panicked, out_of_fuel, chosen_search, truncate, call_single,
  call_provider_with_retry,
}
use websearch_mcpserver_dash.ApiPool.Rotate.{Answered, broken, try_providers, ApiPool, search_from}
use websearch_mcpserver_dash.ApiPool.Ending.{IsKeyed}
use websearch_mcpserver_dash.ApiPool.Termination.{InHalfHour, HasEnded, retry-Finishes}
use websearch_mcpserver_dash.ApiPool.Fallback.{round_lem, slot_later, slot_now, run, rounds, by_end}

-- A provider that can be called: an engine that keeps to the protocol, over a well-formed pool
-- whose counter has room for the run, with fuel for one call more than it has keys; or a free
-- engine that does not panic.
abbrev pub Ready : {F : Type 0} → ℕ → Provider F → Type 0
Ready fuel (keyed e pool) =
    IsKeyed e
    × IsValid pool
    × (pool.idx + fuel * length pool.keys < u64_mod)
    × (length pool.keys + 2 ≤ fuel)
Ready {F} fuel (free e) =
    (query : String) (lookback now : ℕ)
    → (out : Outcome F) × (chosen_search lookback e.engine query now tt ≡ some (tt, out))

module _ {F : Type 0} (clock : ℕ → ℕ) (fuel max : ℕ) (query : String) (lookback : ℕ)
    (time : InHalfHour clock) where
  free_end : Outcome F → End F
  free_end (ok rs) = returned (truncate max rs)
  free_end (err f) = all_failed f

  free_end-HasEnded : (out : Outcome F) → HasEnded (free_end out)
  unfolding free_end
  free_end-HasEnded (ok rs) = tt
  free_end-HasEnded (err f) = tt

  free_run :
      (e : Entry F (Unit {0})) (t : ℕ) (out : Outcome F)
      → chosen_search lookback e.engine query (clock t) tt ≡ some (tt, out)
      → (run clock fuel max query lookback (free e) t).end ≡ free_end out
  unfolding call_provider_with_retry call_single free_end
  free_run e t (ok rs) h = ground arith
  free_run e t (err f) h = ground arith

  Ready-HasEnded :
      (p : Provider F) (t : ℕ) → Ready fuel p → HasEnded (run clock fuel max query lookback p t).end
  unfolding call_provider_with_retry
  Ready-HasEnded (keyed e pool) t (k, v, fits, enough) =
      (retry-Finishes clock max query lookback e fuel t pool k time v fits enough).has_ended
  Ready-HasEnded (free e) t total =
      let (out, eq) = total query lookback (clock t) in
      subst HasEnded (sym (free_run e t out eq)) (free_end-HasEnded out)

  AllReady : ℕ → ℕ → ℕ → List (Provider F) → Type 0
  AllReady left n at ps =
      (j : ℕ) → j < left → (p : Provider F) × (get_elem? ps ((at + j) % n) ≡ some p) × Ready fuel p

  by_end-ne-broken :
      (e : End F) (later : Failure → Answered F)
      → HasEnded e
      → ((f : Failure) → later f ≢ broken)
      → by_end clock fuel max query lookback e later ≢ broken
  by_end-ne-broken (returned rs) later h rest = λ eq. cc
  by_end-ne-broken (all_failed f) later h rest = rest f
  by_end-ne-broken panicked later h rest = absurd h
  by_end-ne-broken out_of_fuel later h rest = absurd h

  AllReady-later :
      (left n at : ℕ) (ps : List (Provider F)) (v : Provider F)
      → suc left ≤ n
      → AllReady (suc left) n at ps
      → AllReady left n (at + 1) (set ps (at % n) v)
  unfolding AllReady
  AllReady-later left n at ps v le ready j lt =
      let (p, slot, r) = ready (suc j) (omega arith) in
      (p, slot_later clock fuel max query lookback n at j ps v (omega arith) ∙ slot, r)

  rounds-ne-broken :
      (left n at t : ℕ) (last : Option Failure) (ps : List (Provider F))
      → left ≤ n
      → AllReady left n at ps
      → (rounds clock fuel max query lookback left n at t last ps).answered ≢ broken
  unfolding try_providers AllReady
  rounds-ne-broken zero n at t none ps le ready = λ eq. cc
  rounds-ne-broken zero n at t (some f) ps le ready = λ eq. cc
  rounds-ne-broken (suc left) n at t last ps le ready =
      let (p, slot, r) = ready 0 (omega arith) in
      let found = sym (slot_now clock fuel max query lookback n at ps) ∙ slot in
      let runs = run clock fuel max query lookback p t in
      λ eq.
        by_end-ne-broken runs.end _ (Ready-HasEnded p t r)
          (λ f.
            rounds-ne-broken left n (at + 1) runs.ticks (some f) (set ps (at % n) runs.provider)
              (omega arith) (AllReady-later left n at ps runs.provider le ready))
          (sym (round_lem clock fuel max query lookback left n at t last ps p runs.end found refl)
            ∙ eq)

-- Let every provider be ready, and let the whole search stay within thirty minutes on a clock that
-- does not go back. Then a search from any start answers: it ends in results or an error, without
-- a panic, within the fuel, and without indexing past the providers.
pub search-ne-broken :
    {F : Type 0} (clock : ℕ → ℕ) (fuel : ℕ) (query : String) (lookback start : ℕ) (a : ApiPool F)
    → InHalfHour clock
    → ((i : ℕ) (p : Provider F) → get_elem? a.providers i ≡ some p → Ready fuel p)
    → (search_from clock fuel query lookback (some start) a).answered ≢ broken
unfolding search_from AllReady
search-ne-broken clock fuel query lookback start a time ready =
    let n = length a.providers in
    rounds-ne-broken clock fuel a.max_size query lookback time n n start 1 none a.providers
      (le_refl _)
      (λ j lt.
        let (p, at) = get_elem?-lt a.providers ((start + j) % n) (mod-lt _ (omega arith)) in
        (p, at, ready _ p at))
