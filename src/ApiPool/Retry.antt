-- ===== src/ApiPool/Retry.antt =====
-- One provider: callSingle and callProviderWithRetry (pkg/search/apipool/apipool.go).
-- `clock` gives the time at each reading of the clock, and a run counts its readings: an engine
-- call, the marking of a key and the count of the available keys read it once each.
use websearch_mcpserver_dash.Prelude.{
  ℕ, zero, suc, ◌+◌, String, Bool, true, false, ◌&&◌, Option, none, some, List, [], ◌∷◌, ltb, ◌==◌,
  if◌then◌else◌, length, take, str_eq,
}
use websearch_mcpserver_dash.Core.{SearchResult}
use websearch_mcpserver_dash.KeyPool.{KeyPool, mark_invalid, mark_last_invalid, available}
use websearch_mcpserver_dash.ApiPool.Types.{
  Failure, key_error, other_error, Outcome, ok, err, Event, Search, Engine, Entry, Provider, keyed,
  free,
}

-- How a run over one provider ends. A loop that spends its fuel has not ended.
pub data End (F : Type 0) : Type 0 where
  returned : List (SearchResult F) → End F
  all_failed : Failure → End F
  panicked out_of_fuel : End F

pub record Run (F : Type 0) : Type 0 where
  pub end : End F
  pub provider : Provider F
  pub events : List Event
  pub ticks : ℕ

-- `errors.As(err, &ke)`: MarkInvalid with the key of a KeyError, MarkLastInvalid otherwise.
unfoldable pub mark_failure : ℕ → Failure → KeyPool → Option KeyPool
mark_failure now (key_error key) pool = mark_invalid now key pool
mark_failure now other_error pool = mark_last_invalid now pool

module _ {F : Type 0} where
  abbrev pub succeeded : Outcome F → Bool
  succeeded (ok rs) = true
  succeeded (err e) = false

  abbrev pub result_count_of : Outcome F → ℕ
  result_count_of (ok rs) = length rs
  result_count_of (err e) = 0

  -- `if a.maxSize > 0 && len(results) > a.maxSize`
  abbrev pub truncate : ℕ → List (SearchResult F) → List (SearchResult F)
  truncate max rs = if ltb 0 max && ltb max (length rs) then take max rs else rs

  abbrev pub truncated : ℕ → Outcome F → Outcome F
  truncated max (ok rs) = ok (truncate max rs)
  truncated max (err e) = err e

module _ {F S : Type 0} where
  -- `name`, or the engine's own if it is empty.
  abbrev pub provider_name : Entry F S → String
  provider_name p = if str_eq p.name "" then p.engine.engine_name else p.name

  -- The method that callSingle calls.
  unfoldable pub chosen_search : ℕ → Engine F S → Search F S
  chosen_search zero e = e.search_raw
  chosen_search (suc d) e = elim e.search_range [ none ↦ e.search_raw | some range ↦ range (suc d) ]

  unfoldable pub call_single : ℕ → Entry F S → String → ℕ → ℕ → S → Option (S × Outcome F × Event)
  call_single max p query lookback now s = elim (chosen_search lookback p.engine query now s) [
    | none ↦ none
    | some (s', out) ↦ some (
      s',
      truncated max out,
      record {
        provider = provider_name p;
        query = query;
        success = succeeded out;
        result_count = result_count_of out;
      },
    )
  ]

module _ {F : Type 0} where
  abbrev pub logged : Event → Run F → Run F
  logged e r = record r { events = e ∷ r.events }

  abbrev pub ended : End F → Provider F → List Event → ℕ → Run F
  ended end p es t = record { end = end; provider = p; events = es; ticks = t }

  module _ (clock : ℕ → ℕ) (max : ℕ) (query : String) (lookback : ℕ) where
    -- The `for` loop over a provider with a pool, from the clock reading `t`.
    unfoldable pub retry : ℕ → Entry F KeyPool → ℕ → KeyPool → Run F
    retry zero p t pool = ended out_of_fuel (keyed p pool) [] t
    retry (suc fuel) p t pool = elim (call_single max p query lookback (clock t) pool) [
      | none ↦ ended panicked (keyed p pool) [] t
      | some (q, ok rs, e) ↦ ended (returned rs) (keyed p q) (e ∷ []) (t + 1)
      | some (q, err f, e) ↦ elim (mark_failure (clock (t + 1)) f q) [
        | none ↦ ended panicked (keyed p q) (e ∷ []) t
        | some q' ↦
            let again = logged e (retry fuel p (t + 3) q') in
            if available (clock (t + 2)) q' == 0
            then ended (all_failed f) (keyed p q') (e ∷ []) (t + 3)
            else again
      ]
    ]

    unfoldable pub call_provider_with_retry : ℕ → Provider F → ℕ → Run F
    call_provider_with_retry fuel (keyed p pool) t = retry fuel p t pool
    call_provider_with_retry fuel (free p) t =
        elim (call_single max p query lookback (clock t) tt) [
          | none ↦ ended panicked (free p) [] t
          | some (u, ok rs, e) ↦ ended (returned rs) (free p) (e ∷ []) (t + 1)
          | some (u, err f, e) ↦ ended (all_failed f) (free p) (e ∷ []) (t + 1)
        ]
