-- ===== src/ApiPool/Tests.antt =====
-- The API pool on concrete inputs (pkg/search/apipool/apipool.go).
use mathlib.Core.Path.{subst}
use websearch_mcpserver_dash.Prelude.{
  ℕ, zero, suc, ◌+◌, ◌-◌, ◌<◌, ◌≤◌, ◌≡◌, ◌≢◌, ◌↔◌, refl, sym, String, none, some, List, [], ◌∷◌,
  arith, length, get_elem?, take,
}
use websearch_mcpserver_dash.KeyPool.{
  KeyPool, IsValid, u64_mod, next, scan, index_of, mark_invalid, available,
}
use websearch_mcpserver_dash.KeyPool.Outcome.{next-Gives}
use websearch_mcpserver_dash.ApiPool.Types.{
  Failure, key_error, ok, err, Search, Entry, Provider, keyed, free,
}
use websearch_mcpserver_dash.ApiPool.Retry.{
  all_failed, retry, call_provider_with_retry, chosen_search, call_single, mark_failure,
}
use websearch_mcpserver_dash.ApiPool.Rotate.{
  found_results, last_error, broken, ApiPool, weighted, positive, effective_weight, total,
  pick_weighted, try_providers, search_from,
}
use websearch_mcpserver_dash.ApiPool.Weights.{weights_at, pick_weighted_share}
use websearch_mcpserver_dash.ApiPool.Ending.{Answer, IsKeyed}
use websearch_mcpserver_dash.ApiPool.Termination.{InHalfHour, Finishes, retry-Finishes}
use websearch_mcpserver_dash.ApiPool.Fallback.{
  Ended, FirstReturn, search-FirstReturn, search-all_failed,
}
use websearch_mcpserver_dash.ApiPool.Total.{Ready, search-ne-broken}

-- The scores of these tests are numbers.
abbrev two_keys : KeyPool
two_keys = record { keys = "a" ∷ "b" ∷ []; states = none ∷ none ∷ []; idx = 0; last_key = none }

two_keys-IsValid : IsValid two_keys
two_keys-IsValid = record {
  nonempty = omega arith;
  matched = refl;
  distinct = (refl, (refl, tt));
  counter = omega arith;
}

-- An engine whose API refuses every key.
refused : Search ℕ KeyPool
refused query now pool = elim (next now pool) [
  | none ↦ none
  | some (q, key) ↦ some (q, err (key_error key))
]

abbrev refusing : Entry ℕ KeyPool
refusing = record {
  name = "tavily";
  engine = record { engine_name = "tavily_api"; search_raw = refused; search_range = none };
}

refused-Answer :
    (query : String) (now : ℕ) (pool : KeyPool)
    → IsValid pool
    → pool.idx + length pool.keys < u64_mod
    → Answer now pool (refused query now pool)
unfolding refused
refused-Answer query now pool v fits =
    let (q, k, eq, g) = next-Gives now pool v fits in
    record {
      pool_after = q;
      key = k;
      outcome = err (key_error k);
      is_answer = rw (eq, refused);
      gives = g;
      names_key = λ k' e. ground arith;
    }

refused_by : (lookback : ℕ) → chosen_search lookback refusing.engine ≡ refused
unfolding chosen_search
refused_by zero = refl
refused_by (suc d) = refl

refusing-IsKeyed : IsKeyed refusing
refusing-IsKeyed = record {
  answer = λ query lookback now pool v fits.
      subst (λ s. Answer now pool (s query now pool)) (sym (refused_by lookback))
        (refused-Answer query now pool v fits);
}

abbrev still : ℕ → ℕ
still j = 1000

still-InHalfHour : InHalfHour still
still-InHalfHour = record { step = λ j. omega arith; late = λ j. omega arith }

retry-Finishes_example : Finishes still 3 (retry still 5 "q" 0 4 refusing 0 two_keys)
retry-Finishes_example =
    retry-Finishes still 5 "q" 0 refusing 4 0 two_keys refusing-IsKeyed still-InHalfHour
      two_keys-IsValid (omega arith) (omega arith)

-- A free engine that finds nothing to complain of.
abbrev empty_engine : Entry ℕ (Unit {0})
empty_engine = record {
  name = "baidu_web";
  engine = record {
    engine_name = "baidu";
    search_raw = λ query now u. some (u, ok []);
    search_range = none;
  };
}

abbrev pool_of : List (Provider ℕ) → ApiPool ℕ
pool_of ps = record {
  providers = ps;
  strategy = weighted;
  idx = 0;
  max_size = 5;
  weights = ("tavily", positive 3) ∷ [];
}

abbrev mixed : ApiPool ℕ
mixed = pool_of (keyed refusing two_keys ∷ free empty_engine ∷ [])

abbrev refusing_only : ApiPool ℕ
refusing_only = pool_of (keyed refusing two_keys ∷ [])

-- All that the search of a pool runs.
program : Unit {0}
unfolding search_from try_providers call_provider_with_retry retry call_single chosen_search refused
    next scan mark_failure mark_invalid index_of available
program = tt

finds : (search_from still 4 "q" 0 (some 0) mixed).answered ≡ found_results []
unfolding program
finds = refl

pick_weighted_share_example : (pick_weighted (λ n. n - 1) 1000 mixed ≡ some 1) ↔ (
    (total (take 1 (weights_at 1000 mixed)) ≤ total (weights_at 1000 mixed) - 1)
    × (total (weights_at 1000 mixed) - 1 < total (take 2 (weights_at 1000 mixed))))
unfolding total effective_weight
pick_weighted_share_example =
    pick_weighted_share (λ n. n - 1) 1000 1 mixed (omega arith) (omega arith)

search-FirstReturn_example : FirstReturn still 4 5 "q" 0 2 2 0 mixed.providers []
search-FirstReturn_example = search-FirstReturn still 4 "q" 0 0 mixed [] finds

fails : (search_from still 4 "q" 0 (some 0) refusing_only).answered ≡ last_error (key_error "b")
unfolding program
fails = refl

search-all_failed_example :
    (g : Failure) × Ended still 4 5 "q" 0 (keyed refusing two_keys) (all_failed g)
search-all_failed_example =
    search-all_failed still 4 "q" 0 0 refusing_only (key_error "b") fails 0
      (keyed refusing two_keys) refl

empty_found :
    (query : String) (lookback now : ℕ)
    → chosen_search lookback empty_engine.engine query now tt ≡ some (tt, ok [])
unfolding chosen_search
empty_found query zero now = refl
empty_found query (suc d) now = refl

mixed-Ready : (i : ℕ) (p : Provider ℕ) → get_elem? mixed.providers i ≡ some p → Ready 4 p
mixed-Ready zero p at =
    let same : keyed refusing two_keys ≡ p = cc in
    subst (Ready 4) same (refusing-IsKeyed, two_keys-IsValid, omega arith, omega arith)
mixed-Ready (suc zero) p at =
    let same : free empty_engine ≡ p = cc in
    subst (Ready 4) same (λ query lookback now. (ok [], empty_found query lookback now))
mixed-Ready (suc (suc i)) p at = absurd (ground arith)

search-ne-broken_example : (search_from still 4 "q" 0 (some 1) mixed).answered ≢ broken
search-ne-broken_example = search-ne-broken still 4 "q" 0 1 mixed still-InHalfHour mixed-Ready
