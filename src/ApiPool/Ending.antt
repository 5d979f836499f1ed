-- ===== src/ApiPool/Ending.antt =====
-- Why callProviderWithRetry ends (pkg/search/apipool/apipool.go): a failed call puts the key that
-- it used out of use.
use websearch_mcpserver_dash.Prelude.{
  ℕ, suc, ◌+◌, ◌<◌, ◌≤◌, String, ◌≡◌, refl, sym, ap, ◌∙◌, Option, some, List, [], ◌∷◌, arith, ◌==◌,
  if◌then◌else◌, length,
}
use websearch_mcpserver_dash.Core.{SearchResult}
use websearch_mcpserver_dash.KeyPool.{KeyPool, IsValid, u64_mod, key_invalid_ttl, available, usable}
use websearch_mcpserver_dash.KeyPool.Outcome.{Gives}
use websearch_mcpserver_dash.KeyPool.Marking.{
  marked, mark_invalid_lem, marked-IsValid, mark_last_invalid_lem, available-marked, usable_mono,
}
use websearch_mcpserver_dash.ApiPool.Types.{
  Failure, key_error, other_error, Outcome, ok, err, Event, Entry, keyed,
}
use websearch_mcpserver_dash.ApiPool.Retry.{
  returned, all_failed, mark_failure, truncate, truncated, provider_name, chosen_search,
  call_single, succeeded, result_count_of, logged, ended, retry,
}

-- What the loop relies on in an engine with a pool: whichever method it calls, the engine takes
-- one key by Next, and a KeyError names that key.
pub record Answer {F : Type 0} (now : ℕ) (pool : KeyPool) (r : Option (KeyPool × Outcome F))
    : Type 0 where
  pub pool_after : KeyPool
  pub key : String
  pub outcome : Outcome F
  pub is_answer : r ≡ some (pool_after, outcome)
  pub gives : Gives now pool pool_after key
  pub names_key : (k : String) → outcome ≡ err (key_error k) → k ≡ key

pub record IsKeyed {F : Type 0} (p : Entry F KeyPool) : Type 0 where
  pub answer :
      (query : String) (lookback now : ℕ) (pool : KeyPool)
      → IsValid pool
      → pool.idx + length pool.keys < u64_mod
      → Answer now pool (chosen_search lookback p.engine query now pool)

-- Which keys a failed call leaves.
pub record Spent (now mark : ℕ) (pool q : KeyPool) : Type 0 where
  pub valid : IsValid q
  pub same_keys : q.keys ≡ pool.keys
  pub moved : q.idx ≤ pool.idx + length pool.keys
  pub fewer : (t : ℕ) → now ≤ t → t ≤ mark + key_invalid_ttl → available t q ≤ available t pool
  pub one_fewer :
      (t : ℕ)
      → 0 < available now pool
      → now ≤ t
      → t ≤ mark + key_invalid_ttl
      → available t q + 1 ≡ available t pool

module _ (now mark : ℕ) (pool q : KeyPool) (k : String) (g : Gives now pool q k) where
  pub mark_failure_lem :
      (f : Failure)
      → ((k' : String) → f ≡ key_error k' → k' ≡ k)
      → mark_failure mark f q ≡ some (marked mark g.place q)
  unfolding mark_failure
  mark_failure_lem (key_error k') h =
      rw (h k' refl) (mark_invalid_lem mark g.place q k g.valid g.at)
  mark_failure_lem other_error h =
      mark_last_invalid_lem mark q k g.last ∙ mark_invalid_lem mark g.place q k g.valid g.at

  spent :
      (t : ℕ)
      → now ≤ t
      → t ≤ mark + key_invalid_ttl
      → available t (marked mark g.place q) + (if usable t g.state then 1 else 0) ≡ available t pool
  spent t le soon =
      available-marked mark g.place q k g.valid g.at t g.state g.at_state soon ∙ g.kept t le

  spent_one :
      (t : ℕ)
      → 0 < available now pool
      → now ≤ t
      → t ≤ mark + key_invalid_ttl
      → available t (marked mark g.place q) + 1 ≡ available t pool
  spent_one t pos le soon =
      let hit = usable_mono now t g.state le (g.usable_if pos) in
      ap (λ b. available t (marked mark g.place q) + (if b then 1 else 0)) (sym hit)
      ∙ spent t le soon

  pub marked-Spent : Spent now mark pool (marked mark g.place q)
  marked-Spent = record {
    valid = marked-IsValid mark g.place q k g.valid g.at;
    same_keys = g.same_keys;
    moved = g.moved;
    fewer = λ t le soon. omega (arith, spent t le soon);
    one_fewer = spent_one;
  }

module _ {F : Type 0} (clock : ℕ → ℕ) (max : ℕ) (query : String) (lookback : ℕ)
    (p : Entry F KeyPool) where
  pub event_of : Outcome F → Event
  event_of out = record {
    provider = provider_name p;
    query = query;
    success = succeeded out;
    result_count = result_count_of out;
  }

  calls :
      (now : ℕ) (pool q : KeyPool) (out : Outcome F)
      → chosen_search lookback p.engine query now pool ≡ some (q, out)
      → call_single max p query lookback now pool ≡ some (q, truncated max out, event_of out)
  unfolding call_single event_of
  calls now pool q out h = rw (h, call_single)

  pub retry_returns :
      (fuel t : ℕ) (pool q : KeyPool) (rs : List (SearchResult F))
      → chosen_search lookback p.engine query (clock t) pool ≡ some (q, ok rs)
      → retry clock max query lookback (suc fuel) p t pool
        ≡ ended (returned (truncate max rs)) (keyed p q) (event_of (ok rs) ∷ []) (t + 1)
  unfolding retry
  retry_returns fuel t pool q rs h = rw (calls (clock t) pool q (ok rs) h, retry)

  pub retry_fails :
      (fuel t : ℕ) (pool q q' : KeyPool) (f : Failure)
      → chosen_search lookback p.engine query (clock t) pool ≡ some (q, err f)
      → mark_failure (clock (t + 1)) f q ≡ some q'
      → retry clock max query lookback (suc fuel) p t pool ≡ (
          if available (clock (t + 2)) q' == 0
          then ended (all_failed f) (keyed p q') (event_of (err f) ∷ []) (t + 3)
          else logged (event_of (err f)) (retry clock max query lookback fuel p (t + 3) q'))
  unfolding retry
  retry_fails fuel t pool q q' f h m = rw (calls (clock t) pool q (err f) h, m, retry)
