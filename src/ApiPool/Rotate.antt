-- ===== src/ApiPool/Rotate.antt =====
-- The rotation over the providers (pkg/search/apipool/apipool.go): where it starts, and how it
-- falls back. `rand` is rand.IntN.
use mathlib.Core.Option
use websearch_mcpserver_dash.Prelude.{
  ℕ, zero, suc, ◌+◌, ◌-◌, ◌*◌, ◌%◌, String, Option, none, some, List, [], ◌∷◌, ◌++◌, ltb, ◌==◌,
  if◌then◌else◌, length, get_elem?, set, map, str_eq,
}
use websearch_mcpserver_dash.Core.{SearchResult}
use websearch_mcpserver_dash.KeyPool.{u64_mod, bump, available}
use websearch_mcpserver_dash.ApiPool.Types.{Failure, Event, Provider, keyed, free}
use websearch_mcpserver_dash.ApiPool.Retry.{
  returned, all_failed, panicked, out_of_fuel, provider_name, call_provider_with_retry,
}

pub data Strategy : Type 0 where
  round_robin priority weighted : Strategy

-- The switch of NewApipoolSearch.
unfoldable pub strategy_of : String → Strategy
strategy_of s =
    if str_eq s "priority" then priority else if str_eq s "weighted" then weighted else round_robin

-- A configured weight, an int: a positive one, or any other.
pub data Weight : Type 0 where
  positive : ℕ → Weight
  not_positive : Weight

pub record ApiPool (F : Type 0) : Type 0 where
  pub providers : List (Provider F)
  pub strategy : Strategy
  pub idx : ℕ
  pub max_size : ℕ
  pub weights : List (String × Weight)

unfoldable pub weight_of : String → List (String × Weight) → Option Weight
weight_of name [] = none
weight_of name ((n, w) ∷ ws) = if str_eq n name then some w else weight_of name ws

-- `w := 1`, and the lookup in the weight table.
abbrev pub base_weight : Option Weight → ℕ
base_weight none = 1
base_weight (some (positive v)) = v
base_weight (some not_positive) = 0

unfoldable pub effective_weight : {F : Type 0} → ℕ → List (String × Weight) → Provider F → ℕ
effective_weight now ws (free p) = 1
effective_weight now ws (keyed p pool) =
    base_weight (weight_of (provider_name p) ws) * available now pool

unfoldable pub total : List ℕ → ℕ
total [] = 0
total (w ∷ ws) = w + total ws

-- The second loop of pickWeighted: `none` if it runs past its last weight.
unfoldable pub pick_from : ℕ → List ℕ → Option ℕ
pick_from r [] = none
pick_from r (w ∷ ws) =
    let later = Option.map suc (pick_from (r - w) ws) in if ltb r w then some 0 else later

-- `(0, false)` is `none`.
unfoldable pub pick_weighted : {F : Type 0} → (ℕ → ℕ) → ℕ → ApiPool F → Option ℕ
pick_weighted rand now a =
    let ws = map (effective_weight now a.weights) a.providers in
    let n = total ws in if n == 0 then none else pick_from (rand n) ws

-- `int(a.idx.Add(1)-1) % n`: the counter read as an int64, whose remainder is negative, and no
-- index, if the counter has its top bit set and `n` does not divide it.
abbrev pub i64_limit : ℕ
i64_limit = 9223372036854775808

unfoldable pub cursor : ℕ → ℕ → Option ℕ
cursor c n =
    let v = (bump c + u64_mod - 1) % u64_mod in
    if ltb v i64_limit then some (v % n) else if (u64_mod - v) % n == 0 then some 0 else none

-- pickStartIndex: the start, if it is an index, and the new counter.
unfoldable pub pick_start_index : {F : Type 0} → (ℕ → ℕ) → ℕ → ApiPool F → Option ℕ × ℕ
pick_start_index rand now a = elim a.strategy [
  | priority ↦ (some 0, a.idx)
  | weighted ↦ elim (pick_weighted rand now a) [
    | some start ↦ (some start, a.idx)
    | none ↦ (cursor a.idx (length a.providers), bump a.idx)
  ]
  | round_robin ↦ (cursor a.idx (length a.providers), bump a.idx)
]

-- How SearchRawWithTimeRange ends.
pub data Answered (F : Type 0) : Type 0 where
  found_results : List (SearchResult F) → Answered F
  no_provider : Answered F
  last_error : Failure → Answered F
  broken : Answered F

pub record Searched (F : Type 0) : Type 0 where
  pub answered : Answered F
  pub providers : List (Provider F)
  pub events : List Event
  pub ticks : ℕ

-- The error of a loop that has made no round.
abbrev pub last_error_of : {F : Type 0} → Option Failure → Answered F
last_error_of none = no_provider
last_error_of (some f) = last_error f

abbrev pub with_events : {F : Type 0} → List Event → Searched F → Searched F
with_events es s = record s { events = es ++ s.events }

module _ {F : Type 0} (clock : ℕ → ℕ) (fuel max : ℕ) (query : String) (lookback : ℕ) where
  -- The loop `for i := 0; i < n; i++` over the provider `(start + i) % n`, with the rounds left.
  unfoldable pub try_providers : ℕ → ℕ → ℕ → ℕ → Option Failure → List (Provider F) → Searched F
  try_providers zero n at t last ps = record {
    answered = last_error_of last;
    providers = ps;
    events = [];
    ticks = t;
  }
  try_providers (suc left) n at t last ps = elim (get_elem? ps (at % n)) [
    | none ↦ record { answered = broken; providers = ps; events = []; ticks = t }
    | some p ↦
        let r = call_provider_with_retry clock max query lookback fuel p t in
        let ps' = set ps (at % n) r.provider in
        elim r.end [
          | returned rs ↦ record {
            answered = found_results rs;
            providers = ps';
            events = r.events;
            ticks = r.ticks;
          }
          | all_failed f ↦ with_events r.events (try_providers left n (at + 1) r.ticks (some f) ps')
          | panicked ↦ record {
            answered = broken;
            providers = ps';
            events = r.events;
            ticks = r.ticks;
          }
          | out_of_fuel ↦ record {
            answered = broken;
            providers = ps';
            events = r.events;
            ticks = r.ticks;
          }
        ]
  ]

-- A search that calls no provider.
abbrev pub at_once : {F : Type 0} → Answered F → List (Provider F) → ℕ → Searched F
at_once end ps t = record { answered = end; providers = ps; events = []; ticks = t }

module _ {F : Type 0} (clock : ℕ → ℕ) (fuel : ℕ) (query : String) (lookback : ℕ) where
  -- SearchRawWithTimeRange from the start that was picked: a start below 0 is no index.
  unfoldable pub search_from : Option ℕ → ApiPool F → Searched F
  search_from none a = at_once broken a.providers 1
  search_from (some start) a =
      try_providers clock fuel a.max_size query lookback (length a.providers) (length a.providers)
        start 1 none a.providers

  -- SearchRawWithTimeRange, with the counter that it leaves.
  unfoldable pub search_raw_with_time_range : (ℕ → ℕ) → ApiPool F → Searched F × ℕ
  unfolding search_from pick_start_index
  search_raw_with_time_range rand a =
      let picked = pick_start_index rand (clock 0) a in
      if length a.providers == 0
      then (at_once no_provider a.providers 0, a.idx)
      else (search_from picked.0 a, picked.1)
