-- ===== src/ApiPool/Types.antt =====
-- What passes between the API pool, its engines and the telemetry
-- (pkg/search/apipool/apipool.go, pkg/search/provider/keypool.go, pkg/telemetry/store.go).
use websearch_mcpserver_dash.Prelude.{ℕ, String, Bool, Option, List}
use websearch_mcpserver_dash.Core.{SearchResult}
use websearch_mcpserver_dash.KeyPool.{KeyPool}

-- An error of an engine: a `*KeyError` with its key, or any other.
pub data Failure : Type 0 where
  key_error : String → Failure
  other_error : Failure

pub data Outcome (F : Type 0) : Type 0 where
  ok : List (SearchResult F) → Outcome F
  err : Failure → Outcome F

-- The fields of telemetry.Event that a provider call sets, less its duration.
pub record Event : Type 0 where
  pub provider : String
  pub query : String
  pub success : Bool
  pub result_count : ℕ

-- A call of an engine at a time, with the pool that it shares with its provider entry as the state
-- `S`; a free engine has no pool, and `S` is `Unit`. `none` is a panic.
abbrev pub Search : Type 0 → Type 0 → Type 0
Search F S = String → ℕ → S → Option (S × Outcome F)

-- core.SearchInf, and core.SearchTimeRanger if the engine implements it.
pub record Engine (F S : Type 0) : Type 0 where
  pub engine_name : String
  pub search_raw : Search F S
  pub search_range : Option (ℕ → Search F S)

pub record Entry (F S : Type 0) : Type 0 where
  pub name : String
  pub engine : Engine F S

-- ApipoolProvider: an engine with its pool, or a free one, whose `pool` is nil.
pub data Provider (F : Type 0) : Type 0 where
  keyed : Entry F KeyPool → KeyPool → Provider F
  free : Entry F (Unit {0}) → Provider F
