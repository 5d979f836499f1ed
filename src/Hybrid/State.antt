-- ===== src/Hybrid/State.antt =====
-- The configuration of a hybrid search and mergeResults (pkg/search/hybrid/hybrid.go). Sizes are ints
-- of which only the positive ones count: 0 stands for the others too.
use websearch_mcpserver_dash.Prelude.{
  ℕ, ◌+◌, ◌-◌, ◌/◌, String, Bool, not, ◌&&◌, none, some, List, [], ◌∷◌, ◌++◌, ltb, ◌==◌,
  if◌then◌else◌, length, get_elem?, take, keep, str_eq, dedup_by, min,
}
use websearch_mcpserver_dash.Core.{Float, SearchResult, ScoreBucket, has_score, at_least}
use websearch_mcpserver_dash.Hybrid.RoundRobin.{round_robin_by_names}

abbrev pub default_engine_max_size : ℕ
default_engine_max_size = 4

pub record EngineFilter (F : Type 0) : Type 0 where
  pub min_score : F
  pub max_size : ℕ
  pub weight : F

pub record HybridSearch (F : Type 0) : Type 0 where
  pub engine_names : List String
  pub engine_map : List (String × EngineFilter F)
  pub max_size : ℕ
  pub enhance : Bool

-- What an engine's goroutine sends: its results, or an error with its text.
pub data Sent (F : Type 0) : Type 0 where
  got : List (SearchResult F) → Sent F
  failed : String → Sent F

pub record IndexedResult (F : Type 0) : Type 0 where
  pub index : ℕ
  pub sent : Sent F

-- An engine's own results, by its index.
pub record EngineResults (F : Type 0) : Type 0 where
  pub index : ℕ
  pub results : List (SearchResult F)

pub data Merged (F : Type 0) : Type 0 where
  merged : List (SearchResult F) → Merged F
  engines_failed : List (String × String) → Merged F
  no_valid_results : Merged F

abbrev pub name_at : List String → ℕ → String
name_at names i = elim (get_elem? names i) [ none ↦ "unknown" | some n ↦ n ]

-- `ceil(maxSize / numEngines)`.
abbrev pub share : ℕ → ℕ → ℕ
share max n = (max + n - 1) / n

-- The errors with their engines' names, and the results, in the order of arrival.
module _ {F : Type 0} where
  unfoldable pub errors_of : List String → List (IndexedResult F) → List (String × String)
  errors_of names [] = []
  errors_of names (r ∷ rs) = elim r.sent [
    | got _ ↦ errors_of names rs
    | failed e ↦ (name_at names r.index, e) ∷ errors_of names rs
  ]

  unfoldable pub successes_of : List (IndexedResult F) → List (EngineResults F)
  successes_of [] = []
  successes_of (r ∷ rs) = elim r.sent [
    | got xs ↦ record { index = r.index; results = xs } ∷ successes_of rs
    | failed _ ↦ successes_of rs
  ]

  unfoldable pub filter_of : F → List (String × EngineFilter F) → String → EngineFilter F
  filter_of nil [] name = record { min_score = nil; max_size = 0; weight = nil }
  filter_of nil ((n, f) ∷ m) name = if str_eq n name then f else filter_of nil m name

module _ {F : Type 0} (fl : Float F) (trim : String → String) where
  abbrev pub url_key : SearchResult F → String
  url_key r = trim r.url

  -- The filter by score, unless the engine gives no scores.
  abbrev pub score_filtered : EngineFilter F → List (SearchResult F) → List (SearchResult F)
  score_filtered ef unique =
      if fl.lt fl.nil ef.min_score && has_score fl unique
      then keep (at_least fl ef.min_score) unique
      else unique

  abbrev pub own_max : EngineFilter F → ℕ
  own_max ef = if ef.max_size == 0 then default_engine_max_size else ef.max_size

  -- `engineMax`, after the even share for an engine without scores.
  abbrev pub engine_max : HybridSearch F → EngineFilter F → List (SearchResult F) → ℕ
  engine_max h ef unique =
      if not h.enhance
        && ltb 0 h.max_size
        && ltb 0 (length h.engine_names)
        && not (has_score fl unique)
      then min (share h.max_size (length h.engine_names)) (own_max ef)
      else own_max ef

  abbrev pub cut : ℕ → List (SearchResult F) → List (SearchResult F)
  cut n rs = if ltb 0 n && ltb n (length rs) then take n rs else rs

  -- One engine's part of the merge: without repeated URLs, filtered and cut.
  unfoldable pub engine_part :
      HybridSearch F → EngineFilter F → List (SearchResult F) → List (SearchResult F)
  engine_part h ef rs =
      let unique = score_filtered ef (dedup_by url_key [] rs) in cut (engine_max h ef unique) unique

  abbrev pub filter_at : HybridSearch F → ℕ → EngineFilter F
  filter_at h i = filter_of fl.nil h.engine_map (name_at h.engine_names i)

  unfoldable pub all_parts : HybridSearch F → List (EngineResults F) → List (SearchResult F)
  all_parts h [] = []
  all_parts h (e ∷ es) = engine_part h (filter_at h e.index) e.results ++ all_parts h es

  unfoldable pub buckets_of : HybridSearch F → List (EngineResults F) → List (ScoreBucket F)
  buckets_of h [] = []
  buckets_of h (e ∷ es) =
      record {
        name = name_at h.engine_names e.index;
        weight = (filter_at h e.index).weight;
        results = engine_part h (filter_at h e.index) e.results;
      }
      ∷ buckets_of h es

  module _ (sort_by_index : List (EngineResults F) → List (EngineResults F))
      (sort_by_score : List (SearchResult F) → List (SearchResult F))
      (enhance : String → List (ScoreBucket F) → List (SearchResult F)) where
    -- The cut to the global maximum.
    unfoldable pub limit_all : HybridSearch F → List (SearchResult F) → List (SearchResult F)
    limit_all h rs =
        if ltb 0 h.max_size && ltb h.max_size (length rs)
        then (if has_score fl rs
            then take h.max_size (sort_by_score rs)
            else round_robin_by_names rs h.max_size h.engine_names)
        else rs

    abbrev pub or_no_results : List (SearchResult F) → Merged F
    or_no_results [] = no_valid_results
    or_no_results (r ∷ rs) = merged (r ∷ rs)

    -- The merge of the engines that answered, by their index.
    unfoldable pub merge_successes : HybridSearch F → String → List (EngineResults F) → Merged F
    merge_successes h query es =
        if h.enhance
        then or_no_results (enhance query (buckets_of h es))
        else or_no_results (limit_all h (dedup_by url_key [] (all_parts h es)))

    unfoldable pub merge_results : HybridSearch F → String → List (IndexedResult F) → Merged F
    merge_results h query arrived = elim (successes_of arrived) [
      | [] ↦ engines_failed (errors_of h.engine_names arrived)
      | e ∷ es ↦ merge_successes h query (sort_by_index (e ∷ es))
    ]
