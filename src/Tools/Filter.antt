-- ===== src/Tools/Filter.antt =====
-- The filter of a single engine's results (`postSearchFilter` in mcp/tool_search.go). `sort_by_score`
-- is sort.Slice by descending scores, in place.
use websearch_mcpserver_dash.Prelude.{
  ℕ, String, not, ◌&&◌, List, [], ◌∷◌, ltb, if◌then◌else◌, length, take, str_eq,
}
use websearch_mcpserver_dash.Core.{Float, SearchResult, has_score, filter_by_score}
use websearch_mcpserver_dash.Hybrid.{EngineFilter}
use websearch_mcpserver_dash.Tools.Types.{ToolConfig}

module _ {F : Type 0} (fl : Float F) where
  -- A missing key of the map reads as the zero value.
  unfoldable pub configured_filter : List (String × EngineFilter F) → String → EngineFilter F
  configured_filter [] name = record { min_score = fl.nil; max_size = 0; weight = fl.nil }
  configured_filter ((k, f) ∷ fs) name = if str_eq k name then f else configured_filter fs name

  -- The engine's own bound; without scores the smaller of that and the global one.
  abbrev pub engine_max : ℕ → ℕ → List (SearchResult F) → ℕ
  engine_max own global rs =
      if ltb 0 global && not (has_score fl rs) && ltb global own then global else own

  abbrev pub cut_own : ℕ → List (SearchResult F) → List (SearchResult F)
  cut_own n rs = if ltb 0 n && ltb n (length rs) then take n rs else rs

  abbrev pub cut_global :
      (List (SearchResult F) → List (SearchResult F))
      → ℕ
      → List (SearchResult F)
      → List (SearchResult F)
  cut_global sort_by_score n rs =
      if ltb 0 n && ltb n (length rs) then take n (sort_by_score rs) else rs

  unfoldable pub post_search_filter :
      (List (SearchResult F) → List (SearchResult F))
      → ToolConfig F
      → List (SearchResult F)
      → String
      → List (SearchResult F)
  post_search_filter sort_by_score conf [] name = []
  post_search_filter sort_by_score conf (r ∷ rs) name =
      let ec = configured_filter conf.engines name in
      let kept = filter_by_score fl (r ∷ rs) ec.min_score in
      cut_global sort_by_score conf.max_size
        (cut_own (engine_max ec.max_size conf.max_size kept) kept)
