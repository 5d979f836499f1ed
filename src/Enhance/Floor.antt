-- ===== src/Enhance/Floor.antt =====
-- ApplyScoreFloor (pkg/search/enhance/enhance.go).
use websearch_mcpserver_dash.Prelude.{List, [], ◌∷◌, if◌then◌else◌, keep}
use websearch_mcpserver_dash.Core.{SearchResult, at_least, Numbers}

module _ {F : Type 0} (num : Numbers F) where
  -- The default for a threshold that is not positive.
  abbrev pub threshold_or : F → F → F
  threshold_or def t = if num.float.le t num.float.nil then def else t

  -- `if len(kept) < 2 && len(results) >= 2`, for the results after the first.
  abbrev pub at_least_two :
      SearchResult F → List (SearchResult F) → List (SearchResult F) → List (SearchResult F)
  at_least_two r [] [] = r ∷ []
  at_least_two r (s ∷ rs) [] = r ∷ s ∷ []
  at_least_two r rs (k ∷ ks) = r ∷ k ∷ ks

  unfoldable pub apply_score_floor : List (SearchResult F) → F → List (SearchResult F)
  apply_score_floor [] t = []
  apply_score_floor (r ∷ rs) t =
      at_least_two r rs (keep (at_least num.float (threshold_or (num.dec 5 2) t)) rs)
