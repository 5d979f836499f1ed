-- ===== src/Engines/Blocked.antt =====
-- The sites that a page engine leaves out: applyBlocked, filterBlocked and extractHost, of which each
-- engine has its own copy (pkg/search/engine).
use websearch_mcpserver_dash.Prelude.{
  String, Bool, false, not, ◌||◌, none, some, List, [], ◌∷◌, map, ltb, if◌then◌else◌, length, keep,
  str_eq,
}
use websearch_mcpserver_dash.Go.{Text}
use websearch_mcpserver_dash.Antirobot.{Result}

module _ (text : Text) where
  unfoldable pub with_sites : String → List String → String
  with_sites query [] = query
  with_sites query (d ∷ ds) = with_sites (text.concat (text.concat query " -site:") d) ds

  -- More than five sites are not put into the query.
  unfoldable pub apply_blocked : List String → String → String
  apply_blocked blocked query = if ltb 5 (length blocked) then query else with_sites query blocked

  unfoldable pub extract_host : String → String
  extract_host url = elim (text.parsed_host url) [
    | none ↦ ""
    | some host ↦ text.trim_prefix host "www."
  ]

  -- The loop over the blocked domains, which are in lower case.
  unfoldable pub is_hit : String → List String → Bool
  is_hit host [] = false
  is_hit host (d ∷ ds) = str_eq host d || text.has_suffix host (text.concat "." d) || is_hit host ds

  unfoldable pub filter_blocked : {F : Type 0} → List String → List (Result F) → List (Result F)
  filter_blocked blocked rs =
      keep (λ r. not (is_hit (extract_host r.url) (map text.to_lower blocked))) rs

  -- The engines filter only if anything is blocked.
  unfoldable pub without_blocked : {F : Type 0} → List String → List (Result F) → List (Result F)
  without_blocked blocked rs = if ltb 0 (length blocked) then filter_blocked blocked rs else rs
