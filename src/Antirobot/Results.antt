-- ===== src/Antirobot/Results.antt =====
-- The results of the engines that read pages, and DeduplicateResults (pkg/antirobot/types.go).
use websearch_mcpserver_dash.Prelude.{
  ℕ, String, List, [], ◌≡◌, if◌then◌else◌, str_eq, dedup_by, firsts, Distinct, dedup_by-Distinct,
  dedup_by-eq-firsts,
}
use websearch_mcpserver_dash.Go.{Text}

pub record Result (F : Type 0) : Type 0 where
  pub kind : String
  pub title : String
  pub url : String
  pub content : String
  pub pdf_url : String
  pub authors : String
  pub published_at : String
  pub doi : String
  pub journal : String
  pub cited_by : ℕ
  pub score : F
  pub engine : String

module _ (text : Text) where
  unfoldable pub normalize_doi : String → String
  normalize_doi doi =
      text.trim_prefix (text.trim_prefix (text.to_lower (text.trim_space doi)) "https://doi.org/")
        "http://doi.org/"

  unfoldable pub result_key : {F : Type 0} → Result F → String
  result_key r =
      let doi = normalize_doi r.doi in
      if str_eq doi "" then text.concat "url:" r.url else text.concat "doi:" doi

  unfoldable pub deduplicate_results : {F : Type 0} → List (Result F) → List (Result F)
  deduplicate_results rs = dedup_by result_key [] rs

  -- DeduplicateResults keeps of each key, the DOI or else the URL, the first result in its place, and
  -- no two of the results that it keeps have one key.
  pub deduplicate_results-firsts :
      {F : Type 0} (rs : List (Result F))
      → (deduplicate_results rs ≡ firsts result_key rs)
        × Distinct result_key (deduplicate_results rs)
  unfolding deduplicate_results
  deduplicate_results-firsts rs =
      (dedup_by-eq-firsts result_key rs, dedup_by-Distinct result_key [] rs)
