-- ===== src/Enhance/Pipeline.antt =====
-- EnhanceResultsMMR (pkg/search/enhance/enhance.go). The signals of a result's text, domain and date
-- are functions that the pipeline is given, as is the stable sort by score.
use websearch_mcpserver_dash.Prelude.{
  false, ℕ, String, Bool, Option, none, some, List, [], ◌&&◌, map, ltb, ◌==◌, if◌then◌else◌, length,
  take,
}
use websearch_mcpserver_dash.Core.{SearchResult, ScoreBucket, Numbers}
use websearch_mcpserver_dash.Go.{Text, UrlText}
use websearch_mcpserver_dash.Enhance.Aggregate.{UrlAgg, consensus_boost, aggregate}
use websearch_mcpserver_dash.Enhance.Floor.{apply_score_floor}
use websearch_mcpserver_dash.Enhance.Mmr.{apply_mmr}

pub record MmrConfig (F : Type 0) : Type 0 where
  pub enabled : Bool
  pub lambda : F
  pub target_count : ℕ

-- LexicalAlignment, DomainQuality, RareTermsFactor, AuthorityBoost with a rare factor, RecencyFactor, and
-- tokenSet of the text that ApplyMMR compares, for one query.
pub record Signals (F : Type 0) : Type 0 where
  pub lexical_alignment : SearchResult F → F
  pub domain_quality : SearchResult F → F
  pub rare_terms_factor : SearchResult F → F
  pub authority_boost : SearchResult F → F → F
  pub recency_factor : SearchResult F → F
  pub text_of : SearchResult F → String
  pub token_set : String → List String

module _ {F : Type 0} (num : Numbers F) (sig : Signals F) where
  abbrev pub agg_score : UrlAgg F → F
  agg_score a =
      let rare = sig.rare_terms_factor a.res in
      let alignment = num.add (num.dec 5 1) (num.mul (num.dec 5 1) (sig.lexical_alignment a.res)) in
      let base = num.mul (num.mul (num.mul a.rrf (sig.domain_quality a.res)) alignment) rare in
      let boosted =
        num.add (num.add base (consensus_boost num (length a.engine_order)))
          (sig.authority_boost a.res rare) in
      num.mul boosted (sig.recency_factor a.res)

  abbrev pub scored_result : UrlAgg F → SearchResult F
  scored_result a = record a.res { score = agg_score a; engines = a.engine_order }

  abbrev pub scored : List (String × UrlAgg F) → List (SearchResult F)
  scored gs = map (λ g. scored_result g.1) gs

  abbrev pub reranked : MmrConfig F → List (SearchResult F) → Option (List (SearchResult F))
  reranked mmr rs =
      if mmr.enabled
      then apply_mmr num sig.text_of sig.token_set rs mmr.lambda
          (if mmr.target_count == 0 then length rs else mmr.target_count)
      else some rs

  -- `if maxSize > 0 && len(scored) > maxSize`
  abbrev pub cut_to : ℕ → List (SearchResult F) → List (SearchResult F)
  cut_to max rs = if ltb 0 max && ltb max (length rs) then take max rs else rs

  abbrev pub cut_result : ℕ → Option (List (SearchResult F)) → Option (List (SearchResult F))
  cut_result max none = none
  cut_result max (some rs) = some (cut_to max rs)

  module _ (text : Text) (urls : UrlText)
      (sort_by_score : List (SearchResult F) → List (SearchResult F)) where
    -- The results in the order of their scores, before the cuts.
    abbrev pub all_scored : List (ScoreBucket F) → List (SearchResult F)
    all_scored buckets = sort_by_score (scored (aggregate num text urls buckets []))

    unfoldable pub enhance_results_mmr :
        List (ScoreBucket F) → F → ℕ → MmrConfig F → Option (List (SearchResult F))
    enhance_results_mmr buckets threshold max mmr =
        cut_result max (reranked mmr (apply_score_floor num (all_scored buckets) threshold))

    -- EnhanceResults, without the reranking.
    unfoldable pub enhance_results : List (ScoreBucket F) → F → ℕ → Option (List (SearchResult F))
    unfolding enhance_results_mmr
    enhance_results buckets threshold max =
        enhance_results_mmr buckets threshold max
          (record { enabled = false; lambda = num.float.nil; target_count = 0 })
