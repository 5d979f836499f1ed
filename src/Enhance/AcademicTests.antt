-- ===== src/Enhance/AcademicTests.antt =====
-- The merge and the floor of papers on concrete results (pkg/search/enhance/academic_enhance.go).
use websearch_mcpserver_dash.Prelude.{
  ℕ, String, ◌≡◌, refl, List, [], ◌∷◌, length, some, get_elem?, arith,
}
use websearch_mcpserver_dash.Core.{SearchResult, ScoreBucket}
use websearch_mcpserver_dash.Go.{Text}
use websearch_mcpserver_dash.Enhance.Aggregate.{UrlAgg, normalize_url_key, counted}
use websearch_mcpserver_dash.Antirobot.{normalize_doi}
use websearch_mcpserver_dash.Enhance.Academic.{
  Papers, joined_paper, no_papers, add_paper, add_papers, gather_papers, place_of, modify_at,
  result_keys, any_in, top_keys, kept_by_score, keys_of_all, restored, apply_academic_score_floor,
}
use websearch_mcpserver_dash.Enhance.Joined.{add_paper-same_doi}
use websearch_mcpserver_dash.Enhance.Tests.{thousandths, result, fox, plain, no_urls, two_engines}

abbrev paper : String → String → SearchResult ℕ
paper doi url = record (result "" url 1001) { doi = doi }

-- A result without a DOI stands alone under its URL, although a later one has the URL and another's DOI.
two_aggregates :
    length
      (add_papers thousandths plain no_urls 2000 "arxiv" 0
        (paper "10.1/x" "a" ∷ paper "" "b" ∷ paper "10.1/x" "b" ∷ [])
        no_papers).order
    ≡ 2
unfolding add_papers add_paper place_of modify_at normalize_doi normalize_url_key
two_aggregates = refl

abbrev between : Papers ℕ
between = gather_papers thousandths plain no_urls two_engines (
    add_papers thousandths plain no_urls 2000 "arxiv" 1 (paper "" "b" ∷ [])
      (add_paper thousandths plain no_urls 2000 "arxiv" 0 (paper "10.1/x" "a") no_papers))

add_paper-same_doi_example :
    (a : UrlAgg ℕ) × (get_elem? between.order
        (place_of thousandths plain no_urls no_papers (paper "10.1/x" "a"))
      ≡ some a)
    × (get_elem?
          (add_paper thousandths plain no_urls 2000 "dblp" 4 (paper "10.1/x" "b") between).order
          (place_of thousandths plain no_urls no_papers (paper "10.1/x" "a"))
        ≡ some (
            counted thousandths 2000 "dblp" 4
              (joined_paper thousandths plain no_urls (paper "10.1/x" "b") a)))
    × (length (add_paper thousandths plain no_urls 2000 "dblp" 4 (paper "10.1/x" "b") between).order
        ≡ length between.order)
unfolding normalize_doi place_of
add_paper-same_doi_example =
    add_paper-same_doi thousandths plain no_urls 2000 2000 2000 "arxiv" "arxiv" "dblp" 0 1 4
      (paper "10.1/x" "a") (paper "10.1/x" "b") (paper "" "b" ∷ []) two_engines no_papers between
      refl refl (omega arith) refl

abbrev keep_second : Text
keep_second = record plain { concat = λ s t. t }

abbrev one_top : List (ScoreBucket ℕ)
one_top = record { name = "arxiv"; weight = 2000; results = paper "10.1/x" "z" ∷ [] } ∷ []

-- The second result is far below the threshold, and is its engine's first.
comes_back :
    apply_academic_score_floor thousandths keep_second no_urls
      (λ rs. rs)
      (fox ∷ paper "10.1/x" "z" ∷ [])
      one_top
      1500
    ≡ fox ∷ paper "10.1/x" "z" ∷ []
unfolding apply_academic_score_floor kept_by_score restored top_keys keys_of_all result_keys any_in
    normalize_doi normalize_url_key
comes_back = refl
