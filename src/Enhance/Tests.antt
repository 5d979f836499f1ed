-- ===== src/Enhance/Tests.antt =====
-- The scoring pipeline on concrete results (pkg/search/enhance).
use websearch_mcpserver_dash.Prelude.{
  ℕ, zero, suc, ◌+◌, ◌-◌, ◌*◌, ◌/◌, ◌≤◌, String, Bool, true, false, not, ◌&&◌, ◌≡◌, refl, none,
  some, List, [], ◌∷◌, arith, ltb, leb, length, min, get_elem?, str_eq, tally,
}
use websearch_mcpserver_dash.Core.{SearchResult, ScoreBucket, at_least, Numbers}
use websearch_mcpserver_dash.Go.{Text, UrlText}
use websearch_mcpserver_dash.Enhance.Aggregate.{
  key_of_result, aggregate, add_ranked, add_result, normalize_url_key, consensus_boost,
}
use websearch_mcpserver_dash.Enhance.Floor.{apply_score_floor}
use websearch_mcpserver_dash.Enhance.Mmr.{
  MmrItem, mmr_value, max_sim, jaccard_sets, best, mmr_rounds, remove_at, apply_mmr,
}
use websearch_mcpserver_dash.Enhance.Pipeline.{MmrConfig, Signals, all_scored, enhance_results_mmr}
use websearch_mcpserver_dash.Enhance.FloorBounds.{apply_score_floor_bounds}
use websearch_mcpserver_dash.Enhance.OneUrl.{enhance_results_mmr_total}

-- Thousandths from -1000 on: a value v stands for v / 1000 - 1, and 0 for -∞.
abbrev pub thousandths : Numbers ℕ
thousandths = record {
  float = record { nil = 1000; lt = ltb; le = leb };
  add = λ a b. a + b - 1000;
  sub = λ a b. suc (a + 999 - b);
  mul = λ a b. 1000 + (a - 1000) * (b - 1000) / 1000;
  div = λ a b. 1000 + (a - 1000) * 1000 / (b - 1000);
  dec = λ n k. 1000 + elim k [ zero ↦ n * 1000 | suc zero ↦ n * 100 | suc (suc i) ↦ n * 10 ];
  of_int = λ n. 1000 + n * 1000;
  neg_inf = 0;
}

-- A number that is not -∞.
abbrev finite : ℕ → Bool
finite v = ltb 0 v

above :
    (lambda : ℕ) (xs : List (MmrItem ℕ)) (x : MmrItem ℕ)
    → finite lambda ≡ true
    → finite x.result.score ≡ true
    → ltb 0 (mmr_value thousandths lambda xs x) ≡ true
unfolding mmr_value
above lambda xs x ok fine_x = ground arith

abbrev pub result : String → String → ℕ → SearchResult ℕ
result title url score = record {
  title = title;
  url = url;
  content = "";
  publish_date = "";
  score = score;
  engine = "";
  engines = [];
  kind = "";
  authors = "";
  doi = "";
  journal = "";
  cited_by = 0;
  pdf_url = "";
}

abbrev pub fox : SearchResult ℕ
fox = result "fox" "a" 1900

abbrev fox_again : SearchResult ℕ
fox_again = result "fox" "b" 1800

abbrev owl : SearchResult ℕ
owl = result "owl" "c" 1700

abbrev weak : SearchResult ℕ
weak = result "weak" "d" 1010

abbrev title_of : SearchResult ℕ → String
title_of r = r.title

abbrev one_token : String → List String
one_token s = s ∷ []

floor_drops : apply_score_floor thousandths (fox ∷ weak ∷ owl ∷ []) 1100 ≡ fox ∷ owl ∷ []
unfolding apply_score_floor
floor_drops = refl

floor_adds : apply_score_floor thousandths (weak ∷ weak ∷ []) 1100 ≡ weak ∷ weak ∷ []
unfolding apply_score_floor
floor_adds = refl

-- The owl comes before the second result about the fox.
spreads :
    apply_mmr thousandths title_of one_token (fox ∷ fox_again ∷ owl ∷ []) 1500 0
    ≡ some (fox ∷ owl ∷ fox_again ∷ [])
unfolding apply_mmr mmr_rounds best mmr_value max_sim jaccard_sets remove_at
spreads = refl

apply_score_floor_bounds_example :
    (2 ≤ length (apply_score_floor thousandths (fox ∷ weak ∷ owl ∷ []) 1100))
    × (get_elem? (apply_score_floor thousandths (fox ∷ weak ∷ owl ∷ []) 1100) 0 ≡ some fox)
    × (tally
          (λ r. str_eq r.title "owl")
          (apply_score_floor thousandths (fox ∷ weak ∷ owl ∷ []) 1100)
        ≤ tally (λ r. str_eq r.title "owl") (fox ∷ weak ∷ owl ∷ []))
    × (tally
          (λ r. str_eq r.title "owl" && at_least thousandths.float 1100 r)
          (fox ∷ weak ∷ owl ∷ [])
        ≤ tally
            (λ r. str_eq r.title "owl")
            (apply_score_floor thousandths (fox ∷ weak ∷ owl ∷ []) 1100))
apply_score_floor_bounds_example =
    apply_score_floor_bounds thousandths (fox ∷ weak ∷ owl ∷ []) 1100 (λ r. str_eq r.title "owl")

abbrev pub plain : Text
plain = record {
  trim_space = λ s. s;
  to_lower = λ s. s;
  has_suffix = λ s suffix. false;
  trim_prefix = λ s prefix. s;
  concat = λ s t. s;
  parsed_host = λ u. none;
}

abbrev pub no_urls : UrlText
no_urls = record { parse_url = λ s. none; trim_right = λ s cut. s; byte_length = λ s. 0 }

abbrev flat : Signals ℕ
flat = record {
  lexical_alignment = λ r. 2000;
  domain_quality = λ r. 2000;
  rare_terms_factor = λ r. 2000;
  authority_boost = λ r rare. 1000;
  recency_factor = λ r. 2000;
  text_of = title_of;
  token_set = one_token;
}

abbrev pub two_engines : List (ScoreBucket ℕ)
two_engines =
    record { name = "bing"; weight = 2000; results = fox ∷ owl ∷ [] }
    ∷ record { name = "exa"; weight = 2000; results = fox ∷ [] }
    ∷ []

abbrev reranking : MmrConfig ℕ
reranking = record { enabled = true; lambda = 1700; target_count = 0 }

two_urls : length (aggregate thousandths plain no_urls two_engines []) ≡ 2
unfolding aggregate add_ranked add_result normalize_url_key
two_urls = refl

two_finite :
    tally
      (λ r. not (finite r.score))
      (all_scored thousandths flat plain no_urls (λ rs. rs) two_engines)
    ≡ 0
unfolding aggregate add_ranked add_result normalize_url_key tally consensus_boost
two_finite = refl

enhance_results_mmr_total_example :
    (out : List (SearchResult ℕ)) × (enhance_results_mmr thousandths flat plain no_urls
        (λ rs. rs)
        two_engines
        1000
        1
        reranking
      ≡ some out)
    × ((l : String) → tally (λ r. str_eq l (key_of_result thousandths plain no_urls r)) out ≤ 1)
    × ((ltb 0 1 && ltb 1 (length out)) ≡ false)
    × (min 1 (length (aggregate thousandths plain no_urls two_engines [])) ≤ length out)
enhance_results_mmr_total_example =
    enhance_results_mmr_total thousandths finite above flat plain no_urls (λ rs. rs)
      (λ test rs. refl) two_engines 1000 1 reranking refl two_finite
