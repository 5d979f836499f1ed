-- ===== src/Hybrid/Tests.antt =====
-- The round robin and the merge on concrete inputs (pkg/search/hybrid/hybrid.go).
use websearch_mcpserver_dash.Prelude.{
  Keeps, tally, ℕ, ◌+◌, String, Bool, true, false, ◌≡◌, refl, List, [], ◌∷◌, arith, ltb, leb,
  if◌then◌else◌, str_eq, dedup_by,
}
use websearch_mcpserver_dash.Core.{Float, SearchResult, ScoreBucket, has_score}
use websearch_mcpserver_dash.Hybrid.RoundRobin.{
  pass, round_robin, push, push_all, distribute_results,
}
use websearch_mcpserver_dash.Hybrid.State.{
  HybridSearch, IndexedResult, EngineResults, got, failed, merged, merge_results, merge_successes,
  limit_all, all_parts, engine_part, successes_of, filter_of,
}
use websearch_mcpserver_dash.Hybrid.Best.{beats, IsDescending}
use websearch_mcpserver_dash.Hybrid.Merge.{Sound, merge_results-Sound}

-- Scores are whole numbers here.
abbrev whole : Float ℕ
whole = record { nil = 0; lt = ltb; le = leb }

abbrev plain : String → String
plain s = s

abbrev result : String → ℕ → String → SearchResult ℕ
result u s e = record {
  title = "";
  url = u;
  content = "";
  publish_date = "";
  score = s;
  engine = e;
  engines = [];
  kind = "";
  authors = "";
  doi = "";
  journal = "";
  cited_by = 0;
  pdf_url = "";
}

abbrev bing_1 : SearchResult ℕ
bing_1 = result "b1" 0 "bing"

abbrev bing_2 : SearchResult ℕ
bing_2 = result "b2" 0 "bing"

abbrev exa_1 : SearchResult ℕ
exa_1 = result "e1" 0 "exa"

abbrev three : List (SearchResult ℕ)
three = bing_1 ∷ bing_2 ∷ exa_1 ∷ []

abbrev from_exa : SearchResult ℕ → Bool
from_exa r = str_eq r.engine "exa"

in_turns : distribute_results three 2 ≡ bing_1 ∷ exa_1 ∷ []
unfolding distribute_results round_robin pass push_all push
in_turns = refl

-- The results by falling score, each put into its place.
unfoldable insert : SearchResult ℕ → List (SearchResult ℕ) → List (SearchResult ℕ)
insert r [] = r ∷ []
insert r (s ∷ ss) = if ltb s.score r.score then r ∷ s ∷ ss else s ∷ insert r ss

unfoldable by_score : List (SearchResult ℕ) → List (SearchResult ℕ)
by_score [] = []
by_score (r ∷ rs) = insert r (by_score rs)

tally-insert :
    (test : SearchResult ℕ → Bool) (r : SearchResult ℕ) (rs : List (SearchResult ℕ))
    → tally test (insert r rs) ≡ (if test r then 1 else 0) + tally test rs
unfolding tally insert
tally-insert test r [] = refl
tally-insert test r (s ∷ ss) = ground (arith, tally-insert test r ss)

by_score-Keeps : Keeps by_score
unfolding tally by_score
by_score-Keeps test [] = refl
by_score-Keeps test (r ∷ rs) =
    omega (arith, by_score-Keeps test rs, tally-insert test r (by_score rs))

none_above :
    (r s : SearchResult ℕ) (rs : List (SearchResult ℕ))
    → ltb s.score r.score ≡ true
    → tally (beats whole s) rs ≡ 0
    → tally (beats whole r) rs ≡ 0
unfolding tally
none_above r s [] less none = refl
none_above r s (t ∷ ts) less none = ground (arith, less, none, none_above r s ts)

insert-IsDescending :
    (r : SearchResult ℕ) (rs : List (SearchResult ℕ))
    → IsDescending whole rs
    → IsDescending whole (insert r rs)
unfolding insert tally
insert-IsDescending r [] d = (refl, tt)
insert-IsDescending r (s ∷ ss) d = ground (
  arith,
  d.0,
  d.1,
  none_above r s ss,
  tally-insert (beats whole s) r ss,
  insert-IsDescending r ss d.1,
)

by_score-IsDescending : (rs : List (SearchResult ℕ)) → IsDescending whole (by_score rs)
unfolding by_score
by_score-IsDescending [] = tt
by_score-IsDescending (r ∷ rs) = insert-IsDescending r (by_score rs) (by_score-IsDescending rs)

abbrev as_sent : List (EngineResults ℕ) → List (EngineResults ℕ)
as_sent es = es

abbrev no_enhance : String → List (ScoreBucket ℕ) → List (SearchResult ℕ)
no_enhance query bs = []

abbrev both : HybridSearch ℕ
both = record { engine_names = "bing" ∷ "exa" ∷ []; engine_map = []; max_size = 2; enhance = false }

abbrev bing_failed : IndexedResult ℕ
bing_failed = record { index = 0; sent = failed "timeout" }

abbrev bing_answered : IndexedResult ℕ
bing_answered = record { index = 0; sent = got (result "u" 1 "bing" ∷ result "v" 5 "bing" ∷ []) }

abbrev exa_answered : IndexedResult ℕ
exa_answered = record { index = 1; sent = got (result "u" 9 "exa" ∷ result "w" 3 "exa" ∷ []) }

best_two :
    merge_results whole plain as_sent by_score no_enhance both "q"
      (bing_answered ∷ exa_answered ∷ [])
    ≡ merged (result "v" 5 "bing" ∷ result "w" 3 "exa" ∷ [])
unfolding merge_results merge_successes limit_all all_parts engine_part successes_of filter_of
    dedup_by by_score insert has_score
best_two = refl

merge_results-Sound_example :
    Sound whole plain as_sent by_score no_enhance both (bing_answered ∷ exa_answered ∷ []) (
      merge_results whole plain as_sent by_score no_enhance both "q"
        (bing_answered ∷ exa_answered ∷ []))
merge_results-Sound_example =
    merge_results-Sound whole plain as_sent by_score no_enhance by_score-Keeps by_score-IsDescending
      both "q" (bing_answered ∷ exa_answered ∷ []) refl
