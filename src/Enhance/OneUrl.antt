-- ===== src/Enhance/OneUrl.antt =====
-- What EnhanceResultsMMR returns (pkg/search/enhance/enhance.go).
use websearch_mcpserver_dash.Prelude.{
  ℕ, ◌+◌, ◌≤◌, String, Bool, true, false, not, ◌&&◌, ◌≡◌, refl, ap, Option, none, some, List, [],
  ◌∷◌, arith, ltb, ◌==◌, if◌then◌else◌, length, length-map, min, str_eq, eq_iff, find, tally,
  tally-true, tally-take-le, length-take, find-none, Keeps,
}
use websearch_mcpserver_dash.Core.{SearchResult, ScoreBucket, Numbers}
use websearch_mcpserver_dash.Go.{Text, UrlText}
use websearch_mcpserver_dash.Enhance.Aggregate.{
  UrlAgg, key_of_result, add_result, add_ranked, weight_or_one, aggregate,
}
use websearch_mcpserver_dash.Enhance.Floor.{apply_score_floor}
use websearch_mcpserver_dash.Enhance.Mmr.{MmrItem, mmr_value, clamped, apply_mmr}
use websearch_mcpserver_dash.Enhance.Pipeline.{
  MmrConfig, Signals, scored_result, scored, reranked, cut_to, all_scored, enhance_results_mmr,
}
use websearch_mcpserver_dash.Enhance.FloorBounds.{apply_score_floor_bounds}
use websearch_mcpserver_dash.Enhance.Choice.{apply_mmr_total}

module _ {F : Type 0} (num : Numbers F) (text : Text) (urls : UrlText) where
  abbrev key : SearchResult F → String
  key = key_of_result num text urls

  abbrev named : String → String × UrlAgg F → Bool
  named l g = str_eq l g.0

  -- Each aggregate stands under the key of its result.
  abbrev Matched : List (String × UrlAgg F) → Type 0
  Matched [] = Unit {0}
  Matched (g ∷ gs) = (key g.1.res ≡ g.0) × Matched gs

  record Gathered (gs : List (String × UrlAgg F)) : Type 0 where
    matched : Matched gs
    once : (l : String) → tally (named l) gs ≤ 1

  add_result-Matched :
      (w : F) (name : String) (rank : ℕ) (r : SearchResult F) (gs : List (String × UrlAgg F))
      → Matched gs
      → Matched (add_result num text urls w name rank (key r) r gs)
  unfolding add_result
  add_result-Matched w name rank r [] m = (refl, tt)
  add_result-Matched w name rank r ((k, a) ∷ gs) m =
      ground (arith, m.0, m.1, add_result-Matched w name rank r gs)

  tally-add_result :
      (w : F) (name : String) (rank : ℕ) (k : String) (r : SearchResult F) (l : String)
      (gs : List (String × UrlAgg F))
      → tally (named l) (add_result num text urls w name rank k r gs)
        ≡ tally (named l) gs
          + elim (find (named k) gs) [ none ↦ (if str_eq l k then 1 else 0) | some g ↦ 0 ]
  unfolding add_result tally
  tally-add_result w name rank k r l [] = omega arith
  tally-add_result w name rank k r l ((j, a) ∷ gs) =
      ground (arith, tally-add_result w name rank k r l gs)

  add_result-Gathered :
      (w : F) (name : String) (rank : ℕ) (r : SearchResult F) (gs : List (String × UrlAgg F))
      → Gathered gs
      → Gathered (add_result num text urls w name rank (key r) r gs)
  add_result-Gathered w name rank r gs g = record {
    matched = add_result-Matched w name rank r gs g.matched;
    once = λ l. ground (
      arith,
      tally-add_result w name rank (key r) r l gs,
      find-none (named (key r)) gs,
      eq_iff l (key r),
      g.once l,
    );
  }

  add_ranked-Gathered :
      (w : F) (name : String) (rank : ℕ) (rs : List (SearchResult F))
      (gs : List (String × UrlAgg F))
      → Gathered gs
      → Gathered (add_ranked num text urls w name rank rs gs)
  unfolding add_ranked
  add_ranked-Gathered w name rank [] gs g = g
  add_ranked-Gathered w name rank (r ∷ rs) gs g =
      add_ranked-Gathered w name (rank + 1) rs _ (pick (str_eq (key r) ""))
    where
      pick :
          (b : Bool)
          → Gathered (if b then gs else add_result num text urls w name rank (key r) r gs)
      pick true = g
      pick false = add_result-Gathered w name rank r gs g

  aggregate-Gathered :
      (bs : List (ScoreBucket F)) (gs : List (String × UrlAgg F))
      → Gathered gs
      → Gathered (aggregate num text urls bs gs)
  unfolding aggregate
  aggregate-Gathered [] gs g = g
  aggregate-Gathered (b ∷ bs) gs g =
      aggregate-Gathered bs _
        (add_ranked-Gathered (weight_or_one num b.weight) b.name 0 b.results gs g)

  tally-scored :
      (sig : Signals F) (l : String) (gs : List (String × UrlAgg F))
      → Matched gs
      → tally (λ r. str_eq l (key r)) (scored num sig gs) ≡ tally (named l) gs
  unfolding tally
  tally-scored sig l [] m = refl
  tally-scored sig l (g ∷ gs) m =
      let point : String → ℕ = λ k. if str_eq l k then 1 else 0 in
      let here : point (key g.1.res) ≡ point g.0 = ap point m.0 in
      omega (arith, here, tally-scored sig l gs m.1)

-- `fine` is meant to hold of the float64 up to 10^100 in magnitude: of these, and of a similarity
-- between 0 and 1, the value is neither a NaN nor -∞.
module _ {F : Type 0} (num : Numbers F) (fine : F → Bool)
    (above : (lambda : F) (xs : List (MmrItem F)) (x : MmrItem F)
      → fine lambda ≡ true
      → fine x.result.score ≡ true
      → num.float.lt num.neg_inf (mmr_value num lambda xs x) ≡ true)
    (sig : Signals F) where
  -- A choice among results: none more often, and some if there are any.
  abbrev Selects : List (SearchResult F) → Option (List (SearchResult F)) → Type 0
  Selects rs answer =
      (out : List (SearchResult F)) × (answer ≡ some out)
      × (min 1 (length rs) ≤ length out)
      × ((test : SearchResult F → Bool) → tally test out ≤ tally test rs)

  reranked-Selects :
      (mmr : MmrConfig F) (rs : List (SearchResult F))
      → fine (clamped num mmr.lambda) ≡ true
      → tally (λ r. not (fine r.score)) rs ≡ 0
      → Selects rs (reranked num sig mmr rs)
  reranked-Selects mmr rs ok fines = pick mmr.enabled
    where
      wanted : ℕ
      wanted = if mmr.target_count == 0 then length rs else mmr.target_count

      pick :
          (b : Bool)
          → Selects rs
              (if b then apply_mmr num sig.text_of sig.token_set rs mmr.lambda wanted else some rs)
      pick false = (rs, refl, omega arith, λ test. omega arith)
      pick true =
          let (out, eq, count, first, holds) =
            apply_mmr_total num fine above sig.text_of sig.token_set rs mmr.lambda wanted ok
              fines in
          (out, eq, ground (arith, count), holds)

  module _ (text : Text) (urls : UrlText)
      (sort_by_score : List (SearchResult F) → List (SearchResult F))
      (keeps : Keeps sort_by_score) where
    tally-all_scored :
        (buckets : List (ScoreBucket F)) (l : String)
        → tally
            (λ r. str_eq l (key_of_result num text urls r))
            (all_scored num sig text urls sort_by_score buckets)
          ≤ 1
    unfolding tally
    tally-all_scored buckets l =
        let start : Gathered num text urls [] = record { matched = tt; once = λ j. omega arith } in
        let g = aggregate-Gathered num text urls buckets [] start in
        let gs = aggregate num text urls buckets [] in
        omega (
          arith,
          keeps (λ r. str_eq l (key_of_result num text urls r)) (scored num sig gs),
          tally-scored num text urls sig l gs g.matched,
          g.once l,
        )

    length-all_scored :
        (buckets : List (ScoreBucket F))
        → length (all_scored num sig text urls sort_by_score buckets)
          ≡ length (aggregate num text urls buckets [])
    length-all_scored buckets =
        let gs = aggregate num text urls buckets [] in
        let rs = scored num sig gs in
        omega (
          arith,
          keeps (λ _. true) rs,
          tally-true rs,
          tally-true (sort_by_score rs),
          length-map (λ (g : String × UrlAgg F). scored_result num sig g.1) gs,
        )

    -- Over a sort that keeps every result, and where the weight of the reranking and every score that was
    -- computed are fine numbers, of which no value of ApplyMMR is a NaN or -∞, EnhanceResultsMMR does not
    -- panic. No two of the results that it returns have one URL, up to scheme, `www.` and trailing
    -- slashes; `maxSize` bounds their number, if it is positive; and there are some if any URL was gathered
    -- from the buckets.
    pub enhance_results_mmr_total :
        (buckets : List (ScoreBucket F)) (threshold : F) (max : ℕ) (mmr : MmrConfig F)
        → fine (clamped num mmr.lambda) ≡ true
        → tally (λ r. not (fine r.score)) (all_scored num sig text urls sort_by_score buckets) ≡ 0
        → (out : List (SearchResult F)) × (enhance_results_mmr num sig text urls sort_by_score
              buckets threshold max mmr
            ≡ some out)
          × ((l : String) → tally (λ r. str_eq l (key_of_result num text urls r)) out ≤ 1)
          × ((ltb 0 max && ltb max (length out)) ≡ false)
          × (min 1 (length (aggregate num text urls buckets [])) ≤ length out)
    unfolding enhance_results_mmr
    enhance_results_mmr_total buckets threshold max mmr ok fines =
        let all = all_scored num sig text urls sort_by_score buckets in
        let kept = apply_score_floor num all threshold in
        let odd : SearchResult F → Bool = λ r. not (fine r.score) in
        let left = apply_score_floor_bounds num all threshold odd in
        let (out, eq, some_left, holds) =
          reranked-Selects mmr kept ok (ground (arith, left.2, fines)) in
        (
          cut_to num sig max out,
          rw eq,
          λ l.
              let test : SearchResult F → Bool = λ r. str_eq l (key_of_result num text urls r) in
              let floor = apply_score_floor_bounds num all threshold test in
              ground (
                arith,
                tally-take-le test max out,
                holds test,
                floor.2,
                tally-all_scored buckets l,
              ),
          ground (arith, length-take max out),
          (let floor = apply_score_floor_bounds num all threshold (λ _. true) in
              ground (arith, length-take max out, some_left, floor.0, length-all_scored buckets)),
        )
