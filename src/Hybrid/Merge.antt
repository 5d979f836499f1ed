-- ===== src/Hybrid/Merge.antt =====
-- mergeResults without the score enhancement (pkg/search/hybrid/hybrid.go): what it returns.
use text.Mathlib.TextEquality.{eq_iff}
use websearch_mcpserver_dash.Prelude.{
  Keeps, length-take, ℕ, ◌≤◌, ◌<◌, String, Bool, true, false, ◌&&◌, take, ◌≡◌, refl, ap, ◌∙◌, List,
  [], ◌∷◌, arith, ltb, if◌then◌else◌, length, str_eq, str_mem, min, dedup_by, Distinct,
  dedup_by-Distinct, keys_of, tally, tally-true, tally-take-le,
}
use websearch_mcpserver_dash.Core.{Float, SearchResult, ScoreBucket, has_score}
use websearch_mcpserver_dash.Hybrid.State.{
  HybridSearch, IndexedResult, EngineResults, Merged, url_key, all_parts, limit_all, or_no_results,
  engines_failed, merged, no_valid_results, merge_successes, merge_results, errors_of, successes_of,
}
use websearch_mcpserver_dash.Hybrid.Failed.{AllFailed, successes_of-none, merge_results-some}
use websearch_mcpserver_dash.Hybrid.Best.{IsDescending, misses, tally-never, misses-sorted}
use websearch_mcpserver_dash.Hybrid.RoundRobin.{round_robin_by_names}
use websearch_mcpserver_dash.Hybrid.Distribute.{
  length-round_robin_by_names, tally-round_robin_by_names,
}

module _ {A : Type 0} where
  tally-absent :
      (key : A → String) (k : String) (xs : List A)
      → str_mem k (keys_of key xs) ≡ false
      → tally (λ x. str_eq k (key x)) xs ≡ 0
  unfolding tally
  tally-absent key k [] h = refl
  tally-absent key k (x ∷ xs) h = ground (arith, tally-absent key k xs)

  tally-Distinct :
      (key : A → String) (k : String) (xs : List A)
      → Distinct key xs
      → tally (λ x. str_eq k (key x)) xs ≤ 1
  unfolding tally
  tally-Distinct key k [] h = omega arith
  tally-Distinct key k (x ∷ xs) h =
      ground (arith, eq_iff k (key x), tally-absent key k xs, h.0, tally-Distinct key k xs h.1)

abbrev pub limited : ℕ → ℕ → ℕ
limited max n = if ltb 0 max then min max n else n

module _ {F : Type 0} (fl : Float F) (trim : String → String)
    (sort_by_index : List (EngineResults F) → List (EngineResults F))
    (sort_by_score : List (SearchResult F) → List (SearchResult F))
    (enhance : String → List (ScoreBucket F) → List (SearchResult F)) where
  -- Every result of the engines that answered, each URL once.
  abbrev pub all_results : HybridSearch F → List (IndexedResult F) → List (SearchResult F)
  all_results h arrived =
      dedup_by (url_key fl trim) [] (all_parts fl trim h (sort_by_index (successes_of arrived)))

  length-limit_all :
      Keeps sort_by_score
      → (h : HybridSearch F) (rs : List (SearchResult F))
      → length (limit_all fl trim sort_by_index sort_by_score enhance h rs)
        ≡ limited h.max_size (length rs)
  unfolding limit_all
  length-limit_all keeps h rs = ground (
    arith,
    length-take h.max_size (sort_by_score rs),
    tally-true rs,
    tally-true (sort_by_score rs),
    keeps (λ _. true) rs,
    length-round_robin_by_names rs h.max_size h.engine_names,
  )

  tally-limit_all-le :
      Keeps sort_by_score
      → (h : HybridSearch F) (test : SearchResult F → Bool) (rs : List (SearchResult F))
      → tally test (limit_all fl trim sort_by_index sort_by_score enhance h rs) ≤ tally test rs
  unfolding limit_all
  tally-limit_all-le keeps h test rs = ground (
    arith,
    tally-take-le test h.max_size (sort_by_score rs),
    keeps test rs,
    tally-round_robin_by_names test rs h.max_size h.engine_names,
  )

  misses-limit_all :
      Keeps sort_by_score
      → ((rs : List (SearchResult F)) → IsDescending fl (sort_by_score rs))
      → (h : HybridSearch F) (rs : List (SearchResult F))
      → (has_score fl rs
          && ltb 0 (
              tally
                (misses fl rs (limit_all fl trim sort_by_index sort_by_score enhance h rs))
                (limit_all fl trim sort_by_index sort_by_score enhance h rs)))
        ≡ false
  unfolding limit_all
  misses-limit_all keeps sorts h rs =
      by_cut (ltb 0 h.max_size && ltb h.max_size (length rs)) (has_score fl rs)
        (round_robin_by_names rs h.max_size h.engine_names)
    where
      by_cut :
          (cut scored : Bool) (turns : List (SearchResult F))
          → (scored
              && ltb 0 (
                  tally
                    (misses fl rs (
                      if cut
                      then (if scored then take h.max_size (sort_by_score rs) else turns)
                      else rs))
                    (if cut
                      then (if scored then take h.max_size (sort_by_score rs) else turns)
                      else rs)))
            ≡ false
      by_cut cut false turns = refl
      by_cut true true turns = ground (
        arith,
        misses-sorted fl (sort_by_score rs) rs h.max_size (λ test. keeps test rs) (sorts rs),
      )
      by_cut false true turns = ground (arith, tally-never (misses fl rs rs) (λ x. ground arith) rs)

  -- What mergeResults may answer: results of the engines' parts, of which `maxSize` is the only limit,
  -- of which no two have one URL, and which no result beats that is left out, where there are scores;
  -- that every engine failed; or that the engines found nothing.
  abbrev pub Sound : HybridSearch F → List (IndexedResult F) → Merged F → Type 0
  Sound h arrived (merged rs) =
      (0 < length rs)
      × (length rs ≡ limited h.max_size (length (all_results h arrived)))
      × ((url : String) → tally (λ r. str_eq url (url_key fl trim r)) rs ≤ 1)
      × ((test : SearchResult F → Bool) → tally test rs ≤ tally test (all_results h arrived))
      × ((has_score fl (all_results h arrived)
            && ltb 0 (tally (misses fl (all_results h arrived) rs) rs))
          ≡ false)
  Sound h arrived (engines_failed errors) =
      AllFailed arrived × (errors ≡ errors_of h.engine_names arrived)
  Sound h arrived no_valid_results = length (all_results h arrived) ≡ 0

  or_no_results-Sound :
      (h : HybridSearch F) (arrived : List (IndexedResult F)) (rs : List (SearchResult F))
      → length rs ≡ limited h.max_size (length (all_results h arrived))
      → ((url : String) → tally (λ r. str_eq url (url_key fl trim r)) rs ≤ 1)
      → ((test : SearchResult F → Bool) → tally test rs ≤ tally test (all_results h arrived))
      → (has_score fl (all_results h arrived)
          && ltb 0 (tally (misses fl (all_results h arrived) rs) rs))
        ≡ false
      → Sound h arrived (or_no_results fl trim sort_by_index sort_by_score enhance rs)
  or_no_results-Sound h arrived [] n once given best = ground (arith, n)
  or_no_results-Sound h arrived (r ∷ rs) n once given best = (omega arith, n, once, given, best)

  limit_all-Sound :
      Keeps sort_by_score
      → ((rs : List (SearchResult F)) → IsDescending fl (sort_by_score rs))
      → (h : HybridSearch F) (arrived : List (IndexedResult F))
      → Sound h arrived (
          or_no_results fl trim sort_by_index sort_by_score enhance
            (limit_all fl trim sort_by_index sort_by_score enhance h (all_results h arrived)))
  limit_all-Sound keeps sorts h arrived =
      let all = all_results h arrived in
      let distinct =
        dedup_by-Distinct (url_key fl trim) []
          (all_parts fl trim h (sort_by_index (successes_of arrived))) in
      or_no_results-Sound h arrived _ (length-limit_all keeps h all)
        (λ url. omega (
          arith,
          tally-limit_all-le keeps h (λ r. str_eq url (url_key fl trim r)) all,
          tally-Distinct (url_key fl trim) url all distinct,
        ))
        (λ test. tally-limit_all-le keeps h test all) (misses-limit_all keeps sorts h all)

  if_false : {A : Type 0} (b : Bool) (x y : A) → b ≡ false → (if b then x else y) ≡ y
  if_false b x y off = ground (arith, off)

  merge_successes-plain :
      (h : HybridSearch F) (query : String) (es : List (EngineResults F))
      → h.enhance ≡ false
      → merge_successes fl trim sort_by_index sort_by_score enhance h query es
        ≡ or_no_results fl trim sort_by_index sort_by_score enhance (
            limit_all fl trim sort_by_index sort_by_score enhance h
              (dedup_by (url_key fl trim) [] (all_parts fl trim h es)))
  unfolding merge_successes
  merge_successes-plain h query es off = if_false h.enhance _ _ off

  Sound_lem :
      Keeps sort_by_score
      → ((rs : List (SearchResult F)) → IsDescending fl (sort_by_score rs))
      → (h : HybridSearch F) (query : String) (arrived : List (IndexedResult F)) → h.enhance ≡ false
      → (es : List (EngineResults F)) → successes_of arrived ≡ es
      → Sound h arrived (merge_results fl trim sort_by_index sort_by_score enhance h query arrived)
  unfolding merge_results
  Sound_lem keeps sorts h query arrived off [] eq =
      rw (eq, merge_results) ((successes_of-none arrived).0 eq, refl)
  Sound_lem keeps sorts h query arrived off (e ∷ es) eq =
      let at = ap sort_by_index eq in
      let plain = merge_successes-plain h query (sort_by_index (e ∷ es)) off in
      rw
        (
          merge_results-some fl trim sort_by_index sort_by_score enhance h query arrived e es eq
              ∙ plain,
          ← at,
        )
        (limit_all-Sound keeps sorts h arrived)

  -- Without the enhancement, and over a sort by score that keeps every result and puts none behind one
  -- that it beats, mergeResults answers in one of three ways. It reports the errors of the engines, and
  -- then each of them failed. It reports that there are no valid results, and then the engines' filtered
  -- parts are empty. Or it returns results of these parts: at least one, as many as there are different
  -- URLs in them or, where that is more, as `maxSize` allows, no URL twice, and, if the parts have scores,
  -- every one that has a higher score than one that is returned.
  pub merge_results-Sound :
      Keeps sort_by_score
      → ((rs : List (SearchResult F)) → IsDescending fl (sort_by_score rs))
      → (h : HybridSearch F) (query : String) (arrived : List (IndexedResult F)) → h.enhance ≡ false
      → Sound h arrived (merge_results fl trim sort_by_index sort_by_score enhance h query arrived)
  merge_results-Sound keeps sorts h query arrived off =
      Sound_lem keeps sorts h query arrived off (successes_of arrived) refl
