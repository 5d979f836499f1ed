-- ===== src/Hybrid/Failed.antt =====
-- When mergeResults reports the errors of the engines (pkg/search/hybrid/hybrid.go).
use websearch_mcpserver_dash.Prelude.{
  ℕ, String, Bool, true, false, ◌≡◌, ◌≢◌, ◌↔◌, refl, sym, ◌∙◌, List, [], ◌∷◌, if◌then◌else◌,
}
use websearch_mcpserver_dash.Core.{Float, SearchResult, ScoreBucket}
use websearch_mcpserver_dash.Hybrid.State.{
  HybridSearch, Sent, IndexedResult, EngineResults, or_no_results, engines_failed, got, failed,
  merge_successes, merge_results, errors_of, successes_of,
}

module _ {F : Type 0} where
  abbrev Failed : Sent F → Type 0
  Failed (got rs) = ⊥
  Failed (failed e) = Unit {0}

  abbrev pub AllFailed : List (IndexedResult F) → Type 0
  AllFailed [] = Unit {0}
  AllFailed (r ∷ rs) = Failed r.sent × AllFailed rs

  successes_of-cons :
      (i : ℕ) (s : Sent F) (rs : List (IndexedResult F))
      → (successes_of rs ≡ []) ↔ AllFailed rs
      → (successes_of (record { index = i; sent = s } ∷ rs) ≡ []) ↔ (Failed s × AllFailed rs)
  unfolding successes_of
  successes_of-cons i (got xs) rs h = (λ eq. cc eq, λ f. absurd f.0)
  successes_of-cons i (failed e) rs h = (λ eq. (tt, h.0 eq), λ f. h.1 f.1)

  pub successes_of-none :
      (arrived : List (IndexedResult F)) → (successes_of arrived ≡ []) ↔ AllFailed arrived
  unfolding successes_of
  successes_of-none [] = (λ _. tt, λ _. refl)
  successes_of-none (r ∷ rs) = successes_of-cons r.index r.sent rs (successes_of-none rs)

module _ {F : Type 0} (fl : Float F) (trim : String → String)
    (sort_by_index : List (EngineResults F) → List (EngineResults F))
    (sort_by_score : List (SearchResult F) → List (SearchResult F))
    (enhance : String → List (ScoreBucket F) → List (SearchResult F)) where
  or_no_results-ne-engines_failed :
      (rs : List (SearchResult F)) (errors : List (String × String))
      → or_no_results fl trim sort_by_index sort_by_score enhance rs ≢ engines_failed errors
  or_no_results-ne-engines_failed [] errors eq = cc eq
  or_no_results-ne-engines_failed (r ∷ rs) errors eq = cc eq

  either-ne-engines_failed :
      (b : Bool) (xs ys : List (SearchResult F)) (errors : List (String × String))
      → (if b
          then or_no_results fl trim sort_by_index sort_by_score enhance xs
          else or_no_results fl trim sort_by_index sort_by_score enhance ys)
        ≢ engines_failed errors
  either-ne-engines_failed true xs ys = or_no_results-ne-engines_failed xs
  either-ne-engines_failed false xs ys = or_no_results-ne-engines_failed ys

  merge_successes-ne-engines_failed :
      (h : HybridSearch F) (query : String) (es : List (EngineResults F))
      (errors : List (String × String))
      → merge_successes fl trim sort_by_index sort_by_score enhance h query es
        ≢ engines_failed errors
  unfolding merge_successes
  merge_successes-ne-engines_failed h query es errors =
      either-ne-engines_failed h.enhance _ _ errors

  pub merge_results-some :
      (h : HybridSearch F) (query : String) (arrived : List (IndexedResult F)) (e : EngineResults F)
      (es : List (EngineResults F))
      → successes_of arrived ≡ e ∷ es
      → merge_results fl trim sort_by_index sort_by_score enhance h query arrived
        ≡ merge_successes fl trim sort_by_index sort_by_score enhance h query
            (sort_by_index (e ∷ es))
  unfolding merge_results
  merge_results-some h query arrived e es eq = rw (eq, merge_results) refl

  engines_failed_lem :
      (h : HybridSearch F) (query : String) (arrived : List (IndexedResult F))
      (es : List (EngineResults F))
      → successes_of arrived ≡ es
      → (merge_results fl trim sort_by_index sort_by_score enhance h query arrived
          ≡ engines_failed (errors_of h.engine_names arrived))
        ↔ AllFailed arrived
  unfolding merge_results
  engines_failed_lem h query arrived [] eq =
      ((λ _. (successes_of-none arrived).0 eq), (λ _. rw (eq, merge_results) refl))
  engines_failed_lem h query arrived (e ∷ es) eq = (
    (λ m. absurd (
        merge_successes-ne-engines_failed h query (sort_by_index (e ∷ es))
          (errors_of h.engine_names arrived)
          (sym (merge_results-some h query arrived e es eq) ∙ m))),
    (λ f. absurd (cc (eq, (successes_of-none arrived).1 f))),
  )

  -- mergeResults fails with the engines' errors, each under its engine's name, exactly when every
  -- engine failed.
  pub merge_results-engines_failed :
      (h : HybridSearch F) (query : String) (arrived : List (IndexedResult F))
      → (merge_results fl trim sort_by_index sort_by_score enhance h query arrived
          ≡ engines_failed (errors_of h.engine_names arrived))
        ↔ AllFailed arrived
  merge_results-engines_failed h query arrived =
      engines_failed_lem h query arrived (successes_of arrived) refl
