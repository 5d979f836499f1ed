-- ===== src/Antirobot/FirstAnswer.antt =====
-- Whose results an adapter over page engines returns (pkg/search/adapter/engine_adapter.go).
use websearch_mcpserver_dash.Prelude.{
  ℕ, suc, String, Bool, true, false, ◌≡◌, refl, ap, ◌∙◌, Option, none, some, List, [], ◌∷◌, ◌++◌,
  map, arith, ltb, ◌==◌, if◌then◌else◌, length, find, find-some, dedup_by,
}
use websearch_mcpserver_dash.Go.{Text}
use websearch_mcpserver_dash.Antirobot.Results.{Result, deduplicate_results}
use websearch_mcpserver_dash.Antirobot.Searcher.{
  SearchResponse, PageEngine, Searcher, strategy_serial, RawResults, raw_results, no_search_results,
  new_searcher, has_results, exec_one, search_serial, search_engines, gathered, converted, answered,
  engine_search_raw,
}

append-nil : {A : Type 0} (xs : List A) → xs ++ [] ≡ xs
append-nil [] = refl
append-nil (x ∷ xs) = ap (λ ys. x ∷ ys) (append-nil xs)

module _ {F : Type 0} where
  -- The responses of the engines that are called while no engine ends the search.
  unfoldable pub reached :
      (ℕ → Bool) → Searcher F → String → ℕ → List (PageEngine F) → List (SearchResponse F)
  reached done s query i [] = []
  reached done s query i (e ∷ es) =
      if done i then [] else exec_one s query 1 e ∷ reached done s query (suc i) es

  abbrev pub results_of : Option (SearchResponse F) → List (Result F)
  results_of none = []
  results_of (some r) = r.results

  gathered-skips :
      (r : SearchResponse F) (rs : List (Result F)) (rest : List (SearchResponse F))
      → r.results ≡ rs
      → has_results r ≡ false
      → gathered (r ∷ rest) ≡ gathered rest
  unfolding gathered
  gathered-skips r [] rest e h = ground (arith, e)
  gathered-skips r (x ∷ xs) rest e h = ground (arith, e, h)

  gathered-takes : (r : SearchResponse F) → has_results r ≡ true → gathered (r ∷ []) ≡ r.results
  unfolding gathered
  gathered-takes r h = ground (arith, h, append-nil r.results)

  gathered-step :
      (stop : Bool) (r : SearchResponse F) (rest reach : List (SearchResponse F)) (b : Bool)
      → has_results r ≡ b
      → gathered rest ≡ results_of (find has_results reach)
      → gathered (if stop then [] else if has_results r then r ∷ [] else r ∷ rest)
        ≡ results_of (find has_results (if stop then [] else r ∷ reach))
  unfolding gathered
  gathered-step true r rest reach b h same = refl
  gathered-step false r rest reach true h same = ground (arith, h, gathered-takes r h)
  gathered-step false r rest reach false h same =
      ground (arith, h, same, gathered-skips r r.results rest refl h)

  gathered-search_serial :
      (done : ℕ → Bool) (timeout_text query : String) (all es : List (PageEngine F)) (i : ℕ)
      → gathered (search_serial done (new_searcher timeout_text strategy_serial all) query 1 i es)
        ≡ results_of (
            find has_results
              (reached done (new_searcher timeout_text strategy_serial all) query i es))
  unfolding search_serial reached gathered
  gathered-search_serial done timeout_text query all [] i = refl
  gathered-search_serial done timeout_text query all (e ∷ es) i =
      let s = new_searcher timeout_text strategy_serial all in
      gathered-step (done i) (exec_one s query 1 e) (search_serial done s query 1 (suc i) es)
        (reached done s query (suc i) es) (has_results (exec_one s query 1 e)) refl
        (gathered-search_serial done timeout_text query all es (suc i))

  -- The answer that the first response with results gives.
  abbrev pub answer_of_first : Text → String → Option (SearchResponse F) → RawResults F
  answer_of_first text name none = no_search_results
  answer_of_first text name (some r) =
      raw_results (map (converted text name) (deduplicate_results text r.results))

  -- `answered`, from the results that the loop leaves.
  abbrev of_gathered : Text → String → List (Result F) → RawResults F
  of_gathered text name rs =
      let all = deduplicate_results text rs in
      if length all == 0 then no_search_results else raw_results (map (converted text name) all)

  of_gathered-some :
      (text : Text) (name : String) (rs : List (Result F))
      → ltb 0 (length rs) ≡ true
      → of_gathered text name rs
        ≡ raw_results (map (converted text name) (deduplicate_results text rs))
  unfolding deduplicate_results dedup_by
  of_gathered-some text name [] h = absurd (ground (arith, h))
  of_gathered-some text name (x ∷ xs) h = ground arith

  of_gathered-results_of :
      (text : Text) (name : String) (rs : List (SearchResponse F))
      (found : Option (SearchResponse F))
      → find has_results rs ≡ found
      → of_gathered text name (results_of found) ≡ answer_of_first text name found
  unfolding deduplicate_results dedup_by
  of_gathered-results_of text name rs none e = refl
  of_gathered-results_of text name rs (some r) e =
      of_gathered-some text name r.results (ground (arith, find-some has_results rs r e))

  -- An adapter over page engines returns the results of the first engine, in the order of the list, that
  -- answers in time without an error and with results, each key once, or finds nothing if none of those
  -- that are called before the context ends does.
  pub engine_search_raw-first :
      (text : Text) (done : ℕ → Bool) (timeout_text query name : String) (es : List (PageEngine F))
      → engine_search_raw text done timeout_text query name es
        ≡ answer_of_first text name (
            find has_results
              (reached done (new_searcher timeout_text strategy_serial es) query 0 es))
  unfolding engine_search_raw search_engines answered
  engine_search_raw-first text done timeout_text query name es =
      let responses = reached done (new_searcher timeout_text strategy_serial es) query 0 es in
      ap (of_gathered text name) (gathered-search_serial done timeout_text query es es 0)
      ∙ of_gathered-results_of text name responses (find has_results responses) refl
