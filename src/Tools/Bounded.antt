-- ===== src/Tools/Bounded.antt =====
-- The bounds of a single engine's results (`postSearchFilter` in mcp/tool_search.go).
use websearch_mcpserver_dash.Prelude.{
  ℕ, ◌≤◌, String, Bool, true, false, not, ◌&&◌, ◌≡◌, refl, List, [], ◌∷◌, arith, ltb, length,
  length-take-le, keep, tally, tally-true, Keeps, tally-keep-le, tally-take-le,
}
use websearch_mcpserver_dash.Core.{Float, SearchResult, has_score, at_least, filter_by_score}
use websearch_mcpserver_dash.Tools.Types.{ToolConfig}
use websearch_mcpserver_dash.Tools.Filter.{
  configured_filter, engine_max, cut_own, cut_global, post_search_filter,
}

module _ {A : Type 0} where
  tally-keep-not : (p : A → Bool) (xs : List A) → tally (λ x. not (p x)) (keep p xs) ≡ 0
  unfolding tally
  tally-keep-not p [] = refl
  tally-keep-not p (x ∷ xs) = ground (arith, tally-keep-not p xs)

module _ {F : Type 0} (fl : Float F) where
  -- The result is too weak for an engine whose results have scores.
  abbrev pub too_weak : F → List (SearchResult F) → List (SearchResult F) → Bool
  too_weak min rs out =
      not (fl.le min fl.nil) && has_score fl rs && ltb 0 (tally (λ r. not (at_least fl min r)) out)

  abbrev pub exceeds : ℕ → List (SearchResult F) → Bool
  exceeds n out = ltb 0 n && ltb n (length out)

  too_weak-nil : (min : F) → too_weak min [] [] ≡ false
  unfolding tally
  too_weak-nil min = ground arith

  tally-filter_by_score :
      (p : SearchResult F → Bool) (rs : List (SearchResult F)) (min : F)
      → tally p (filter_by_score fl rs min) ≤ tally p rs
  unfolding filter_by_score
  tally-filter_by_score p rs min = ground (arith, tally-keep-le p (at_least fl min) rs)

  filter_by_score-strong :
      (rs : List (SearchResult F)) (min : F) → too_weak min rs (filter_by_score fl rs min) ≡ false
  unfolding filter_by_score
  filter_by_score-strong rs min = ground (arith, tally-keep-not (at_least fl min) rs)

  module _ (p : SearchResult F → Bool) where
    tally-cut_own : (n : ℕ) (rs : List (SearchResult F)) → tally p (cut_own fl n rs) ≤ tally p rs
    tally-cut_own n rs = ground (arith, tally-take-le p n rs)

    tally-cut_global :
        (sort : List (SearchResult F) → List (SearchResult F)) (keeps : Keeps sort) (n : ℕ)
        (rs : List (SearchResult F))
        → tally p (cut_global fl sort n rs) ≤ tally p rs
    tally-cut_global sort keeps n rs = ground (arith, tally-take-le p n (sort rs), keeps p rs)

  exceeds-cut_own :
      (own global : ℕ) (kept : List (SearchResult F))
      → exceeds own (cut_own fl (engine_max fl own global kept) kept) ≡ false
  exceeds-cut_own own global kept =
      ground (arith, length-take-le own kept, length-take-le global kept)

  module _ (sort : List (SearchResult F) → List (SearchResult F)) (keeps : Keeps sort) where
    exceeds-cut_global :
        (n : ℕ) (rs : List (SearchResult F)) → exceeds n (cut_global fl sort n rs) ≡ false
    exceeds-cut_global n rs = ground (arith, length-take-le n (sort rs))

    exceeds-cut :
        (own n : ℕ) (rs : List (SearchResult F))
        → exceeds own rs ≡ false
        → exceeds own (cut_global fl sort n rs) ≡ false
    exceeds-cut own n rs h =
        let out = cut_global fl sort n rs in
        ground
          (arith, tally-cut_global (λ _. true) sort keeps n rs, tally-true rs, tally-true out, h)

    -- The filter of a single engine adds no result, nor repeats one. What it leaves is no longer than the
    -- positive bound of the engine, nor than the positive global one; and where the engine has a positive
    -- least score and any result has a score, none is below the least score. The sort is assumed to
    -- keep every result as often as it is there.
    pub post_search_filter-Bounded :
        (conf : ToolConfig F) (rs : List (SearchResult F)) (name : String)
        (p : SearchResult F → Bool)
        → (tally p (post_search_filter fl sort conf rs name) ≤ tally p rs)
          × (exceeds conf.max_size (post_search_filter fl sort conf rs name) ≡ false)
          × (exceeds
                (configured_filter fl conf.engines name).max_size
                (post_search_filter fl sort conf rs name)
              ≡ false)
          × (too_weak
                (configured_filter fl conf.engines name).min_score
                rs
                (post_search_filter fl sort conf rs name)
              ≡ false)
    unfolding post_search_filter
    post_search_filter-Bounded conf [] name p = (
      omega arith,
      ground arith,
      ground arith,
      too_weak-nil (configured_filter fl conf.engines name).min_score,
    )
    post_search_filter-Bounded conf (r ∷ rs) name p =
        let ec = configured_filter fl conf.engines name in
        let kept = filter_by_score fl (r ∷ rs) ec.min_score in
        let n = engine_max fl ec.max_size conf.max_size kept in
        let cut = cut_own fl n kept in
        let weak : SearchResult F → Bool = λ x. not (at_least fl ec.min_score x) in
        (
          omega (
            arith,
            tally-filter_by_score p (r ∷ rs) ec.min_score,
            tally-cut_own p n kept,
            tally-cut_global p sort keeps conf.max_size cut,
          ),
          exceeds-cut_global conf.max_size cut,
          exceeds-cut ec.max_size conf.max_size cut
              (exceeds-cut_own ec.max_size conf.max_size kept),
          ground (
            arith,
            filter_by_score-strong (r ∷ rs) ec.min_score,
            tally-cut_own weak n kept,
            tally-cut_global weak sort keeps conf.max_size cut,
          ),
        )
