-- ===== src/Enhance/FloorBounds.antt =====
-- What ApplyScoreFloor keeps (pkg/search/enhance/enhance.go).
use websearch_mcpserver_dash.Prelude.{
  suc, ◌≤◌, Bool, ◌&&◌, ◌≡◌, refl, List, [], ◌∷◌, arith, length, min, keep, get_elem?, tally,
  tally-keep-le, length-keep-le, some,
}
use websearch_mcpserver_dash.Core.{SearchResult, at_least, Numbers}
use websearch_mcpserver_dash.Enhance.Floor.{threshold_or, at_least_two, apply_score_floor}

module _ {F : Type 0} (num : Numbers F) where
  two_of :
      (r : SearchResult F) (rs ks : List (SearchResult F))
      → length ks ≤ length rs
      → (min 2 (suc (length rs)) ≤ length (at_least_two num r rs ks))
        × (length (at_least_two num r rs ks) ≤ suc (length rs))
        × (get_elem? (at_least_two num r rs ks) 0 ≡ some r)
  two_of r [] [] le = (omega arith, omega arith, refl)
  two_of r (s ∷ rs) [] le = (omega arith, omega arith, refl)
  two_of r [] (k ∷ ks) le = absurd (omega arith)
  two_of r (s ∷ rs) (k ∷ ks) le = (omega arith, omega arith, refl)

  tally-two_of :
      (test : SearchResult F → Bool) (r : SearchResult F) (rs ks : List (SearchResult F))
      → tally test ks ≤ tally test rs
      → (tally test (r ∷ ks) ≤ tally test (at_least_two num r rs ks))
        × (tally test (at_least_two num r rs ks) ≤ tally test (r ∷ rs))
  unfolding tally
  tally-two_of test r [] [] le = (omega arith, omega arith)
  tally-two_of test r (s ∷ rs) [] le = (omega arith, omega arith)
  tally-two_of test r [] (k ∷ ks) le = (omega arith, omega arith)
  tally-two_of test r (s ∷ rs) (k ∷ ks) le = (omega arith, omega arith)

  tally-kept :
      (test : SearchResult F → Bool) (t : F) (rs : List (SearchResult F))
      → tally (λ x. test x && at_least num.float t x) rs
        ≡ tally test (keep (at_least num.float t) rs)
  unfolding tally
  tally-kept test t [] = refl
  tally-kept test t (r ∷ rs) = ground (arith, tally-kept test t rs)

  -- ApplyScoreFloor keeps the first result in its place and returns two results at least, where there are
  -- two. It returns no result more often than it was given, and each that reaches the threshold as often:
  -- whatever a test says of a result, at most as many pass it as before, and at least as many as passed it
  -- and reached the threshold.
  pub apply_score_floor_bounds :
      (rs : List (SearchResult F)) (t : F) (test : SearchResult F → Bool)
      → (min 2 (length rs) ≤ length (apply_score_floor num rs t))
        × (get_elem? (apply_score_floor num rs t) 0 ≡ get_elem? rs 0)
        × (tally test (apply_score_floor num rs t) ≤ tally test rs)
        × (tally (λ x. test x && at_least num.float (threshold_or num (num.dec 5 2) t) x) rs
            ≤ tally test (apply_score_floor num rs t))
  unfolding apply_score_floor tally
  apply_score_floor_bounds [] t test = (omega arith, refl, omega arith, omega arith)
  apply_score_floor_bounds (r ∷ rs) t test =
      let least = at_least num.float (threshold_or num (num.dec 5 2) t) in
      let two = two_of r rs (keep least rs) (length-keep-le least rs) in
      let counts = tally-two_of test r rs (keep least rs) (tally-keep-le test least rs) in
      (
        two.0,
        two.2,
        counts.1,
        ground (arith, counts.0, tally-kept test (threshold_or num (num.dec 5 2) t) rs),
      )
