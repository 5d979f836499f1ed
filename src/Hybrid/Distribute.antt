-- ===== src/Hybrid/Distribute.antt =====
-- What DistributeResults and roundRobinByNames hand out (pkg/search/hybrid/hybrid.go): as many results
-- as they may, and none that was not there.
use websearch_mcpserver_dash.Prelude.{
  tally, tally-append, ℕ, suc, ◌+◌, ◌≤◌, String, Bool, ◌≡◌, refl, List, [], ◌∷◌, arith,
  if◌then◌else◌, length, length-append, map, min, dedup_by,
}
use websearch_mcpserver_dash.Core.{SearchResult}
use websearch_mcpserver_dash.Hybrid.RoundRobin.{
  push, push_all, queues_of, round_robin_over, distribute_results, round_robin_by_names,
}
use websearch_mcpserver_dash.Hybrid.Fair.{tally_all, tally-round_robin-le, size, length-round_robin}

size-no_results :
    (F : Type 0) (names : List String) → size (queues_of {F = F} (map (λ n. (n, [])) names)) ≡ 0
unfolding size
size-no_results F [] = refl
size-no_results F (n ∷ names) = omega (arith, size-no_results F names)

module _ {F : Type 0} where
  size-push :
      (r : SearchResult F) (bs : List (String × List (SearchResult F)))
      → size (queues_of (push r bs)) ≡ suc (size (queues_of bs))
  unfolding size push
  size-push r [] = omega arith
  size-push r ((n, q) ∷ bs) = ground (arith, size-push r bs, length-append q (r ∷ []))

  size-push_all :
      (rs : List (SearchResult F)) (bs : List (String × List (SearchResult F)))
      → size (queues_of (push_all rs bs)) ≡ length rs + size (queues_of bs)
  unfolding push_all
  size-push_all [] bs = omega arith
  size-push_all (r ∷ rs) bs = omega (arith, size-push_all rs (push r bs), size-push r bs)

  length-round_robin_over :
      (limit : ℕ) (bs : List (String × List (SearchResult F)))
      → length (round_robin_over limit bs) ≡ min limit (size (queues_of bs))
  length-round_robin_over limit bs =
      length-round_robin (suc limit) limit (queues_of bs) (omega arith)

  -- DistributeResults returns as many results as the limit allows, or all of them.
  pub length-distribute_results :
      (rs : List (SearchResult F)) (limit : ℕ)
      → length (distribute_results rs limit) ≡ min (length rs) limit
  unfolding distribute_results size
  length-distribute_results rs limit =
      ground (arith, length-round_robin_over limit (push_all rs []), size-push_all rs [])

  -- roundRobinByNames returns as many results as the limit allows, or all of them, whatever the names
  -- of the engines are.
  pub length-round_robin_by_names :
      (rs : List (SearchResult F)) (limit : ℕ) (names : List String)
      → length (round_robin_by_names rs limit names) ≡ min (length rs) limit
  unfolding round_robin_by_names
  length-round_robin_by_names rs limit names =
      let bs : List (String × List (SearchResult F)) =
        map (λ n. (n, [])) (dedup_by (λ n. n) [] names) in
      ground (
        arith,
        length-round_robin_over limit (push_all rs bs),
        size-push_all rs bs,
        size-no_results F (dedup_by (λ n. n) [] names),
      )

  module _ (test : SearchResult F → Bool) where
    tally-push :
        (r : SearchResult F) (bs : List (String × List (SearchResult F)))
        → tally_all test (queues_of (push r bs))
          ≡ (if test r then 1 else 0) + tally_all test (queues_of bs)
    unfolding tally_all tally push
    tally-push r [] = omega arith
    tally-push r ((n, q) ∷ bs) = ground (arith, tally-push r bs, tally-append test q (r ∷ []))

    tally-push_all :
        (rs : List (SearchResult F)) (bs : List (String × List (SearchResult F)))
        → tally_all test (queues_of (push_all rs bs))
          ≡ tally test rs + tally_all test (queues_of bs)
    unfolding push_all tally
    tally-push_all [] bs = omega arith
    tally-push_all (r ∷ rs) bs = omega (arith, tally-push_all rs (push r bs), tally-push r bs)

    tally-no_results :
        (names : List String) → tally_all test (queues_of (map (λ n. (n, [])) names)) ≡ 0
    unfolding tally_all tally
    tally-no_results [] = refl
    tally-no_results (n ∷ names) = omega (arith, tally-no_results names)

    -- DistributeResults returns no result more often than it was given: whatever a test says of a
    -- result, at most as many pass it afterwards as before.
    pub tally-distribute_results :
        (rs : List (SearchResult F)) (limit : ℕ)
        → tally test (distribute_results rs limit) ≤ tally test rs
    unfolding distribute_results tally_all
    tally-distribute_results rs limit =
        let bs = push_all rs [] in
        let le = tally-round_robin-le test (suc limit) limit (queues_of bs) in
        ground (arith, le, tally-push_all rs [])

    -- roundRobinByNames returns no result more often than it was given.
    pub tally-round_robin_by_names :
        (rs : List (SearchResult F)) (limit : ℕ) (names : List String)
        → tally test (round_robin_by_names rs limit names) ≤ tally test rs
    unfolding round_robin_by_names
    tally-round_robin_by_names rs limit names =
        let none_yet : List (String × List (SearchResult F)) =
          map (λ n. (n, [])) (dedup_by (λ n. n) [] names) in
        let le = tally-round_robin-le test (suc limit) limit (queues_of (push_all rs none_yet)) in
        ground
          (arith, le, tally-push_all rs none_yet, tally-no_results (dedup_by (λ n. n) [] names))
