-- ===== src/Hybrid/RoundRobin.antt =====
-- The round robin over engines of pkg/search/hybrid/hybrid.go. A bucket and its index, `buckets[name]`
-- and `indices[name]`, are the list of the bucket's results that are still to come.
use websearch_mcpserver_dash.Prelude.{
  ℕ, zero, suc, ◌-◌, String, List, [], ◌∷◌, ◌++◌, leb, ◌==◌, if◌then◌else◌, length, str_eq, map,
  dedup_by,
}
use websearch_mcpserver_dash.Core.{SearchResult}

module _ {A : Type 0} where
  -- One pass of the inner loop with so much room in `out`: what it appends, and what is left.
  unfoldable pub pass : ℕ → List (List A) → List A × List (List A)
  pass zero qs = ([], qs)
  pass (suc r) [] = ([], [])
  pass (suc r) ([] ∷ qs) = let rest = pass (suc r) qs in (rest.0, [] ∷ rest.1)
  pass (suc r) ((x ∷ q) ∷ qs) = let rest = pass r qs in (x ∷ rest.0, q ∷ rest.1)

  -- The outer loop, on fuel: it stops when `out` is full, or when a pass has added nothing.
  unfoldable pub round_robin : ℕ → ℕ → List (List A) → List A
  round_robin zero room qs = []
  round_robin (suc fuel) room qs =
      let p = pass room qs in
      let again = p.0 ++ round_robin fuel (room - length p.0) p.1 in
      if room == 0 then [] else if length p.0 == 0 then [] else again

module _ {F : Type 0} where
  -- The name under which a result is bucketed.
  abbrev pub bucket_name : SearchResult F → String
  bucket_name r = if str_eq r.engine "" then "_unknown" else r.engine

  -- `buckets[e] = append(buckets[e], r)`, with a new name put at the end of the order.
  unfoldable pub push :
      SearchResult F → List (String × List (SearchResult F)) → List (String × List (SearchResult F))
  push r [] = (bucket_name r, r ∷ []) ∷ []
  push r ((n, q) ∷ bs) =
      if str_eq n (bucket_name r) then (n, q ++ r ∷ []) ∷ bs else (n, q) ∷ push r bs

  unfoldable pub push_all :
      List (SearchResult F)
      → List (String × List (SearchResult F))
      → List (String × List (SearchResult F))
  push_all [] bs = bs
  push_all (r ∷ rs) bs = push_all rs (push r bs)

  abbrev pub queues_of : List (String × List (SearchResult F)) → List (List (SearchResult F))
  queues_of = map (λ b. b.1)

  -- roundRobin, with the fuel that its rounds can use.
  abbrev pub round_robin_over : ℕ → List (String × List (SearchResult F)) → List (SearchResult F)
  round_robin_over limit bs = round_robin (suc limit) limit (queues_of bs)

  unfoldable pub distribute_results : List (SearchResult F) → ℕ → List (SearchResult F)
  distribute_results rs limit =
      if leb (length rs) limit then rs else round_robin_over limit (push_all rs [])

  -- The order begins with the configured engines, each once.
  unfoldable pub round_robin_by_names :
      List (SearchResult F) → ℕ → List String → List (SearchResult F)
  round_robin_by_names rs limit names =
      if leb (length rs) limit
      then rs
      else round_robin_over limit (push_all rs (map (λ n. (n, [])) (dedup_by (λ n. n) [] names)))
