-- ===== src/Hybrid/Fair.antt =====
-- The round robin fills its limit and takes nothing twice (pkg/search/hybrid/hybrid.go).
use websearch_mcpserver_dash.Prelude.{
  ℕ, zero, suc, ◌+◌, ◌-◌, ◌≤◌, ◌<◌, Bool, ◌≡◌, refl, List, [], ◌∷◌, arith, length, length-append,
  min, tally, tally-append,
}
use websearch_mcpserver_dash.Hybrid.RoundRobin.{pass, round_robin}

-- How many elements of all the queues pass a test.
module _ {A : Type 0} (test : A → Bool) where
  unfoldable pub tally_all : List (List A) → ℕ
  tally_all [] = 0
  tally_all (q ∷ qs) = tally test q + tally_all qs

  tally-pass :
      (room : ℕ) (qs : List (List A))
      → tally test (pass room qs).0 + tally_all (pass room qs).1 ≡ tally_all qs
  unfolding pass tally tally_all
  tally-pass zero qs = omega arith
  tally-pass (suc r) [] = refl
  tally-pass (suc r) ([] ∷ qs) = omega (arith, tally-pass (suc r) qs)
  tally-pass (suc r) ((x ∷ q) ∷ qs) = omega (arith, tally-pass r qs)

  -- The round robin makes no new elements.
  pub tally-round_robin-le :
      (fuel room : ℕ) (qs : List (List A)) → tally test (round_robin fuel room qs) ≤ tally_all qs
  unfolding round_robin tally
  tally-round_robin-le zero room qs = omega arith
  tally-round_robin-le (suc fuel) room qs =
      let p = pass room qs in
      let more = tally-append test p.0 (round_robin fuel (room - length p.0) p.1) in
      ground (arith, tally-pass room qs, tally-round_robin-le fuel (room - length p.0) p.1, more)

module _ {A : Type 0} where
  unfoldable pub size : List (List A) → ℕ
  size [] = 0
  size (q ∷ qs) = length q + size qs

  pass-size :
      (room : ℕ) (qs : List (List A))
      → (length (pass room qs).0 + size (pass room qs).1 ≡ size qs)
        × (length (pass room qs).0 ≤ room)
        × (0 < room → 0 < size qs → 0 < length (pass room qs).0)
  unfolding pass size
  pass-size zero qs = (omega arith, omega arith, λ h. absurd (omega arith))
  pass-size (suc r) [] = (refl, omega arith, λ h k. absurd (omega arith))
  pass-size (suc r) ([] ∷ qs) =
      let h = pass-size (suc r) qs in (omega (arith, h.0), h.1, λ h' k. h.2 h' (omega (arith, k)))
  pass-size (suc r) ((x ∷ q) ∷ qs) =
      let h = pass-size r qs in (omega (arith, h.0), omega (arith, h.1), λ h' k. omega arith)

  -- It takes as many as there is room for, or all there are.
  pub length-round_robin :
      (fuel room : ℕ) (qs : List (List A))
      → room < fuel
      → length (round_robin fuel room qs) ≡ min room (size qs)
  unfolding round_robin
  length-round_robin zero room qs lt = absurd (omega arith)
  length-round_robin (suc fuel) room qs lt =
      let p = pass room qs in
      let h = pass-size room qs in
      let more = length-append p.0 (round_robin fuel (room - length p.0) p.1) in
      let rest = length-round_robin fuel (room - length p.0) p.1 in
      ground (arith, h.0, h.1, h.2, more, rest)
