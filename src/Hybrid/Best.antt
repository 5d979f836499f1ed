-- ===== src/Hybrid/Best.antt =====
-- A list in descending order of the scores, cut (sort.Slice in pkg/search/hybrid/hybrid.go).
use websearch_mcpserver_dash.Prelude.{
  ℕ, zero, suc, Bool, false, ◌≡◌, refl, sym, ap, ◌∙◌, List, [], ◌∷◌, arith, ltb, take, tally,
}
use websearch_mcpserver_dash.Core.{Float, SearchResult}

tally-same :
    {A : Type 0} (p q : A → Bool) → ((x : A) → p x ≡ q x) → (xs : List A) → tally p xs ≡ tally q xs
unfolding tally
tally-same p q same [] = refl
tally-same p q same (x ∷ xs) = ground (arith, same x, tally-same p q same xs)

pub tally-never :
    {A : Type 0} (p : A → Bool) → ((x : A) → p x ≡ false) → (xs : List A) → tally p xs ≡ 0
unfolding tally
tally-never p never [] = refl
tally-never p never (x ∷ xs) = ground (arith, never x, tally-never p never xs)

module _ {F : Type 0} (fl : Float F) where
  -- The score of `y` is higher.
  abbrev pub beats : SearchResult F → SearchResult F → Bool
  beats x y = fl.lt x.score y.score

  -- No result beats an earlier one.
  abbrev pub IsDescending : List (SearchResult F) → Type 0
  IsDescending [] = Unit {0}
  IsDescending (x ∷ xs) = (tally (beats x) xs ≡ 0) × IsDescending xs

  -- Some result of `all` that beats `x` is not in `out`.
  abbrev pub misses : List (SearchResult F) → List (SearchResult F) → SearchResult F → Bool
  misses all out x = ltb (tally (beats x) out) (tally (beats x) all)

  -- What is cut off beats nothing that is left.
  pub misses-take :
      (xs : List (SearchResult F)) (n : ℕ)
      → IsDescending xs
      → tally (misses xs (take n xs)) (take n xs) ≡ 0
  unfolding tally
  misses-take [] zero d = refl
  misses-take [] (suc n) d = refl
  misses-take (x ∷ xs) zero d = refl
  misses-take (x ∷ xs) (suc n) d = ground (
    arith,
    d.0,
    misses-take xs n d.1,
    tally-same (misses (x ∷ xs) (take (suc n) (x ∷ xs))) (misses xs (take n xs)) (λ y. ground arith)
        (take n xs),
  )

  -- The same for a sort that keeps the results.
  pub misses-sorted :
      (sorted all : List (SearchResult F)) (n : ℕ)
      → ((test : SearchResult F → Bool) → tally test sorted ≡ tally test all)
      → IsDescending sorted
      → tally (misses all (take n sorted)) (take n sorted) ≡ 0
  misses-sorted sorted all n keeps d =
      tally-same (misses all (take n sorted)) (misses sorted (take n sorted))
        (λ x. ap (ltb (tally (beats x) (take n sorted))) (sym (keeps (beats x)))) (take n sorted)
      ∙ misses-take sorted n d
