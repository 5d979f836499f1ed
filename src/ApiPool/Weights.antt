-- ===== src/ApiPool/Weights.antt =====
-- Where the weighted rotation starts: pickWeighted (pkg/search/apipool/apipool.go).
use native.Mathlib.Decide.{dec_lt}
use websearch_mcpserver_dash.Prelude.{
  length-map, ℕ, zero, suc, ◌-◌, ◌<◌, ◌≤◌, ◌≡◌, ◌↔◌, sym, ◌∙◌, none, some, List, [], ◌∷◌, arith,
  ltb, length, take, map, Bool-cases, inl, inr,
}
use websearch_mcpserver_dash.ApiPool.Rotate.{
  ApiPool, effective_weight, total, pick_from, pick_weighted,
}

pick_from_sound :
    (r i : ℕ) (ws : List ℕ)
    → pick_from r ws ≡ some i
    → (total (take i ws) ≤ r) × (r < total (take (suc i) ws))
unfolding pick_from total
pick_from_sound r i [] h = absurd (ground arith)
pick_from_sound r zero (w ∷ ws) h = ground arith
pick_from_sound r (suc i) (w ∷ ws) h = ground (arith, pick_from_sound (r - w) i ws)

pick_from_complete :
    (r i : ℕ) (ws : List ℕ)
    → i < length ws
    → total (take i ws) ≤ r
    → r < total (take (suc i) ws)
    → pick_from r ws ≡ some i
unfolding pick_from total
pick_from_complete r i [] lt lo hi = absurd (omega arith)
pick_from_complete r zero (w ∷ ws) lt lo hi = ground arith
pick_from_complete r (suc i) (w ∷ ws) lt lo hi = ground (arith, pick_from_complete (r - w) i ws)

pick_from-total : (r : ℕ) (ws : List ℕ) → r < total ws → (i : ℕ) × (pick_from r ws ≡ some i)
unfolding pick_from total
pick_from-total r [] h = absurd (omega arith)
pick_from-total r (w ∷ ws) h = elim (Bool-cases (ltb r w)) [
  | inl here ↦ (0, rw here)
  | inr there ↦ let (i, eq) = pick_from-total (r - w) ws (ground arith) in (suc i, rw (there, eq))
]

none_left :
    (ws : List ℕ) (r : ℕ)
    → (0 < total ws → r < total ws)
    → (0 < total ws → pick_from r ws ≡ none)
    → total ws ≡ 0
none_left ws r below h = elim (dec_lt 0 (total ws)) [
  | yes pos ↦ let (i, eq) = pick_from-total r ws (below pos) in absurd (ground (arith, h pos))
  | no zero_left ↦ omega arith
]

-- The effective weights of the providers of a pool, in their order.
abbrev pub weights_at : {F : Type 0} → ℕ → ApiPool F → List ℕ
weights_at now a = map (effective_weight now a.weights) a.providers

pick_weighted_lem :
    {F : Type 0} (rand : ℕ → ℕ) (now : ℕ) (a : ApiPool F)
    → 0 < total (weights_at now a)
    → pick_weighted rand now a ≡ pick_from (rand (total (weights_at now a))) (weights_at now a)
unfolding pick_weighted
pick_weighted_lem rand now a pos = ground arith

-- A provider is started with exactly when the random number falls into its share: the interval,
-- as long as its effective weight, that begins at the sum of the weights before it. So of the
-- equally likely numbers below the total, each provider is started with on its own weight's many.
pub pick_weighted_share :
    {F : Type 0} (rand : ℕ → ℕ) (now i : ℕ) (a : ApiPool F)
    → i < length a.providers
    → 0 < total (weights_at now a)
    → (pick_weighted rand now a ≡ some i) ↔ (
        (total (take i (weights_at now a)) ≤ rand (total (weights_at now a)))
        × (rand (total (weights_at now a)) < total (take (suc i) (weights_at now a))))
pick_weighted_share rand now i a lt pos =
    let ws = weights_at now a in
    let same = pick_weighted_lem rand now a pos in
    let size = length-map (effective_weight now a.weights) a.providers in
    (
      λ h. pick_from_sound (rand (total ws)) i ws (sym same ∙ h),
      λ h. same ∙ pick_from_complete (rand (total ws)) i ws (omega (arith, size)) h.0 h.1,
    )

-- Given that rand.IntN(n) is below n, no start is picked exactly when every weight is 0.
pub pick_weighted-none :
    {F : Type 0} (rand : ℕ → ℕ) (now : ℕ) (a : ApiPool F)
    → ((n : ℕ) → 0 < n → rand n < n)
    → (pick_weighted rand now a ≡ none) ↔ (total (weights_at now a) ≡ 0)
unfolding pick_weighted
pick_weighted-none rand now a below = (
  λ h.
      none_left (weights_at now a) (rand (total (weights_at now a))) (below _)
        (λ pos. sym (pick_weighted_lem rand now a pos) ∙ h),
  λ h. rw (h, pick_weighted),
)
