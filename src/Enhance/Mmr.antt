-- ===== src/Enhance/Mmr.antt =====
-- ApplyMMR (pkg/search/enhance/mmr.go). An index of the source stands for its result with its token
-- set, so `selected` and `remaining` are lists of these. A panic is `none`.
use websearch_mcpserver_dash.Prelude.{
  ℕ, zero, suc, ◌+◌, ◌-◌, String, ◌&&◌, ◌||◌, Option, none, some, List, [], ◌∷◌, ◌++◌, map, ltb,
  ◌==◌, if◌then◌else◌, length, keep, str_mem,
}
use websearch_mcpserver_dash.Core.{SearchResult, Numbers}

-- A token set is the list of its members.
pub record MmrItem (F : Type 0) : Type 0 where
  pub result : SearchResult F
  pub tokens : List String

unfoldable pub remove_at : {A : Type 0} → ℕ → List A → List A
remove_at n [] = []
remove_at zero (x ∷ xs) = xs
remove_at (suc n) (x ∷ xs) = x ∷ remove_at n xs

module _ {F : Type 0} (num : Numbers F) where
  abbrev pub common : List String → List String → ℕ
  common a b = length (keep (λ t. str_mem t b) a)

  unfoldable pub jaccard_sets : List String → List String → F
  jaccard_sets a b =
      let union = length a + length b - common a b in
      if length a == 0 || length b == 0
      then num.float.nil
      else if union == 0
      then num.float.nil
      else num.div (num.of_int (common a b)) (num.of_int union)

  -- The loop for `maxSim`, from its value so far.
  unfoldable pub max_sim : F → MmrItem F → List (MmrItem F) → F
  max_sim m x [] = m
  max_sim m x (s ∷ ss) =
      let sim = jaccard_sets x.tokens s.tokens in
      max_sim (if num.float.lt m sim then sim else m) x ss

  unfoldable pub mmr_value : F → List (MmrItem F) → MmrItem F → F
  mmr_value lambda selected x =
      num.sub (num.mul lambda x.result.score)
        (num.mul (num.sub (num.dec 1 0) lambda) (max_sim num.float.nil x selected))

  -- The loop over `remaining` from a position, with `bestMMR`, and with `bestPos` and `bestIdx`, which
  -- are -1 as long as there is none.
  unfoldable pub best :
      F
      → List (MmrItem F)
      → F
      → Option (ℕ × MmrItem F)
      → ℕ
      → List (MmrItem F)
      → Option (ℕ × MmrItem F)
  best lambda selected m b pos [] = b
  best lambda selected m b pos (x ∷ xs) =
      let v = mmr_value lambda selected x in
      best lambda selected (if num.float.lt m v then v else m)
        (if num.float.lt m v then some (pos, x) else b) (pos + 1) xs

  -- The loop that selects, on fuel: each round takes one of the remaining.
  unfoldable pub mmr_rounds :
      ℕ → F → ℕ → List (MmrItem F) → List (MmrItem F) → Option (List (MmrItem F))
  mmr_rounds zero lambda target selected remaining = some selected
  mmr_rounds (suc fuel) lambda target selected remaining =
      let round : Option (List (MmrItem F)) =
        elim (best lambda selected num.neg_inf none 0 remaining) [
          | none ↦ none
          | some (pos, x) ↦
              mmr_rounds fuel lambda target (selected ++ x ∷ []) (remove_at pos remaining)
        ] in
      if ltb (length selected) target && ltb 0 (length remaining) then round else some selected

  -- `lambda` brought into its range.
  abbrev pub clamped : F → F
  clamped l =
      let l' = if num.float.le l num.float.nil then num.dec 7 1 else l in
      if num.float.lt (num.dec 1 0) l' then num.dec 1 0 else l'

  abbrev pub target_of : ℕ → ℕ → ℕ
  target_of target n = if target == 0 || ltb n target then n else target

  module _ (text_of : SearchResult F → String) (token_set : String → List String) where
    abbrev pub item_of : SearchResult F → MmrItem F
    item_of r = record { result = r; tokens = token_set (text_of r) }

    abbrev pub results_of : Option (List (MmrItem F)) → Option (List (SearchResult F))
    results_of none = none
    results_of (some xs) = some (map (λ x. x.result) xs)

    -- More than one result, the first of which is selected already.
    abbrev pub mmr_from :
        F → ℕ → SearchResult F → List (SearchResult F) → Option (List (SearchResult F))
    mmr_from lambda target r rs =
        if target == 1
        then some (r ∷ [])
        else results_of (mmr_rounds (length rs) lambda target (item_of r ∷ []) (map item_of rs))

    unfoldable pub apply_mmr : List (SearchResult F) → F → ℕ → Option (List (SearchResult F))
    apply_mmr [] lambda target = some []
    apply_mmr (r ∷ []) lambda target = some (r ∷ [])
    apply_mmr (r ∷ s ∷ rs) lambda target =
        mmr_from (clamped lambda) (target_of target (length (r ∷ s ∷ rs))) r (s ∷ rs)
