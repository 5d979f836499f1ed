-- ===== src/Enhance/Choice.antt =====
-- What ApplyMMR returns (pkg/search/enhance/mmr.go).
use websearch_mcpserver_dash.Prelude.{
  length-map, ℕ, zero, suc, ◌+◌, ◌≤◌, ◌<◌, String, Bool, true, false, not, ◌≡◌, refl, sym, ap, ◌∙◌,
  Option, none, some, List, [], ◌∷◌, ◌++◌, map, arith, ltb, ◌==◌, if◌then◌else◌, length,
  length-append, min, get_elem?, tally, tally-append, tally-map, Bool-cases, inl, inr,
}
use websearch_mcpserver_dash.Core.{SearchResult, Numbers}
use websearch_mcpserver_dash.Enhance.Mmr.{
  MmrItem, remove_at, mmr_value, best, mmr_rounds, clamped, target_of, item_of, results_of,
  mmr_from, apply_mmr,
}

tally-remove_at :
    {A : Type 0} (test : A → Bool) (xs : List A) (n : ℕ) (x : A)
    → get_elem? xs n ≡ some x
    → tally test (remove_at n xs) + (if test x then 1 else 0) ≡ tally test xs
unfolding tally remove_at
tally-remove_at test [] n x h = absurd (cc h)
tally-remove_at test (y ∷ xs) zero x h = ground (arith, h)
tally-remove_at test (y ∷ xs) (suc n) x h = omega (arith, tally-remove_at test xs n x h)

get_elem?-shift :
    {A : Type 0} (xs : List A) (n j : ℕ) → get_elem? xs (n + suc j) ≡ get_elem? xs (n + 1 + j)
get_elem?-shift xs n j = let e : n + suc j ≡ n + 1 + j = omega arith in ap (get_elem? xs) e

add_zero : (n : ℕ) → n ≡ n + 0
add_zero n = omega arith

get_elem?-tail :
    {A : Type 0} (x : A) (xs : List A) (j : ℕ) → get_elem? xs j ≡ get_elem? (x ∷ xs) (1 + j)
get_elem?-tail x xs j = let e : suc j ≡ 1 + j = omega arith in ap (get_elem? (x ∷ xs)) e

length-remove_at :
    {A : Type 0} (xs : List A) (n : ℕ) (x : A)
    → get_elem? xs n ≡ some x
    → length (remove_at n xs) + 1 ≡ length xs
unfolding remove_at
length-remove_at [] n x h = absurd (cc h)
length-remove_at (y ∷ xs) zero x h = omega arith
length-remove_at (y ∷ xs) (suc n) x h = omega (arith, length-remove_at xs n x h)

first-map :
    {A B : Type 0} (f : A → B) (xs : List A) (x : A)
    → get_elem? xs 0 ≡ some x
    → get_elem? (map f xs) 0 ≡ some (f x)
first-map f [] x h = absurd (cc h)
first-map f (y ∷ xs) x h = cc h

get_elem?-append :
    {A : Type 0} (xs ys : List A) (i : ℕ) → i < length xs → get_elem? (xs ++ ys) i ≡ get_elem? xs i
get_elem?-append [] ys i h = absurd (omega arith)
get_elem?-append (x ∷ xs) ys zero h = refl
get_elem?-append (x ∷ xs) ys (suc i) h = get_elem?-append xs ys i (omega arith)

-- `fine` is meant to hold of the float64 up to 10^100 in magnitude: of these, and of a similarity
-- between 0 and 1, the value is neither a NaN nor -∞.
module _ {F : Type 0} (num : Numbers F) (fine : F → Bool)
    (above : (lambda : F) (xs : List (MmrItem F)) (x : MmrItem F)
      → fine lambda ≡ true
      → fine x.result.score ≡ true
      → num.float.lt num.neg_inf (mmr_value num lambda xs x) ≡ true) where
  abbrev pub odd_result : SearchResult F → Bool
  odd_result r = not (fine r.score)

  abbrev odd_item : MmrItem F → Bool
  odd_item x = odd_result x.result

  -- The best of some items is one of them, at its place.
  best-Placed :
      (lambda m : F) (sel : List (MmrItem F)) (all : List (MmrItem F)) (b : ℕ × MmrItem F) (pos : ℕ)
      (xs : List (MmrItem F))
      → get_elem? all b.0 ≡ some b.1
      → ((j : ℕ) → get_elem? xs j ≡ get_elem? all (pos + j))
      → (c : ℕ × MmrItem F) × (best num lambda sel m (some b) pos xs ≡ some c)
        × (get_elem? all c.0 ≡ some c.1)
  unfolding best
  best-Placed lambda m sel all b pos [] at same = (b, refl, at)
  best-Placed lambda m sel all b pos (x ∷ xs) at same =
      pick
        (λ m' b' at'.
          best-Placed lambda m' sel all b' (pos + 1) xs at'
            (λ j. same (suc j) ∙ get_elem?-shift all pos j))
        (num.float.lt m (mmr_value num lambda sel x))
    where
      pick :
          ((m' : F) (b' : ℕ × MmrItem F)
            → get_elem? all b'.0 ≡ some b'.1
            → (c : ℕ × MmrItem F) × (best num lambda sel m' (some b') (pos + 1) xs ≡ some c)
              × (get_elem? all c.0 ≡ some c.1))
          → (t : Bool)
          → (c : ℕ × MmrItem F) × (best num lambda sel
                (if t then mmr_value num lambda sel x else m)
                (if t then some (pos, x) else some b)
                (pos + 1)
                xs
              ≡ some c)
            × (get_elem? all c.0 ≡ some c.1)
      pick rest true =
          rest (mmr_value num lambda sel x) (pos, x)
            (ap (get_elem? all) (add_zero pos) ∙ sym (same 0))
      pick rest false = rest m b at

  -- From -∞, which the value of the first item exceeds, there is a best item.
  best-some :
      (lambda : F) (sel : List (MmrItem F)) (x : MmrItem F) (xs : List (MmrItem F))
      → fine lambda ≡ true
      → fine x.result.score ≡ true
      → (c : ℕ × MmrItem F) × (best num lambda sel num.neg_inf none 0 (x ∷ xs) ≡ some c)
        × (get_elem? (x ∷ xs) c.0 ≡ some c.1)
  unfolding best
  best-some lambda sel x xs ok fine_x = rw (above lambda sel x ok fine_x) (
      best-Placed lambda (mmr_value num lambda sel x) sel (x ∷ xs) (0, x) 1 xs refl
        (get_elem?-tail x xs))

  -- The loop takes items from the remaining to the selected, until there are as many as wanted.
  mmr_rounds_lem :
      (fuel : ℕ) (lambda : F) (target : ℕ) (sel rem : List (MmrItem F))
      → fine lambda ≡ true
      → tally odd_item rem ≡ 0
      → length rem ≤ fuel
      → length sel ≤ target
      → (out : List (MmrItem F)) × (mmr_rounds num fuel lambda target sel rem ≡ some out)
        × (length out ≡ min target (length sel + length rem))
        × ((i : ℕ) → i < length sel → get_elem? out i ≡ get_elem? sel i)
        × ((test : MmrItem F → Bool) → tally test out ≤ tally test sel + tally test rem)
  unfolding mmr_rounds tally
  mmr_rounds_lem zero lambda target sel [] ok fines le lt =
      (sel, refl, omega arith, λ i h. refl, λ test. omega arith)
  mmr_rounds_lem zero lambda target sel (x ∷ rem) ok fines le lt = absurd (omega arith)
  mmr_rounds_lem (suc fuel) lambda target sel [] ok fines le lt =
      (sel, ground arith, omega arith, λ i h. refl, λ test. omega arith)
  mmr_rounds_lem (suc fuel) lambda target sel (x ∷ rem) ok fines le lt =
      elim (Bool-cases (ltb (length sel) target)) [
        | inr full ↦
            (sel, ground (arith, full), ground (arith, full), λ i h. refl, λ test. omega arith)
        | inl room ↦
            let (c, chosen, place) = best-some lambda sel x rem ok (ground (arith, fines)) in
            let left = remove_at c.0 (x ∷ rem) in
            let len = length-remove_at (x ∷ rem) c.0 c.1 place in
            let more = length-append sel (c.1 ∷ []) in
            let (out, runs, count, same, holds) =
              mmr_rounds_lem fuel lambda target (sel ++ c.1 ∷ []) left ok
                (omega (arith, tally-remove_at odd_item (x ∷ rem) c.0 c.1 place, fines))
                (omega (arith, len)) (ground (arith, room, more)) in
            (
              out,
              ground (arith, room, chosen, runs),
              omega (arith, count, more, len),
              λ i h. same i (omega (arith, more, h)) ∙ get_elem?-append sel (c.1 ∷ []) i h,
              λ test. omega (
                arith,
                holds test,
                tally-append test sel (c.1 ∷ []),
                tally-remove_at test (x ∷ rem) c.0 c.1 place,
              ),
            )
      ]

  module _ (text_of : SearchResult F → String) (token_set : String → List String) where
    -- The result that the loop gives for the items, read off as results.
    abbrev Chosen : ℕ → List (SearchResult F) → Option (List (SearchResult F)) → Type 0
    Chosen n rs answer =
        (out : List (SearchResult F)) × (answer ≡ some out)
        × (length out ≡ n)
        × (get_elem? out 0 ≡ get_elem? rs 0)
        × ((test : SearchResult F → Bool) → tally test out ≤ tally test rs)

    rounds-Chosen :
        (lambda : F) (target : ℕ) (r : SearchResult F) (rs : List (SearchResult F))
        → fine lambda ≡ true
        → tally odd_result (r ∷ rs) ≡ 0
        → 1 ≤ target
        → target ≤ suc (length rs)
        → Chosen target (r ∷ rs) (
            results_of num text_of token_set (
              mmr_rounds num
                (length rs)
                lambda
                target
                (item_of num text_of token_set r ∷ [])
                (map (item_of num text_of token_set) rs)))
    unfolding tally
    rounds-Chosen lambda target r rs ok fines pos le =
        let item = item_of num text_of token_set in
        let len = length-map item rs in
        let (out, runs, count, same, holds) =
          mmr_rounds_lem (length rs) lambda target (item r ∷ []) (map item rs) ok
            (omega (arith, fines, tally-map odd_item odd_result item (λ x. refl) rs))
            (omega (arith, len)) pos in
        (
          map (λ x. x.result) out,
          rw runs,
          omega (arith, length-map (λ (x : MmrItem F). x.result) out, count, len),
          first-map (λ x. x.result) out (item r) (same 0 (omega arith)),
          λ test.
              let of_item : MmrItem F → Bool = λ x. test x.result in
              omega (
                arith,
                holds of_item,
                tally-map test of_item (λ x. x.result) (λ x. refl) out,
                tally-map of_item test item (λ x. refl) rs,
              ),
        )

    from-Chosen :
        (lambda : F) (target : ℕ) (r : SearchResult F) (rs : List (SearchResult F))
        → fine lambda ≡ true
        → tally odd_result (r ∷ rs) ≡ 0
        → 1 ≤ target
        → target ≤ suc (length rs)
        → Chosen target (r ∷ rs) (mmr_from num text_of token_set lambda target r rs)
    unfolding tally
    from-Chosen lambda target r rs ok fines pos le = elim (Bool-cases (target == 1)) [
      | inl one ↦ (r ∷ [], ground (arith, one), ground (arith, one), refl, λ test. omega arith)
      | inr more ↦ rw more (rounds-Chosen lambda target r rs ok fines pos le)
    ]

    -- Where the weight and the scores are fine numbers, ApplyMMR does not panic. It returns the first result
    -- in its place, as many results as wanted or as there are, and no result more often than it was given.
    pub apply_mmr_total :
        (rs : List (SearchResult F)) (lambda : F) (target : ℕ)
        → fine (clamped num lambda) ≡ true
        → tally odd_result rs ≡ 0
        → (out : List (SearchResult F)) × (apply_mmr num text_of token_set rs lambda target
            ≡ some out)
          × (length out ≡ min (target_of num target (length rs)) (length rs))
          × (get_elem? out 0 ≡ get_elem? rs 0)
          × ((test : SearchResult F → Bool) → tally test out ≤ tally test rs)
    unfolding apply_mmr tally
    apply_mmr_total [] lambda target ok fines = ([], refl, ground arith, refl, λ test. omega arith)
    apply_mmr_total (r ∷ []) lambda target ok fines =
        (r ∷ [], refl, ground arith, refl, λ test. omega arith)
    apply_mmr_total (r ∷ s ∷ rs) lambda target ok fines =
        let wanted = target_of num target (length (r ∷ s ∷ rs)) in
        let (out, eq, count, first, holds) =
          from-Chosen (clamped num lambda) wanted r (s ∷ rs) ok fines (ground arith)
            (ground arith) in
        (out, eq, ground (arith, count), first, holds)
