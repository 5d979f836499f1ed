-- ===== src/Telemetry/Percentile.antt =====
-- calculateP95 (pkg/telemetry/store.go). `sort` is the sort.Slice of the durations.
use websearch_mcpserver_dash.Prelude.{
  ℕ, zero, suc, ◌+◌, ◌-◌, ◌*◌, ◌/◌, ◌≤◌, ◌<◌, Bool, true, false, ◌&&◌, ◌≡◌, sym, ◌∙◌, Option, some,
  List, [], ◌∷◌, arith, ltb, leb, if◌then◌else◌, length, get_elem?, get_elem?-lt, tally, tally-true,
  Keeps,
}

-- `if idx < 1 { idx = 1 }`, `if idx > len(sorted) { idx = len(sorted) }`
abbrev pub clamp_rank : ℕ → ℕ → ℕ
clamp_rank n idx = let low = if ltb idx 1 then 1 else idx in if ltb n low then n else low

-- `none` would be an index out of range.
unfoldable pub calculate_p95 : (List ℕ → List ℕ) → List ℕ → Option ℕ
calculate_p95 sort [] = some 0
calculate_p95 sort (v ∷ vs) =
    let sorted = sort (v ∷ vs) in
    get_elem? sorted (clamp_rank (length sorted) ((length sorted * 95 + 99) / 100) - 1)

-- No element is below an earlier one.
abbrev pub IsAscending : List ℕ → Type 0
IsAscending [] = Unit {0}
IsAscending (x ∷ xs) = (tally (λ y. ltb y x) xs ≡ 0) × IsAscending xs

tally-get_elem? :
    (test : ℕ → Bool) (xs : List ℕ) (i : ℕ) (p : ℕ)
    → tally test xs ≡ 0
    → get_elem? xs i ≡ some p
    → test p ≡ false
unfolding tally
tally-get_elem? test [] i p h e = absurd (cc e)
tally-get_elem? test (x ∷ xs) zero p h e = ground arith
tally-get_elem? test (x ∷ xs) (suc i) p h e = tally-get_elem? test xs i p (omega (arith, h)) e

get_elem?-rank :
    (xs : List ℕ) (i p : ℕ)
    → IsAscending xs
    → get_elem? xs i ≡ some p
    → (i < tally (λ y. leb y p) xs) × (tally (λ y. ltb y p) xs ≤ i)
unfolding tally
get_elem?-rank [] i p h e = absurd (cc e)
get_elem?-rank (x ∷ xs) zero p (low, h) e = ground arith
get_elem?-rank (x ∷ xs) (suc i) p (low, h) e =
    let later = get_elem?-rank xs i p h e in
    let above = tally-get_elem? (λ y. ltb y x) xs i p low e in
    ground (arith, later.0, later.1, above)

rank_bounds :
    (n : ℕ)
    → 0 < n
    → (clamp_rank n ((n * 95 + 99) / 100) - 1 < n)
      × (95 * n ≤ 100 * (clamp_rank n ((n * 95 + 99) / 100) - 1 + 1))
      × (100 * (clamp_rank n ((n * 95 + 99) / 100) - 1) < 95 * n)
rank_bounds n h = (ground arith, ground arith, ground arith)

rank_of_all : (n : ℕ) → 0 < n → n < 20 → clamp_rank n ((n * 95 + 99) / 100) - 1 + 1 ≡ n
rank_of_all n h small = ground arith

in_sorted :
    (xs : List ℕ)
    → IsAscending xs
    → 0 < length xs
    → (p : ℕ) × (get_elem? xs (clamp_rank (length xs) ((length xs * 95 + 99) / 100) - 1) ≡ some p)
      × (95 * length xs ≤ 100 * tally (λ v. leb v p) xs)
      × (100 * tally (λ v. ltb v p) xs < 95 * length xs)
      × ((ltb (length xs) 20 && ltb (tally (λ v. leb v p) xs) (length xs)) ≡ false)
in_sorted xs sorted h =
    let n = length xs in
    let i = clamp_rank n ((n * 95 + 99) / 100) - 1 in
    let (fits, high, low) = rank_bounds n h in
    let (p, found) = get_elem?-lt xs i fits in
    let (above, below) = get_elem?-rank xs i p sorted found in
    let all : n < 20 → i + 1 ≡ n = rank_of_all n h in
    (p, found, omega (arith, high, above), omega (arith, low, below), ground (arith, above, all))

-- Of a list that is not empty calculateP95 returns a value which at least 95 % of the list do not
-- exceed, while less than 95 % are below it; with fewer than 20 values, none exceeds it. The sort is
-- asked to rearrange a list in ascending order.
calculate_p95_rank :
    (sort : List ℕ → List ℕ)
    → Keeps sort
    → ((xs : List ℕ) → IsAscending (sort xs))
    → (vs : List ℕ) → 0 < length vs
    → (p : ℕ) × (calculate_p95 sort vs ≡ some p)
      × (95 * length vs ≤ 100 * tally (λ v. leb v p) vs)
      × (100 * tally (λ v. ltb v p) vs < 95 * length vs)
      × ((ltb (length vs) 20 && ltb (tally (λ v. leb v p) vs) (length vs)) ≡ false)
unfolding calculate_p95
calculate_p95_rank sort keeps ascending [] h = absurd (omega (arith, h))
calculate_p95_rank sort keeps ascending (v ∷ vs) h =
    let same : length (sort (v ∷ vs)) ≡ length (v ∷ vs) =
      sym (tally-true (sort (v ∷ vs))) ∙ keeps (λ _. true) (v ∷ vs) ∙ tally-true (v ∷ vs) in
    let (p, found, high, low, all) =
      in_sorted (sort (v ∷ vs)) (ascending (v ∷ vs)) (omega (arith, same)) in
    let not_above = keeps (λ x. leb x p) (v ∷ vs) in
    let below = keeps (λ x. ltb x p) (v ∷ vs) in
    (
      p,
      found,
      omega (arith, high, same, not_above),
      omega (arith, low, same, below),
      ground (arith, all, same, not_above),
    )
