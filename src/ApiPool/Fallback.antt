-- ===== src/ApiPool/Fallback.antt =====
-- The fallback from provider to provider (pkg/search/apipool/apipool.go).
use native.Mathlib.Nat.{le_refl, mod-lt}
use mathlib.Core.Path.{subst}
use websearch_mcpserver_dash.Prelude.{
  cover, mod-ne, get_elem?-some-lt, ℕ, zero, suc, ◌+◌, ◌-◌, ◌%◌, ◌<◌, ◌≤◌, ◌≡◌, refl, sym, ap, ◌∙◌,
  String, Option, none, some, List, arith, length, get_elem?, set, get_elem?-set_ne, Option-cases,
  inl, inr,
}
use websearch_mcpserver_dash.Core.{SearchResult}
use websearch_mcpserver_dash.ApiPool.Types.{Failure, Provider}
use websearch_mcpserver_dash.ApiPool.Retry.{
  End, returned, all_failed, panicked, out_of_fuel, Run, call_provider_with_retry,
}
use websearch_mcpserver_dash.ApiPool.Rotate.{
  Answered, found_results, last_error, broken, Searched, try_providers, ApiPool, search_from,
}

module _ {F : Type 0} (clock : ℕ → ℕ) (fuel max : ℕ) (query : String) (lookback : ℕ) where
  abbrev pub run : Provider F → ℕ → Run F
  run p t = call_provider_with_retry clock max query lookback fuel p t

  abbrev pub rounds : ℕ → ℕ → ℕ → ℕ → Option Failure → List (Provider F) → Searched F
  rounds = try_providers clock fuel max query lookback

  -- The provider was called, at some reading of the clock, and its run ended so.
  abbrev pub Ended : Provider F → End F → Type 0
  Ended p end = (t : ℕ) × ((call_provider_with_retry clock max query lookback fuel p t).end ≡ end)

  -- The answer of a round, by the end of the run over its provider.
  abbrev pub by_end : End F → (Failure → Answered F) → Answered F
  by_end (returned rs) later = found_results rs
  by_end (all_failed f) later = later f
  by_end panicked later = broken
  by_end out_of_fuel later = broken

  -- The rounds after one whose provider failed.
  abbrev pub after_round : ℕ → ℕ → ℕ → ℕ → List (Provider F) → Provider F → Failure → Searched F
  after_round left n at t ps p f =
      rounds left n (at + 1) (run p t).ticks (some f) (set ps (at % n) (run p t).provider)

  pub round_lem :
      (left n at t : ℕ) (last : Option Failure) (ps : List (Provider F)) (p : Provider F)
      (e : End F)
      → get_elem? ps (at % n) ≡ some p
      → (run p t).end ≡ e
      → (rounds (suc left) n at t last ps).answered
        ≡ by_end e (λ f. (after_round left n at t ps p f).answered)
  unfolding try_providers
  round_lem left n at t last ps p (returned rs) found eq = rw (found, eq, try_providers)
  round_lem left n at t last ps p (all_failed f) found eq = rw (found, eq, try_providers)
  round_lem left n at t last ps p panicked found eq = rw (found, eq, try_providers)
  round_lem left n at t last ps p out_of_fuel found eq = rw (found, eq, try_providers)

  round_missing :
      (left n at t : ℕ) (last : Option Failure) (ps : List (Provider F))
      → get_elem? ps (at % n) ≡ none
      → (rounds (suc left) n at t last ps).answered ≡ broken
  unfolding try_providers
  round_missing left n at t last ps missing = rw (missing, try_providers)

  pub slot_later :
      (n at j : ℕ) (ps : List (Provider F)) (v : Provider F)
      → suc j < n
      → get_elem? (set ps (at % n) v) ((at + 1 + j) % n) ≡ get_elem? ps ((at + suc j) % n)
  slot_later n at j ps v lt =
      ap (λ m. get_elem? (set ps (at % n) v) (m % n)) (omega arith)
      ∙ get_elem?-set_ne ps v (mod-ne at (suc j) n (omega arith) lt)

  pub slot_now :
      (n at : ℕ) (ps : List (Provider F)) → get_elem? ps ((at + 0) % n) ≡ get_elem? ps (at % n)
  slot_now n at ps = ap (λ m. get_elem? ps (m % n)) (omega arith)

  -- The provider at the round `j` ended in a failure.
  abbrev pub FailedAt : ℕ → ℕ → List (Provider F) → ℕ → Type 0
  FailedAt n at ps j =
      (p : Provider F) × (f : Failure) × (get_elem? ps ((at + j) % n) ≡ some p)
      × Ended p (all_failed f)

  abbrev AllFailed : ℕ → ℕ → ℕ → List (Provider F) → Type 0
  AllFailed left n at ps = (j : ℕ) → j < left → FailedAt n at ps j

  FailedAt-later :
      (n at j : ℕ) (ps : List (Provider F)) (v : Provider F)
      → suc j < n
      → FailedAt n (at + 1) (set ps (at % n) v) j
      → FailedAt n at ps (suc j)
  FailedAt-later n at j ps v lt (p, f, slot, e) = (p, f, sym (slot_later n at j ps v lt) ∙ slot, e)

  FailedAt-now :
      (n at t : ℕ) (ps : List (Provider F)) (p : Provider F) (f : Failure)
      → get_elem? ps (at % n) ≡ some p
      → (run p t).end ≡ all_failed f
      → FailedAt n at ps 0
  FailedAt-now n at t ps p f found eq = (p, f, slot_now n at ps ∙ found, (t, eq))

  AllFailed-more :
      (left n at : ℕ) (ps : List (Provider F)) (v : Provider F)
      → suc left ≤ n
      → FailedAt n at ps 0
      → AllFailed left n (at + 1) (set ps (at % n) v)
      → AllFailed (suc left) n at ps
  AllFailed-more left n at ps v le first rest zero lt = first
  AllFailed-more left n at ps v le first rest (suc j) lt =
      FailedAt-later n at j ps v (omega arith) (rest j (omega arith))

  -- Some provider of the next rounds returned, and those before it failed.
  abbrev pub FirstReturn : ℕ → ℕ → ℕ → List (Provider F) → List (SearchResult F) → Type 0
  FirstReturn left n at ps rs =
      (j : ℕ) × (j < left)
      × (q : Provider F) × (get_elem? ps ((at + j) % n) ≡ some q)
      × Ended q (returned rs)
      × AllFailed j n at ps

  later_return :
      (left n at : ℕ) (ps : List (Provider F)) (v : Provider F) (rs : List (SearchResult F))
      → suc left ≤ n
      → FailedAt n at ps 0
      → FirstReturn left n (at + 1) (set ps (at % n) v) rs
      → FirstReturn (suc left) n at ps rs
  later_return left n at ps v rs fits first (j, lt, q, slot, e, failed) = (
    suc j,
    omega arith,
    q,
    sym (slot_later n at j ps v (omega arith)) ∙ slot,
    e,
    AllFailed-more j n at ps v (omega arith) first failed,
  )

  module _ (left n at t : ℕ) (last : Option Failure) (ps : List (Provider F)) (p : Provider F)
      (found : get_elem? ps (at % n) ≡ some p) (fits : suc left ≤ n) where
    abbrev ps_after : List (Provider F)
    ps_after = set ps (at % n) (run p t).provider

    abbrev answer : Answered F
    answer = (rounds (suc left) n at t last ps).answered

    round_last_error :
        (g : Failure) (e : End F)
        → (run p t).end ≡ e
        → ((f : Failure)
            → (after_round left n at t ps p f).answered ≡ last_error g
            → AllFailed left n (at + 1) ps_after)
        → answer ≡ last_error g
        → AllFailed (suc left) n at ps
    round_last_error g (all_failed f) eq rest h =
        AllFailed-more left n at ps (run p t).provider fits (FailedAt-now n at t ps p f found eq)
          (rest f (sym (round_lem left n at t last ps p (all_failed f) found eq) ∙ h))
    round_last_error g (returned rs) eq rest h =
        absurd (cc (round_lem left n at t last ps p (returned rs) found eq))
    round_last_error g panicked eq rest h =
        absurd (cc (round_lem left n at t last ps p panicked found eq))
    round_last_error g out_of_fuel eq rest h =
        absurd (cc (round_lem left n at t last ps p out_of_fuel found eq))

    round_found :
        (rs : List (SearchResult F)) (e : End F)
        → (run p t).end ≡ e
        → ((f : Failure)
            → (after_round left n at t ps p f).answered ≡ found_results rs
            → FirstReturn left n (at + 1) ps_after rs)
        → answer ≡ found_results rs
        → FirstReturn (suc left) n at ps rs
    round_found rs (all_failed f) eq rest h =
        later_return left n at ps (run p t).provider rs fits (FailedAt-now n at t ps p f found eq)
          (rest f (sym (round_lem left n at t last ps p (all_failed f) found eq) ∙ h))
    round_found rs (returned rs') eq rest h =
        let same : rs' ≡ rs = cc (round_lem left n at t last ps p (returned rs') found eq) in
        (
          0,
          omega arith,
          p,
          slot_now n at ps ∙ found,
          (t, eq ∙ ap returned same),
          λ j lt. absurd (omega arith),
        )
    round_found rs panicked eq rest h =
        absurd (cc (round_lem left n at t last ps p panicked found eq))
    round_found rs out_of_fuel eq rest h =
        absurd (cc (round_lem left n at t last ps p out_of_fuel found eq))

  last_error_rounds :
      (left n at t : ℕ) (last : Option Failure) (ps : List (Provider F)) (g : Failure)
      → left ≤ n
      → (rounds left n at t last ps).answered ≡ last_error g
      → AllFailed left n at ps
  last_error_rounds zero n at t last ps g le h = λ j lt. absurd (omega arith)
  last_error_rounds (suc left) n at t last ps g le h = elim (Option-cases (get_elem? ps (at % n))) [
    | inl missing ↦ absurd (cc (round_missing left n at t last ps missing))
    | inr (p, found) ↦
        round_last_error left n at t last ps p found le g (run p t).end refl
          (λ f.
            last_error_rounds left n (at + 1) (run p t).ticks (some f)
              (set ps (at % n) (run p t).provider) g (omega arith))
          h
  ]

  found_rounds :
      (left n at t : ℕ) (last : Option Failure) (ps : List (Provider F))
      (rs : List (SearchResult F))
      → left ≤ n
      → (rounds left n at t last ps).answered ≡ found_results rs
      → FirstReturn left n at ps rs
  unfolding try_providers
  found_rounds zero n at t none ps rs le h = absurd (cc)
  found_rounds zero n at t (some f) ps rs le h = absurd (cc)
  found_rounds (suc left) n at t last ps rs le h = elim (Option-cases (get_elem? ps (at % n))) [
    | inl missing ↦ absurd (cc (round_missing left n at t last ps missing))
    | inr (p, found) ↦
        round_found left n at t last ps p found le rs (run p t).end refl
          (λ f.
            found_rounds left n (at + 1) (run p t).ticks (some f)
              (set ps (at % n) (run p t).provider) rs (omega arith))
          h
  ]

-- A search that answers with results took them from a provider whose run returned them, `j` places
-- after the start in the circular order; every provider from the start up to that one was called
-- in turn before it, and failed.
pub search-FirstReturn :
    {F : Type 0} (clock : ℕ → ℕ) (fuel : ℕ) (query : String) (lookback start : ℕ) (a : ApiPool F)
    (rs : List (SearchResult F))
    → (search_from clock fuel query lookback (some start) a).answered ≡ found_results rs
    → FirstReturn clock fuel a.max_size query lookback
        (length a.providers)
        (length a.providers)
        start
        a.providers
        rs
unfolding search_from
search-FirstReturn clock fuel query lookback start a rs h =
    found_rounds clock fuel a.max_size query lookback (length a.providers) (length a.providers)
      start 1 none a.providers rs (le_refl _) h

-- A search fails only after every provider of the pool was called and failed.
pub search-all_failed :
    {F : Type 0} (clock : ℕ → ℕ) (fuel : ℕ) (query : String) (lookback start : ℕ) (a : ApiPool F)
    (f : Failure)
    → (search_from clock fuel query lookback (some start) a).answered ≡ last_error f
    → (i : ℕ) (p : Provider F) → get_elem? a.providers i ≡ some p
    → (g : Failure) × Ended clock fuel a.max_size query lookback p (all_failed g)
unfolding search_from
search-all_failed clock fuel query lookback start a f h i p at =
    let n = length a.providers in
    let lt : i < n = get_elem?-some-lt a.providers i at in
    let (p', g, slot, e) =
      last_error_rounds clock fuel a.max_size query lookback n n start 1 none a.providers f
        (le_refl _) h ((i + n - start % n) % n) (mod-lt _ (omega arith)) in
    let here = ap (get_elem? a.providers) (cover start i n lt) in
    let same : p' ≡ p = cc (here, slot, at) in
    (g, subst (λ q. Ended clock fuel a.max_size query lookback q (all_failed g)) same e)
