-- ===== src/Dashboard/Shown.antt =====
-- What a source of the dashboard shows when it is observed under several names
-- (pkg/dashboard/sources.go).
use websearch_mcpserver_dash.Prelude.{
  ℕ, ◌+◌, String, Bool, true, false, not, ◌≡◌, refl, sym, ap, ◌∙◌, Option, none, some, List, [],
  ◌∷◌, arith, if◌then◌else◌, tally, tally-true,
}
use mathlib.Core.Path.{subst}
use websearch_mcpserver_dash.Telemetry.Store.{DailyUsage}
use websearch_mcpserver_dash.Dashboard.Sources.{
  Observed, SourceView, Joining, no_usage, added, is_newer, join_candidate, join_aliases,
  with_joining, join_source,
}
use websearch_mcpserver_dash.Dashboard.Joins.{
  kind_count, kind_count-merge, candidates, total, join_all, join_aliases-all, total-join_all,
  newest-join_all,
}

kind_count-nil : (x : String) → kind_count x [] ≡ 0
unfolding kind_count
kind_count-nil x = refl

module _ {F : Type 0} (sort_kinds : List (String × ℕ) → List (String × ℕ)) where
  -- The sums over the observed sources, and the newest of them.
  pub record Shown (cs : List (Observed F)) (x : String) (v : SourceView F) : Type 0 where
    pub newest : Observed F
    pub is_newest : tally (λ c. is_newer c (some newest)) cs ≡ 0
    pub health : v.health ≡ some newest.health
    pub status : v.status ≡ newest.health.status
    pub requests : v.today.requests ≡ total (λ c. c.today.requests) cs
    pub successes : v.today.successes ≡ total (λ c. c.today.successes) cs
    pub failures : v.today.failures ≡ total (λ c. c.today.failures) cs
    pub cache_hits : v.today.cache_hits ≡ total (λ c. c.today.cache_hits) cs
    pub duration_ms : v.today.duration_ms ≡ total (λ c. c.today.duration_ms) cs
    pub result_count : v.today.result_count ≡ total (λ c. c.today.result_count) cs
    pub kinds : kind_count x v.error_kinds ≡ total (λ c. kind_count x c.health.error_kinds) cs

  module _
      (keeps : (x : String) (ks : List (String × ℕ))
        → kind_count x (sort_kinds ks) ≡ kind_count x ks)
      (id x : String) where
    kinds-join_all :
        (cs : List (Observed F)) (j : Joining F)
        → kind_count x (join_all sort_kinds id cs j).error_kinds
          ≡ kind_count x j.error_kinds + total (λ c. kind_count x c.health.error_kinds) cs
    unfolding join_all total join_candidate
    kinds-join_all [] j = omega arith
    kinds-join_all (c ∷ cs) j = omega (
      arith,
      kinds-join_all cs (join_candidate sort_kinds id c j),
      kind_count-merge sort_kinds keeps x j.error_kinds c.health.error_kinds,
    )

    abbrev start : Joining F
    start = record { chosen = none; p95_ms = 0; today = no_usage; error_kinds = [] }

    -- The loop's variables at its end, over at least one observed source.
    joining-Shown :
        (c : Observed F) (cs : List (Observed F)) (s : SourceView F)
        → Shown (c ∷ cs) x (
            with_joining s
              (join_all sort_kinds id (c ∷ cs) start)
              (join_all sort_kinds id (c ∷ cs) start).chosen)
    joining-Shown c cs s =
        by_chosen (join_all sort_kinds id (c ∷ cs) start).chosen
          (newest-join_all sort_kinds id (c ∷ cs) start)
      where
        j : Joining F
        j = join_all sort_kinds id (c ∷ cs) start

        sum :
            (f : DailyUsage → ℕ)
            → f no_usage ≡ 0
            → ((a b : DailyUsage) → f (added id a b) ≡ f a + f b)
            → f j.today ≡ total (λ d. f d.today) (c ∷ cs)
        sum f nothing adds =
            omega (arith, total-join_all sort_kinds id f adds (c ∷ cs) start, nothing)

        by_chosen :
            (o : Option (Observed F))
            → tally (λ d. is_newer d o) (c ∷ cs) ≡ 0
            → Shown (c ∷ cs) x (with_joining s j o)
        by_chosen none h = absurd (omega (arith, sym (tally-true (c ∷ cs)) ∙ h))
        by_chosen (some n) h = record {
          newest = n;
          is_newest = h;
          health = refl;
          status = refl;
          requests = sum (λ u. u.requests) refl (λ a b. refl);
          successes = sum (λ u. u.successes) refl (λ a b. refl);
          failures = sum (λ u. u.failures) refl (λ a b. refl);
          cache_hits = sum (λ u. u.cache_hits) refl (λ a b. refl);
          duration_ms = sum (λ u. u.duration_ms) refl (λ a b. refl);
          result_count = sum (λ u. u.result_count) refl (λ a b. refl);
          kinds = omega (arith, kinds-join_all (c ∷ cs) start, kind_count-nil x);
        }

module _ {F : Type 0} (sort_kinds : List (String × ℕ) → List (String × ℕ)) where
  -- A source that is configured and active, and observed under at least one of its names, shows the health
  -- and the status of a name that was seen last, today's counts added over all its names, and each kind
  -- of error as often as under all its names together. The sort is assumed to keep the counts.
  pub join_source-Shown :
      ((x : String) (ks : List (String × ℕ)) → kind_count x (sort_kinds ks) ≡ kind_count x ks)
      → (observed : List (Observed F)) (s : SourceView F) (x : String) (c : Observed F)
        (cs : List (Observed F))
      → s.configured ≡ true
      → s.active ≡ true
      → s.error_kinds ≡ []
      → candidates observed s.aliases ≡ c ∷ cs
      → Shown sort_kinds (c ∷ cs) x (join_source sort_kinds observed s)
  unfolding join_source
  join_source-Shown keeps observed s x c cs configured active fresh found =
      by_switches s.configured s.active configured active
    where
      from : List (String × ℕ) → Joining F
      from ks = record { chosen = none; p95_ms = 0; today = no_usage; error_kinds = ks }

      j : Joining F
      j = join_aliases sort_kinds s.id observed s.aliases (from s.error_kinds)

      same : join_all sort_kinds s.id (c ∷ cs) (from []) ≡ j
      same =
          ap (λ l. join_all sort_kinds s.id l (from [])) (sym found)
          ∙ sym (join_aliases-all sort_kinds s.id observed s.aliases (from []))
          ∙ ap (λ ks. join_aliases sort_kinds s.id observed s.aliases (from ks)) (sym fresh)

      by_switches :
          (a b : Bool)
          → a ≡ true
          → b ≡ true
          → Shown sort_kinds (c ∷ cs) x (
              if not a
              then record s { status = "not_configured" }
              else if not b
              then record s { status = "inactive" }
              else with_joining s j j.chosen)
      by_switches false b h k = absurd (cc h)
      by_switches true false h k = absurd (cc k)
      by_switches true true h k =
          subst (λ i. Shown sort_kinds (c ∷ cs) x (with_joining s i i.chosen)) same
            (joining-Shown sort_kinds keeps s.id x c cs s)
