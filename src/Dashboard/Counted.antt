-- ===== src/Dashboard/Counted.antt =====
-- The numbers and the verdict in the dashboard's summary (pkg/dashboard/sources.go).
use websearch_mcpserver_dash.Prelude.{
  ℕ, ◌+◌, String, Bool, false, ◌&&◌, ◌||◌, ◌≡◌, refl, ap, ◌∙◌, List, [], ◌∷◌, arith, ltb, ◌==◌,
  if◌then◌else◌, str_eq, eq_iff, tally,
}
use websearch_mcpserver_dash.Go.{Text}
use websearch_mcpserver_dash.Modes.Config.{Config}
use websearch_mcpserver_dash.Dashboard.Sources.{SourceView, Observed}
use websearch_mcpserver_dash.Dashboard.Verdict.{
  is_down-status_of, is_degraded-status_of, is_waiting-status_of, is_healthy-status_of,
}
use websearch_mcpserver_dash.Dashboard.Summary.{
  SystemSummary, AcademicConfig, Overview, with_verdict, waiting, with_source, summarize_all,
  summarize_system, count_suspended, build_dashboard_overview,
}

not-both : (x a b : String) → str_eq a b ≡ false → (str_eq x a && str_eq x b) ≡ false
not-both x a b h = ground (arith, h, eq_iff x a, eq_iff x b, eq_iff a b)

module _ {F : Type 0} where
  abbrev pub is_open : SourceView F → Bool
  is_open s = s.active && (s.suspended || str_eq s.state "suspended")

  abbrev pub has_status : String → SourceView F → Bool
  has_status status s = s.active && str_eq s.status status

  -- The sources of the web by status, and the open circuit breakers of both lists. The verdict is the
  -- worst status of an active source.
  pub record Counted (o : Overview F) : Type 0 where
    pub enabled : o.system.enabled ≡ tally (λ s. s.active) o.sources
    pub down : o.system.down ≡ tally (has_status "down") o.sources
    pub degraded : o.system.degraded ≡ tally (has_status "degraded") o.sources
    pub observed :
        o.system.observed
        ≡ tally (has_status "down") o.sources
          + (tally (has_status "degraded") o.sources + tally (has_status "healthy") o.sources)
    pub suspended :
        o.system.suspended
        ≡ tally is_open o.sources + tally (λ s. s.active && s.suspended) o.academic_sources
    pub is_down : str_eq o.system.status "down" ≡ ltb 0 (tally (has_status "down") o.sources)
    pub is_degraded : str_eq o.system.status "degraded" ≡ (
        tally (has_status "down") o.sources == 0 && ltb 0 (tally (has_status "degraded") o.sources))
    pub is_waiting : str_eq o.system.status "waiting" ≡ (
        tally (has_status "down") o.sources == 0
        && (tally (has_status "degraded") o.sources == 0
            && tally (has_status "healthy") o.sources == 0))
    pub is_healthy : str_eq o.system.status "healthy" ≡ (
        tally (has_status "down") o.sources == 0
        && (tally (has_status "degraded") o.sources == 0
            && ltb 0 (tally (has_status "healthy") o.sources)))

  summarize_all-counts :
      (f : SystemSummary → ℕ) (p : SourceView F → Bool)
      → ((s : SourceView F) (out : SystemSummary)
          → f (with_source s out) ≡ f out + (if p s then 1 else 0))
      → (xs : List (SourceView F)) (out : SystemSummary)
      → f (summarize_all xs out) ≡ f out + tally p xs
  unfolding summarize_all tally
  summarize_all-counts f p step [] out = omega arith
  summarize_all-counts f p step (s ∷ xs) out =
      omega (arith, step s out, summarize_all-counts f p step xs (with_source s out))

  count_suspended-tally :
      (xs : List (SourceView F)) → count_suspended xs ≡ tally (λ s. s.active && s.suspended) xs
  unfolding count_suspended tally
  count_suspended-tally [] = refl
  count_suspended-tally (s ∷ xs) = omega (arith, count_suspended-tally xs)

  down-with_source :
      (s : SourceView F) (out : SystemSummary)
      → (with_source s out).down ≡ out.down + (if has_status "down" s then 1 else 0)
  unfolding with_source
  down-with_source s out = ground arith

  degraded-with_source :
      (s : SourceView F) (out : SystemSummary)
      → (with_source s out).degraded ≡ out.degraded + (if has_status "degraded" s then 1 else 0)
  unfolding with_source
  degraded-with_source s out = ground (arith, not-both s.status "down" "degraded" refl)

  enabled-with_source :
      (s : SourceView F) (out : SystemSummary)
      → (with_source s out).enabled ≡ out.enabled + (if s.active then 1 else 0)
  unfolding with_source
  enabled-with_source s out = ground arith

  suspended-with_source :
      (s : SourceView F) (out : SystemSummary)
      → (with_source s out).suspended ≡ out.suspended + (if is_open s then 1 else 0)
  unfolding with_source
  suspended-with_source s out = ground arith

  seen : SourceView F → Bool
  seen s = has_status "down" s || (has_status "degraded" s || has_status "healthy" s)

  observed-with_source :
      (s : SourceView F) (out : SystemSummary)
      → (with_source s out).observed ≡ out.observed + (if seen s then 1 else 0)
  unfolding with_source seen
  observed-with_source s out = ground arith

  tally-seen :
      (xs : List (SourceView F))
      → tally seen xs
        ≡ tally (has_status "down") xs
          + (tally (has_status "degraded") xs + tally (has_status "healthy") xs)
  unfolding tally seen
  tally-seen [] = refl
  tally-seen (s ∷ xs) = ground (
    arith,
    tally-seen xs,
    not-both s.status "down" "degraded" refl,
    not-both s.status "down" "healthy" refl,
    not-both s.status "degraded" "healthy" refl,
  )

  module _ (web papers : List (SourceView F)) where
    sum : SystemSummary
    sum = summarize_all web waiting

    count :
        (f : SystemSummary → ℕ) (p : SourceView F → Bool)
        → f waiting ≡ 0
        → ((s : SourceView F) (out : SystemSummary)
            → f (with_source s out) ≡ f out + (if p s then 1 else 0))
        → f sum ≡ tally p web
    unfolding sum
    count f p zero_first step = omega (arith, summarize_all-counts f p step web waiting, zero_first)

    observed-sum :
        sum.observed
        ≡ tally (has_status "down") web
          + (tally (has_status "degraded") web + tally (has_status "healthy") web)
    observed-sum = count (λ o. o.observed) seen refl observed-with_source ∙ tally-seen web

    is_degraded-sum :
        str_eq (with_verdict sum).status "degraded"
        ≡ (tally (has_status "down") web == 0 && ltb 0 (tally (has_status "degraded") web))
    is_degraded-sum = ground (
      arith,
      is_degraded-status_of (ltb 0 sum.down) (ltb 0 sum.degraded) (sum.observed == 0),
      count (λ o. o.down) (has_status "down") refl down-with_source,
      count (λ o. o.degraded) (has_status "degraded") refl degraded-with_source,
    )

    is_waiting-sum : str_eq (with_verdict sum).status "waiting" ≡ (
        tally (has_status "down") web == 0
        && (tally (has_status "degraded") web == 0 && tally (has_status "healthy") web == 0))
    is_waiting-sum = ground (
      arith,
      is_waiting-status_of (ltb 0 sum.down) (ltb 0 sum.degraded) (sum.observed == 0),
      observed-sum,
      count (λ o. o.down) (has_status "down") refl down-with_source,
      count (λ o. o.degraded) (has_status "degraded") refl degraded-with_source,
    )

    is_healthy-sum : str_eq (with_verdict sum).status "healthy" ≡ (
        tally (has_status "down") web == 0
        && (tally (has_status "degraded") web == 0 && ltb 0 (tally (has_status "healthy") web)))
    is_healthy-sum = ground (
      arith,
      is_healthy-status_of (ltb 0 sum.down) (ltb 0 sum.degraded) (sum.observed == 0),
      observed-sum,
      count (λ o. o.down) (has_status "down") refl down-with_source,
      count (λ o. o.degraded) (has_status "degraded") refl degraded-with_source,
    )

    summary-Counted : Counted (record {
      system = record (summarize_system web) {
        suspended = (summarize_system web).suspended + count_suspended papers;
      };
      sources = web;
      academic_sources = papers;
    })
    unfolding sum
    summary-Counted = record {
      enabled = count (λ o. o.enabled) (λ s. s.active) refl enabled-with_source;
      down = count (λ o. o.down) (has_status "down") refl down-with_source;
      degraded = count (λ o. o.degraded) (has_status "degraded") refl degraded-with_source;
      observed = observed-sum;
      suspended = omega (
        arith,
        count (λ o. o.suspended) is_open refl suspended-with_source,
        count_suspended-tally papers,
      );
      is_down =
          is_down-status_of (ltb 0 sum.down) (ltb 0 sum.degraded) (sum.observed == 0)
          ∙ ap (ltb 0) (count (λ o. o.down) (has_status "down") refl down-with_source);
      is_degraded = is_degraded-sum;
      is_waiting = is_waiting-sum;
      is_healthy = is_healthy-sum;
    }

module _ {F : Type 0} where
  -- The summary of the overview counts the active sources of the web that the overview lists, in all and
  -- by status, and the open circuit breakers of both lists. Its verdict is "down" just if one of these
  -- sources is down, "degraded" just if none is down and one degraded, "healthy" just if none is down or
  -- degraded and one is healthy, and "waiting" just if none is any of the three.
  pub build_dashboard_overview-Counted :
      (sort_kinds : List (String × ℕ) → List (String × ℕ)) (text : Text) (conf : Config F)
      (academic : AcademicConfig) (network : String) (observed : List (Observed F))
      → Counted (build_dashboard_overview sort_kinds text conf academic network observed)
  unfolding build_dashboard_overview
  build_dashboard_overview-Counted sort_kinds text conf academic network observed =
      summary-Counted _ _
