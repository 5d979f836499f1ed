-- ===== src/Dashboard/Summary.antt =====
-- The summary of the system, the academic sources and the overview (pkg/dashboard/sources.go). The
-- copied overview of telemetry and the fixed list of tools are left out.
use websearch_mcpserver_dash.Prelude.{
  ℕ, ◌+◌, String, Bool, true, false, not, ◌&&◌, ◌||◌, List, [], ◌∷◌, map, ltb, ◌==◌, if◌then◌else◌,
  str_eq,
}
use websearch_mcpserver_dash.Go.{Text}
use websearch_mcpserver_dash.Modes.Config.{Config}
use websearch_mcpserver_dash.Dashboard.Sources.{SourceView, source_view, Observed, join_sources}
use websearch_mcpserver_dash.Dashboard.Catalog.{web_source_catalog}

pub record SystemSummary : Type 0 where
  pub status : String
  pub enabled : ℕ
  pub observed : ℕ
  pub degraded : ℕ
  pub down : ℕ
  pub suspended : ℕ

pub record AcademicConfig : Type 0 where
  pub enabled : Bool
  pub disable_arxiv : Bool
  pub disable_crossref : Bool
  pub disable_open_alex : Bool
  pub disable_pub_med : Bool
  pub disable_europe_pmc : Bool
  pub disable_dblp : Bool
  pub disable_doaj : Bool
  pub disable_semantic_scholar : Bool
  pub disable_google_scholar : Bool

abbrev pub is_international : Text → String → Bool
is_international text network =
    str_eq (text.to_lower network) "international" || str_eq (text.to_lower network) "intl"

-- An entry of `defs` in academicSourceCatalog.
pub record AcademicSource : Type 0 where
  pub id : String
  pub disabled : Bool
  pub intl_only : Bool

-- The switch on the status of a source.
abbrev pub with_status : String → SystemSummary → SystemSummary
with_status status out =
    if str_eq status "down"
    then record out { down = out.down + 1; observed = out.observed + 1 }
    else if str_eq status "degraded"
    then record out { degraded = out.degraded + 1; observed = out.observed + 1 }
    else if str_eq status "healthy"
    then record out { observed = out.observed + 1 }
    else out

-- The verdict after the loop.
abbrev pub with_verdict : SystemSummary → SystemSummary
with_verdict out = record out {
  status =
      if ltb 0 out.down
      then "down"
      else if ltb 0 out.degraded
      then "degraded"
      else if out.observed == 0
      then "waiting"
      else "healthy";
}

abbrev pub waiting : SystemSummary
waiting = record {
  status = "waiting";
  enabled = 0;
  observed = 0;
  degraded = 0;
  down = 0;
  suspended = 0;
}

-- dashboardOverview
pub record Overview (F : Type 0) : Type 0 where
  pub system : SystemSummary
  pub sources : List (SourceView F)
  pub academic_sources : List (SourceView F)

module _ {F : Type 0} where
  -- One round of the loop.
  unfoldable pub with_source : SourceView F → SystemSummary → SystemSummary
  with_source s out =
      if not s.active
      then out
      else with_status s.status (record out {
        enabled = out.enabled + 1;
        suspended =
            if s.suspended || str_eq s.state "suspended" then out.suspended + 1 else out.suspended;
      })

  unfoldable pub summarize_all : List (SourceView F) → SystemSummary → SystemSummary
  summarize_all [] out = out
  summarize_all (s ∷ sources) out = summarize_all sources (with_source s out)

  abbrev pub summarize_system : List (SourceView F) → SystemSummary
  summarize_system sources = with_verdict (summarize_all sources waiting)

  unfoldable pub count_suspended : List (SourceView F) → ℕ
  count_suspended [] = 0
  count_suspended (s ∷ sources) =
      (if s.active && s.suspended then 1 else 0) + count_suspended sources

  abbrev pub academic_source : AcademicConfig → Bool → AcademicSource → SourceView F
  academic_source academic reaches_abroad d =
      let configured = academic.enabled && not d.disabled in
      source_view d.id "academic" configured (configured && (not d.intl_only || reaches_abroad))
        (d.id ∷ [])

  unfoldable pub academic_source_catalog :
      Text → Config F → AcademicConfig → String → List (SourceView F)
  academic_source_catalog text conf a network =
      map (academic_source a (is_international text network && conf.has_proxy)) (
        record { id = "arxiv"; disabled = a.disable_arxiv; intl_only = false }
        ∷ record { id = "crossref"; disabled = a.disable_crossref; intl_only = false }
        ∷ record { id = "openalex"; disabled = a.disable_open_alex; intl_only = false }
        ∷ record { id = "pubmed"; disabled = a.disable_pub_med; intl_only = false }
        ∷ record { id = "europepmc"; disabled = a.disable_europe_pmc; intl_only = false }
        ∷ record { id = "dblp"; disabled = a.disable_dblp; intl_only = false }
        ∷ record { id = "doaj"; disabled = a.disable_doaj; intl_only = false }
        ∷ record {
          id = "semantic_scholar";
          disabled = a.disable_semantic_scholar;
          intl_only = true;
        }
        ∷ record { id = "google_scholar"; disabled = a.disable_google_scholar; intl_only = true }
        ∷ [])

  unfoldable pub build_dashboard_overview :
      (List (String × ℕ) → List (String × ℕ))
      → Text
      → Config F
      → AcademicConfig
      → String
      → List (Observed F)
      → Overview F
  build_dashboard_overview sort_kinds text conf academic network observed =
      let web = join_sources sort_kinds observed (web_source_catalog text conf) in
      let papers =
        join_sources sort_kinds observed (academic_source_catalog text conf academic network) in
      let summary = summarize_system web in
      record {
        system = record summary { suspended = summary.suspended + count_suspended papers };
        sources = web;
        academic_sources = papers;
      }
