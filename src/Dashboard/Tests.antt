-- ===== src/Dashboard/Tests.antt =====
-- The dashboard of concrete configurations and observations (pkg/dashboard/sources.go).
use websearch_mcpserver_dash.Prelude.{
  ℕ, String, true, false, ◌≡◌, refl, List, none, some, [], ◌∷◌, map,
}
use websearch_mcpserver_dash.KeyPool.{new_key_pool, filter_keys}
use websearch_mcpserver_dash.Telemetry.Health.{Health}
use websearch_mcpserver_dash.Modes.Config.{get_mode}
use websearch_mcpserver_dash.Modes.Group.{new_key_pool_from_list, new_from_config}
use websearch_mcpserver_dash.Modes.Sample.{same_text, config, one_key}
use websearch_mcpserver_dash.Dashboard.Sources.{
  Observed, SourceView, no_usage, source_view, by_name, join_source, join_aliases, join_candidate,
}
use websearch_mcpserver_dash.Dashboard.Catalog.{
  api_configured, engine_configured, active_in, web_source_catalog,
}
use websearch_mcpserver_dash.Dashboard.Summary.{AcademicConfig, build_dashboard_overview}
use websearch_mcpserver_dash.Dashboard.Joins.{candidates}
use websearch_mcpserver_dash.Dashboard.Shown.{Shown, join_source-Shown}
use websearch_mcpserver_dash.Dashboard.Running.{runs}
use websearch_mcpserver_dash.Dashboard.Agree.{Keyed}
use websearch_mcpserver_dash.Dashboard.Active.{web_source_catalog-runs}
use websearch_mcpserver_dash.Dashboard.Counted.{Counted, build_dashboard_overview-Counted}

-- The health of a provider that was seen at a time.
abbrev seen_at : ℕ → String → Health ℕ
seen_at time status = record {
  status = status;
  state = "";
  confidence = "low";
  last_seen_at = some time;
  last_success_at = none;
  last_failure_at = some time;
  last_error = "timeout";
  failure_rate = 1;
  sample_size = 1;
  consecutive_failures = 1;
  recent_outcomes = false ∷ [];
  p95_ms = some 40;
  error_kinds = ("timeout", 1) ∷ [];
  suspended_until = none;
  suspend_reason = "";
}

abbrev failed_at : String → ℕ → String → ℕ → Observed ℕ
failed_at name time status p95 = record {
  name = name;
  health = seen_at time status;
  p95_ms = p95;
  today = record no_usage { requests = 2; failures = 2 };
}

-- Tavily under both of its names; the second was seen later, and was faster.
abbrev two_names : List (Observed ℕ)
two_names = failed_at "tavily" 10 "down" 900 ∷ failed_at "tavily_api" 20 "degraded" 40 ∷ []

abbrev tavily : SourceView ℕ
tavily = source_view "tavily" "web" true true ("tavily" ∷ "tavily_api" ∷ [])

-- The slower name's P95 is lost.
slower_forgotten : (join_source (λ ks. ks) two_names tavily).p95_ms ≡ 40
unfolding join_source join_aliases by_name join_candidate
slower_forgotten = refl

join_source-Shown_example :
    Shown (λ ks. ks) two_names "timeout" (join_source (λ ks. ks) two_names tavily)
unfolding candidates by_name
join_source-Shown_example =
    join_source-Shown (λ ks. ks) (λ x ks. refl) two_names tavily "timeout"
      (failed_at "tavily" 10 "down" 900) (failed_at "tavily_api" 20 "degraded" 40 ∷ []) refl refl
      refl refl

abbrev papers : AcademicConfig
papers = record {
  enabled = true;
  disable_arxiv = false;
  disable_crossref = true;
  disable_open_alex = false;
  disable_pub_med = false;
  disable_europe_pmc = false;
  disable_dblp = false;
  disable_doaj = false;
  disable_semantic_scholar = false;
  disable_google_scholar = false;
}

build_dashboard_overview-Counted_example : Counted (
    build_dashboard_overview
      (λ ks. ks)
      same_text
      (config "tavily" one_key true)
      papers
      "intl"
      two_names)
build_dashboard_overview-Counted_example =
    build_dashboard_overview-Counted (λ ks. ks) same_text (config "tavily" one_key true) papers
      "intl" two_names

keyed : Keyed same_text (config "hybrid" one_key true)
unfolding new_key_pool_from_list new_key_pool filter_keys
keyed = record { anysearch = refl; baidu = refl; tavily = refl; exa = refl; doubao = refl }

web_source_catalog-runs_example :
    false ∷ false ∷ true ∷ false ∷ false ∷ true ∷ true ∷ false ∷ false ∷ []
    ≡ map
        (λ s. runs s.id (new_from_config same_text (config "hybrid" one_key true)))
        (web_source_catalog same_text (config "hybrid" one_key true))
unfolding web_source_catalog active_in api_configured engine_configured get_mode
web_source_catalog-runs_example =
    web_source_catalog-runs same_text (config "hybrid" one_key true) keyed
