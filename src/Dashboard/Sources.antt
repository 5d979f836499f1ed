-- ===== src/Dashboard/Sources.antt =====
-- The sources that the dashboard shows, joined to what telemetry observed (pkg/dashboard/sources.go).
-- A time is a number, `none` for the empty text; the texts of the source compare like the times.
use websearch_mcpserver_dash.Prelude.{
  ℕ, ◌+◌, String, Bool, true, false, not, ◌&&◌, ◌||◌, Option, none, some, List, [], ◌∷◌, map, ltb,
  ◌==◌, if◌then◌else◌, length, str_eq,
}
use websearch_mcpserver_dash.Telemetry.Health.{Health}
use websearch_mcpserver_dash.Telemetry.Store.{DailyUsage}

-- telemetry.Health with its name, its P95MS and today's counts.
pub record Observed (F : Type 0) : Type 0 where
  pub name : String
  pub health : Health F
  pub p95_ms : ℕ
  pub today : DailyUsage

-- `health` stands for the fields that are copied from the chosen alias.
pub record SourceView (F : Type 0) : Type 0 where
  pub id : String
  pub group : String
  pub configured : Bool
  pub active : Bool
  pub quota_queryable : Bool
  pub aliases : List String
  pub status : String
  pub state : String
  pub health : Option (Health F)
  pub today : DailyUsage
  pub suspended : Bool
  pub p95_ms : ℕ
  pub error_kinds : List (String × ℕ)

abbrev pub no_usage : DailyUsage
no_usage = record {
  key = record { day = ""; kind = ""; tool = ""; provider = "" };
  requests = 0;
  successes = 0;
  failures = 0;
  cache_hits = 0;
  duration_ms = 0;
  result_count = 0;
}

-- A source of the catalog, before it is joined.
abbrev pub source_view : {F : Type 0} → String → String → Bool → Bool → List String → SourceView F
source_view id group configured active aliases = record {
  id = id;
  group = group;
  configured = configured;
  active = active;
  quota_queryable = str_eq id "tavily";
  aliases = aliases;
  status = "";
  state = "";
  health = none;
  today = no_usage;
  suspended = false;
  p95_ms = 0;
  error_kinds = [];
}

-- `counts[kind] += n`
unfoldable pub add_kind : String → ℕ → List (String × ℕ) → List (String × ℕ)
add_kind kind n [] = (kind, n) ∷ []
add_kind kind n ((k, m) ∷ ks) =
    if str_eq kind k then (k, m + n) ∷ ks else (k, m) ∷ add_kind kind n ks

unfoldable pub add_kinds : List (String × ℕ) → List (String × ℕ) → List (String × ℕ)
add_kinds [] counts = counts
add_kinds ((k, n) ∷ ks) counts = add_kinds ks (add_kind k n counts)

-- `sort_kinds` is sort.Slice by descending count, and by kind.
unfoldable pub merge_error_kind_counts :
    (List (String × ℕ) → List (String × ℕ))
    → List (String × ℕ)
    → List (String × ℕ)
    → List (String × ℕ)
merge_error_kind_counts sort_kinds current incoming =
    if length incoming == 0 then current else sort_kinds (add_kinds incoming (add_kinds current []))

-- `a > b` on the texts of two times.
abbrev pub later : Option ℕ → Option ℕ → Bool
later none b = false
later (some a) none = true
later (some a) (some b) = ltb b a

-- The variables of the loop over the aliases.
pub record Joining (F : Type 0) : Type 0 where
  pub chosen : Option (Observed F)
  pub p95_ms : ℕ
  pub today : DailyUsage
  pub error_kinds : List (String × ℕ)

-- The key of the first alias that was found, and the sums.
abbrev pub added : String → DailyUsage → DailyUsage → DailyUsage
added id sum t = record {
  key =
      if str_eq sum.key.day ""
      then record { day = t.key.day; kind = "provider"; tool = sum.key.tool; provider = id }
      else sum.key;
  requests = sum.requests + t.requests;
  successes = sum.successes + t.successes;
  failures = sum.failures + t.failures;
  cache_hits = sum.cache_hits + t.cache_hits;
  duration_ms = sum.duration_ms + t.duration_ms;
  result_count = sum.result_count + t.result_count;
}

abbrev pub has_time : Option ℕ → Bool
has_time none = false
has_time (some t) = true

module _ {F : Type 0} where
  -- The map of names, in which a later entry replaces an earlier one.
  unfoldable pub by_name : String → List (Observed F) → Option (Observed F)
  by_name name [] = none
  by_name name (h ∷ hs) = elim (by_name name hs) [
    | some c ↦ some c
    | none ↦ if str_eq name h.name then some h else none
  ]

  abbrev pub is_newer : Observed F → Option (Observed F) → Bool
  is_newer c none = true
  is_newer c (some h) = later c.health.last_seen_at h.health.last_seen_at

  -- A pause that has ended is shown as the status.
  abbrev pub shown_state : Health F → String
  shown_state h =
      if str_eq h.state "" || (str_eq h.state "suspended" && not (has_time h.suspended_until))
      then h.status
      else h.state

  abbrev pub with_joining : SourceView F → Joining F → Option (Observed F) → SourceView F
  with_joining s j none = record s {
    status = "unknown";
    state = "unknown";
    error_kinds = j.error_kinds;
  }
  with_joining s j (some c) = record s {
    status = c.health.status;
    state = shown_state c.health;
    health = some c.health;
    today = j.today;
    suspended = has_time c.health.suspended_until;
    p95_ms = j.p95_ms;
    error_kinds = j.error_kinds;
  }

  module _ (sort_kinds : List (String × ℕ) → List (String × ℕ)) where
    -- One alias that was found. `h = candidate` also replaces the largest P95 so far.
    unfoldable pub join_candidate : String → Observed F → Joining F → Joining F
    join_candidate id c j =
        let newer = is_newer c j.chosen in
        record {
          chosen = if newer then some c else j.chosen;
          p95_ms = if newer then c.p95_ms else if ltb j.p95_ms c.p95_ms then c.p95_ms else j.p95_ms;
          today = added id j.today c.today;
          error_kinds = merge_error_kind_counts sort_kinds j.error_kinds c.health.error_kinds;
        }

    unfoldable pub join_aliases : String → List (Observed F) → List String → Joining F → Joining F
    join_aliases id observed [] j = j
    join_aliases id observed (a ∷ as') j = elim (by_name a observed) [
      | none ↦ join_aliases id observed as' j
      | some c ↦ join_aliases id observed as' (join_candidate id c j)
    ]

    unfoldable pub join_source : List (Observed F) → SourceView F → SourceView F
    join_source observed s =
        let j =
          join_aliases s.id observed s.aliases
            (record { chosen = none; p95_ms = 0; today = no_usage; error_kinds = s.error_kinds }) in
        if not s.configured
        then record s { status = "not_configured" }
        else if not s.active
        then record s { status = "inactive" }
        else with_joining s j j.chosen

    unfoldable pub join_sources : List (Observed F) → List (SourceView F) → List (SourceView F)
    join_sources observed defs = map (join_source observed) defs
