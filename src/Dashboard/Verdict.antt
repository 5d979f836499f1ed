-- ===== src/Dashboard/Verdict.antt =====
-- The verdict of the dashboard's summary by its three tests (pkg/dashboard/sources.go).
use websearch_mcpserver_dash.Prelude.{
  String, Bool, true, false, not, ◌&&◌, ◌≡◌, refl, if◌then◌else◌, str_eq,
}

abbrev pub status_of : Bool → Bool → Bool → String
status_of down degraded nothing =
    if down
    then "down"
    else if degraded
    then "degraded"
    else if nothing
    then "waiting"
    else "healthy"

pub is_down-status_of :
    (down degraded nothing : Bool) → str_eq (status_of down degraded nothing) "down" ≡ down
is_down-status_of true degraded nothing = refl
is_down-status_of false true nothing = refl
is_down-status_of false false true = refl
is_down-status_of false false false = refl

pub is_degraded-status_of :
    (down degraded nothing : Bool)
    → str_eq (status_of down degraded nothing) "degraded" ≡ (not down && degraded)
is_degraded-status_of true degraded nothing = refl
is_degraded-status_of false true nothing = refl
is_degraded-status_of false false true = refl
is_degraded-status_of false false false = refl

pub is_waiting-status_of :
    (down degraded nothing : Bool)
    → str_eq (status_of down degraded nothing) "waiting" ≡ (not down && (not degraded && nothing))
is_waiting-status_of true degraded nothing = refl
is_waiting-status_of false true nothing = refl
is_waiting-status_of false false true = refl
is_waiting-status_of false false false = refl

pub is_healthy-status_of :
    (down degraded nothing : Bool)
    → str_eq (status_of down degraded nothing) "healthy"
      ≡ (not down && (not degraded && not nothing))
is_healthy-status_of true degraded nothing = refl
is_healthy-status_of false true nothing = refl
is_healthy-status_of false false true = refl
is_healthy-status_of false false false = refl
