-- ===== src/Telemetry/Recent.antt =====
-- The list of recent events (RecentFiltered in pkg/telemetry/store.go). `newest` is the statement's
-- `ORDER BY occurred_at DESC,id DESC`; a limit that is not positive is 0.
use websearch_mcpserver_dash.Prelude.{
  ℕ, ◌≤◌, String, Bool, true, false, not, ◌&&◌, ◌||◌, ◌≡◌, refl, ap, ◌∙◌, List, [], ◌∷◌, ◌++◌,
  arith, min, ltb, ◌==◌, if◌then◌else◌, length, length-take, take, keep, str_eq, tally, tally-true,
  tally-take-le, tally-keep-le, Keeps, eq_iff,
}
use websearch_mcpserver_dash.Telemetry.Store.{StoredEvent, Store}

pub record EventFilter : Type 0 where
  pub kind : String
  pub status : String
  pub source : String
  pub error_kind : String
  pub request_id : String
  pub limit : ℕ

-- A condition of the statement on a row.
abbrev pub Condition : Type 0
Condition = StoredEvent → Bool

abbrev pub row_limit : ℕ → ℕ
row_limit limit = if limit == 0 || ltb 500 limit then 100 else limit

abbrev pub append_if : Bool → Condition → List Condition → List Condition
append_if b c cs = if b then cs ++ c ∷ [] else cs

abbrev pub kind_conditions : EventFilter → List Condition
kind_conditions f =
    append_if (str_eq f.kind "provider" || str_eq f.kind "tool") (λ e. str_eq e.kind f.kind) []

abbrev pub status_conditions : EventFilter → List Condition → List Condition
status_conditions f cs =
    if str_eq f.status "success"
    then cs ++ (λ e. e.success == 1) ∷ []
    else append_if (str_eq f.status "failure") (λ e. e.success == 0) cs

abbrev pub source_condition : EventFilter → Condition
source_condition f e =
    if str_eq f.kind "provider"
    then str_eq e.provider f.source
    else if str_eq f.kind "tool"
    then str_eq e.tool f.source
    else str_eq e.provider f.source || str_eq e.tool f.source

-- The conditions that are appended to `where`, in their order.
abbrev pub conditions : EventFilter → List Condition
conditions f =
    append_if (not (str_eq f.request_id "")) (λ e. str_eq e.request_id f.request_id)
      (append_if (not (str_eq f.error_kind "")) (λ e. str_eq e.error_kind f.error_kind)
        (append_if (not (str_eq f.source "")) (source_condition f)
          (status_conditions f (kind_conditions f))))

unfoldable pub all_hold : List Condition → Condition
all_hold [] e = true
all_hold (c ∷ cs) e = c e && all_hold cs e

unfoldable pub recent_filtered :
    (List StoredEvent → List StoredEvent) → EventFilter → Store → List StoredEvent
recent_filtered newest f s =
    take (row_limit f.limit) (newest (keep (all_hold (conditions f)) s.usage_events))

-- What a filter asks of an event: a field that is empty, or has no known value, asks nothing.
abbrev asks : Bool → Bool → Bool
asks asked holds = not asked || holds

abbrev pub status_matches : EventFilter → Condition
status_matches f e =
    asks (str_eq f.status "success") (e.success == 1)
    && asks (str_eq f.status "failure") (e.success == 0)

abbrev pub matches : EventFilter → Condition
matches f e =
    (((asks (str_eq f.kind "provider" || str_eq f.kind "tool") (str_eq e.kind f.kind)
          && status_matches f e)
        && asks (not (str_eq f.source "")) (source_condition f e))
      && asks (not (str_eq f.error_kind "")) (str_eq e.error_kind f.error_kind))
    && asks (not (str_eq f.request_id "")) (str_eq e.request_id f.request_id)

all_hold-append :
    (cs : List Condition) (c : Condition) (e : StoredEvent)
    → all_hold (cs ++ c ∷ []) e ≡ (all_hold cs e && c e)
unfolding all_hold
all_hold-append [] c e = ground arith
all_hold-append (d ∷ cs) c e = ground (arith, all_hold-append cs c e)

all_hold-append_if :
    (b : Bool) (c : Condition) (cs : List Condition) (e : StoredEvent)
    → all_hold (append_if b c cs) e ≡ (all_hold cs e && (not b || c e))
all_hold-append_if true c cs e = all_hold-append cs c e
all_hold-append_if false c cs e = ground arith

all_hold-status :
    (f : EventFilter) (cs : List Condition) (e : StoredEvent) (b : Bool)
    → str_eq f.status "success" ≡ b
    → all_hold
        (if b
          then cs ++ (λ d. d.success == 1) ∷ []
          else append_if (str_eq f.status "failure") (λ d. d.success == 0) cs)
        e
      ≡ (all_hold cs e && status_matches f e)
all_hold-status f cs e true h =
    let is_success : f.status ≡ "success" = ground (arith, h, eq_iff f.status "success") in
    let not_failure : str_eq f.status "failure" ≡ false =
      ap (λ status. str_eq status "failure") is_success in
    ground (arith, h, not_failure, all_hold-append cs (λ d. d.success == 1) e)
all_hold-status f cs e false h =
    ground (arith, h, all_hold-append_if (str_eq f.status "failure") (λ d. d.success == 0) cs e)

all_hold-conditions : (f : EventFilter) (e : StoredEvent) → all_hold (conditions f) e ≡ matches f e
unfolding all_hold
all_hold-conditions f e =
    let kind = kind_conditions f in
    let status = status_conditions f kind in
    let source = append_if (not (str_eq f.source "")) (source_condition f) status in
    let error : List Condition =
      append_if (not (str_eq f.error_kind "")) (λ d. str_eq d.error_kind f.error_kind) source in
    let by_request =
      all_hold-append_if (not (str_eq f.request_id "")) (λ d. str_eq d.request_id f.request_id)
        error e in
    let by_error =
      all_hold-append_if (not (str_eq f.error_kind "")) (λ d. str_eq d.error_kind f.error_kind)
        source e in
    let by_source = all_hold-append_if (not (str_eq f.source "")) (source_condition f) status e in
    let by_status = all_hold-status f kind e (str_eq f.status "success") refl in
    let by_kind =
      all_hold-append_if (str_eq f.kind "provider" || str_eq f.kind "tool")
        (λ d. str_eq d.kind f.kind) [] e in
    let asks_error = asks (not (str_eq f.error_kind "")) (str_eq e.error_kind f.error_kind) in
    let asks_request = asks (not (str_eq f.request_id "")) (str_eq e.request_id f.request_id) in
    let asks_source = asks (not (str_eq f.source "")) (source_condition f e) in
    let to_status = by_status ∙ ap (λ b. b && status_matches f e) by_kind in
    let to_source = by_source ∙ ap (λ b. b && asks_source) to_status in
    let to_error = by_error ∙ ap (λ b. b && asks_error) to_source in
    by_request ∙ ap (λ b. b && asks_request) to_error

length-keep : (p : Condition) (es : List StoredEvent) → length (keep p es) ≡ tally p es
unfolding tally
length-keep p [] = refl
length-keep p (e ∷ es) = ground (arith, length-keep p es)

tally-keep_same :
    (p q : Condition)
    → ((e : StoredEvent) → p e ≡ q e)
    → (es : List StoredEvent) → (tally p es ≡ tally q es) × (tally (λ e. not (q e)) (keep p es) ≡ 0)
unfolding tally
tally-keep_same p q same [] = (refl, refl)
tally-keep_same p q same (e ∷ es) = ground (arith, same e, tally-keep_same p q same es)

-- RecentFiltered returns only events that match its filter, and of those as many as its limit allows,
-- which is never above 500; no event comes more often than it is stored. The statement's sort is asked
-- to keep every row.
pub recent_filtered-matches :
    (newest : List StoredEvent → List StoredEvent)
    → Keeps newest
    → (f : EventFilter) (s : Store) (test : Condition)
    → (tally (λ e. not (matches f e)) (recent_filtered newest f s) ≡ 0)
      × (length (recent_filtered newest f s)
          ≡ min (row_limit f.limit) (tally (matches f) s.usage_events))
      × (length (recent_filtered newest f s) ≤ 500)
      × (tally test (recent_filtered newest f s) ≤ tally test s.usage_events)
unfolding recent_filtered
recent_filtered-matches newest keeps f s test =
    let kept = keep (all_hold (conditions f)) s.usage_events in
    let limit = row_limit f.limit in
    let (same, none_else) =
      tally-keep_same (all_hold (conditions f)) (matches f) (all_hold-conditions f)
        s.usage_events in
    let cut : (q : Condition) → tally q (take limit (newest kept)) ≤ tally q kept =
      λ q. omega (arith, tally-take-le q limit (newest kept), keeps q kept) in
    let size : length (take limit (newest kept)) ≡ min limit (tally (matches f) s.usage_events) =
      omega (
        arith,
        length-take limit (newest kept),
        tally-true (newest kept),
        keeps (λ e. true) kept,
        tally-true kept,
        length-keep (all_hold (conditions f)) s.usage_events,
        same,
      ) in
    let small : limit ≤ 500 = ground arith in
    (
      omega (arith, cut (λ e. not (matches f e)), none_else),
      size,
      omega (arith, size, small),
      omega (arith, cut test, tally-keep-le test (all_hold (conditions f)) s.usage_events),
    )
