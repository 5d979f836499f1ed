-- ===== src/Tools/Kept.antt =====
-- What Lookup finds of the answer that finishWebSearch has stored (mcp/tool_search.go).
use websearch_mcpserver_dash.Prelude.{
  ℕ, String, Bool, true, false, ◌≡◌, ◌≢◌, refl, sym, ap, ◌∙◌, Option, none, some, List, arith,
  if◌then◌else◌, str_eq, eq_iff,
}
use mathlib.Core.Path.{subst}
use websearch_mcpserver_dash.Core.{SearchResult}
use websearch_mcpserver_dash.Cache.{
  Statement, exact_match, write, CacheRecord, HitType, exact_intent, query_only, Db, LookedUp, hit,
  lookup, store, Row,
}
use websearch_mcpserver_dash.Cache.Hits.{lookup-store}
use websearch_mcpserver_dash.Tools.Types.{Fallible, good, bad, SearchEngine, Server, CacheCalls}
use websearch_mcpserver_dash.Tools.Finish.{
  SummaryTask, raw_answer, task_for, finish_cached_web_search, summary_output, stored,
  finish_web_search,
}
use websearch_mcpserver_dash.Tools.Again.{IsCodec}

module _ {F : Type 0} (server : Server F) (api : SearchEngine F) (calls : CacheCalls F)
    (query key intent : String) where
  stored-store :
      (rs : List (SearchResult F)) (summary raw : String) (db : Db)
      → server.has_cache ≡ true
      → calls.store_fault write ≡ false
      → calls.marshal rs ≡ some raw
      → store calls.store_fault calls.marshal calls.store_at key intent false rs summary db
        ≡ some (stored server api calls key intent rs summary db)
  unfolding stored store
  stored-store rs summary raw db on works coded = ground (arith, on, works, coded)

  -- What Lookup finds after finishWebSearch, and what finishCachedWebSearch makes of it.
  abbrev pub Kept :
      (String → Option (List (SearchResult F))) → (Db → LookedUp) → String → Db → Type 0
  Kept unmarshal look t db =
      (rec : CacheRecord) × (kind : HitType) × (task : Option (SummaryTask F)) × (look db
        ≡ hit rec kind)
      × (rec.academic ≡ false)
      × (finish_cached_web_search server api unmarshal rec kind query key intent ≡ some (t, task))

  raw_answer-good :
      (unmarshal : String → Option (List (SearchResult F))) (rec : CacheRecord)
      (rs : List (SearchResult F)) (t : String)
      → unmarshal rec.raw_results ≡ some rs
      → api.merge_content query rs ≡ good t
      → raw_answer server api unmarshal rec query key intent
        ≡ some (t, task_for server api query key intent rec rs)
  unfolding raw_answer
  raw_answer-good unmarshal rec rs t is_raw merges = ground (arith, is_raw, merges)

  module _ (unmarshal : String → Option (List (SearchResult F)))
      (codec : IsCodec calls.marshal unmarshal) (on : server.has_cache ≡ true)
      (works : calls.store_fault write ≡ false) (fault : Statement → Bool)
      (newest : List Row → Option Row) (at : ℕ) (reads : fault exact_match ≡ false) where
    abbrev pub look : Db → LookedUp
    look db = (lookup fault newest at key intent false db).1

    found_again :
        (rs : List (SearchResult F)) (summary : String) (db : Db)
        → calls.marshal rs ≢ none
        → (rec : CacheRecord) × (look (stored server api calls key intent rs summary db)
            ≡ hit rec (if str_eq summary "" then query_only else exact_intent))
          × (unmarshal rec.raw_results ≡ some rs)
          × (rec.summary ≡ summary)
          × (rec.academic ≡ false)
    found_again rs summary db encodes = by_raw (calls.marshal rs) refl
      where
        by_raw :
            (o : Option String)
            → calls.marshal rs ≡ o
            → (rec : CacheRecord) × (look (stored server api calls key intent rs summary db)
                ≡ hit rec (if str_eq summary "" then query_only else exact_intent))
              × (unmarshal rec.raw_results ≡ some rs)
              × (rec.summary ≡ summary)
              × (rec.academic ≡ false)
        by_raw none eq = absurd (encodes eq)
        by_raw (some raw) eq =
            lookup-store calls.marshal unmarshal codec calls.store_fault fault newest calls.store_at
              at key intent false rs summary db (stored server api calls key intent rs summary db)
              (stored-store rs summary raw db on works eq) reads

    -- Stored with the summary that was the answer.
    summary-Kept :
        (rs : List (SearchResult F)) (t : String) (db : Db)
        → t ≢ ""
        → calls.marshal rs ≢ none
        → Kept unmarshal look t (stored server api calls key intent rs t db)
    unfolding finish_cached_web_search
    summary-Kept rs t db some_text encodes =
        let (rec, found, is_raw, is_summary, web) = found_again rs t db encodes in
        let not_empty : str_eq t "" ≡ false = ground (arith, eq_iff t "") in
        (
          rec,
          exact_intent,
          none,
          found ∙ ap (λ b. hit rec (if b then query_only else exact_intent)) not_empty,
          web,
          ground (arith, not_empty, is_summary),
        )

    -- Stored without a summary, after the plain list was the answer.
    raw-Kept :
        (rs : List (SearchResult F)) (t : String) (db : Db)
        → api.merge_content query rs ≡ good t
        → calls.marshal rs ≢ none
        → Kept unmarshal look t (stored server api calls key intent rs "" db)
    unfolding finish_cached_web_search
    raw-Kept rs t db merges encodes =
        let (rec, found, is_raw, is_summary, web) = found_again rs "" db encodes in
        (
          rec,
          query_only,
          task_for server api query key intent rec rs,
          found,
          web,
          raw_answer-good unmarshal rec rs t is_raw merges,
        )

    pub finish-Kept :
        (rs : List (SearchResult F)) (t : String) (db db' : Db)
        → finish_web_search server api calls query intent key rs db ≡ (db', good t)
        → t ≢ ""
        → calls.marshal rs ≢ none
        → Kept unmarshal look t db'
    unfolding finish_web_search
    finish-Kept rs t db db' ends some_text encodes =
        by_summary (summary_output server api query intent rs) ends
      where
        plain : Fallible String → Db × Fallible String
        plain m = elim m [
          | bad e ↦ (db, bad e)
          | good text ↦ (stored server api calls key intent rs "" db, good text)
        ]

        out : Option String → Db × Fallible String
        out o = elim o [
          | some output ↦ (stored server api calls key intent rs output db, good output)
          | none ↦ plain (api.merge_content query rs)
        ]

        by_format :
            (m : Fallible String)
            → api.merge_content query rs ≡ m
            → plain m ≡ (db', good t)
            → Kept unmarshal look t db'
        by_format (bad e) eq h = absurd (cc h)
        by_format (good text) eq h =
            subst (λ d. Kept unmarshal look t d) (ap (λ p. p.0) h)
              (raw-Kept rs t db (cc (eq, h)) encodes)

        by_summary : (o : Option String) → out o ≡ (db', good t) → Kept unmarshal look t db'
        by_summary none h = by_format (api.merge_content query rs) refl h
        by_summary (some output) h =
            let same : output ≡ t = cc h in
            subst (λ d. Kept unmarshal look t d)
              (ap (λ s. stored server api calls key intent rs s db) (sym same) ∙ ap (λ p. p.0) h)
              (summary-Kept rs t db some_text encodes)
