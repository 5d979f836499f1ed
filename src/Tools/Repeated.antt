-- ===== src/Tools/Repeated.antt =====
-- A second call of smartsearch with the same words (mcp/tool_search.go): the cache answers.
use websearch_mcpserver_dash.Prelude.{
  ℕ, String, Bool, true, false, ◌≡◌, ◌≢◌, refl, sym, ap, ◌∙◌, Option, some, List, [], ◌∷◌,
  if◌then◌else◌,
}
use mathlib.Core.Path.{subst}
use websearch_mcpserver_dash.Go.{Text}
use websearch_mcpserver_dash.Core.{Float}
use websearch_mcpserver_dash.Cache.{
  exact_match, write, CacheRecord, HitType, Db, LookedUp, hit, lookup,
}
use websearch_mcpserver_dash.Tools.Types.{
  ℤ, good, SearchEngine, Server, ToolText, effective_fetch_top_n, lookback_days,
}
use websearch_mcpserver_dash.Tools.Finish.{
  SummaryTask, web_search_cache_query, finish_cached_web_search,
}
use websearch_mcpserver_dash.Tools.WebSearch.{
  Handled, Outside, web_search, second_lookup, from_cache, at_key, with_api, handled, do_web_search,
}
use websearch_mcpserver_dash.Tools.Again.{IsCodec, Encodes, with_api-Finishes}
use websearch_mcpserver_dash.Tools.Kept.{finish-Kept}

abbrev Answers : {F : Type 0} → String → Handled F → Type 0
Answers t h = (h.reply ≡ good t) × (h.searched ≡ [])

module _ {F : Type 0} (fl : Float F) (text : Text) (tool : ToolText) (server : Server F)
    (outside : Outside F) (api : SearchEngine F) (query intent : String) (n : ℕ) (days : ℤ) where
  -- A hit that can be made into an answer is the answer, and no engine is asked.
  with_api-hit :
      (db : Db) (rec : CacheRecord) (kind : HitType) (t : String) (task : Option (SummaryTask F))
      → server.has_cache ≡ true
      → (lookup outside.calls.first_fault outside.calls.newest outside.calls.first_at
          (web_search_cache_query text tool query n)
          intent
          false
          db).1
        ≡ hit rec kind
      → rec.academic ≡ false
      → finish_cached_web_search server api outside.calls.unmarshal rec kind query
          (web_search_cache_query text tool query n)
          intent
        ≡ some (t, task)
      → ((with_api fl text tool server outside api query intent n days db).reply ≡ good t)
        × ((with_api fl text tool server outside api query intent n days db).searched ≡ [])
  unfolding with_api
  with_api-hit db rec kind t task on found web answers = by_cache server.has_cache on
    where
      looked : Db × LookedUp
      looked =
          lookup outside.calls.first_fault outside.calls.newest outside.calls.first_at
            (web_search_cache_query text tool query n) intent false db

      from : Bool → Handled F
      from b =
          if b
          then at_key fl text tool server outside api query intent n looked.1 days looked.0
          else web_search fl text tool server outside api query intent n days db

      by_kind :
          (a : Bool)
          → a ≡ false
          → Answers t (
              if a
              then second_lookup fl text tool server outside api query intent n days looked.0
              else from_cache fl text tool server outside api query intent n
                  (finish_cached_web_search server api outside.calls.unmarshal rec kind query
                    (web_search_cache_query text tool query n)
                    intent)
                  rec
                  days
                  looked.0)
      by_kind true web = absurd (cc web)
      by_kind false web =
          subst
            (λ o.
              Answers t
                (from_cache fl text tool server outside api query intent n o rec days looked.0))
            (sym answers) (refl, refl)

      by_cache : (b : Bool) → b ≡ true → Answers t (from b)
      by_cache true on =
          subst
            (λ l. Answers t (at_key fl text tool server outside api query intent n l days looked.0))
            (sym found) (by_kind rec.academic web)
      by_cache false on = absurd (cc on)

module _ {F : Type 0} (fl : Float F) (text : Text) (tool : ToolText) (server : Server F)
    (api : SearchEngine F) (outside later : Outside F) where
  do_web_search-api :
      (o : Outside F) (query intent : String) (months : ℤ) (top_n : Option ℤ) (db : Db)
      → server.searchapi ≡ some api
      → do_web_search fl text tool server o query intent months top_n db
        ≡ with_api fl text tool server o api query intent
            (effective_fetch_top_n server.smart_search_conf top_n)
            (lookback_days months)
            db
  unfolding do_web_search
  do_web_search-api o query intent months top_n db is_api =
      ap (λ a. handled fl text tool server a o query intent months top_n db) is_api

  -- When an engine was asked for an answer that is not the empty text, and the cache is there and writes
  -- it, the next call with the same query, intent and number of pages gives the same answer from the
  -- cache and asks no engine, whatever its time range is. The second call's exact query must not fail,
  -- and encoding/json must encode the results of the first, and read back whatever it encodes.
  pub do_web_search-again :
      server.searchapi ≡ some api
      → server.has_cache ≡ true
      → IsCodec outside.calls.marshal later.calls.unmarshal
      → outside.calls.store_fault write ≡ false
      → later.calls.first_fault exact_match ≡ false
      → (query intent : String) (months later_months : ℤ) (top_n : Option ℤ) (db db' : Db)
        (t s : String) (ss : List String)
      → Encodes fl text tool server outside api query intent
          (effective_fetch_top_n server.smart_search_conf top_n)
          (lookback_days months)
      → (do_web_search fl text tool server outside query intent months top_n db).reply ≡ good t
      → (do_web_search fl text tool server outside query intent months top_n db).searched ≡ s ∷ ss
      → t ≢ ""
      → (do_web_search fl text tool server outside query intent months top_n db).db ≡ db'
      → ((do_web_search fl text tool server later query intent later_months top_n db').reply
          ≡ good t)
        × ((do_web_search fl text tool server later query intent later_months top_n db').searched
            ≡ [])
  do_web_search-again is_api on codec works reads query intent months later_months top_n db db' t s
        ss encodes answered asked some_text left =
      let n = effective_fetch_top_n server.smart_search_conf top_n in
      let key = web_search_cache_query text tool query n in
      let first = do_web_search-api outside query intent months top_n db is_api in
      let now = with_api fl text tool server outside api query intent n (lookback_days months) db in
      let reply = sym (ap (λ h. h.reply) first) ∙ answered in
      let (rs, db0, ends, encoded) =
        with_api-Finishes fl text tool server outside api query intent n (lookback_days months)
          encodes db t s ss reply (sym (ap (λ h. h.searched) first) ∙ asked) in
      let (rec, kind, task, found, web, answers) =
        finish-Kept server api outside.calls query key intent later.calls.unmarshal codec on works
          later.calls.first_fault later.calls.newest later.calls.first_at reads rs t db0 now.db
          (ends ∙ (λ i. (now.db, reply i))) some_text encoded in
      let again =
        with_api-hit fl text tool server later api query intent n (lookback_days later_months)
          now.db rec kind t task on found web answers in
      subst (Answers t)
        (sym (
          ap (λ d. do_web_search fl text tool server later query intent later_months top_n d)
            (sym left ∙ ap (λ h. h.db) first)
          ∙ do_web_search-api later query intent later_months top_n now.db is_api))
        again
