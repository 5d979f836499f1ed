-- ===== src/Tools/Again.antt =====
-- A second call of smartsearch with the same words (mcp/tool_search.go): the cache answers.
use websearch_mcpserver_dash.Prelude.{ℕ, String, ◌≡◌, ◌≢◌, refl, Option, none, some, List, ◌∷◌}
use websearch_mcpserver_dash.Go.{Text}
use websearch_mcpserver_dash.Core.{Float, SearchResult}
use websearch_mcpserver_dash.Cache.{Db}
use websearch_mcpserver_dash.Tools.Types.{ℤ, good, SearchEngine, Server, CacheCalls, ToolText}
use websearch_mcpserver_dash.Tools.Finish.{web_search_cache_query, finish_web_search}
use websearch_mcpserver_dash.Tools.Cases.{with_api-cases}
use websearch_mcpserver_dash.Tools.WebSearch.{
  Handled, Outside, find_results, key, enriched, filtered, with_api,
}

-- json.Unmarshal reads back what json.Marshal wrote.
abbrev pub IsCodec :
    {F : Type 0}
    → (List (SearchResult F) → Option String)
    → (String → Option (List (SearchResult F)))
    → Type 0
IsCodec marshal unmarshal =
    (rs : List (SearchResult _)) (raw : String) → marshal rs ≡ some raw → unmarshal raw ≡ some rs

-- The answer is what finishWebSearch gives for some results that encoding/json encodes.
abbrev pub Finishes :
    {F : Type 0}
    → Server F
    → SearchEngine F
    → CacheCalls F
    → String
    → String
    → String
    → Handled F
    → Type 0
Finishes {F} server api calls query intent key h =
    (rs : List (SearchResult F)) × (db : Db) × (finish_web_search server api calls query intent key
        rs db
      ≡ (h.db, h.reply))
    × (calls.marshal rs ≢ none)

module _ {F : Type 0} (fl : Float F) (text : Text) (tool : ToolText) (server : Server F)
    (outside : Outside F) (api : SearchEngine F) (query intent : String) (n : ℕ) (days : ℤ) where
  abbrev Ends : Handled F → Type 0
  Ends h =
      Finishes server api outside.calls query intent (web_search_cache_query text tool query n) h

  -- The results of this search can be encoded.
  abbrev pub Encodes : Type 0
  Encodes =
      (rs : List (SearchResult F))
      → (find_results fl text tool server api query days).results ≡ good rs
      → outside.calls.marshal (
          enriched fl text tool server outside api query intent n (
            filtered fl text tool server outside api query intent n
              (find_results fl text tool server api query days).engine_name rs))
        ≢ none

  -- An answer for which an engine was asked comes from finishWebSearch.
  pub with_api-Finishes :
      Encodes
      → (db : Db) (t s : String) (ss : List String)
      → (with_api fl text tool server outside api query intent n days db).reply ≡ good t
      → (with_api fl text tool server outside api query intent n days db).searched ≡ s ∷ ss
      → Ends (with_api fl text tool server outside api query intent n days db)
  with_api-Finishes encodes db t s ss =
      with_api-cases fl text tool server outside api query intent n days
        (λ h. h.reply ≡ good t → h.searched ≡ s ∷ ss → Ends h)
        (λ rs d found answered asked. (_, d, refl, encodes rs found))
        (λ err d found answered asked. absurd (cc answered))
        (λ rs d answered asked. absurd (cc asked))
        (λ answer task rec d answered asked. absurd (cc asked)) db
