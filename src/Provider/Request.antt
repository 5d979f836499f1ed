-- ===== src/Provider/Request.antt =====
-- The part that the engines of pkg/search/provider share: one key by Next, one HTTP request with
-- it, and an outcome that is read off the reply.
use websearch_mcpserver_dash.Prelude.{
  ℕ, ◌+◌, ◌<◌, String, Option, none, some, List, [], ◌∷◌, ◌≡◌, if◌then◌else◌, length, str_eq,
}
use websearch_mcpserver_dash.Core.{SearchResult}
use websearch_mcpserver_dash.KeyPool.{KeyPool, next, IsValid, u64_mod}
use websearch_mcpserver_dash.KeyPool.Outcome.{next-Gives}
use websearch_mcpserver_dash.ApiPool.{Outcome, err, key_error, Entry, chosen_search}
use websearch_mcpserver_dash.ApiPool.Ending.{Answer, IsKeyed}

-- A call that fails, or a status code with what the body decodes to.
pub data Reply (R : Type 0) : Type 0 where
  transport_error : Reply R
  response : ℕ → R → Reply R

-- firstNonEmpty (pkg/search/provider/doubao.go): the first value that is not blank, trimmed.
unfoldable pub first_nonempty : (String → String) → List String → String
first_nonempty trim [] = ""
first_nonempty trim (v ∷ vs) =
    let rest = first_nonempty trim vs in if str_eq (trim v) "" then rest else trim v

-- A result with the fields that these engines set.
abbrev pub web_result : {F : Type 0} → F → String → String → String → String → SearchResult F
web_result score title url content engine = record {
  title = title;
  url = url;
  content = content;
  publish_date = "";
  score = score;
  engine = engine;
  engines = [];
  kind = "";
  authors = "";
  doi = "";
  journal = "";
  cited_by = 0;
  pdf_url = "";
}

-- A call that leaves the pool as one Next leaves it, with the key that this Next gave.
pub record TakesKey {F : Type 0} (now : ℕ) (pool : KeyPool) (r : Option (KeyPool × Outcome F))
    : Type 0 where
  pub answer : Answer now pool r
  pub took : next now pool ≡ some (answer.pool_after, answer.key)

-- An engine each of whose calls is such a call, by both of its methods.
pub record TakesKeys {F : Type 0} (p : Entry F KeyPool) : Type 0 where
  pub call :
      (query : String) (lookback now : ℕ) (pool : KeyPool)
      → IsValid pool
      → pool.idx + length pool.keys < u64_mod
      → TakesKey now pool (chosen_search lookback p.engine query now pool)

-- Such an engine keeps the protocol of the retry loop.
TakesKeys-IsKeyed : {F : Type 0} (p : Entry F KeyPool) → TakesKeys p → IsKeyed p
TakesKeys-IsKeyed p t = record {
  answer = λ query lookback now pool v fits. (t.call query lookback now pool v fits).answer;
}

module _ {F : Type 0} where
  -- `key := keys.Next()`, and what the engine makes of the reply to a request with that key.
  abbrev pub with_key : (String → Outcome F) → ℕ → KeyPool → Option (KeyPool × Outcome F)
  with_key use_key now pool = elim (next now pool) [
    | none ↦ none
    | some (q, key) ↦ some (q, use_key key)
  ]

  pub with_key-TakesKey :
      (use_key : String → Outcome F) (now : ℕ) (pool : KeyPool)
      → ((key k : String) → use_key key ≡ err (key_error k) → k ≡ key)
      → IsValid pool
      → pool.idx + length pool.keys < u64_mod
      → TakesKey now pool (with_key use_key now pool)
  with_key-TakesKey use_key now pool names v fits =
      let (q, k, eq, g) = next-Gives now pool v fits in
      record {
        answer = record {
          pool_after = q;
          key = k;
          outcome = use_key k;
          is_answer = rw (eq, with_key);
          gives = g;
          names_key = names k;
        };
        took = eq;
      }
