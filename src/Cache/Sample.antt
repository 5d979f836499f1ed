-- ===== src/Cache/Sample.antt =====
-- A table and a codec on which the cache's methods run (pkg/cache/sqlite.go).
use websearch_mcpserver_dash.Prelude.{
  ℕ, String, Bool, true, false, ◌&&◌, ◌≡◌, refl, Option, none, some, List, [], ◌∷◌, arith, ltb,
  ◌==◌, if◌then◌else◌, str_eq, eq_iff,
}
use websearch_mcpserver_dash.Core.{SearchResult}
use websearch_mcpserver_dash.Cache.Table.{Row, Db}
use websearch_mcpserver_dash.Cache.Methods.{Statement}

abbrev pub empty_db : Db
empty_db = record { rows = []; next_id = 1 }

-- `ORDER BY last_hit_at DESC LIMIT 1`, the first row among equals.
unfoldable pub newest : List Row → Option Row
newest [] = none
newest (r ∷ rs) = elim (newest rs) [
  | none ↦ some r
  | some s ↦ if ltb r.last_hit_at s.last_hit_at then some s else some r
]

abbrev pub no_fault : Statement → Bool
no_fault s = false

-- A result that has a title only, and its text.
abbrev pub titled : String → SearchResult ℕ
titled t = record {
  title = t;
  url = "";
  content = "";
  publish_date = "";
  score = 0;
  engine = "";
  engines = [];
  kind = "";
  authors = "";
  doi = "";
  journal = "";
  cited_by = 0;
  pdf_url = "";
}

unfoldable pub is_empty : List String → Bool
is_empty [] = true
is_empty (s ∷ ss) = false

unfoldable pub is_titled : SearchResult ℕ → Bool
is_titled r =
    str_eq r.url ""
    && (str_eq r.content ""
        && (str_eq r.publish_date ""
            && (r.score == 0
                && (str_eq r.engine ""
                    && (is_empty r.engines
                        && (str_eq r.kind ""
                            && (str_eq r.authors ""
                                && (str_eq r.doi ""
                                    && (str_eq r.journal ""
                                        && (r.cited_by == 0 && str_eq r.pdf_url ""))))))))))

is_empty-nil : (ss : List String) → is_empty ss ≡ true → ss ≡ []
unfolding is_empty
is_empty-nil [] h = refl
is_empty-nil (s ∷ ss) h = absurd (cc h)

is_titled-titled : (r : SearchResult ℕ) → is_titled r ≡ true → r ≡ titled r.title
unfolding is_titled
is_titled-titled r h = ground (
  arith,
  eq_iff r.url "",
  eq_iff r.content "",
  eq_iff r.publish_date "",
  eq_iff r.engine "",
  is_empty-nil r.engines,
  eq_iff r.kind "",
  eq_iff r.authors "",
  eq_iff r.doi "",
  eq_iff r.journal "",
  eq_iff r.pdf_url "",
)

-- One result that has a title only is coded by its title.
unfoldable pub marshal : List (SearchResult ℕ) → Option String
marshal [] = none
marshal (r ∷ []) = if is_titled r then some r.title else none
marshal (r ∷ s ∷ rs) = none

unfoldable pub unmarshal : String → Option (List (SearchResult ℕ))
unmarshal t = some (titled t ∷ [])

pub unmarshal-marshal :
    (rs : List (SearchResult ℕ)) (raw : String) → marshal rs ≡ some raw → unmarshal raw ≡ some rs
unfolding marshal unmarshal
unmarshal-marshal [] raw h = absurd (cc h)
unmarshal-marshal (r ∷ []) raw h = ground (arith, is_titled-titled r)
unmarshal-marshal (r ∷ s ∷ rs) raw h = absurd (cc h)
