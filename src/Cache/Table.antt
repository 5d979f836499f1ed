-- ===== src/Cache/Table.antt =====
-- The table `search_cache` and the statements that pkg/cache/sqlite.go runs on it. A timestamp is a
-- number of seconds; the rows stand in the order of their insertion.
use websearch_mcpserver_dash.Prelude.{
  ℕ, ◌+◌, String, Bool, true, not, ◌&&◌, ◌≡◌, ◌↔◌, Option, none, some, List, [], ◌∷◌, map, arith,
  ltb, ◌==◌, if◌then◌else◌, keep, find, str_eq, eq_iff,
}

-- The columns of the unique index.
pub record CacheKey : Type 0 where
  pub query : String
  pub intent : String
  pub academic : ℕ

pub record Row : Type 0 where
  pub id : ℕ
  pub query : String
  pub intent : String
  pub academic : ℕ
  pub raw_results : String
  pub summary : String
  pub created_at : ℕ
  pub last_hit_at : ℕ

-- The rows, and the next value of the key that counts by itself.
pub record Db : Type 0 where
  pub rows : List Row
  pub next_id : ℕ

abbrev pub key_of : Row → CacheKey
key_of r = record { query = r.query; intent = r.intent; academic = r.academic }

unfoldable pub same_key : CacheKey → CacheKey → Bool
same_key k l = str_eq k.query l.query && str_eq k.intent l.intent && k.academic == l.academic

pub same_key_iff : (k l : CacheKey) → (same_key k l ≡ true) ↔ (k ≡ l)
unfolding same_key
same_key_iff k l = (
  λ h. ground (arith, eq_iff k.query l.query, eq_iff k.intent l.intent),
  λ h. ground (arith, eq_iff k.query l.query, eq_iff k.intent l.intent),
)

-- `WHERE query = ? AND intent = ? AND academic = ? LIMIT 1`
unfoldable pub select_exact : CacheKey → Db → Option Row
select_exact k db = find (λ r. same_key k (key_of r)) db.rows

-- `UPDATE search_cache SET last_hit_at = ? WHERE id = ?`
abbrev pub touched : ℕ → ℕ → Row → Row
touched id now r = if r.id == id then record r { last_hit_at = now } else r

unfoldable pub update_last_hit : ℕ → ℕ → Db → Db
update_last_hit id now db = record db { rows = map (touched id now) db.rows }

-- `ON CONFLICT(query, intent, academic) DO UPDATE`: id and created_at stay.
abbrev pub overwritten : ℕ → String → String → Row → Row
overwritten now raw summary r = record r { raw_results = raw; summary = summary; last_hit_at = now }

abbrev pub inserted : ℕ → CacheKey → ℕ → String → String → Row
inserted id k now raw summary = record {
  id = id;
  query = k.query;
  intent = k.intent;
  academic = k.academic;
  raw_results = raw;
  summary = summary;
  created_at = now;
  last_hit_at = now;
}

-- The row of the key is overwritten where it stands, or else a row is added at the end.
unfoldable pub upsert_rows : ℕ → CacheKey → ℕ → String → String → List Row → List Row
upsert_rows id k now raw summary [] = inserted id k now raw summary ∷ []
upsert_rows id k now raw summary (r ∷ rs) =
    if same_key k (key_of r)
    then overwritten now raw summary r ∷ rs
    else r ∷ upsert_rows id k now raw summary rs

unfoldable pub upsert : CacheKey → ℕ → String → String → Db → Db
upsert k now raw summary db = record {
  rows = upsert_rows db.next_id k now raw summary db.rows;
  next_id = elim (select_exact k db) [ none ↦ db.next_id + 1 | some r ↦ db.next_id ];
}

-- `UPDATE search_cache SET summary = ? WHERE query = ? AND intent = ? AND summary = ''`
abbrev pub summarized : String → String → String → Row → Row
summarized query intent summary r =
    if str_eq query r.query && str_eq intent r.intent && str_eq r.summary ""
    then record r { summary = summary }
    else r

-- `DELETE FROM search_cache WHERE last_hit_at < ?`
unfoldable pub delete_stale : ℕ → Db → Db
delete_stale cutoff db = record db { rows = keep (λ r. not (ltb r.last_hit_at cutoff)) db.rows }

unfoldable pub delete_all : Db → Db
delete_all db = record db { rows = [] }
