-- ===== src/Cache/View.antt =====
-- The table of pkg/cache/sqlite.go as a map from keys to entries.
use websearch_mcpserver_dash.Prelude.{
  ℕ, ◌≤◌, String, Bool, not, ◌&&◌, ◌≡◌, refl, Option, none, some, List, [], ◌∷◌, map, arith, ltb,
  if◌then◌else◌, keep, find, str_eq, tally, find-some, tally-none, find-tally, tally-keep-le,
}
use mathlib.Core.Option
use websearch_mcpserver_dash.Cache.Table.{
  CacheKey, Row, Db, key_of, same_key, same_key_iff, select_exact, touched, update_last_hit,
  upsert_rows, upsert, summarized, delete_stale, delete_all,
}
use websearch_mcpserver_dash.Cache.Keys.{has_key, has_id, IsValid}

-- What a key is mapped to: the order of the rows, their ids and their age are forgotten.
pub record CacheEntry : Type 0 where
  pub raw_results : String
  pub summary : String
  pub last_hit_at : ℕ

abbrev pub entry_of : Row → CacheEntry
entry_of r = record {
  raw_results = r.raw_results;
  summary = r.summary;
  last_hit_at = r.last_hit_at;
}

abbrev pub CacheMap : Type 0
CacheMap = CacheKey → Option CacheEntry

abbrev pub view : Db → CacheMap
view db k = Option.map entry_of (find (has_key k) db.rows)

-- What a cache promises of its five operations, on the map.
pub data CacheOp : Type 0 where
  put : CacheKey → ℕ → String → String → CacheOp
  use_key : CacheKey → ℕ → CacheOp
  summarize : String → String → String → CacheOp
  evict : ℕ → CacheOp
  empty : CacheOp

abbrev pub used : ℕ → CacheEntry → CacheEntry
used now e = record e { last_hit_at = now }

abbrev pub with_summary : String → CacheEntry → CacheEntry
with_summary s e = if str_eq e.summary "" then record e { summary = s } else e

abbrev pub still_fresh : ℕ → CacheEntry → Option CacheEntry
still_fresh cutoff e = if ltb e.last_hit_at cutoff then none else some e

abbrev pub on_map : CacheOp → CacheMap → CacheMap
on_map (put k now raw s) m l =
    if same_key l k
    then some (record { raw_results = raw; summary = s; last_hit_at = now })
    else m l
on_map (use_key k now) m l = if same_key l k then Option.map (used now) (m l) else m l
on_map (summarize q i s) m l =
    if str_eq q l.query && str_eq i l.intent then Option.map (with_summary s) (m l) else m l
on_map (evict cutoff) m l = elim (m l) [ none ↦ none | some e ↦ still_fresh cutoff e ]
on_map empty m l = none

-- The statements that carry the operations out.
abbrev pub on_table : CacheOp → Db → Db
on_table (put k now raw s) db = upsert k now raw s db
on_table (use_key k now) db = elim (select_exact k db) [
  | none ↦ db
  | some r ↦ update_last_hit r.id now db
]
on_table (summarize q i s) db = record db { rows = map (summarized q i s) db.rows }
on_table (evict cutoff) db = delete_stale cutoff db
on_table empty db = delete_all db

put-view :
    (id : ℕ) (k : CacheKey) (now : ℕ) (raw s : String) (l : CacheKey) (rs : List Row)
    → Option.map entry_of (find (has_key l) (upsert_rows id k now raw s rs)) ≡ (
        if same_key l k
        then some (record { raw_results = raw; summary = s; last_hit_at = now })
        else Option.map entry_of (find (has_key l) rs))
unfolding upsert_rows
put-view id k now raw s l [] = ground arith
put-view id k now raw s l (r ∷ rs) = ground (
  arith,
  put-view id k now raw s l rs,
  same_key_iff l (key_of r),
  same_key_iff k (key_of r),
  same_key_iff l k,
)

evict-view :
    (cutoff : ℕ) (l : CacheKey) (rs : List Row)
    → tally (has_key l) rs ≤ 1
    → Option.map entry_of (find (has_key l) (keep (λ r. not (ltb r.last_hit_at cutoff)) rs))
      ≡ elim (Option.map entry_of (find (has_key l) rs)) [
        | none ↦ none
        | some e ↦ still_fresh cutoff e
      ]
unfolding tally
evict-view cutoff l [] h = refl
evict-view cutoff l (r ∷ rs) h =
    let fresh : Row → Bool = λ x. not (ltb x.last_hit_at cutoff) in
    ground (
      arith,
      evict-view cutoff l rs,
      tally-keep-le (has_key l) fresh rs,
      tally-none (has_key l) (keep fresh rs),
    )

map-touched : (i now : ℕ) (rs : List Row) → tally (has_id i) rs ≡ 0 → map (touched i now) rs ≡ rs
unfolding tally
map-touched i now [] h = refl
map-touched i now (r ∷ rs) h = ground (arith, map-touched i now rs)

-- A row is touched by its id, which is that of no other row.
touch-view :
    (r : Row) (now : ℕ) (l : CacheKey) (rs : List Row)
    → find (has_key (key_of r)) rs ≡ some r
    → tally (has_id r.id) rs ≤ 1
    → Option.map entry_of (find (has_key l) (map (touched r.id now) rs)) ≡ (
        if same_key l (key_of r)
        then Option.map (used now) (Option.map entry_of (find (has_key l) rs))
        else Option.map entry_of (find (has_key l) rs))
unfolding tally
touch-view r now l [] f h = absurd (cc f)
touch-view r now l (s ∷ rs) f h = ground (
  arith,
  touch-view r now l rs,
  map-touched r.id now rs,
  find-tally (has_key (key_of r)) (has_id r.id) rs r,
  same_key_iff (key_of r) (key_of s),
  same_key_iff l (key_of s),
  same_key_iff l (key_of r),
)

summarize-view :
    (q i s : String) (l : CacheKey) (rs : List Row)
    → Option.map entry_of (find (has_key l) (map (summarized q i s) rs)) ≡ (
        if str_eq q l.query && str_eq i l.intent
        then Option.map (with_summary s) (Option.map entry_of (find (has_key l) rs))
        else Option.map entry_of (find (has_key l) rs))
summarize-view q i s l [] = ground arith
summarize-view q i s l (r ∷ rs) =
    ground (arith, summarize-view q i s l rs, same_key_iff l (key_of r))

use_key-view :
    (k : CacheKey) (now : ℕ) (db : Db) (l : CacheKey) (found : Option Row)
    → IsValid db
    → select_exact k db ≡ found
    → view (elim found [ none ↦ db | some r ↦ update_last_hit r.id now db ]) l
      ≡ (if same_key l k then Option.map (used now) (view db l) else view db l)
unfolding update_last_hit select_exact
use_key-view k now db l none v eq = ground (arith, same_key_iff l k, eq)
use_key-view k now db l (some r) v eq =
    let at : k ≡ key_of r = (same_key_iff k (key_of r)).0 (find-some (has_key k) db.rows r eq) in
    ground (arith, touch-view r now l db.rows, v.ids r.id, at, eq)

-- The statements carry out the operations of the map: from a table without repeated keys and ids, each
-- of them leaves the table whose map is the operation's.
pub on_table-on_map :
    (db : Db)
    → IsValid db
    → (op : CacheOp) (l : CacheKey) → view (on_table op db) l ≡ on_map op (view db) l
unfolding upsert delete_stale delete_all
on_table-on_map db v (put k now raw s) l = put-view db.next_id k now raw s l db.rows
on_table-on_map db v (use_key k now) l = use_key-view k now db l (select_exact k db) v refl
on_table-on_map db v (summarize q i s) l = summarize-view q i s l db.rows
on_table-on_map db v (evict cutoff) l = evict-view cutoff l db.rows (v.keys l)
on_table-on_map db v empty l = refl
