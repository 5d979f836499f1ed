-- ===== src/Cache/Keys.antt =====
-- No method of Cache ever leaves two rows with one key, or with one id (pkg/cache/sqlite.go).
use websearch_mcpserver_dash.Prelude.{
  ℕ, ◌+◌, ◌≤◌, String, Bool, not, ◌≡◌, refl, ap, none, some, List, [], ◌∷◌, map, arith, ltb, ◌==◌,
  if◌then◌else◌, find, tally, tally-map, tally-keep-le, find-none,
}
use websearch_mcpserver_dash.Cache.Table.{
  CacheKey, Row, Db, key_of, same_key, same_key_iff, select_exact, touched, update_last_hit,
  upsert_rows, upsert, summarized, delete_stale, delete_all,
}

abbrev pub has_key : CacheKey → Row → Bool
has_key k r = same_key k (key_of r)

abbrev pub has_id : ℕ → Row → Bool
has_id i r = r.id == i

pub record IsValid (db : Db) : Type 0 where
  pub keys : (k : CacheKey) → tally (has_key k) db.rows ≤ 1
  pub ids : (i : ℕ) → tally (has_id i) db.rows ≤ 1
  pub below : (i : ℕ) → db.next_id ≤ i → tally (has_id i) db.rows ≡ 0

-- A change of the rows that keeps their keys and ids.
map-IsValid :
    (f : Row → Row)
    → ((r : Row) → key_of (f r) ≡ key_of r)
    → ((r : Row) → (f r).id ≡ r.id)
    → (db : Db) → IsValid db
    → IsValid (record db { rows = map f db.rows })
map-IsValid f key id db v = record {
  keys = λ k.
      omega (
        arith,
        tally-map (has_key k) (has_key k) f (λ r. ap (same_key k) (key r)) db.rows,
        v.keys k,
      );
  ids = λ i.
      omega
        (arith, tally-map (has_id i) (has_id i) f (λ r. ap (λ j. j == i) (id r)) db.rows, v.ids i);
  below = λ i le. omega (
    arith,
    tally-map (has_id i) (has_id i) f (λ r. ap (λ j. j == i) (id r)) db.rows,
    v.below i le,
  );
}

pub update_last_hit-IsValid :
    (id now : ℕ) (db : Db) → IsValid db → IsValid (update_last_hit id now db)
unfolding update_last_hit
update_last_hit-IsValid id now db =
    map-IsValid (touched id now) (λ r. ground arith) (λ r. ground arith) db

pub summarized-IsValid :
    (query intent summary : String) (db : Db)
    → IsValid db
    → IsValid (record db { rows = map (summarized query intent summary) db.rows })
summarized-IsValid query intent summary db =
    map-IsValid (summarized query intent summary) (λ r. ground arith) (λ r. ground arith) db

pub delete_stale-IsValid : (cutoff : ℕ) (db : Db) → IsValid db → IsValid (delete_stale cutoff db)
unfolding delete_stale
delete_stale-IsValid cutoff db v =
    let fresh : Row → Bool = λ r. not (ltb r.last_hit_at cutoff) in
    record {
      keys = λ k. omega (arith, tally-keep-le (has_key k) fresh db.rows, v.keys k);
      ids = λ i. omega (arith, tally-keep-le (has_id i) fresh db.rows, v.ids i);
      below = λ i le. omega (arith, tally-keep-le (has_id i) fresh db.rows, v.below i le);
    }

pub delete_all-IsValid : (db : Db) → IsValid (delete_all db)
unfolding delete_all tally
delete_all-IsValid db = record {
  keys = λ k. omega arith;
  ids = λ i. omega arith;
  below = λ i le. refl;
}

module _ (id : ℕ) (k : CacheKey) (now : ℕ) (raw summary : String) where
  -- A key of the table is found again, and a new one is added once.
  tally-key-upsert :
      (l : CacheKey) (rs : List Row)
      → tally (has_key l) (upsert_rows id k now raw summary rs)
        ≡ tally (has_key l) rs
          + elim (find (has_key k) rs) [ none ↦ (if same_key l k then 1 else 0) | some r ↦ 0 ]
  unfolding tally upsert_rows
  tally-key-upsert l [] = omega arith
  tally-key-upsert l (r ∷ rs) = ground (arith, tally-key-upsert l rs)

  tally-id-upsert :
      (i : ℕ) (rs : List Row)
      → tally (has_id i) (upsert_rows id k now raw summary rs)
        ≡ tally (has_id i) rs
          + elim (find (has_key k) rs) [ none ↦ (if id == i then 1 else 0) | some r ↦ 0 ]
  unfolding tally upsert_rows
  tally-id-upsert i [] = omega arith
  tally-id-upsert i (r ∷ rs) = ground (arith, tally-id-upsert i rs)

module _ (k : CacheKey) (now : ℕ) (raw summary : String) (db : Db) (v : IsValid db) where
  upsert_keys : (l : CacheKey) → tally (has_key l) (upsert k now raw summary db).rows ≤ 1
  unfolding upsert
  upsert_keys l = ground (
    arith,
    tally-key-upsert db.next_id k now raw summary l db.rows,
    same_key_iff l k,
    find-none (has_key k) db.rows,
    v.keys l,
  )

  upsert_ids : (i : ℕ) → tally (has_id i) (upsert k now raw summary db).rows ≤ 1
  unfolding upsert
  upsert_ids i =
      ground (arith, tally-id-upsert db.next_id k now raw summary i db.rows, v.below i, v.ids i)

  upsert_below :
      (i : ℕ)
      → (upsert k now raw summary db).next_id ≤ i
      → tally (has_id i) (upsert k now raw summary db).rows ≡ 0
  unfolding upsert select_exact
  upsert_below i le =
      ground (arith, tally-id-upsert db.next_id k now raw summary i db.rows, v.below i)

  pub upsert-IsValid : IsValid (upsert k now raw summary db)
  upsert-IsValid = record { keys = upsert_keys; ids = upsert_ids; below = upsert_below }
