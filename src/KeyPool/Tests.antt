-- ===== src/KeyPool/Tests.antt =====
-- The key pool on concrete inputs (pkg/search/provider/keypool.go).
use websearch_mcpserver_dash.Prelude.{
  ℕ, zero, suc, ◌+◌, ◌<◌, ◌≤◌, String, ◌≡◌, ◌≢◌, get_elem?, refl, none, some, [], ◌∷◌, arith,
  firsts,
}
use websearch_mcpserver_dash.KeyPool.State.{
  KeyPool, filter_keys, new_key_pool, scan, index_at_time, next, mark_invalid, available, len,
  key_invalid_ttl,
}
use websearch_mcpserver_dash.KeyPool.Valid.{IsValid}
use websearch_mcpserver_dash.KeyPool.Create.{new_key_pool-IsValid}
use websearch_mcpserver_dash.KeyPool.Rotation.{Missed, taken}
use websearch_mcpserver_dash.KeyPool.Next.{FirstUsable, next-taken, next_recovers}
use websearch_mcpserver_dash.KeyPool.Marking.{mark_invalid-available}
use websearch_mcpserver_dash.KeyPool.Outcome.{Gives, next-Gives}

abbrev plain : String → String
plain s = s

-- The first key is out of use until 100.
abbrev half : KeyPool
half = record { keys = "a" ∷ "b" ∷ []; states = some 100 ∷ none ∷ []; idx = 0; last_key = none }

-- Both are, the second until 70.
abbrev spent : KeyPool
spent = record half { states = some 100 ∷ some 70 ∷ [] }

abbrev fresh : KeyPool
fresh = record half { states = none ∷ none ∷ [] }

half-IsValid : IsValid half
half-IsValid = record {
  nonempty = omega arith;
  matched = refl;
  distinct = (refl, (refl, tt));
  counter = omega arith;
}

spent-IsValid : IsValid spent
spent-IsValid = record {
  nonempty = omega arith;
  matched = refl;
  distinct = (refl, (refl, tt));
  counter = omega arith;
}

spends : next 50 half ≡ some (record half { idx = 2; last_key = some "b" }, "b")
unfolding next scan
spends = refl

recovers : next 50 spent ≡ some (record spent { idx = 2; last_key = some "b" }, "b")
unfolding next scan index_at_time
recovers = refl

new_key_pool-IsValid_example :
    IsValid fresh × (fresh.keys ≡ "a" ∷ "b" ∷ []) × ((now : ℕ) → available now fresh ≡ 2)
unfolding new_key_pool filter_keys firsts len
new_key_pool-IsValid_example = new_key_pool-IsValid plain ("a" ∷ "" ∷ "b" ∷ "a" ∷ []) fresh refl

half-Missed : (e : ℕ) → e < 1 → Missed 50 half e
half-Missed zero lt = (some 100, refl, refl)
half-Missed (suc e) lt = absurd (omega arith)

half-FirstUsable : FirstUsable 50 half 1
half-FirstUsable = record { missed = half-Missed; state = none; at = refl; hit = refl }

next-taken_example : next 50 half ≡ some (taken half 1 "b", "b")
next-taken_example = next-taken 50 1 half "b" (omega arith) (omega arith) half-FirstUsable refl

spent-Missed : (e : ℕ) → e < 2 → Missed 50 spent e
spent-Missed zero lt = (some 100, refl, refl)
spent-Missed (suc zero) lt = (some 70, refl, refl)
spent-Missed (suc (suc e)) lt = absurd (omega arith)

next_recovers_example :
    (i : ℕ) × (k : String) × (u : ℕ) × (next 50 spent
      ≡ some (record spent { idx = 2; last_key = some k }, k))
    × (get_elem? spent.keys i ≡ some k)
    × (get_elem? spent.states i ≡ some (some u))
    × ((j v : ℕ) → get_elem? spent.states j ≡ some (some v) → u ≤ v)
next_recovers_example = next_recovers 50 spent spent-IsValid (omega arith) spent-Missed

next-Gives_example : (q : KeyPool) × (k : String) × (next 50 half ≡ some (q, k)) × Gives 50 half q k
next-Gives_example = next-Gives 50 half half-IsValid (omega arith)

mark_invalid-available_example :
    (q : KeyPool) × (mark_invalid 50 "b" half ≡ some q)
    × (available 60 q + 1 ≡ available 60 half)
    × (get_elem? q.states 1 ≡ some (some (50 + key_invalid_ttl)))
    × ((j : ℕ) → 1 ≢ j → get_elem? q.states j ≡ get_elem? half.states j)
    × (q.keys ≡ half.keys)
    × (q.idx ≡ half.idx)
    × (q.last_key ≡ half.last_key)
mark_invalid-available_example =
    mark_invalid-available 50 1 half "b" half-IsValid refl 60 none refl (omega arith)
