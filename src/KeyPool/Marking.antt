-- ===== src/KeyPool/Marking.antt =====
-- MarkInvalid, MarkLastInvalid and Available (pkg/search/provider/keypool.go).
use websearch_mcpserver_dash.Prelude.{
  ℕ, zero, suc, ◌+◌, ◌≤◌, String, true, false, ◌≡◌, refl, ap, ◌∙◌, none, some, List, [], ◌∷◌, arith,
  length, get_elem?, set, keep, length-set, get_elem?-some-lt, str_mem, eq_iff, Distinct, keys_of,
  if◌then◌else◌, get_elem?-set_ne, get_elem?-set_self, ◌≢◌,
}
use websearch_mcpserver_dash.KeyPool.State.{
  KeyPool, KeyState, key_invalid_ttl, usable, index_of, mark_invalid, mark_last_invalid, available,
}
use websearch_mcpserver_dash.KeyPool.Valid.{IsValid, itself}

unfoldable pub count : ℕ → List KeyState → ℕ
count now ss = length (keep (usable now) ss)

unfoldable pub weight : ℕ → KeyState → ℕ
weight now s = if usable now s then 1 else 0

pub count-set :
    (t : ℕ) (ss : List KeyState) (i : ℕ) (s u : KeyState)
    → get_elem? ss i ≡ some s
    → count t (set ss i u) + weight t s ≡ count t ss + weight t u
unfolding count weight
count-set t [] i s u h = absurd (ground arith)
count-set t (x ∷ ss) zero s u h = ground arith
count-set t (x ∷ ss) (suc i) s u h = ground (arith, count-set t ss i s u)

pub usable_mono : (a b : ℕ) (s : KeyState) → a ≤ b → usable a s ≡ true → usable b s ≡ true
usable_mono a b none h e = refl
usable_mono a b (some t) h e = ground arith

count_mono : (a b : ℕ) (ss : List KeyState) → a ≤ b → count a ss ≤ count b ss
unfolding count
count_mono a b [] h = omega arith
count_mono a b (s ∷ ss) h = ground (arith, count_mono a b ss, usable_mono a b s)

pub available_mono : (a b : ℕ) (p : KeyPool) → a ≤ b → available a p ≤ available b p
unfolding available count
available_mono a b p h = count_mono a b p.states h

mem_of_get : (ks : List String) (i : ℕ) (k : String) → get_elem? ks i ≡ some k → str_mem k ks ≡ true
mem_of_get [] i k h = absurd (ground arith)
mem_of_get (x ∷ ks) zero k h = ground (arith, eq_iff k x)
mem_of_get (x ∷ ks) (suc i) k h = ground (arith, mem_of_get ks i k h)

keys_of-itself : (ks : List String) → keys_of itself ks ≡ ks
keys_of-itself [] = refl
keys_of-itself (k ∷ ks) = ap (◌∷◌ k) (keys_of-itself ks)

index_of-get :
    (ks : List String) (i : ℕ) (k : String)
    → Distinct itself ks
    → get_elem? ks i ≡ some k
    → index_of k ks ≡ some i
unfolding index_of
index_of-get [] i k d h = absurd (ground arith)
index_of-get (x ∷ ks) zero k d h = ground (arith, eq_iff x k)
index_of-get (x ∷ ks) (suc i) k d h =
    ground (arith, eq_iff x k, index_of-get ks i k, mem_of_get ks i k, keys_of-itself ks)

-- What marking the key at the place `i` leaves.
abbrev pub marked : ℕ → ℕ → KeyPool → KeyPool
marked now i p = record p { states = set p.states i (some (now + key_invalid_ttl)) }

module _ (now i : ℕ) (p : KeyPool) (k : String) (v : IsValid p)
    (at : get_elem? p.keys i ≡ some k) where
  pub mark_invalid_lem : mark_invalid now k p ≡ some (marked now i p)
  unfolding mark_invalid
  mark_invalid_lem =
      ground
        (arith, index_of-get p.keys i k v.distinct at, get_elem?-some-lt p.keys i at, v.matched)

  pub marked-IsValid : IsValid (marked now i p)
  marked-IsValid = record {
    nonempty = v.nonempty;
    matched = length-set p.states i _ ∙ v.matched;
    distinct = v.distinct;
    counter = v.counter;
  }

  pub available-marked :
      (t : ℕ) (s : KeyState)
      → get_elem? p.states i ≡ some s
      → t ≤ now + key_invalid_ttl
      → available t (marked now i p) + (if usable t s then 1 else 0) ≡ available t p
  unfolding available count weight
  available-marked t s at_s soon =
      ground (arith, count-set t p.states i s (some (now + key_invalid_ttl)) at_s)

  -- MarkInvalid puts a key of the pool out of use for the thirty minutes that follow: at any such
  -- time exactly one key fewer is available if the key was usable, and as many if it was not. Its
  -- new mark is the end of that period; every other key's state is untouched, and so are the
  -- keys, the counter and the last key.
  pub mark_invalid-available :
      (t : ℕ) (s : KeyState)
      → get_elem? p.states i ≡ some s
      → t ≤ now + key_invalid_ttl
      → (q : KeyPool) × (mark_invalid now k p ≡ some q)
        × (available t q + (if usable t s then 1 else 0) ≡ available t p)
        × (get_elem? q.states i ≡ some (some (now + key_invalid_ttl)))
        × ((j : ℕ) → i ≢ j → get_elem? q.states j ≡ get_elem? p.states j)
        × (q.keys ≡ p.keys)
        × (q.idx ≡ p.idx)
        × (q.last_key ≡ p.last_key)
  mark_invalid-available t s at_s soon = (
    marked now i p,
    mark_invalid_lem,
    available-marked t s at_s soon,
    get_elem?-set_self p.states i _ (get_elem?-some-lt p.states i at_s),
    λ j ne. get_elem?-set_ne p.states _ ne,
    refl,
    refl,
    refl,
  )

index_of-absent : (ks : List String) (k : String) → str_mem k ks ≡ false → index_of k ks ≡ none
unfolding index_of
index_of-absent [] k h = refl
index_of-absent (x ∷ ks) k h = ground (arith, eq_iff x k, eq_iff k x, index_of-absent ks k)

-- A key that the pool does not hold is ignored.
pub mark_invalid-absent :
    (now : ℕ) (k : String) (p : KeyPool) → str_mem k p.keys ≡ false → mark_invalid now k p ≡ some p
unfolding mark_invalid
mark_invalid-absent now k p h = ground (arith, index_of-absent p.keys k h)

-- MarkLastInvalid marks the key that the last call of Next returned.
pub mark_last_invalid_lem :
    (now : ℕ) (p : KeyPool) (k : String)
    → p.last_key ≡ some k
    → mark_last_invalid now p ≡ mark_invalid now k p
unfolding mark_last_invalid
mark_last_invalid_lem now p k h = rw h
