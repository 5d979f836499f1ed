-- ===== src/KeyPool/Next.antt =====
-- What a call of Next does, whatever the pool (pkg/search/provider/keypool.go).
use native.Mathlib.Nat.{mod-lt}
use native.Mathlib.Decide.{dec_lt}
use mathlib.Core.Path.{subst}
use websearch_mcpserver_dash.Prelude.{
  cover, ℕ, zero, suc, ◌+◌, ◌-◌, ◌%◌, ◌<◌, ◌≤◌, String, true, ◌≡◌, refl, ap, ◌∙◌, ◌⊎◌, inl, inr,
  none, some, List, [], ◌∷◌, arith, length, get_elem?, get_elem?-lt, get_elem?-some-lt, Bool-cases,
}
use websearch_mcpserver_dash.KeyPool.State.{
  KeyPool, KeyState, u64_mod, usable, same_time, index_at_time, next, after_scan,
}
use websearch_mcpserver_dash.KeyPool.Valid.{IsValid}
use websearch_mcpserver_dash.KeyPool.Rotation.{state_at, key_at, Missed, taken, scan-found}
use websearch_mcpserver_dash.KeyPool.Recovery.{NotAfter, Earliest, missed_set, scan-exhausted}

slot-lt : (p : KeyPool) (e : ℕ) → IsValid p → (p.idx + e) % length p.keys < length p.keys
slot-lt p e v = mod-lt _ v.nonempty

state_exists : (p : KeyPool) (e : ℕ) → IsValid p → (s : KeyState) × (state_at p e ≡ some s)
state_exists p e v = get_elem?-lt p.states _ (omega (arith, v.matched, slot-lt p e v))

pub key_exists : (p : KeyPool) (e : ℕ) → IsValid p → (k : String) × (key_at p e ≡ some k)
key_exists p e v = get_elem?-lt p.keys _ (slot-lt p e v)

-- The round `d` is the first whose key can be used.
pub record FirstUsable (now : ℕ) (p : KeyPool) (d : ℕ) : Type 0 where
  pub missed : (e : ℕ) → e < d → Missed now p e
  pub state : KeyState
  pub at : state_at p d ≡ some state
  pub hit : usable now state ≡ true

Missed-more :
    (now : ℕ) (p : KeyPool) (r : ℕ)
    → ((e : ℕ) → e < r → Missed now p e)
    → Missed now p r
    → (e : ℕ) → e < suc r
    → Missed now p e
Missed-more now p r h last e lt = elim (dec_lt e r) [
  | yes below ↦ h e below
  | no not_below ↦ subst (Missed now p) (omega arith) last
]

pub first_or_none :
    (now : ℕ) (p : KeyPool) (r : ℕ)
    → IsValid p
    → ((e : ℕ) → e < r → Missed now p e) ⊎ ((d : ℕ) × (d < r) × FirstUsable now p d)
first_or_none now p zero v = inl (λ e lt. absurd (omega arith))
first_or_none now p (suc r) v = elim (first_or_none now p r v) [
  | inr (d, lt, h) ↦ inr (d, omega arith, h)
  | inl missed ↦
      let (s, at) = state_exists p r v in
      elim (Bool-cases (usable now s)) [
        | inl hit ↦ inr (r, omega arith, record { missed = missed; state = s; at = at; hit = hit })
        | inr miss ↦ inl (Missed-more now p r missed (s, at, miss))
      ]
]

same_time_lem : (a b : KeyState) → same_time a b ≡ true → a ≡ b
same_time_lem none none h = refl
same_time_lem none (some b) h = absurd (ground arith)
same_time_lem (some a) none h = absurd (ground arith)
same_time_lem (some a) (some b) h = ground arith

same_time_refl : (a : KeyState) → same_time a a ≡ true
same_time_refl none = refl
same_time_refl (some a) = ground arith

index_at_time-finds :
    (e : KeyState) (ss : List KeyState) (j : ℕ)
    → get_elem? ss j ≡ some e
    → (i : ℕ) × (index_at_time e ss ≡ some i) × (get_elem? ss i ≡ some e)
unfolding index_at_time
index_at_time-finds e [] j h = absurd (ground arith)
index_at_time-finds e (s ∷ ss) zero h = (0, ground (arith, same_time_refl e), h)
index_at_time-finds e (s ∷ ss) (suc j) h = elim (Bool-cases (same_time s e)) [
  | inl here ↦ (0, rw here, ap some (same_time_lem s e here))
  | inr not_here ↦
      let (i, found_at, is_e) = index_at_time-finds e ss j h in
      (suc i, rw (not_here, found_at), is_e)
]

-- From a well-formed pool whose counter does not wrap during the call, Next takes the first key,
-- in the circular order that starts at the counter, that can be used: it returns that key, clears
-- its mark, remembers it as the last key, and moves the counter just past it.
pub next-taken :
    (now d : ℕ) (p : KeyPool) (k : String)
    → p.idx + length p.keys < u64_mod
    → d < length p.keys
    → FirstUsable now p d
    → key_at p d ≡ some k
    → next now p ≡ some (taken p d k, k)
unfolding next
next-taken now d p k fits lt h key =
    rw (scan-found now d (length p.keys) p none h.state k fits lt h.missed h.at h.hit key)

-- What the scan of a pool with no usable key ends with: a time of the pool, the earliest of all.
record Least (p : KeyPool) (m : KeyState) : Type 0 where
  time : ℕ
  is_time : m ≡ some time
  place : ℕ
  attained : get_elem? p.states place ≡ some m
  least : (j v : ℕ) → get_elem? p.states j ≡ some (some v) → time ≤ v

module _ (now : ℕ) (p : KeyPool) (v : IsValid p) (m : KeyState)
    (missed : (e : ℕ) → e < length p.keys → Missed now p e)
    (h : Earliest p (length p.keys) none m) where
  before_slot : (j t : ℕ) → get_elem? p.states j ≡ some (some t) → NotAfter m t
  before_slot j t at =
      let n = length p.keys in
      let lt : j < n = omega (arith, get_elem?-some-lt p.states j at, v.matched) in
      h.before_seen ((j + n - p.idx % n) % n) t (mod-lt _ v.nonempty)
        (ap (get_elem? p.states) (cover p.idx j n lt) ∙ at)

  first_time : (t : ℕ) × NotAfter m t
  first_time =
      let (s, at, miss) = missed 0 v.nonempty in
      let (t, is_t) = missed_set now s miss in (t, h.before_seen 0 t v.nonempty (at ∙ ap some is_t))

  place_of :
      (m ≡ none) ⊎ ((e : ℕ) × (e < length p.keys) × (state_at p e ≡ some m))
      → (j : ℕ) × (get_elem? p.states j ≡ some m)
  place_of (inl none_left) =
      let (t, at_t) = first_time in let (u, is_u, le) = at_t in absurd (ground arith)
  place_of (inr (e, lt, at)) = ((p.idx + e) % length p.keys, at)

  Least-of : Least p m
  Least-of =
      let (t, at_t) = first_time in
      let (u, is_u, le) = at_t in
      let (j, at) = place_of h.origin in
      record {
        time = u;
        is_time = is_u;
        place = j;
        attained = at;
        least = λ i w at_i.
            let (u', is_u', le') = before_slot i w at_i in
            let same : u ≡ u' = ground arith in omega arith;
      }

-- If none of its keys can be used, Next returns one whose recovery time is the earliest of all.
pub next_recovers :
    (now : ℕ) (p : KeyPool)
    → IsValid p
    → p.idx + length p.keys < u64_mod
    → ((e : ℕ) → e < length p.keys → Missed now p e)
    → (i : ℕ) × (k : String) × (u : ℕ) × (next now p
        ≡ some (record p { idx = p.idx + length p.keys; last_key = some k }, k))
      × (get_elem? p.keys i ≡ some k)
      × (get_elem? p.states i ≡ some (some u))
      × ((j v : ℕ) → get_elem? p.states j ≡ some (some v) → u ≤ v)
unfolding next
next_recovers now p v fits missed =
    let (m, ends, h) = scan-exhausted now (length p.keys) p none fits missed in
    let l = Least-of now p v m missed h in
    let (i, found_at, is_m) = index_at_time-finds m p.states l.place l.attained in
    let (k, key) =
      get_elem?-lt p.keys i (omega (arith, get_elem?-some-lt p.states i is_m, v.matched)) in
    (i, k, l.time, rw (ends, after_scan, found_at, key), key, is_m ∙ ap some l.is_time, l.least)
