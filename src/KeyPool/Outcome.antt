-- ===== src/KeyPool/Outcome.antt =====
-- A call of Next as its callers see it (pkg/search/provider/keypool.go).
use native.Mathlib.Nat.{mod-lt}
use websearch_mcpserver_dash.Prelude.{
  cover, ℕ, suc, ◌+◌, ◌-◌, ◌%◌, ◌<◌, ◌≤◌, String, true, false, ◌≡◌, refl, sym, ap, ◌∙◌, inl, inr,
  none, some, List, [], ◌∷◌, arith, length, get_elem?, length-set, get_elem?-set_self,
  get_elem?-some-lt,
}
use websearch_mcpserver_dash.KeyPool.State.{KeyPool, KeyState, u64_mod, usable, next, available}
use websearch_mcpserver_dash.KeyPool.Valid.{IsValid}
use websearch_mcpserver_dash.KeyPool.Rotation.{key_at, Missed, taken}
use websearch_mcpserver_dash.KeyPool.Next.{
  FirstUsable, first_or_none, key_exists, next-taken, next_recovers,
}
use websearch_mcpserver_dash.KeyPool.Marking.{usable_mono, count, weight, count-set}

-- What Next gives: a key of the pool, at some place, which is now the last key, in a pool that is
-- well formed, over the same keys, and of which no key has become less or more usable from now on.
pub record Gives (now : ℕ) (p : KeyPool) (q : KeyPool) (k : String) : Type 0 where
  pub valid : IsValid q
  pub same_keys : q.keys ≡ p.keys
  pub last : q.last_key ≡ some k
  pub moved : q.idx ≤ p.idx + length p.keys
  pub place : ℕ
  pub at : get_elem? q.keys place ≡ some k
  pub state : KeyState
  pub at_state : get_elem? q.states place ≡ some state
  pub kept : (t : ℕ) → now ≤ t → available t q ≡ available t p
  pub usable_if : 0 < available now p → usable now state ≡ true

taken-available :
    (now t d : ℕ) (p : KeyPool) (k : String)
    → now ≤ t
    → FirstUsable now p d
    → available t (taken p d k) ≡ available t p
unfolding available count weight
taken-available now t d p k le h = ground (
  arith,
  count-set t p.states ((p.idx + d) % length p.keys) h.state none h.at,
  usable_mono now t h.state le h.hit,
)

none_usable :
    (now : ℕ) (ss : List KeyState)
    → ((j : ℕ) (s : KeyState) → get_elem? ss j ≡ some s → usable now s ≡ false)
    → count now ss ≡ 0
unfolding count
none_usable now [] h = refl
none_usable now (s ∷ ss) h = ground (arith, h 0 s refl, none_usable now ss (λ j. h (suc j)))

Missed-slot :
    (now : ℕ) (p : KeyPool)
    → IsValid p
    → ((e : ℕ) → e < length p.keys → Missed now p e)
    → (j : ℕ) (s : KeyState) → get_elem? p.states j ≡ some s
    → usable now s ≡ false
Missed-slot now p v missed j s at =
    let n = length p.keys in
    let lt : j < n = omega (arith, get_elem?-some-lt p.states j at, v.matched) in
    let (s', at', miss) = missed ((j + n - p.idx % n) % n) (mod-lt _ v.nonempty) in
    let same : some s ≡ some s' =
      sym at ∙ sym (ap (get_elem? p.states) (cover p.idx j n lt)) ∙ at' in
    let equal : s ≡ s' = cc same in ap (usable now) equal ∙ miss

Missed-available :
    (now : ℕ) (p : KeyPool)
    → IsValid p
    → ((e : ℕ) → e < length p.keys → Missed now p e)
    → available now p ≡ 0
unfolding available count
Missed-available now p v missed = none_usable now p.states (Missed-slot now p v missed)

taken-Gives :
    (now d : ℕ) (p : KeyPool) (k : String)
    → IsValid p
    → p.idx + length p.keys < u64_mod
    → d < length p.keys
    → FirstUsable now p d
    → key_at p d ≡ some k
    → Gives now p (taken p d k) k
taken-Gives now d p k v fits lt h key = record {
  valid = record {
    nonempty = v.nonempty;
    matched = length-set p.states _ none ∙ v.matched;
    distinct = v.distinct;
    counter = omega arith;
  };
  same_keys = refl;
  last = refl;
  moved = omega arith;
  place = (p.idx + d) % length p.keys;
  at = key;
  state = none;
  at_state = get_elem?-set_self p.states _ none (get_elem?-some-lt p.states _ h.at);
  kept = λ t le. taken-available now t d p k le h;
  usable_if = λ _. refl;
}

-- Next never panics.
pub next-Gives :
    (now : ℕ) (p : KeyPool)
    → IsValid p
    → p.idx + length p.keys < u64_mod
    → (q : KeyPool) × (k : String) × (next now p ≡ some (q, k)) × Gives now p q k
unfolding available
next-Gives now p v fits = elim (first_or_none now p (length p.keys) v) [
  | inr (d, lt, h) ↦
      let (k, key) = key_exists p d v in
      (taken p d k, k, next-taken now d p k fits lt h key, taken-Gives now d p k v fits lt h key)
  | inl missed ↦
      let (i, k, u, eq, key, at, least) = next_recovers now p v fits missed in
      (
        record p { idx = p.idx + length p.keys; last_key = some k },
        k,
        eq,
        record {
          valid = record {
            nonempty = v.nonempty;
            matched = v.matched;
            distinct = v.distinct;
            counter = fits;
          };
          same_keys = refl;
          last = refl;
          moved = omega arith;
          place = i;
          at = key;
          state = some u;
          at_state = at;
          kept = λ t le. refl;
          usable_if = λ some_left. absurd (omega (arith, Missed-available now p v missed));
        },
      )
]
