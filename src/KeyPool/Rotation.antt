-- ===== src/KeyPool/Rotation.antt =====
-- Next (pkg/search/provider/keypool.go): which key it returns, by the round-robin counter.
use websearch_mcpserver_dash.Prelude.{
  ℕ, zero, suc, ◌+◌, ◌%◌, ◌<◌, String, Bool, true, false, ◌≡◌, ap, ◌∙◌, Option, none, some, arith,
  length, get_elem?, set,
}
use websearch_mcpserver_dash.KeyPool.State.{
  KeyPool, KeyState, u64_mod, usable, bump, slot, earlier, found, scan,
}

slot_lem : (c n : ℕ) → c < u64_mod → slot c n ≡ c % n
slot_lem c n h = ap (λ m. m % n) (omega arith)

bump_lem : (c : ℕ) → c + 1 < u64_mod → bump c ≡ c + 1
bump_lem c h = omega arith

-- The state that the round `e` from now looks at, and whether its key can be used.
abbrev pub state_at : KeyPool → ℕ → Option KeyState
state_at p e = get_elem? p.states ((p.idx + e) % length p.keys)

abbrev pub key_at : KeyPool → ℕ → Option String
key_at p e = get_elem? p.keys ((p.idx + e) % length p.keys)

abbrev test : ℕ → Option KeyState → Bool
test now none = false
test now (some s) = usable now s

abbrev pub usable_at : ℕ → KeyPool → ℕ → Bool
usable_at now p e = test now (state_at p e)

-- The pool after the round `d` has found a key.
abbrev pub taken : KeyPool → ℕ → String → KeyPool
taken p d k = record p {
  idx = p.idx + suc d;
  states = set p.states ((p.idx + d) % length p.keys) none;
  last_key = some k;
}

module _ (now : ℕ) (p : KeyPool) (i r : ℕ) (earliest s : KeyState) where
  scan_hit :
      (k : String)
      → slot p.idx (length p.keys) ≡ i
      → get_elem? p.states i ≡ some s
      → usable now s ≡ true
      → get_elem? p.keys i ≡ some k
      → scan now (suc r) p earliest
        ≡ found (record p { idx = bump p.idx; states = set p.states i none; last_key = some k }) k
  unfolding scan
  scan_hit k at here hit key = ground arith

  scan_miss :
      slot p.idx (length p.keys) ≡ i
      → get_elem? p.states i ≡ some s
      → usable now s ≡ false
      → scan now (suc r) p earliest
        ≡ scan now r (record p { idx = bump p.idx }) (earlier s earliest)
  unfolding scan
  scan_miss at here miss = ground arith

-- The round `e` of this scan, if its key cannot be used.
abbrev pub Missed : ℕ → KeyPool → ℕ → Type 0
Missed now p e = (s : KeyState) × (state_at p e ≡ some s) × (usable now s ≡ false)

abbrev pub advanced : KeyPool → ℕ → KeyPool
advanced p r = record p { idx = p.idx + r }

pub shift : (c d : ℕ) → c + 1 + d ≡ c + suc d
shift c d = omega arith

pub state_at-advanced : (p : KeyPool) (e : ℕ) → state_at (advanced p 1) e ≡ state_at p (suc e)
state_at-advanced p e = ap (λ m. get_elem? p.states (m % length p.keys)) (shift p.idx e)

pub key_at-advanced : (p : KeyPool) (e : ℕ) → key_at (advanced p 1) e ≡ key_at p (suc e)
key_at-advanced p e = ap (λ m. get_elem? p.keys (m % length p.keys)) (shift p.idx e)

taken-advanced : (p : KeyPool) (d : ℕ) (k : String) → taken (advanced p 1) d k ≡ taken p (suc d) k
taken-advanced p d k = λ i. record p {
  idx = shift p.idx (suc d) i;
  states = set p.states (shift p.idx d i % length p.keys) none;
  last_key = some k;
}

pub Missed-advanced :
    (now : ℕ) (p : KeyPool) (e : ℕ) → Missed now p (suc e) → Missed now (advanced p 1) e
Missed-advanced now p e (s, at, miss) = (s, state_at-advanced p e ∙ at, miss)

pub slot-now :
    (p : KeyPool) → p.idx < u64_mod → slot p.idx (length p.keys) ≡ (p.idx + 0) % length p.keys
slot-now p h = slot_lem p.idx (length p.keys) h ∙ ap (λ m. m % length p.keys) (omega arith)

module _ (now : ℕ) where
  scan_first :
      (r : ℕ) (p : KeyPool) (earliest s : KeyState) (k : String)
      → p.idx + suc r < u64_mod
      → state_at p 0 ≡ some s
      → usable now s ≡ true
      → key_at p 0 ≡ some k
      → scan now (suc r) p earliest ≡ found (taken p 0 k) k
  scan_first r p earliest s k fits at hit key =
      scan_hit now p _ r earliest s k (slot-now p (omega arith)) at hit key
      ∙ ap
          (λ b.
            found
              (record p {
                idx = b;
                states = set p.states ((p.idx + 0) % length p.keys) none;
                last_key = some k;
              })
              k)
          (bump_lem p.idx (omega arith))

  pub scan_step :
      (r : ℕ) (p : KeyPool) (earliest s : KeyState)
      → p.idx + suc r < u64_mod
      → state_at p 0 ≡ some s
      → usable now s ≡ false
      → scan now (suc r) p earliest ≡ scan now r (advanced p 1) (earlier s earliest)
  scan_step r p earliest s fits at miss =
      scan_miss now p _ r earliest s (slot-now p (omega arith)) at miss
      ∙ ap (λ b. scan now r (record p { idx = b }) (earlier s earliest))
          (bump_lem p.idx (omega arith))

  pub scan-found :
      (d r : ℕ) (p : KeyPool) (earliest s : KeyState) (k : String)
      → p.idx + r < u64_mod
      → d < r
      → ((e : ℕ) → e < d → Missed now p e)
      → state_at p d ≡ some s
      → usable now s ≡ true
      → key_at p d ≡ some k
      → scan now r p earliest ≡ found (taken p d k) k
  scan-found d zero p earliest s k fits lt miss at hit key = absurd (omega arith)
  scan-found zero (suc r) p earliest s k fits lt miss at hit key =
      scan_first r p earliest s k fits at hit key
  scan-found (suc d) (suc r) p earliest s k fits lt miss at hit key =
      let (s', at', miss') = miss 0 (omega arith) in
      scan_step r p earliest s' fits at' miss'
      ∙ scan-found d r (advanced p 1) (earlier s' earliest) s k (omega arith) (omega arith)
          (λ e le. Missed-advanced now p e (miss (suc e) (omega arith)))
          (state_at-advanced p d ∙ at) hit (key_at-advanced p d ∙ key)
      ∙ ap (λ q. found q k) (taken-advanced p d k)
