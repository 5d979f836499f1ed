-- ===== src/KeyPool/Recovery.antt =====
-- Next (pkg/search/provider/keypool.go) when no key can be used: the earliest recovery wins.
use websearch_mcpserver_dash.Prelude.{
  ℕ, zero, suc, ◌+◌, ◌<◌, ◌≤◌, false, ◌≡◌, refl, sym, ap, ◌∙◌, ◌⊎◌, inl, inr, none, some, arith,
  ltb, Bool-cases,
}
use mathlib.Core.Path.{subst}
use websearch_mcpserver_dash.KeyPool.State.{
  KeyPool, KeyState, u64_mod, usable, earlier, exhausted, scan,
}
use websearch_mcpserver_dash.KeyPool.Rotation.{
  state_at, Missed, advanced, scan_step, shift, state_at-advanced, Missed-advanced,
}

-- The time `m` is set, and is not after `v`.
abbrev pub NotAfter : KeyState → ℕ → Type 0
NotAfter m v = (u : ℕ) × (m ≡ some u) × (u ≤ v)

earlier_either : (s e : KeyState) → (earlier s e ≡ s) ⊎ (earlier s e ≡ e)
earlier_either s none = inl refl
earlier_either none (some e) = inl refl
earlier_either (some u) (some e) = ground arith

earlier_left : (v : ℕ) (e : KeyState) → NotAfter (earlier (some v) e) v
earlier_left v none = (v, refl, omega arith)
earlier_left v (some e) = elim (Bool-cases (ltb v e)) [
  | inl h ↦ (v, rw h, omega arith)
  | inr h ↦ (e, rw h, ground arith)
]

earlier_right : (v w : ℕ) → NotAfter (earlier (some v) (some w)) w
earlier_right v w = elim (Bool-cases (ltb v w)) [
  | inl h ↦ (v, rw h, ground arith)
  | inr h ↦ (w, rw h, omega arith)
]

pub missed_set : (now : ℕ) (s : KeyState) → usable now s ≡ false → (t : ℕ) × (s ≡ some t)
missed_set now none h = absurd (ground arith)
missed_set now (some t) h = (t, refl)

-- What the scan keeps as `earliestRecover` when every round of it misses.
pub record Earliest (p : KeyPool) (r : ℕ) (start m : KeyState) : Type 0 where
  pub origin : (m ≡ start) ⊎ ((e : ℕ) × (e < r) × (state_at p e ≡ some m))
  pub before_seen : (e v : ℕ) → e < r → state_at p e ≡ some (some v) → NotAfter m v
  pub before_start : (w : ℕ) → start ≡ some w → NotAfter m w

NotAfter-trans : {m : KeyState} (v w : ℕ) → NotAfter m v → v ≤ w → NotAfter m w
NotAfter-trans v w (u, e, h) le = (u, e, omega arith)

NotAfter-of :
    {m s : KeyState} (w : ℕ) → NotAfter s w → ((v : ℕ) → s ≡ some v → NotAfter m v) → NotAfter m w
NotAfter-of w (v, e, h) f = NotAfter-trans v w (f v e) h

module _ (r t : ℕ) (p : KeyPool) (start m : KeyState) (at : state_at p 0 ≡ some (some t))
    (h : Earliest (advanced p 1) r (earlier (some t) start) m) where
  origin_next : (m ≡ start) ⊎ ((e : ℕ) × (e < suc r) × (state_at p e ≡ some m))
  origin_next = elim h.origin [
    | inr (e, lt, eq) ↦ inr (suc e, omega arith, sym (state_at-advanced p e) ∙ eq)
    | inl eq ↦ elim (earlier_either (some t) start) [
      | inl here ↦ inr (0, omega arith, at ∙ ap some (sym (eq ∙ here)))
      | inr old ↦ inl (eq ∙ old)
    ]
  ]

  before_seen_next : (e v : ℕ) → e < suc r → state_at p e ≡ some (some v) → NotAfter m v
  before_seen_next zero v lt eq =
      let same : t ≡ v = ground arith in
      NotAfter-trans t v (NotAfter-of t (earlier_left t start) h.before_start) (omega arith)
  before_seen_next (suc e) v lt eq = h.before_seen e v (omega arith) (state_at-advanced p e ∙ eq)

  before_start_next : (w : ℕ) → start ≡ some w → NotAfter m w
  before_start_next w eq =
      NotAfter-of w (subst (λ s. NotAfter (earlier (some t) s) w) (sym eq) (earlier_right t w))
        h.before_start

  Earliest-next : Earliest p (suc r) start m
  Earliest-next = record {
    origin = origin_next;
    before_seen = before_seen_next;
    before_start = before_start_next;
  }

-- When all the rounds of a scan miss, it ends with the earliest of the times that it has seen.
pub scan-exhausted :
    (now r : ℕ) (p : KeyPool) (start : KeyState)
    → p.idx + r < u64_mod
    → ((e : ℕ) → e < r → Missed now p e)
    → (m : KeyState) × (scan now r p start ≡ exhausted (advanced p r) m) × Earliest p r start m
unfolding scan
scan-exhausted now zero p start fits miss = (
  start,
  ap (λ i. exhausted (record p { idx = i }) start) (omega arith),
  record {
    origin = inl refl;
    before_seen = λ e v lt. absurd (omega arith);
    before_start = λ w h. (w, h, omega arith);
  },
)
scan-exhausted now (suc r) p start fits miss =
    let (s, at, no_use) = miss 0 (omega arith) in
    let (t, set_at) = missed_set now s no_use in
    let (m, ends, h) =
      scan-exhausted now r (advanced p 1) (earlier s start) (omega arith)
        (λ e lt. Missed-advanced now p e (miss (suc e) (omega arith))) in
    (
      m,
      scan_step now r p start s fits at no_use
          ∙ ends
          ∙ ap (λ i. exhausted (record p { idx = i }) m) (shift p.idx r),
      Earliest-next r t p start m (at ∙ ap some set_at)
          (subst (λ x. Earliest (advanced p 1) r (earlier x start) m) set_at h),
    )
