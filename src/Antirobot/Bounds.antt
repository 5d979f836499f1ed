-- ===== src/Antirobot/Bounds.antt =====
-- What the limiter of pkg/antirobot/limiter.go never lets through.
use websearch_mcpserver_dash.Prelude.{
  ℕ, ◌+◌, ◌≤◌, ◌<◌, Bool, true, ◌&&◌, Option, none, some, List, [], ◌∷◌, ◌≡◌, refl, arith, ltb, leb,
  tally, Bool-cases, inl, inr,
}
use websearch_mcpserver_dash.Antirobot.Limiter.{
  second, minute, recent, allowed_times, new_rate_limiter, with_min_interval,
}
use websearch_mcpserver_dash.Antirobot.History.{
  Ordered, newest, permitted, permitted_times, allowed_times-permitted_times,
}

-- The times from `from` on, and before `span` has passed since.
abbrev pub in_window : ℕ → ℕ → ℕ → Bool
in_window span from t = leb from t && ltb t (from + span)

tally-in_window :
    (span from t : ℕ) (log : List ℕ)
    → in_window span from t ≡ true
    → tally (in_window span from) log ≤ tally (recent span t) log
unfolding tally
tally-in_window span from t [] h = omega arith
tally-in_window span from t (x ∷ log) h = ground (arith, tally-in_window span from t log h)

module _ (a b d span limit from : ℕ)
    (keeps_to : (log : List ℕ) (t : ℕ)
      → permitted a b d log t ≡ true
      → tally (recent span t) log < limit) where
  permitted-le :
      (log : List ℕ) (t : ℕ)
      → tally (in_window span from) log ≤ limit
      → permitted a b d log t ≡ true
      → tally (in_window span from) (t ∷ log) ≤ limit
  unfolding tally
  permitted-le log t h allows = elim (Bool-cases (in_window span from t)) [
    | inl inside ↦
        ground (arith, inside, tally-in_window span from t log inside, keeps_to log t allows)
    | inr outside ↦ ground (arith, outside, h)
  ]

  permitted_times-le :
      (log ts : List ℕ)
      → tally (in_window span from) log ≤ limit
      → tally (in_window span from) (permitted_times a b d log ts) + tally (in_window span from) log
        ≤ limit
  unfolding permitted_times tally
  permitted_times-le log [] h = omega arith
  permitted_times-le log (t ∷ ts) h = elim (Bool-cases (permitted a b d log t)) [
    | inl allows ↦
        let room = permitted-le log t h allows in
        let rest = permitted_times-le (t ∷ log) ts room in rw (allows) (omega (arith, rest))
    | inr denies ↦ rw (denies) (permitted_times-le log ts h)
  ]

module _ (a b d : ℕ) where
  keeps_to_second :
      (log : List ℕ) (t : ℕ) → permitted a b d log t ≡ true → tally (recent second t) log < a
  keeps_to_second log t h = ground arith

  keeps_to_minute :
      (log : List ℕ) (t : ℕ) → permitted a b d log t ≡ true → tally (recent minute t) log < b
  keeps_to_minute log t h = ground arith

-- Each time comes at least so long after the one before it.
abbrev pub Spaced : ℕ → Option ℕ → List ℕ → Type 0
Spaced d last [] = Unit {0}
Spaced d none (t ∷ ts) = Spaced d (some t) ts
Spaced d (some l) (t ∷ ts) = (l + d ≤ t) × Spaced d (some t) ts

permitted-Spaced :
    (a b d t : ℕ) (log rest : List ℕ)
    → ((l : ℕ) → newest log ≡ some l → l ≤ t)
    → permitted a b d log t ≡ true
    → Spaced d (some t) rest
    → Spaced d (newest log) (t ∷ rest)
permitted-Spaced a b d t [] rest le allows spaced = spaced
permitted-Spaced a b d t (l ∷ log) rest le allows spaced =
    (ground (arith, le l refl, allows), spaced)

permitted_times-Spaced :
    (a b d now : ℕ) (log ts : List ℕ)
    → ((l : ℕ) → newest log ≡ some l → l ≤ now)
    → Ordered now ts
    → Spaced d (newest log) (permitted_times a b d log ts)
unfolding permitted_times
permitted_times-Spaced a b d now log [] le o = tt
permitted_times-Spaced a b d now log (t ∷ ts) le o = elim (Bool-cases (permitted a b d log t)) [
  | inl allows ↦ rw (allows) (
      permitted-Spaced a b d t log _ (λ l eq. omega (arith, le l eq, o.0)) allows
        (permitted_times-Spaced a b d t (t ∷ log) ts
          (λ l eq. let same : t ≡ l = cc eq in omega (arith, same)) o.1))
  | inr denies ↦
      rw (denies) (permitted_times-Spaced a b d t log ts (λ l eq. omega (arith, le l eq, o.0)) o.1)
]

module _ (per_sec per_min d : ℕ) (ts : List ℕ) (o : Ordered 0 ts) where
  -- Of calls whose times do not go back, a limiter lets through at most `perSec` in any second.
  pub allowed_times-second-le :
      (from : ℕ)
      → tally
          (in_window second from)
          (allowed_times (with_min_interval d (new_rate_limiter per_sec per_min)) ts)
        ≤ per_sec
  unfolding tally
  allowed_times-second-le from = rw (allowed_times-permitted_times per_sec per_min d ts o) (
      omega (
        arith,
        permitted_times-le per_sec per_min d second per_sec from (keeps_to_second per_sec per_min d)
            [] ts (omega arith),
      ))

  -- Of calls whose times do not go back, a limiter lets through at most `perMin` in any minute.
  pub allowed_times-minute-le :
      (from : ℕ)
      → tally
          (in_window minute from)
          (allowed_times (with_min_interval d (new_rate_limiter per_sec per_min)) ts)
        ≤ per_min
  unfolding tally
  allowed_times-minute-le from = rw (allowed_times-permitted_times per_sec per_min d ts o) (
      omega (
        arith,
        permitted_times-le per_sec per_min d minute per_min from (keeps_to_minute per_sec per_min d)
            [] ts (omega arith),
      ))

  -- Of calls whose times do not go back, each that a limiter lets through comes at least `minInterval`
  -- after the one let through before it.
  pub allowed_times-Spaced :
      Spaced d none (allowed_times (with_min_interval d (new_rate_limiter per_sec per_min)) ts)
  allowed_times-Spaced =
      rw (allowed_times-permitted_times per_sec per_min d ts o)
        (permitted_times-Spaced per_sec per_min d 0 [] ts (λ l eq. absurd (cc eq)) o)
