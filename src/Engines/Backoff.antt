-- ===== src/Engines/Backoff.antt =====
-- The pause that failures in a row cost (`recordFail` of the page engines in pkg/search/engine).
use websearch_mcpserver_dash.Prelude.{
  ℕ, zero, suc, ◌+◌, ◌-◌, ◌*◌, ◌/◌, ◌%◌, ◌^◌, ◌≤◌, ◌<◌, ◌≡◌, sym, ap, ◌∙◌, arith, if◌then◌else◌,
  min,
}
use native.Mathlib.Nat.{
  mod-eq_of_lt, mul_assoc, mul_comm, pow-suc, mul-mod_left, add-mul-mod_self_left, mul_left_comm,
  mul-add, zero-add,
}
use websearch_mcpserver_dash.Engines.Session.{
  word, sign_bit, less, Pace, Session, shifted, backoff_after, record_fail, record_success,
  pre_delay,
}

-- Failures in a row.
unfoldable pub failures : Pace → ℕ → Session → Session
failures pace zero s = s
failures pace (suc n) s = record_fail pace (failures pace n s)

pow-pos : (n : ℕ) → 0 < 2 ^ n
pow-pos zero = omega arith
pow-pos (suc n) = omega (arith, pow-suc 2 n, pow-pos n)

le-mul : (b p : ℕ) → 0 < b → p ≤ b * p
le-mul b p h = grind arith

pow-add : (m n : ℕ) → 2 ^ (m + n) ≡ 2 ^ m * 2 ^ n
pow-add zero n = ap (λ k. 2 ^ k) (zero-add n) ∙ omega arith
pow-add (suc m) n =
    let e : suc m + n ≡ suc (m + n) = omega arith in
    ap (λ k. 2 ^ k) e
    ∙ pow-suc 2 (m + n)
    ∙ ap (λ p. p * 2) (pow-add m n)
    ∙ mul_assoc (2 ^ m) (2 ^ n) 2
    ∙ ap (λ p. 2 ^ m * p) (mul_comm (2 ^ n) 2)
    ∙ sym (mul_assoc (2 ^ m) 2 (2 ^ n))
    ∙ ap (λ p. p * 2 ^ n) (sym (pow-suc 2 m))

-- A delay of some trailing binary zeros is a multiple of the word once it is doubled often enough.
doubled-word : (k j n : ℕ) → 64 ≤ j + n → k * 2 ^ j * 2 ^ n ≡ k * 2 ^ (j + n - 64) * word
doubled-word k j n many =
    let e : j + n ≡ j + n - 64 + 64 = omega arith in
    mul_assoc k (2 ^ j) (2 ^ n)
    ∙ ap (λ m. k * m) (sym (pow-add j n) ∙ ap (λ m. 2 ^ m) e ∙ pow-add (j + n - 64) 64)
    ∙ sym (mul_assoc k (2 ^ (j + n - 64)) word)

mul-mod : (a b : ℕ) → a * (b % word) % word ≡ a * b % word
mul-mod a b =
    let whole : b ≡ b % word + word * (b / word) = omega arith in
    let split : a * b ≡ a * (b % word) + word * (a * (b / word)) =
      ap (λ m. a * m) whole
      ∙ mul-add a (b % word) (word * (b / word))
      ∙ ap (λ m. a * (b % word) + m) (mul_left_comm a word (b / word)) in
    sym (ap (λ m. m % word) split ∙ add-mul-mod_self_left (a * (b % word)) word (a * (b / word)))

module _ (pace : Pace) where
  -- The pause of a wrapped product counts for nothing.
  backoff_after-zero :
      (k j n : ℕ) → pace.base_delay ≡ k * 2 ^ j → 64 ≤ j + n → backoff_after pace n ≡ 0
  unfolding backoff_after
  backoff_after-zero k j n base late =
      let none : pace.base_delay * shifted n % word ≡ 0 =
        mul-mod pace.base_delay (2 ^ n)
        ∙ ap (λ b. b * 2 ^ n % word) base
        ∙ ap (λ m. m % word) (doubled-word k j n late)
        ∙ mul-mod_left (k * 2 ^ (j + n - 64)) word in
      ground (arith, none)

  backoff_after-min :
      (n : ℕ)
      → 0 < pace.base_delay
      → pace.max_backoff < sign_bit
      → pace.base_delay * 2 ^ n < sign_bit
      → backoff_after pace n ≡ min pace.max_backoff (pace.base_delay * 2 ^ n)
  unfolding backoff_after
  backoff_after-min n some_delay small fits =
      let below : 2 ^ n < word = omega (arith, le-mul pace.base_delay (2 ^ n) some_delay, fits) in
      let plain : pace.base_delay * shifted n % word ≡ pace.base_delay * 2 ^ n =
        ap (λ m. pace.base_delay * m % word) (mod-eq_of_lt below) ∙ mod-eq_of_lt (omega arith) in
      ground (arith, plain)

  consec_fails-failures :
      (n : ℕ) (s : Session) → (failures pace n s).consec_fails ≡ n + s.consec_fails
  unfolding failures record_fail
  consec_fails-failures zero s = omega arith
  consec_fails-failures (suc n) s = omega (arith, consec_fails-failures n s)

  backoff-failures :
      (n : ℕ) (s : Session)
      → s.consec_fails ≡ 0
      → 0 < n
      → (failures pace n s).backoff ≡ backoff_after pace n
  unfolding failures record_fail
  backoff-failures zero s fresh some_fails = absurd (omega arith)
  backoff-failures (suc n) s fresh some_fails =
      ap (backoff_after pace) (omega (arith, consec_fails-failures n s))

  -- After n failures in a row, from a session without failures, the pause is the smaller of the engine's
  -- largest pause and the delay doubled n times, as long as that fits into an int64.
  pub failures-min :
      (n : ℕ) (s : Session)
      → s.consec_fails ≡ 0
      → 0 < n
      → 0 < pace.base_delay
      → pace.max_backoff < sign_bit
      → pace.base_delay * 2 ^ n < sign_bit
      → (failures pace n s).backoff ≡ min pace.max_backoff (pace.base_delay * 2 ^ n)
  failures-min n s fresh some_fails some_delay small fits =
      backoff-failures n s fresh some_fails ∙ backoff_after-min n some_delay small fits

  -- Where the delay is a multiple of the j-th power of 2, from 64 - j failures in a row on the doubling
  -- has wrapped to 0: the next request waits no longer than one without failures. The powers are the
  -- 11th for DuckDuckGo's 800 ms, the 9th for Google's second, and the 8th for the 500 ms of Bing and
  -- Baidu.
  pub failures-forgotten :
      (k j n jitter : ℕ) (s : Session)
      → pace.base_delay ≡ k * 2 ^ j
      → s.consec_fails ≡ 0
      → 0 < n
      → 64 ≤ j + n
      → pre_delay pace jitter (failures pace n s) ≡ pre_delay pace jitter (record_success s)
  unfolding pre_delay record_success
  failures-forgotten k j n jitter s base fresh some_fails late =
      let none : (failures pace n s).backoff ≡ 0 =
        backoff-failures n s fresh some_fails ∙ backoff_after-zero k j n base late in
      ap (λ b. pace.base_delay + jitter + (if less 0 b then b else 0)) none
