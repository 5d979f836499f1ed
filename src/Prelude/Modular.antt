-- ===== src/Prelude/Modular.antt =====
-- Counters modulo a length: the round-robin order of a list.
use native.Mathlib.Decide.{dec_lt}
use native.Mathlib.Nat.{
  mod-lt, mod-eq_of_lt, mod-add-mod, add-mod-mod, add-mod_right, mod-eq-sub-mod,
}
use Prim.Native.Nat.{ℕ, ◌+◌, ◌-◌, ◌%◌, ◌<◌, ◌≤◌}
use mathlib.Core.Logic.{◌≢◌}
use mathlib.Core.Path.{◌≡◌, sym, ap, ◌∙◌}
use native.Mathlib.Omega.{arith}

-- In `n` steps from `c`, a counter modulo `n` meets every number below `n`.
pub cover : (c j n : ℕ) → j < n → (c + (j + n - c % n) % n) % n ≡ j
cover c j n lt =
    let low = mod-lt c {m = n} (omega arith) in
    add-mod-mod c (j + n - c % n) n
    ∙ sym (mod-add-mod c n (j + n - c % n))
    ∙ ap (λ m. m % n) (omega arith)
    ∙ add-mod_right j n
    ∙ mod-eq_of_lt lt

-- Two counters less than `n` apart differ modulo `n`.
pub mod-ne : (c d n : ℕ) → 0 < d → d < n → c % n ≢ (c + d) % n
mod-ne c d n pos lt =
    let low = mod-lt c {m = n} (omega arith) in
    let other = mod-add-mod c n d in
    elim (dec_lt (c % n + d) n) [
      | yes h ↦ λ e. absurd (omega (arith, mod-eq_of_lt h))
      | no h ↦ λ e.
          let wraps : n ≤ c % n + d = omega arith in
          let small : c % n + d - n < n = omega arith in
          absurd (omega (arith, mod-eq-sub-mod wraps, mod-eq_of_lt small))
    ]
