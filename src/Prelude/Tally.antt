-- ===== src/Prelude/Tally.antt =====
-- How many elements of a list pass a test.
use Prim.Native.Nat.{ℕ, zero, suc, ◌+◌, ◌≤◌, ◌<◌}
use mathlib.Core.Bool.{Bool, true}
use mathlib.Core.List.{List, [], ◌∷◌, ◌++◌, map}
use mathlib.Core.Option
use mathlib.Core.Option.{Option, none, some}
use mathlib.Core.Logic.{◌↔◌}
use mathlib.Core.Path.{◌≡◌, refl}
use native.Mathlib.Omega.{arith}
use websearch_mcpserver_dash.Prelude.Tests.{if◌then◌else◌}
use websearch_mcpserver_dash.Prelude.Lists.{length, take, keep, find}

module _ {A : Type 0} (test : A → Bool) where
  unfoldable pub tally : List A → ℕ
  tally [] = 0
  tally (x ∷ xs) = (if test x then 1 else 0) + tally xs

  pub tally-append : (xs ys : List A) → tally (xs ++ ys) ≡ tally xs + tally ys
  unfolding tally
  tally-append [] ys = omega arith
  tally-append (x ∷ xs) ys = omega (arith, tally-append xs ys)

  pub tally-take-le : (n : ℕ) (xs : List A) → tally (take n xs) ≤ tally xs
  unfolding tally
  tally-take-le zero xs = omega arith
  tally-take-le (suc n) [] = omega arith
  tally-take-le (suc n) (x ∷ xs) = omega (arith, tally-take-le n xs)

pub tally-true : {A : Type 0} (xs : List A) → tally (λ _. true) xs ≡ length xs
unfolding tally
tally-true [] = refl
tally-true (x ∷ xs) = omega (arith, tally-true xs)

module _ {A : Type 0} where
  pub tally-map :
      {B : Type 0} (p : B → Bool) (q : A → Bool) (f : A → B)
      → ((x : A) → p (f x) ≡ q x)
      → (xs : List A) → tally p (map f xs) ≡ tally q xs
  unfolding tally
  tally-map p q f h [] = refl
  tally-map p q f h (x ∷ xs) = ground (arith, h x, tally-map p q f h xs)

  pub tally-keep-le : (p q : A → Bool) (xs : List A) → tally p (keep q xs) ≤ tally p xs
  unfolding tally
  tally-keep-le p q [] = omega arith
  tally-keep-le p q (x ∷ xs) = ground (arith, tally-keep-le p q xs)

  pub find-none : (p : A → Bool) (xs : List A) → find p xs ≡ none → tally p xs ≡ 0
  unfolding tally
  find-none p [] h = refl
  find-none p (x ∷ xs) h = ground (arith, find-none p xs)

  pub find-some : (p : A → Bool) (xs : List A) (x : A) → find p xs ≡ some x → p x ≡ true
  find-some p [] x h = absurd (cc h)
  find-some p (y ∷ xs) x h = ground (arith, find-some p xs x)

  pub tally-none : (p : A → Bool) (xs : List A) → tally p xs ≡ 0 → find p xs ≡ none
  unfolding tally
  tally-none p [] h = refl
  tally-none p (x ∷ xs) h = ground (arith, tally-none p xs)

  pub find-map :
      (p : A → Bool) (f : A → A)
      → ((x : A) → p (f x) ≡ p x)
      → (xs : List A) → find p (map f xs) ≡ Option.map f (find p xs)
  find-map p f h [] = refl
  find-map p f h (x ∷ xs) = ground (arith, h x, find-map p f h xs)

  pub find-tally :
      (p q : A → Bool) (xs : List A) (x : A) → find p xs ≡ some x → q x ≡ true → 0 < tally q xs
  unfolding tally
  find-tally p q [] x f h = absurd (cc f)
  find-tally p q (y ∷ xs) x f h = ground (arith, find-tally p q xs x)

  pub keep-nil : (p : A → Bool) (xs : List A) → (keep p xs ≡ []) ↔ (tally p xs ≡ 0)
  unfolding tally
  keep-nil p [] = (λ _. refl, λ _. refl)
  keep-nil p (x ∷ xs) =
      (λ h. ground (arith, (keep-nil p xs).0), λ h. ground (arith, (keep-nil p xs).1))

-- A rearrangement of a list, which keeps every element as often as it is there.
abbrev pub Keeps : {A : Type 0} → (List A → List A) → Type 0
Keeps {A} arrange = (test : A → Bool) (xs : List A) → tally test (arrange xs) ≡ tally test xs
