-- ===== src/Prelude/Dedup.antt =====
-- Deduplication by a text key, as the program's loops over a `seen` map do it.
use Prim.Native.String.{String}
use mathlib.Core.Bool.{Bool, true, false, not, ◌&&◌}
use mathlib.Core.List.{List, [], ◌∷◌, map}
use mathlib.Core.Path.{◌≡◌, refl, sym, ap, ◌∙◌}
use native.Mathlib.Omega.{arith}
use text.Mathlib.TextEquality.{eq_iff}
use websearch_mcpserver_dash.Prelude.Tests.{if◌then◌else◌}
use websearch_mcpserver_dash.Prelude.Lists.{keep}
use websearch_mcpserver_dash.Prelude.Strings.{str_eq, str_mem, str_eq_refl}

keep-keep {ℓ} :
    {A : Type ℓ} (p q : A → Bool) (xs : List A) → keep p (keep q xs) ≡ keep (λ x. q x && p x) xs
keep-keep p q [] = refl
keep-keep p q (x ∷ xs) = ground (arith, keep-keep p q xs)

keep_cong {ℓ} :
    {A : Type ℓ} (p q : A → Bool) → ((x : A) → p x ≡ q x) → (xs : List A) → keep p xs ≡ keep q xs
keep_cong p q h [] = refl
keep_cong p q h (x ∷ xs) = ground (arith, h x, keep_cong p q h xs)

-- The loop that keeps the first element of each key, over the set of the keys seen so far.
module _ {ℓ} {A : Type ℓ} (key : A → String) where
  unfoldable pub dedup_by : List String → List A → List A
  dedup_by seen [] = []
  dedup_by seen (x ∷ xs) =
      let first = x ∷ dedup_by (key x ∷ seen) xs in
      let again = dedup_by seen xs in if str_mem (key x) seen then again else first

  abbrev pub keys_of : List A → List String
  keys_of = map key

  -- No two elements have the same key.
  abbrev pub Distinct : List A → Type 0
  Distinct [] = Unit {0}
  Distinct (x ∷ xs) = (str_mem (key x) (keys_of xs) ≡ false) × Distinct xs

  -- What `dedup_by` is for: every element drops the later ones that have its key.
  unfoldable pub firsts : List A → List A
  firsts [] = []
  firsts (x ∷ xs) = x ∷ keep (λ y. not (str_eq (key y) (key x))) (firsts xs)

  pub str_mem-keys_of-dedup_by :
      (k : String) (seen : List String) (xs : List A)
      → str_mem k (keys_of (dedup_by seen xs)) ≡ (str_mem k (keys_of xs) && not (str_mem k seen))
  unfolding dedup_by
  str_mem-keys_of-dedup_by k seen [] = refl
  str_mem-keys_of-dedup_by k seen (x ∷ xs) = ground (
    arith,
    eq_iff k (key x),
    str_mem-keys_of-dedup_by k seen xs,
    str_mem-keys_of-dedup_by k (key x ∷ seen) xs,
  )

  pub dedup_by-Distinct : (seen : List String) (xs : List A) → Distinct (dedup_by seen xs)
  unfolding dedup_by
  dedup_by-Distinct seen [] = tt
  dedup_by-Distinct seen (x ∷ xs) = ground (
    arith,
    dedup_by-Distinct seen xs,
    dedup_by-Distinct (key x ∷ seen) xs,
    str_mem-keys_of-dedup_by (key x) (key x ∷ seen) xs,
    str_eq_refl (key x),
  )

  abbrev pub fresh : List String → A → Bool
  fresh seen x = not (str_mem (key x) seen)

  fresh-cons :
      (seen : List String) (x y : A)
      → fresh (key x ∷ seen) y ≡ (not (str_eq (key y) (key x)) && fresh seen y)
  fresh-cons seen x y = ground arith

  fresh_same :
      (seen : List String) (x y : A)
      → str_mem (key x) seen ≡ true
      → fresh seen y ≡ (not (str_eq (key y) (key x)) && fresh seen y)
  fresh_same seen x y h = ground (arith, eq_iff (key y) (key x))

  keep-fresh-old :
      (seen : List String) (x : A) (ys : List A)
      → str_mem (key x) seen ≡ true
      → keep (fresh seen) (keep (λ y. not (str_eq (key y) (key x))) ys) ≡ keep (fresh seen) ys
  keep-fresh-old seen x ys h =
      keep-keep _ _ ys ∙ sym (keep_cong _ _ (λ y. fresh_same seen x y h) ys)

  keep-fresh-new :
      (seen : List String) (x : A) (ys : List A)
      → keep (fresh seen) (keep (λ y. not (str_eq (key y) (key x))) ys)
        ≡ keep (fresh (key x ∷ seen)) ys
  keep-fresh-new seen x ys = keep-keep _ _ ys ∙ sym (keep_cong _ _ (fresh-cons seen x) ys)

  -- The loop computes `firsts`, less the elements whose keys were seen before it began.
  pub dedup_by-firsts :
      (seen : List String) (xs : List A) → dedup_by seen xs ≡ keep (fresh seen) (firsts xs)
  unfolding dedup_by firsts
  dedup_by-firsts seen [] = refl
  dedup_by-firsts seen (x ∷ xs) = ground (
    arith,
    dedup_by-firsts seen xs,
    dedup_by-firsts (key x ∷ seen) xs,
    keep-fresh-old seen x (firsts xs),
    keep-fresh-new seen x (firsts xs),
  )

  keep_all : (ys : List A) → keep (fresh []) ys ≡ ys
  keep_all [] = refl
  keep_all (y ∷ ys) = ap (◌∷◌ y) (keep_all ys)

  pub dedup_by-eq-firsts : (xs : List A) → dedup_by [] xs ≡ firsts xs
  dedup_by-eq-firsts xs = dedup_by-firsts [] xs ∙ keep_all (firsts xs)
