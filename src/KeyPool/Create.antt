-- ===== src/KeyPool/Create.antt =====
-- What NewKeyPool builds (pkg/search/provider/keypool.go).
use websearch_mcpserver_dash.Prelude.{
  ℕ, zero, suc, ◌<◌, String, not, ◌≡◌, ◌↔◌, refl, ◌∙◌, sym, ap, none, some, List, [], ◌∷◌, map,
  arith, length, keep, replicate, length-replicate, str_eq, dedup_by, firsts, Distinct,
  dedup_by-Distinct, dedup_by-eq-firsts,
}
use mathlib.Core.Path.{subst}
use websearch_mcpserver_dash.KeyPool.State.{
  KeyPool, filter_keys, new_key_pool, available, len, usable,
}
use websearch_mcpserver_dash.KeyPool.Valid.{IsValid, itself}

all_usable : (now n : ℕ) → length (keep (usable now) (replicate n none)) ≡ n
all_usable now zero = refl
all_usable now (suc n) = ap suc (all_usable now n)

module _ (trim : String → String) where
  -- The configured keys that are not blank, trimmed.
  abbrev pub nonblank : List String → List String
  nonblank ks = keep (λ t. not (str_eq t "")) (map trim ks)

  filter_keys-dedup_by :
      (seen : List String) (ks : List String)
      → filter_keys trim seen ks ≡ dedup_by itself seen (nonblank ks)
  unfolding filter_keys dedup_by
  filter_keys-dedup_by seen [] = refl
  filter_keys-dedup_by seen (k ∷ ks) =
      ground (arith, filter_keys-dedup_by seen ks, filter_keys-dedup_by (trim k ∷ seen) ks)

  dedup_by_nil : (ks : List String) → dedup_by itself [] ks ≡ [] → ks ≡ []
  unfolding dedup_by
  dedup_by_nil [] h = refl
  dedup_by_nil (k ∷ ks) h = ground arith

  built :
      (ks : List String) (p : KeyPool)
      → new_key_pool trim ks ≡ some p
      → (0 < length (filter_keys trim [] ks))
        × (p.keys ≡ filter_keys trim [] ks)
        × (p.states ≡ replicate (length (filter_keys trim [] ks)) none)
        × (p.idx ≡ 0)
  unfolding new_key_pool
  built ks p h = ground arith

  -- The pool holds the nonblank keys, each once, in the order of their first occurrence; it is
  -- well formed, and every key of it can be used at any time.
  pub new_key_pool-IsValid :
      (ks : List String) (p : KeyPool)
      → new_key_pool trim ks ≡ some p
      → IsValid p × (p.keys ≡ firsts itself (nonblank ks)) × ((now : ℕ) → available now p ≡ len p)
  unfolding available len
  new_key_pool-IsValid ks p h =
      let (full, k, s, i) = built ks p h in
      let spec = k ∙ filter_keys-dedup_by [] ks in
      let size : length p.states ≡ length p.keys =
        ap length s ∙ length-replicate _ _ ∙ sym (ap length k) in
      (
        record {
          nonempty = omega (arith, ap length k);
          matched = size;
          distinct = subst (Distinct itself) (sym spec) (dedup_by-Distinct itself [] (nonblank ks));
          counter = omega arith;
        },
        spec ∙ dedup_by-eq-firsts itself (nonblank ks),
        λ now. rw s (all_usable now _) ∙ sym (ap length k),
      )

  -- It is refused exactly when no key is left.
  pub new_key_pool-none : (ks : List String) → (new_key_pool trim ks ≡ none) ↔ (nonblank ks ≡ [])
  unfolding new_key_pool dedup_by
  new_key_pool-none ks = (
    λ h. ground (arith, filter_keys-dedup_by [] ks, dedup_by_nil (nonblank ks)),
    λ h. rw (filter_keys-dedup_by [] ks, h, new_key_pool) refl,
  )
