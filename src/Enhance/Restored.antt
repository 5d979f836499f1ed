-- ===== src/Enhance/Restored.antt =====
-- The engines' first results after the academic score floor (pkg/search/enhance/academic_enhance.go).
use websearch_mcpserver_dash.Prelude.{
  ℕ, zero, suc, ◌<◌, String, Bool, true, false, ◌||◌, ◌≡◌, refl, some, List, [], ◌∷◌, ◌++◌, arith,
  get_elem?, str_mem-append, eq_iff, tally, Keeps,
}
use websearch_mcpserver_dash.Core.{SearchResult, ScoreBucket, Numbers}
use websearch_mcpserver_dash.Go.{Text, UrlText}
use websearch_mcpserver_dash.Enhance.Floor.{threshold_or}
use websearch_mcpserver_dash.Enhance.Academic.{
  result_keys, any_in, kept_by_score, keys_of_all, top_keys, restored, apply_academic_score_floor,
}

any_in-append : (s t ks : List String) → any_in (s ++ t) ks ≡ (any_in s ks || any_in t ks)
unfolding any_in
any_in-append s t [] = refl
any_in-append s t (k ∷ ks) = ground (arith, any_in-append s t ks, str_mem-append k s t)

any_in-nil : (ks : List String) → any_in [] ks ≡ false
unfolding any_in
any_in-nil [] = refl
any_in-nil (k ∷ ks) = any_in-nil ks

any_in_self : (s ks : List String) → any_in s ks ≡ true → any_in ks ks ≡ true
unfolding any_in
any_in_self s [] h = h
any_in_self s (k ∷ ks) h = ground (arith, eq_iff k k)

module _ {F : Type 0} (num : Numbers F) (text : Text) (urls : UrlText) where
  abbrev keys : SearchResult F → List String
  keys = result_keys num text urls

  keys_of_all-append :
      (xs ys : List (SearchResult F)) (ks : List String)
      → any_in (keys_of_all num text urls (xs ++ ys)) ks
        ≡ (any_in (keys_of_all num text urls xs) ks || any_in (keys_of_all num text urls ys) ks)
  unfolding keys_of_all
  keys_of_all-append [] ys ks = rw (any_in-nil ks) refl
  keys_of_all-append (x ∷ xs) ys ks = ground (
    arith,
    any_in-append (keys x) (keys_of_all num text urls (xs ++ ys)) ks,
    any_in-append (keys x) (keys_of_all num text urls xs) ks,
    keys_of_all-append xs ys ks,
  )

  -- A result with an engine's first key is brought back, or one that shares a key is there.
  restored-covers :
      (top kept : List String) (rs : List (SearchResult F)) (r : SearchResult F) (i : ℕ)
      → get_elem? rs i ≡ some r
      → any_in top (keys r) ≡ true
      → (any_in (keys_of_all num text urls (restored num text urls top kept rs)) (keys r)
          || any_in kept (keys r))
        ≡ true
  unfolding restored keys_of_all
  restored-covers top kept [] r i here h = absurd (cc here)
  restored-covers top kept (x ∷ rs) r zero here h =
      let same : x ≡ r = cc here in
      ground (
        arith,
        same,
        h,
        any_in_self top (keys r) h,
        any_in-append (keys x)
            (keys_of_all num text urls (restored num text urls top (keys x ++ kept) rs)) (keys r),
      )
  restored-covers top kept (x ∷ rs) r (suc i) here h = ground (
    arith,
    restored-covers top kept rs r i here h,
    restored-covers top (keys x ++ kept) rs r i here h,
    any_in-append (keys x) kept (keys r),
    any_in-append (keys x)
        (keys_of_all num text urls (restored num text urls top (keys x ++ kept) rs)) (keys r),
  )

  tally-any_in :
      (xs : List (SearchResult F)) (ks : List String)
      → any_in (keys_of_all num text urls xs) ks ≡ true
      → 0 < tally (λ x. any_in (keys x) ks) xs
  unfolding tally keys_of_all
  tally-any_in [] ks h = absurd (cc (h, any_in-nil ks))
  tally-any_in (x ∷ xs) ks h =
      ground
        (arith, h, any_in-append (keys x) (keys_of_all num text urls xs) ks, tally-any_in xs ks)

  -- Over a sort that keeps every result: for each scored result that has a key of an engine's first
  -- result, the academic floor returns one that shares a key with it.
  pub academic_floor_covers :
      (sort_by_score : List (SearchResult F) → List (SearchResult F))
      → Keeps sort_by_score
      → (scored : List (SearchResult F)) (buckets : List (ScoreBucket F)) (threshold : F)
        (r : SearchResult F) (i : ℕ)
      → get_elem? scored i ≡ some r
      → any_in (top_keys num text urls buckets) (keys r) ≡ true
      → 0
        < tally
            (λ x. any_in (keys x) (keys r))
            (apply_academic_score_floor num text urls sort_by_score scored buckets threshold)
  unfolding apply_academic_score_floor
  academic_floor_covers sort_by_score keeps scored buckets threshold r i here first =
      let kept = kept_by_score num text urls (threshold_or num (num.dec 2 2) threshold) scored in
      let back =
        restored num text urls (top_keys num text urls buckets) (keys_of_all num text urls kept)
          scored in
      let covers =
        restored-covers (top_keys num text urls buckets) (keys_of_all num text urls kept) scored r i
          here first in
      let shares : SearchResult F → Bool = λ x. any_in (keys x) (keys r) in
      ground (
        arith,
        keeps shares (kept ++ back),
        tally-any_in (kept ++ back) (keys r),
        keys_of_all-append kept back (keys r),
        covers,
      )
