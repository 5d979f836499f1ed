-- ===== src/Enhance/Joined.antt =====
-- Which results are taken for one paper, and which of them are brought back
-- (pkg/search/enhance/academic_enhance.go).
use websearch_mcpserver_dash.Prelude.{
  ℕ, zero, suc, ◌+◌, ◌≤◌, ◌<◌, String, false, refl, ap, ◌∙◌, Option, none, ◌++◌, length,
  length-append, get_elem?, get_elem?-lt, ◌≡◌, some, List, [], ◌∷◌, arith, str_eq, eq_iff,
}
use websearch_mcpserver_dash.Core.{SearchResult, ScoreBucket, Numbers}
use websearch_mcpserver_dash.Go.{Text, UrlText}
use websearch_mcpserver_dash.Enhance.Aggregate.{UrlAgg, weight_or_one, new_agg, counted}
use websearch_mcpserver_dash.Enhance.Academic.{
  Papers, doi_key, place_of, add_paper, add_papers, gather_papers, modify_at, with_place, put_paper,
  found_paper, joined_paper,
}

module _ {A : Type 0} (f : A → A) where
  length-modify_at : (n : ℕ) (xs : List A) → length (modify_at f n xs) ≡ length xs
  unfolding modify_at
  length-modify_at n [] = refl
  length-modify_at zero (x ∷ xs) = refl
  length-modify_at (suc n) (x ∷ xs) = omega (arith, length-modify_at n xs)

  get_elem?-modify_at :
      (n : ℕ) (xs : List A) (x : A)
      → get_elem? xs n ≡ some x
      → get_elem? (modify_at f n xs) n ≡ some (f x)
  unfolding modify_at
  get_elem?-modify_at n [] x h = absurd (cc h)
  get_elem?-modify_at zero (y ∷ xs) x h = cc h
  get_elem?-modify_at (suc n) (y ∷ xs) x h = get_elem?-modify_at n xs x h

module _ {F : Type 0} (num : Numbers F) (text : Text) (urls : UrlText) where
  -- A DOI that stands for an aggregate keeps standing for it.
  add_paper-by_doi :
      (w : F) (name : String) (rank : ℕ) (r : SearchResult F) (ps : Papers F) (d : String) (i : ℕ)
      → ps.by_doi d ≡ some i
      → (add_paper num text urls w name rank r ps).by_doi d ≡ some i
  unfolding add_paper place_of
  add_paper-by_doi w name rank r ps d i h = ground (arith, h, eq_iff d (doi_key num text urls r))

  add_papers-by_doi :
      (w : F) (name : String) (rank : ℕ) (rs : List (SearchResult F)) (ps : Papers F) (d : String)
      (i : ℕ)
      → ps.by_doi d ≡ some i
      → (add_papers num text urls w name rank rs ps).by_doi d ≡ some i
  unfolding add_papers
  add_papers-by_doi w name rank [] ps d i h = h
  add_papers-by_doi w name rank (r ∷ rs) ps d i h =
      add_papers-by_doi w name (rank + 1) rs _ d i (add_paper-by_doi w name rank r ps d i h)

  add_paper-own :
      (w : F) (name : String) (rank : ℕ) (r : SearchResult F) (ps : Papers F)
      → str_eq (doi_key num text urls r) "" ≡ false
      → (add_paper num text urls w name rank r ps).by_doi (doi_key num text urls r)
        ≡ some (place_of num text urls ps r)
  unfolding add_paper
  add_paper-own w name rank r ps h =
      ground (arith, h, eq_iff (doi_key num text urls r) (doi_key num text urls r))

  gather_papers-by_doi :
      (bs : List (ScoreBucket F)) (ps : Papers F) (d : String) (i : ℕ)
      → ps.by_doi d ≡ some i
      → (gather_papers num text urls bs ps).by_doi d ≡ some i
  unfolding gather_papers
  gather_papers-by_doi [] ps d i h = h
  gather_papers-by_doi (b ∷ bs) ps d i h =
      gather_papers-by_doi bs _ d i
        (add_papers-by_doi (weight_or_one num b.weight) b.name 0 b.results ps d i h)

  place-by_doi :
      (ps : Papers F) (r : SearchResult F) (i : ℕ)
      → ps.by_doi (doi_key num text urls r) ≡ some i
      → place_of num text urls ps r ≡ i
  unfolding place_of
  place-by_doi ps r i h = ground (arith, h)

  -- Their places are the same.
  place_of-same_doi :
      (w w' : F) (name name' : String) (rank rank' : ℕ) (r s : SearchResult F)
      (rs : List (SearchResult F)) (bs : List (ScoreBucket F)) (ps : Papers F)
      → str_eq (doi_key num text urls r) "" ≡ false
      → doi_key num text urls s ≡ doi_key num text urls r
      → place_of num text urls
          (gather_papers num text urls bs
            (add_papers num text urls w' name' rank' rs (add_paper num text urls w name rank r ps)))
          s
        ≡ place_of num text urls ps r
  place_of-same_doi w w' name name' rank rank' r s rs bs ps has_doi same =
      let i = place_of num text urls ps r in
      let own = add_paper-own w name rank r ps has_doi in
      let after = add_papers-by_doi w' name' rank' rs _ (doi_key num text urls r) i own in
      let later = gather_papers-by_doi bs _ (doi_key num text urls r) i after in
      place-by_doi _ s i (rw same later)

  length-with_place :
      (ps : Papers F) (r : SearchResult F)
      → length ps.order ≤ length (with_place num text urls ps r)
  length-with_place ps r = by_found (found_paper num text urls ps r)
    where
      by_found :
          (o : Option ℕ)
          → length ps.order
            ≤ length (elim o [ some i ↦ ps.order | none ↦ ps.order ++ new_agg num r ∷ [] ])
      by_found none = omega (arith, length-append ps.order (new_agg num r ∷ []))
      by_found (some i) = omega arith

  -- A result that has a key counts into one aggregate, an old one or a new one.
  length-put_paper :
      (w : F) (name : String) (rank : ℕ) (r : SearchResult F) (ps : Papers F)
      → length (put_paper num text urls w name rank r ps).order
        ≡ length (with_place num text urls ps r)
  length-put_paper w name rank r ps = length-modify_at _ (place_of num text urls ps r) _

  length-add_paper-le :
      (w : F) (name : String) (rank : ℕ) (r : SearchResult F) (ps : Papers F)
      → length ps.order ≤ length (add_paper num text urls w name rank r ps).order
  unfolding add_paper
  length-add_paper-le w name rank r ps =
      ground (arith, length-put_paper w name rank r ps, length-with_place ps r)

  length-add_papers-le :
      (w : F) (name : String) (rank : ℕ) (rs : List (SearchResult F)) (ps : Papers F)
      → length ps.order ≤ length (add_papers num text urls w name rank rs ps).order
  unfolding add_papers
  length-add_papers-le w name rank [] ps = omega arith
  length-add_papers-le w name rank (r ∷ rs) ps = omega (
    arith,
    length-add_paper-le w name rank r ps,
    length-add_papers-le w name (rank + 1) rs (add_paper num text urls w name rank r ps),
  )

  length-gather_papers-le :
      (bs : List (ScoreBucket F)) (ps : Papers F)
      → length ps.order ≤ length (gather_papers num text urls bs ps).order
  unfolding gather_papers
  length-gather_papers-le [] ps = omega arith
  length-gather_papers-le (b ∷ bs) ps = omega (
    arith,
    length-add_papers-le (weight_or_one num b.weight) b.name 0 b.results ps,
    length-gather_papers-le bs
        (add_papers num text urls (weight_or_one num b.weight) b.name 0 b.results ps),
  )

  -- A result whose DOI is known already makes no new aggregate.
  add_paper-known :
      (w : F) (name : String) (rank i : ℕ) (r : SearchResult F) (ps : Papers F)
      → str_eq (doi_key num text urls r) "" ≡ false
      → ps.by_doi (doi_key num text urls r) ≡ some i
      → (add_paper num text urls w name rank r ps).order
        ≡ modify_at (λ a. counted num w name rank (joined_paper num text urls r a)) i ps.order
  unfolding add_paper place_of
  add_paper-known w name rank i r ps has_doi known = ground (arith, has_doi, known)

  place-lt :
      (w : F) (name : String) (rank : ℕ) (r : SearchResult F) (ps : Papers F)
      → str_eq (doi_key num text urls r) "" ≡ false
      → place_of num text urls ps r < length (with_place num text urls ps r)
      → place_of num text urls ps r < length (add_paper num text urls w name rank r ps).order
  unfolding add_paper
  place-lt w name rank r ps has_doi inside =
      ground (arith, has_doi, inside, length-put_paper w name rank r ps)

  -- Two results with one DOI are put into one aggregate, whatever results of the same engine and of later
  -- ones stand between them, if the first one's place is an aggregate or the next new one: the second
  -- result makes no new aggregate, and the aggregate at the place of the first is the one that its rank
  -- counts for and that is filled up from it.
  pub add_paper-same_doi :
      (w w' v : F) (name name' other : String) (rank rank' place : ℕ) (r s : SearchResult F)
      (rs : List (SearchResult F)) (bs : List (ScoreBucket F)) (ps between : Papers F)
      → str_eq (doi_key num text urls r) "" ≡ false
      → doi_key num text urls s ≡ doi_key num text urls r
      → place_of num text urls ps r < length (with_place num text urls ps r)
      → between
        ≡ gather_papers num text urls bs
            (add_papers num text urls w' name' rank' rs (add_paper num text urls w name rank r ps))
      → (a : UrlAgg F) × (get_elem? between.order (place_of num text urls ps r) ≡ some a)
        × (get_elem?
              (add_paper num text urls v other place s between).order
              (place_of num text urls ps r)
            ≡ some (counted num v other place (joined_paper num text urls s a)))
        × (length (add_paper num text urls v other place s between).order ≡ length between.order)
  add_paper-same_doi w w' v name name' other rank rank' place r s rs bs ps between has_doi same
        inside is_between =
      let i = place_of num text urls ps r in
      let first = add_paper num text urls w name rank r ps in
      let next = add_papers num text urls w' name' rank' rs first in
      let own = add_paper-own w name rank r ps has_doi in
      let after = add_papers-by_doi w' name' rank' rs first (doi_key num text urls r) i own in
      let known : between.by_doi (doi_key num text urls s) ≡ some i =
        (λ k. (is_between k).by_doi (same k))
        ∙ gather_papers-by_doi bs next (doi_key num text urls r) i after in
      let there : i < length between.order = omega (
        arith,
        place-lt w name rank r ps has_doi inside,
        length-add_papers-le w' name' rank' rs first,
        length-gather_papers-le bs next,
        ap (λ (q : Papers F). length q.order) is_between,
      ) in
      let (a, at) = get_elem?-lt between.order i there in
      let put =
        add_paper-known v other place i s between (ap (λ d. str_eq d "") same ∙ has_doi) known in
      let count : UrlAgg F → UrlAgg F =
        λ b. counted num v other place (joined_paper num text urls s b) in
      (
        a,
        at,
        ap (λ l. get_elem? l i) put ∙ get_elem?-modify_at count i between.order a at,
        ap length put ∙ length-modify_at count i between.order,
      )
