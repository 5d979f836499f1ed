-- ===== src/Enhance/Academic.antt =====
-- EnhanceAcademicResults (pkg/search/enhance/academic_enhance.go). An aggregate's pointer is its index
-- in `order`, and the two maps of pointers are functions to options.
use websearch_mcpserver_dash.Prelude.{
  ℕ, zero, suc, ◌+◌, String, Bool, false, not, ◌&&◌, ◌||◌, Option, none, some, List, [], ◌∷◌, ◌++◌,
  map, ltb, if◌then◌else◌, length, keep, take, str_eq, str_mem,
}
use websearch_mcpserver_dash.Core.{SearchResult, ScoreBucket, at_least, Numbers}
use websearch_mcpserver_dash.Go.{Text, UrlText}
use websearch_mcpserver_dash.Antirobot.{normalize_doi}
use websearch_mcpserver_dash.Enhance.Aggregate.{
  UrlAgg, normalize_url_key, counted, new_agg, or_else, weight_or_one,
}
use websearch_mcpserver_dash.Enhance.Floor.{threshold_or}

pub record Papers (F : Type 0) : Type 0 where
  pub order : List (UrlAgg F)
  pub by_doi : String → Option ℕ
  pub by_url : String → Option ℕ

abbrev pub no_papers : {F : Type 0} → Papers F
no_papers = record { order = []; by_doi = λ k. none; by_url = λ k. none }

-- `if key != "" { m[key] = a }`
abbrev pub pointed : String → ℕ → (String → Option ℕ) → String → Option ℕ
pointed key i m j = if str_eq key "" then m j else if str_eq j key then some i else m j

unfoldable pub modify_at : {A : Type 0} → (A → A) → ℕ → List A → List A
modify_at f n [] = []
modify_at f zero (x ∷ xs) = f x ∷ xs
modify_at f (suc n) (x ∷ xs) = x ∷ modify_at f n xs

-- Whether a key of the second list is in the first.
unfoldable pub any_in : List String → List String → Bool
any_in set [] = false
any_in set (k ∷ ks) = str_mem k set || any_in set ks

module _ {F : Type 0} (num : Numbers F) (text : Text) (urls : UrlText) where
  abbrev pub doi_key : SearchResult F → String
  doi_key r = normalize_doi text r.doi

  abbrev pub url_key : SearchResult F → String
  url_key r = normalize_url_key text urls r.url

  -- The fuller of two records of one paper.
  abbrev pub joined_paper : SearchResult F → UrlAgg F → UrlAgg F
  joined_paper r a = record a {
    res = record a.res {
      content =
          if ltb (urls.byte_length a.res.content) (urls.byte_length r.content)
          then r.content
          else a.res.content;
      title = or_else a.res.title r.title;
      publish_date = or_else a.res.publish_date r.publish_date;
      cited_by = if ltb a.res.cited_by r.cited_by then r.cited_by else a.res.cited_by;
      journal = or_else a.res.journal r.journal;
      pdf_url = or_else a.res.pdf_url r.pdf_url;
      doi = or_else a.res.doi r.doi;
    };
  }

  -- `byDOI[doiKey]`, or else `byURL[urlKey]`.
  abbrev pub found_paper : Papers F → SearchResult F → Option ℕ
  found_paper ps r = elim (ps.by_doi (doi_key r)) [ some i ↦ some i | none ↦ ps.by_url (url_key r) ]

  -- The aggregate that a result is put into.
  unfoldable pub place_of : Papers F → SearchResult F → ℕ
  place_of ps r = elim (found_paper ps r) [ some i ↦ i | none ↦ length ps.order ]

  abbrev pub with_place : Papers F → SearchResult F → List (UrlAgg F)
  with_place ps r = elim (found_paper ps r) [
    | some i ↦ ps.order
    | none ↦ ps.order ++ new_agg num r ∷ []
  ]

  abbrev pub has_no_key : SearchResult F → Bool
  has_no_key r = str_eq (doi_key r) "" && str_eq (url_key r) ""

  abbrev pub put_paper : F → String → ℕ → SearchResult F → Papers F → Papers F
  put_paper w name rank r ps =
      let i = place_of ps r in
      record {
        order = modify_at (λ a. counted num w name rank (joined_paper r a)) i (with_place ps r);
        by_doi = pointed (doi_key r) i ps.by_doi;
        by_url = pointed (url_key r) i ps.by_url;
      }

  unfoldable pub add_paper : F → String → ℕ → SearchResult F → Papers F → Papers F
  add_paper w name rank r ps = if has_no_key r then ps else put_paper w name rank r ps

  unfoldable pub add_papers : F → String → ℕ → List (SearchResult F) → Papers F → Papers F
  add_papers w name rank [] ps = ps
  add_papers w name rank (r ∷ rs) ps = add_papers w name (rank + 1) rs (add_paper w name rank r ps)

  unfoldable pub gather_papers : List (ScoreBucket F) → Papers F → Papers F
  gather_papers [] ps = ps
  gather_papers (b ∷ bs) ps =
      gather_papers bs (add_papers (weight_or_one num b.weight) b.name 0 b.results ps)

  -- The keys by which results are taken for one paper.
  unfoldable pub result_keys : SearchResult F → List String
  result_keys r =
      (if str_eq (doi_key r) "" then [] else text.concat "doi:" (doi_key r) ∷ [])
      ++ (if str_eq (url_key r) "" then [] else text.concat "url:" (url_key r) ∷ [])

  -- What is kept by its score: the first, and those that reach the threshold.
  unfoldable pub kept_by_score : F → List (SearchResult F) → List (SearchResult F)
  kept_by_score t [] = []
  kept_by_score t (r ∷ rs) = r ∷ keep (at_least num.float t) rs

  unfoldable pub keys_of_all : List (SearchResult F) → List String
  keys_of_all [] = []
  keys_of_all (r ∷ rs) = result_keys r ++ keys_of_all rs

  abbrev pub top_of : List (SearchResult F) → List String
  top_of [] = []
  top_of (r ∷ rs) = result_keys r

  -- The keys of the engines' first results.
  unfoldable pub top_keys : List (ScoreBucket F) → List String
  top_keys [] = []
  top_keys (b ∷ bs) = top_of b.results ++ top_keys bs

  -- The loop that brings back an engine's first result, over the keys that are kept.
  unfoldable pub restored :
      List String → List String → List (SearchResult F) → List (SearchResult F)
  restored top kept [] = []
  restored top kept (r ∷ rs) =
      let back = r ∷ restored top (result_keys r ++ kept) rs in
      let skip = restored top kept rs in
      if any_in top (result_keys r) && not (any_in kept (result_keys r)) then back else skip

  module _ (sort_by_score : List (SearchResult F) → List (SearchResult F)) where
    abbrev pub sorted_again : List (SearchResult F) → List (SearchResult F)
    sorted_again rs = if ltb 1 (length rs) then sort_by_score rs else rs

    unfoldable pub apply_academic_score_floor :
        List (SearchResult F) → List (ScoreBucket F) → F → List (SearchResult F)
    apply_academic_score_floor scored buckets threshold =
        let kept = kept_by_score (threshold_or num (num.dec 2 2) threshold) scored in
        sorted_again (kept ++ restored (top_keys buckets) (keys_of_all kept) scored)

    -- CiteFactor, JournalBoost and AcademicRecencyFactor are given.
    module _ (cite_factor : ℕ → F) (journal_boost : String → F) (recency : SearchResult F → F) where
      abbrev pub paper_score : UrlAgg F → F
      paper_score a =
          let base =
            num.add (num.mul a.rrf (cite_factor a.res.cited_by)) (journal_boost a.res.journal) in
          let boosted = if str_eq a.res.pdf_url "" then base else num.add base (num.dec 3 2) in
          num.mul boosted (recency a.res)

      abbrev pub scored_paper : UrlAgg F → SearchResult F
      scored_paper a = record a.res { score = paper_score a; engines = a.engine_order }

      unfoldable pub enhance_academic_results : List (ScoreBucket F) → F → ℕ → List (SearchResult F)
      enhance_academic_results buckets threshold max =
          let all = sort_by_score (map scored_paper (gather_papers buckets no_papers).order) in
          let rs = apply_academic_score_floor all buckets threshold in
          if ltb 0 max && ltb max (length rs) then take max rs else rs
