-- ===== src/Tools/Fetched.antt =====
-- What the fetch of pages changes in the results (`enrichTopN` in mcp/tool_search.go).
use websearch_mcpserver_dash.Prelude.{
  ℕ, zero, suc, ◌+◌, String, Bool, true, false, not, ◌&&◌, ◌≡◌, refl, sym, ap, ◌∙◌, some, List, [],
  ◌∷◌, arith, ltb, if◌then◌else◌, get_elem?, length, str_eq,
}
use mathlib.Core.Path.{subst}
use websearch_mcpserver_dash.Go.{Text}
use websearch_mcpserver_dash.Core.{SearchResult}
use websearch_mcpserver_dash.Tools.Types.{Fallible, good, bad, ToolText}
use websearch_mcpserver_dash.Tools.Enrich.{
  annotate_fetch_failure, with_content, fetched, has_content, enrich_one, enrich_from, enrich_top_n,
}

-- The content that a result is to have once its page was asked for.
abbrev pub content_of_page : Text → ToolText → String → Fallible String → String
content_of_page text tool old (bad err) = annotate_fetch_failure text tool old err
content_of_page text tool old (good body) =
    if str_eq (text.trim_space body) ""
    then annotate_fetch_failure text tool old "页面内容为空(可能被反爬)"
    else body

module _ (text : Text) (tool : ToolText) {F : Type 0} (cancelled : ℕ → Bool)
    (fetch : ℕ → String → Fallible String) where
  get_elem?-enrich_from :
      (i n j : ℕ) (rs : List (SearchResult F)) {r : SearchResult F}
      → get_elem? rs j ≡ some r
      → get_elem? (enrich_from text tool cancelled fetch i n rs) j
        ≡ some (if ltb (i + j) n then enrich_one text tool cancelled fetch (i + j) r else r)
  unfolding enrich_from
  get_elem?-enrich_from i n j [] h = absurd (cc h)
  get_elem?-enrich_from i n zero (x ∷ rs) h = ground (arith, h)
  get_elem?-enrich_from i n (suc j) (x ∷ rs) {r = r} h =
      let e : i + 1 + j ≡ i + suc j = omega arith in
      subst
        (λ k.
          get_elem? (enrich_from text tool cancelled fetch (i + 1) n rs) j
          ≡ some (if ltb k n then enrich_one text tool cancelled fetch k r else r))
        e (get_elem?-enrich_from (i + 1) n j rs h)

  length-enrich_from :
      (i n : ℕ) (rs : List (SearchResult F))
      → length (enrich_from text tool cancelled fetch i n rs) ≡ length rs
  unfolding enrich_from
  length-enrich_from i n [] = refl
  length-enrich_from i n (r ∷ rs) = ap suc (length-enrich_from (i + 1) n rs)

  enrich_one-rest :
      (i : ℕ) (r : SearchResult F)
      → with_content text tool (enrich_one text tool cancelled fetch i r) r.content ≡ r
  unfolding enrich_one fetched
  enrich_one-rest i r = ground arith

  -- A page is asked for only for the first n results, with an address, before the deadline, and
  -- without a long content of their own.
  abbrev pub asks_for : ℕ → ℕ → SearchResult F → Bool
  asks_for n j r =
      ltb j n
      && not (str_eq (text.trim_space r.url) "")
      && not (cancelled j)
      && not (has_content text tool r)

  enrich_one-content :
      (n j : ℕ) (r : SearchResult F)
      → (if ltb j n then enrich_one text tool cancelled fetch j r else r).content ≡ (
          if asks_for n j r
          then content_of_page text tool r.content (fetch j (text.trim_space r.url))
          else r.content)
  unfolding enrich_one fetched
  enrich_one-content n j r = ground arith

  pick_rest :
      (b : Bool) (j : ℕ) (r : SearchResult F)
      → with_content text tool (if b then enrich_one text tool cancelled fetch j r else r) r.content
        ≡ r
  pick_rest true j r = enrich_one-rest j r
  pick_rest false j r = refl

  enrich_from-all :
      (n j : ℕ) (rs : List (SearchResult F))
      → n ≡ 0
      → enrich_from text tool cancelled fetch j n rs ≡ rs
  unfolding enrich_from
  enrich_from-all n j [] h = refl
  enrich_from-all n j (r ∷ rs) h = ground (arith, h, enrich_from-all n (j + 1) rs h)

  enrich_top_n-from :
      (rs : List (SearchResult F)) (n : ℕ)
      → enrich_top_n text tool cancelled fetch rs n ≡ enrich_from text tool cancelled fetch 0 n rs
  unfolding enrich_top_n
  enrich_top_n-from rs zero = sym (enrich_from-all 0 0 rs refl)
  enrich_top_n-from rs (suc n) = ground arith

  pub length-enrich_top_n :
      (rs : List (SearchResult F)) (n : ℕ)
      → length (enrich_top_n text tool cancelled fetch rs n) ≡ length rs
  length-enrich_top_n rs n = ap length (enrich_top_n-from rs n) ∙ length-enrich_from 0 n rs

  -- Fetching pages keeps the number of results, and of each result, at its place, all but the content;
  -- the content changes only for one of the first n results with an address, before the deadline, whose
  -- own content is short: to the page's text if it comes and is not blank, and else to the old content
  -- with a note of the failure.
  pub enrich_top_n-get_elem? :
      (rs : List (SearchResult F)) (n j : ℕ) {r : SearchResult F}
      → get_elem? rs j ≡ some r
      → (r' : SearchResult F) × (get_elem? (enrich_top_n text tool cancelled fetch rs n) j
          ≡ some r')
        × (length (enrich_top_n text tool cancelled fetch rs n) ≡ length rs)
        × (with_content text tool r' r.content ≡ r)
        × (r'.content ≡ (
            if asks_for n j r
            then content_of_page text tool r.content (fetch j (text.trim_space r.url))
            else r.content))
  enrich_top_n-get_elem? rs n j {r = r} h =
      let from = enrich_top_n-from rs n in
      (
        if ltb j n then enrich_one text tool cancelled fetch j r else r,
        ap (λ l. get_elem? l j) from
            ∙ subst
                (λ k.
                  get_elem? (enrich_from text tool cancelled fetch 0 n rs) j
                  ≡ some (if ltb k n then enrich_one text tool cancelled fetch k r else r))
                (omega arith) (get_elem?-enrich_from 0 n j rs h),
        length-enrich_top_n rs n,
        pick_rest (ltb j n) j r,
        enrich_one-content n j r,
      )
