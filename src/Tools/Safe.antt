-- ===== src/Tools/Safe.antt =====
-- No request leaves for an address that the checks refuse (mcp/security.go, mcp/tool_search.go).
use websearch_mcpserver_dash.Prelude.{
  ℕ, zero, suc, ltb, take, ◌+◌, ◌≤◌, ◌<◌, String, Bool, true, false, ◌&&◌, ◌≡◌, refl, ap, Option,
  none, some, List, [], ◌∷◌, ◌++◌, arith, length, length-append, tally, tally-append,
}
use websearch_mcpserver_dash.Go.{Text}
use websearch_mcpserver_dash.Tools.Types.{ToolText}
use websearch_mcpserver_dash.Tools.Security.{
  Network, Refusal, HeadAnswer, unsafe_redirect, is_refused, validate_url_security, follow,
  head_check,
}
use websearch_mcpserver_dash.Tools.Fetch.{
  WebFetch, PageAnswers, PageFetch, ensure_web_fetch, after_ensure, after_head, after_validation,
  fetch_page_content,
}

tally-nil : {A : Type 0} (p : A → Bool) → tally p [] ≡ 0
unfolding tally
tally-nil p = refl

module _ {Ip : Type 0} (net : Network Ip) where
  abbrev pub refused : String → Bool
  refused u = is_refused (validate_url_security net u)

  follow-refused :
      (via hops : List String) (end : Option HeadAnswer)
      → tally refused (follow net via hops end).requested ≡ tally refused via
  unfolding follow tally
  follow-refused via [] end = refl
  follow-refused via (u ∷ us) end =
      ground (arith, follow-refused (via ++ u ∷ []) us end, tally-append refused via (u ∷ []))

  follow-length :
      (via hops : List String) (end : Option HeadAnswer)
      → length via ≤ 5
      → length (follow net via hops end).requested ≤ 5
  unfolding follow
  follow-length via [] end h = h
  follow-length via (u ∷ us) end h =
      ground (arith, follow-length (via ++ u ∷ []) us end, length-append via (u ∷ []))

  head_check-heads :
      (max_size_mb : ℕ) (builds : Bool) (hops : List String) (end : Option HeadAnswer)
      (raw : String)
      → refused raw ≡ false
      → (tally refused (head_check net max_size_mb builds hops end raw).0 ≡ 0)
        × (length (head_check net max_size_mb builds hops end raw).0 ≤ 5)
  unfolding head_check tally
  head_check-heads max_size_mb builds hops end raw h = (
    ground (arith, follow-refused (raw ∷ []) hops end, h),
    ground (arith, follow-length (raw ∷ []) hops end),
  )

  -- A refused target among those that are followed stops the request.
  follow-unsafe :
      (k : ℕ) (via hops : List String) (end : Option HeadAnswer)
      → length via + k ≡ 5
      → 0 < tally refused (take k hops)
      → (follow net via hops end).end ≡ unsafe_redirect
  unfolding follow tally
  follow-unsafe zero via hops end size some_refused = absurd (omega arith)
  follow-unsafe (suc k) via [] end size some_refused = absurd (omega arith)
  follow-unsafe (suc k) via (u ∷ us) end size some_refused =
      ground (arith, follow-unsafe k (via ++ u ∷ []) us end, length-append via (u ∷ []))

  head_check-unsafe :
      (max_size_mb : ℕ) (hops : List String) (end : Option HeadAnswer) (raw : String)
      → ((head_check net max_size_mb true hops end raw).1 && ltb 0 (tally refused (take 4 hops)))
        ≡ false
  unfolding head_check
  head_check-unsafe max_size_mb hops end raw = ground (arith, follow-unsafe 4 (raw ∷ []) hops end)

module _ (text : Text) (tool : ToolText) {Ip : Type 0} (net : Network Ip)
    (refusal_text : Refusal → String) where
  -- Of one fetch of a page: no address that is sent a HEAD request is one that the check refuses, and
  -- there are at most five; the page is not asked for if its address is refused, or if one of the first
  -- four redirects of the HEAD request leads to a refused address.
  pub fetch_page_content-Safe :
      (answers : PageAnswers) (raw : String) (web : WebFetch)
      → (tally (refused net) (fetch_page_content text tool net refusal_text answers raw web).heads
          ≡ 0)
        × (length (fetch_page_content text tool net refusal_text answers raw web).heads ≤ 5)
        × (((fetch_page_content text tool net refusal_text answers raw web).asked_page
              && refused net raw)
            ≡ false)
        × (((fetch_page_content text tool net refusal_text answers raw web).asked_page
              && answers.builds
              && ltb 0 (tally (refused net) (take 4 answers.hops)))
            ≡ false)
  unfolding fetch_page_content
  fetch_page_content-Safe answers raw web = by_validation (validate_url_security net raw) refl
    where
      n : ℕ
      n = tally (refused net) (take 4 answers.hops)

      Safe : PageFetch → Type 0
      Safe f =
          (tally (refused net) f.heads ≡ 0)
          × (length f.heads ≤ 5)
          × ((f.asked_page && refused net raw) ≡ false)
          × ((f.asked_page && answers.builds && ltb 0 n) ≡ false)

      by_ensure :
          (heads : List String) (w : WebFetch × Bool)
          → tally (refused net) heads ≡ 0
          → length heads ≤ 5
          → refused net raw ≡ false
          → (answers.builds && ltb 0 n) ≡ false
          → Safe (after_ensure text tool net refusal_text answers heads w)
      by_ensure heads (w, false) none_refused few here safe = (none_refused, few, refl, refl)
      by_ensure heads (w, true) none_refused few here safe = (none_refused, few, here, safe)

      by_head :
          (head : List String × Bool)
          → tally (refused net) head.0 ≡ 0
          → length head.0 ≤ 5
          → refused net raw ≡ false
          → (head.1 && answers.builds && ltb 0 n) ≡ false
          → Safe (after_head text tool net refusal_text answers web head)
      by_head (heads, false) none_refused few here safe = (none_refused, few, refl, refl)
      by_head (heads, true) none_refused few here safe =
          by_ensure heads (ensure_web_fetch web) none_refused few here safe

      by_builds :
          (builds : Bool)
          → ((head_check net web.max_size_mb builds answers.hops answers.head raw).1
              && builds
              && ltb 0 n)
            ≡ false
      by_builds true =
          ground (arith, head_check-unsafe net web.max_size_mb answers.hops answers.head raw)
      by_builds false = ground arith

      by_validation :
          (r : Option Refusal)
          → validate_url_security net raw ≡ r
          → Safe (after_validation text tool net refusal_text answers raw web r)
      by_validation (some r) eq = (tally-nil (refused net), omega arith, refl, refl)
      by_validation none eq =
          let (none_refused, few) =
            head_check-heads net web.max_size_mb answers.builds answers.hops answers.head raw
              (ap is_refused eq) in
          by_head (head_check net web.max_size_mb answers.builds answers.hops answers.head raw)
            none_refused few (ap is_refused eq) (by_builds answers.builds)
