-- ===== src/Tools/Enrich.antt =====
-- fetch_top_n: the pages of the first results (`enrichTopN` in mcp/tool_search.go). A goroutine writes
-- only its own result, so the goroutines are run in the order of the results.
use websearch_mcpserver_dash.Prelude.{
  ℕ, ◌+◌, String, Bool, ◌||◌, List, [], ◌∷◌, leb, ltb, ◌==◌, if◌then◌else◌, str_eq,
}
use websearch_mcpserver_dash.Go.{Text}
use websearch_mcpserver_dash.Core.{SearchResult}
use websearch_mcpserver_dash.Tools.Types.{Fallible, good, bad, ToolText}

abbrev pub min_content_len_for_fetch : ℕ
min_content_len_for_fetch = 1000

module _ (text : Text) (tool : ToolText) where
  unfoldable pub is_anti_bot_failure : String → Bool
  is_anti_bot_failure msg =
      tool.contains msg "反爬"
      || tool.contains msg "WAF"
      || tool.contains msg "挑战"
      || tool.contains msg "验证码"

  abbrev pub failure_note : String → String
  failure_note err =
      if is_anti_bot_failure err
      then "> ⚠\u{fe0f} 正文抓取被网站反爬防护拦截（JS 挑战/WAF/验证码）：无法获取该页面全文，仅有以上摘要与 URL。请改用其它来源，或稍后用 cleanfetch 重试该页面。"
      else text.concat (text.concat "> ⚠\u{fe0f} 正文抓取失败（" err)
          "）：仅有以上摘要与 URL。如需正文可用 cleanfetch 重试该页面。"

  unfoldable pub annotate_fetch_failure : String → String → String
  annotate_fetch_failure snippet err =
      let s = text.trim_space snippet in
      if str_eq s ""
      then failure_note err
      else text.concat (text.concat s "\n\n") (failure_note err)

  module _ {F : Type 0} where
    abbrev pub with_content : SearchResult F → String → SearchResult F
    with_content r content = record r { content = content }

    -- A result after the fetch of its page.
    unfoldable pub fetched : SearchResult F → Fallible String → SearchResult F
    fetched r (bad err) = with_content r (annotate_fetch_failure r.content err)
    fetched r (good body) = with_content r (
        if str_eq (text.trim_space body) ""
        then annotate_fetch_failure r.content "页面内容为空(可能被反爬)"
        else body)

    abbrev pub has_content : SearchResult F → Bool
    has_content r = leb min_content_len_for_fetch (tool.byte_length (text.trim_space r.content))

    -- The goroutine of the result with index i: `cancelled i` is what `ctx.Err() != nil` says there.
    unfoldable pub enrich_one :
        (ℕ → Bool) → (ℕ → String → Fallible String) → ℕ → SearchResult F → SearchResult F
    enrich_one cancelled fetch i r =
        if str_eq (text.trim_space r.url) "" || cancelled i || has_content r
        then r
        else fetched r (fetch i (text.trim_space r.url))

    unfoldable pub enrich_from :
        (ℕ → Bool)
        → (ℕ → String → Fallible String)
        → ℕ
        → ℕ
        → List (SearchResult F)
        → List (SearchResult F)
    enrich_from cancelled fetch i n [] = []
    enrich_from cancelled fetch i n (r ∷ rs) =
        (if ltb i n then enrich_one cancelled fetch i r else r)
        ∷ enrich_from cancelled fetch (i + 1) n rs

    unfoldable pub enrich_top_n :
        (ℕ → Bool)
        → (ℕ → String → Fallible String)
        → List (SearchResult F)
        → ℕ
        → List (SearchResult F)
    enrich_top_n cancelled fetch rs n = if n == 0 then rs else enrich_from cancelled fetch 0 n rs
