-- ===== src/Tools/Fetch.antt =====
-- The fetch of one page for fetch_top_n (`fetchPageContent` in mcp/tool_search.go, `ensureWebFetch` in
-- mcp/options.go).
use websearch_mcpserver_dash.Prelude.{
  ℕ, String, Bool, true, false, not, ◌&&◌, Option, none, some, List, [], ◌∷◌, leb, if◌then◌else◌,
  str_eq,
}
use websearch_mcpserver_dash.Go.{Text}
use websearch_mcpserver_dash.Tools.Types.{Fallible, good, bad, ToolText}
use websearch_mcpserver_dash.Tools.Security.{
  Network, Refusal, HeadAnswer, validate_url_security, head_check, size_limit,
}

-- webfetch.Result.
pub record PageResult : Type 0 where
  pub title : String
  pub mode : String
  pub markdown : String
  pub file_path : String
  pub total_lines : ℕ
  pub total_chars : ℕ
  pub agent_hint : String

-- webfetchInst, webfetchLazyCfg and cleanFetchMaxSizeMB. Of the lazy configuration it says its size
-- limit, and whether webfetch.NewFromConfig accepts it.
pub record LazyConfig : Type 0 where
  pub max_fetch_size_mb : ℕ
  pub is_accepted : Bool

pub record WebFetch : Type 0 where
  pub has_inst : Bool
  pub lazy : Option LazyConfig
  pub max_size_mb : ℕ

abbrev pub init_from : LazyConfig → WebFetch → WebFetch × Bool
init_from c w =
    if c.is_accepted
    then (record w { has_inst = true; max_size_mb = c.max_fetch_size_mb }, true)
    else (w, false)

unfoldable pub ensure_web_fetch : WebFetch → WebFetch × Bool
ensure_web_fetch w =
    if w.has_inst then (w, true) else elim w.lazy [ none ↦ (w, false) | some c ↦ init_from c w ]

-- What the outside does during one fetch; `page` is nil, a result or an error.
pub record PageAnswers : Type 0 where
  pub builds : Bool
  pub hops : List String
  pub head : Option HeadAnswer
  pub page : Fallible (Option PageResult)

-- The addresses of the HEAD requests, whether the page itself was asked for, and the outcome.
pub record PageFetch : Type 0 where
  pub web : WebFetch
  pub heads : List String
  pub asked_page : Bool
  pub content : Fallible String

module _ (text : Text) (tool : ToolText) where
  abbrev pub join : List String → String
  join [] = ""
  join (s ∷ ss) = text.concat s (join ss)

  unfoldable pub format_saved_to_file_result : PageResult → String
  format_saved_to_file_result res = join (
      (if str_eq res.title "" then "" else text.concat res.title "\n\n")
      ∷ "正文较长（共 "
      ∷ tool.itoa res.total_lines
      ∷ " 行，"
      ∷ tool.itoa res.total_chars
      ∷ " 字符），已保存到文件\n\n**文件路径**: `"
      ∷ res.file_path
      ∷ "`"
      ∷ (if str_eq res.agent_hint "" then "" else text.concat "\n\n**读取提示**: " res.agent_hint)
      ∷ "\n"
      ∷ [])

  unfoldable pub truncate_fetch_content : ℕ → String → String
  truncate_fetch_content max_size_mb body =
      let limit = size_limit max_size_mb in
      if leb (tool.byte_length body) limit
      then body
      else text.concat (tool.first_bytes body limit) "\n\n（正文超过大小上限，已截断）"

  -- From what webfetch returns to a text.
  abbrev pub page_text : ℕ → Fallible (Option PageResult) → Fallible String
  page_text max_size_mb (bad err) = bad err
  page_text max_size_mb (good none) = bad "empty content"
  page_text max_size_mb (good (some res)) =
      if str_eq res.mode "saved_to_file" && not (str_eq res.file_path "")
      then good (format_saved_to_file_result res)
      else if str_eq (text.trim_space res.markdown) ""
      then bad "empty content"
      else good (truncate_fetch_content max_size_mb res.markdown)

  module _ {Ip : Type 0} (net : Network Ip) (refusal_text : Refusal → String) where
    abbrev pub after_ensure : PageAnswers → List String → WebFetch × Bool → PageFetch
    after_ensure answers heads (web, false) = record {
      web = web;
      heads = heads;
      asked_page = false;
      content = bad "webfetch 未初始化，fetch_top_n 需要 cleanfetch/pdf_parser 至少启用其一";
    }
    after_ensure answers heads (web, true) = record {
      web = web;
      heads = heads;
      asked_page = true;
      content = page_text web.max_size_mb answers.page;
    }

    abbrev pub after_head : PageAnswers → WebFetch → List String × Bool → PageFetch
    after_head answers web (heads, false) = record {
      web = web;
      heads = heads;
      asked_page = false;
      content = bad "HEAD 预检拒绝";
    }
    after_head answers web (heads, true) = after_ensure answers heads (ensure_web_fetch web)

    abbrev pub after_validation : PageAnswers → String → WebFetch → Option Refusal → PageFetch
    after_validation answers raw web (some r) = record {
      web = web;
      heads = [];
      asked_page = false;
      content = bad (refusal_text r);
    }
    after_validation answers raw web none =
        after_head answers web
          (head_check net web.max_size_mb answers.builds answers.hops answers.head raw)

    unfoldable pub fetch_page_content : PageAnswers → String → WebFetch → PageFetch
    fetch_page_content answers raw web =
        after_validation answers raw web (validate_url_security net raw)
