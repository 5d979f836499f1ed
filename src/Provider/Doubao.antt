-- ===== src/Provider/Doubao.antt =====
-- pkg/search/provider/doubao.go: the Doubao engine with its two APIs. `http_global` and `http_custom` are
-- the APIs: the reply to a request at a time, with a key.
use websearch_mcpserver_dash.Prelude.{
  ℕ, String, Bool, false, not, ◌&&◌, ◌||◌, Option, none, some, List, [], ◌∷◌, ltb, leb, ◌==◌,
  if◌then◌else◌, length, str_eq, str_mem,
}
use websearch_mcpserver_dash.Core.{Float, SearchResult}
use websearch_mcpserver_dash.Go.{Text}
use websearch_mcpserver_dash.ApiPool.{Outcome, ok, err, key_error, other_error}
use websearch_mcpserver_dash.Provider.Request.{
  Reply, transport_error, response, web_result, first_nonempty,
}
use websearch_mcpserver_dash.Provider.Anysearch.{is_blocked_host}

pub record DoubaoSearch : Type 0 where
  pub num_results : ℕ
  pub exclude_domains : List String
  pub is_custom : Bool
  pub time_range : String
  pub max_snippet_length : ℕ
  pub max_image_count_per_doc : ℕ

-- The numbers of a request to the global API.
pub record GlobalRequest : Type 0 where
  pub query : String
  pub doc_count : ℕ
  pub max_snippet_length : ℕ
  pub max_image_count_per_doc : ℕ

-- A snippet with its type and text, and the text that stands for its image.
pub record DoubaoSnippet : Type 0 where
  pub kind : String
  pub text : String
  pub alt : String

pub record DoubaoDocument : Type 0 where
  pub url : String
  pub title : String
  pub snippets : List DoubaoSnippet
  pub publish_time : String

-- ErrorCode with its decimal text, and the documents; a nil result is `none`.
pub record GlobalResult : Type 0 where
  pub error_code : Option String
  pub documents : List DoubaoDocument

pub record GlobalBody : Type 0 where
  pub metadata_error : Option String
  pub result : Option GlobalResult

pub record CustomResult (F : Type 0) : Type 0 where
  pub title : String
  pub snippet : String
  pub url : String
  pub display_url : String
  pub summary : String
  pub content : String
  pub publish_time : String
  pub publish_date : String
  pub time : String
  pub rank_score : F
  pub score : F

pub record CustomBody (F : Type 0) : Type 0 where
  pub metadata_error : Option String
  pub error : Option String
  pub result_web_results : List (CustomResult F)
  pub web_results : List (CustomResult F)

abbrev pub at_most : ℕ → ℕ → ℕ
at_most limit n = if ltb limit n then limit else n

unfoldable pub new_doubao_search : Text → ℕ → List String → String → String → ℕ → ℕ → DoubaoSearch
new_doubao_search text num_results exclude version time_range snippet images = record {
  num_results = at_most 50 (if num_results == 0 then 10 else num_results);
  exclude_domains = exclude;
  is_custom = str_eq (text.to_lower (text.trim_space version)) "custom";
  time_range = text.trim_space time_range;
  max_snippet_length = snippet;
  max_image_count_per_doc = images;
}

unfoldable pub global_request : DoubaoSearch → String → GlobalRequest
global_request d query = record {
  query = query;
  doc_count = at_most 20 d.num_results;
  max_snippet_length =
      at_most 3000 (if d.max_snippet_length == 0 then 500 else d.max_snippet_length);
  max_image_count_per_doc = at_most 10 d.max_image_count_per_doc;
}

unfoldable pub lookback_days_to_doubao_range : ℕ → String
lookback_days_to_doubao_range days =
    if days == 0
    then ""
    else if leb days 1
    then "OneDay"
    else if leb days 7
    then "OneWeek"
    else if leb days 30
    then "OneMonth"
    else "OneYear"

module _ (text : Text) (contains : String → String → Bool) where
  unfoldable pub has_marker : String → List String → Bool
  has_marker code [] = false
  has_marker code (m ∷ ms) = contains code m || has_marker code ms

  unfoldable pub is_doubao_key_error : ℕ → String → Bool
  is_doubao_key_error status code =
      let c = text.to_lower (text.trim_space code) in
      status == 401
      || status == 403
      || status == 429
      || str_mem c ("10403" ∷ "10412" ∷ "700429" ∷ "700901" ∷ [])
      || has_marker c (
          "auth" ∷ "accessdenied" ∷ "signature" ∷ "quota" ∷ "throttl" ∷ "ratelimit" ∷ "rate_limit"
          ∷ [])

  -- doubaoAPIErr, and doubaoStatusErr with the code "".
  abbrev pub doubao_err : {F : Type 0} → String → ℕ → String → Outcome F
  doubao_err key status code =
      if is_doubao_key_error status code then err (key_error key) else err other_error

  -- doubaoGlobalContent: the texts of the snippets, or else those of their images.
  unfoldable pub snippet_texts : List DoubaoSnippet → List String
  snippet_texts [] = []
  snippet_texts (s ∷ ss) =
      let rest = snippet_texts ss in
      if str_eq s.kind "text" && not (str_eq (text.trim_space s.text) "")
      then text.trim_space s.text ∷ rest
      else rest

  unfoldable pub snippet_alts : List DoubaoSnippet → List String
  snippet_alts [] = []
  snippet_alts (s ∷ ss) =
      let rest = snippet_alts ss in
      if str_eq (text.trim_space s.alt) "" then rest else text.trim_space s.alt ∷ rest

  module _ (join : List String → String) where
    unfoldable pub doubao_global_content : List DoubaoSnippet → String
    doubao_global_content ss =
        let parts = snippet_texts ss in
        if length parts == 0 then join (snippet_alts ss) else join parts

    module _ {F : Type 0} (fl : Float F) (d : DoubaoSearch) where
      unfoldable pub global_items : List DoubaoDocument → List (SearchResult F)
      global_items [] = []
      global_items (doc ∷ docs) =
          let rest = global_items docs in
          let url = text.trim_space doc.url in
          if is_blocked_host text url d.exclude_domains
          then rest
          else record (web_result fl.nil (text.trim_space doc.title) url
              (doubao_global_content doc.snippets) "doubao") {
                publish_date = text.trim_space doc.publish_time;
              }
            ∷ rest

      abbrev pub global_result : String → ℕ → Option GlobalResult → Outcome F
      global_result key status none = err other_error
      global_result key status (some r) = elim r.error_code [
        | some code ↦ doubao_err key status code
        | none ↦ if length r.documents == 0 then err other_error else ok (global_items r.documents)
      ]

      unfoldable pub global_outcome : String → Reply GlobalBody → Outcome F
      global_outcome key transport_error = err (key_error key)
      global_outcome key (response status body) = elim body.metadata_error [
        | some code ↦ doubao_err key status code
        | none ↦
            if status == 200 then global_result key status body.result else doubao_err key status ""
      ]

      abbrev pub custom_url : CustomResult F → String
      custom_url r =
          if str_eq (text.trim_space r.url) ""
          then text.trim_space r.display_url
          else text.trim_space r.url

      abbrev pub is_nil : F → Bool
      is_nil x = fl.le x fl.nil && fl.le fl.nil x

      unfoldable pub custom_items : List (CustomResult F) → List (SearchResult F)
      custom_items [] = []
      custom_items (r ∷ rs) =
          let rest = custom_items rs in
          if is_blocked_host text (custom_url r) d.exclude_domains
          then rest
          else record (web_result (if is_nil r.rank_score then r.score else r.rank_score)
              (text.trim_space r.title) (custom_url r)
              (first_nonempty text.trim_space (r.content ∷ r.summary ∷ r.snippet ∷ [])) "doubao") {
                publish_date =
                    first_nonempty text.trim_space (r.publish_time ∷ r.publish_date ∷ r.time ∷ []);
              }
            ∷ rest

      -- The error of the metadata counts before the other one.
      abbrev pub custom_error : CustomBody F → Option String
      custom_error body = elim body.metadata_error [ some e ↦ some e | none ↦ body.error ]

      abbrev pub custom_found : CustomBody F → List (CustomResult F)
      custom_found body =
          if length body.result_web_results == 0 then body.web_results else body.result_web_results

      unfoldable pub custom_outcome : String → Reply (CustomBody F) → Outcome F
      custom_outcome key transport_error = err (key_error key)
      custom_outcome key (response status body) = elim (custom_error body) [
        | some code ↦ doubao_err key status code
        | none ↦
            if status == 200
            then (if length (custom_found body) == 0
                then err other_error
                else ok (custom_items (custom_found body)))
            else doubao_err key status ""
      ]
