-- ===== src/Provider/Baidu.antt =====
-- pkg/search/provider/baidu.go and baidu_ai.go: the two engines of Baidu's API. `http` is the API: the
-- reply to a request at a time, with a key, a query and a time range.
use websearch_mcpserver_dash.Prelude.{
  ℕ, zero, suc, String, ◌&&◌, some, List, [], ◌∷◌, map, ◌≡◌, leb, ◌==◌, if◌then◌else◌, length,
  str_eq, arith,
}
use websearch_mcpserver_dash.Core.{SearchResult}
use websearch_mcpserver_dash.KeyPool.{KeyPool}
use websearch_mcpserver_dash.ApiPool.{Outcome, ok, err, key_error, other_error, Search, Engine}
use websearch_mcpserver_dash.Provider.Request.{
  Reply, transport_error, response, web_result, with_key,
}

pub record Reference : Type 0 where
  pub title : String
  pub url : String
  pub content : String
  pub date : String

-- The contents of the choices, and the references.
pub record BaiduAiBody : Type 0 where
  pub choices : List String
  pub references : List Reference

unfoldable pub lookback_days_to_recency : ℕ → String
lookback_days_to_recency days =
    if days == 0
    then "semiyear"
    else if leb days 1
    then "day"
    else if leb days 7
    then "week"
    else if leb days 30
    then "month"
    else if leb days 180
    then "semiyear"
    else "year"

-- SearchRawWithTimeRange of both engines, whose own time range is "semiyear".
abbrev pub recency_for : ℕ → String
recency_for zero = "semiyear"
recency_for (suc d) = lookback_days_to_recency (suc d)

module _ {F : Type 0} (nil : F) where
  abbrev pub reference_item : String → Reference → SearchResult F
  reference_item engine r = record (web_result nil r.title r.url r.content engine) {
    publish_date = r.date;
  }

  module _ (http : ℕ → String → String → String → Reply (List Reference)) where
    unfoldable pub baidu_outcome : String → Reply (List Reference) → Outcome F
    baidu_outcome key transport_error = err (key_error key)
    baidu_outcome key (response status rs) =
        if status == 200
        then (if length rs == 0 then err other_error else ok (map (reference_item "baidu_api") rs))
        else err (key_error key)

    unfoldable pub baidu_api_search : String → Search F KeyPool
    baidu_api_search recency query now =
        with_key (λ key. baidu_outcome key (http now key query recency)) now

    unfoldable pub baidu_api_engine : Engine F KeyPool
    baidu_api_engine = record {
      engine_name = "baidu_api";
      search_raw = baidu_api_search "semiyear";
      search_range = some (λ days. baidu_api_search (recency_for days));
    }

    pub baidu_outcome-key_error :
        (key : String) (r : Reply (List Reference)) (k : String)
        → baidu_outcome key r ≡ err (key_error k)
        → k ≡ key
    unfolding baidu_outcome
    baidu_outcome-key_error key transport_error k h = ground arith
    baidu_outcome-key_error key (response status rs) k h = ground arith

  module _ (http : ℕ → String → String → String → Reply BaiduAiBody) where
    -- The first choice's content; the others are dropped.
    abbrev pub ai_answer : List String → String
    ai_answer [] = ""
    ai_answer (c ∷ cs) = c

    -- The answer, if there is one, stands first.
    unfoldable pub ai_results : BaiduAiBody → List (SearchResult F)
    ai_results body =
        let rs = map (reference_item "baidu_ai") body.references in
        let answer = ai_answer body.choices in
        if str_eq answer "" then rs else web_result nil "AI 回答" "" answer "baidu_ai" ∷ rs

    unfoldable pub baidu_ai_outcome : String → Reply BaiduAiBody → Outcome F
    baidu_ai_outcome key transport_error = err (key_error key)
    baidu_ai_outcome key (response status body) =
        if status == 200
        then (if length body.references == 0 && length body.choices == 0
            then err other_error
            else ok (ai_results body))
        else err (key_error key)

    unfoldable pub baidu_ai_search : String → Search F KeyPool
    baidu_ai_search recency query now =
        with_key (λ key. baidu_ai_outcome key (http now key query recency)) now

    unfoldable pub baidu_ai_engine : Engine F KeyPool
    baidu_ai_engine = record {
      engine_name = "baidu_ai";
      search_raw = baidu_ai_search "semiyear";
      search_range = some (λ days. baidu_ai_search (recency_for days));
    }

    pub baidu_ai_outcome-key_error :
        (key : String) (r : Reply BaiduAiBody) (k : String)
        → baidu_ai_outcome key r ≡ err (key_error k)
        → k ≡ key
    unfolding baidu_ai_outcome
    baidu_ai_outcome-key_error key transport_error k h = ground arith
    baidu_ai_outcome-key_error key (response status body) k h = ground arith
