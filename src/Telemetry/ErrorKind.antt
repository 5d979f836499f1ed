-- ===== src/Telemetry/ErrorKind.antt =====
-- The classification of errors (pkg/telemetry/errorkind.go).
use websearch_mcpserver_dash.Prelude.{
  ℕ, ◌+◌, ◌-◌, ◌*◌, String, Bool, true, false, ◌||◌, Option, none, some, List, [], ◌∷◌, ltb, leb,
  ◌==◌, if◌then◌else◌, str_eq, ◌≡◌, refl,
}
use websearch_mcpserver_dash.Go.{Text}
use websearch_mcpserver_dash.Suspension.{default_suspended_times}

-- strings.Contains(s, part), the digits that each of the two patterns finds in a message, and the code
-- points of a string.
pub record Patterns : Type 0 where
  pub contains : String → String → Bool
  pub http_status : String → Option String
  pub bare_http_code : String → Option String
  pub runes : String → List ℕ

abbrev pub captcha_words : List String
captcha_words = "captcha" ∷ "验证码" ∷ "人机验证" ∷ "challenge required" ∷ "anubis" ∷ "请进行验证" ∷ "安全验证" ∷ []

abbrev pub parse_words : List String
parse_words =
    "no text extracted" ∷ "scanned/image-based" ∷ "invalid character" ∷ "unmarshal" ∷ "json parse"
    ∷ "xml parse" ∷ "parse error" ∷ "解析失败" ∷ "解析异常" ∷ "html parse" ∷ "syntax error" ∷ "invalid json"
    ∷ "cannot unmarshal" ∷ "illegal character" ∷ []

abbrev pub no_result_words : List String
no_result_words =
    "no result" ∷ "no results" ∷ "no match" ∷ "搜索无结果" ∷ "无结果" ∷ "not found" ∷ "empty response"
    ∷ "empty result" ∷ []

abbrev pub rate_limit_words : List String
rate_limit_words =
    "too many requests" ∷ "rate limit" ∷ "rate-limited" ∷ "rate limited" ∷ "quota exceeded"
    ∷ "请求过于频繁" ∷ "频率过高" ∷ "限流" ∷ "限速" ∷ "请求过多" ∷ "超过配额" ∷ []

abbrev pub access_denied_words : List String
access_denied_words =
    "forbidden" ∷ "access denied" ∷ "not authorized" ∷ "unauthorized" ∷ "拒绝访问" ∷ "访问被拒" ∷ "无权访问"
    ∷ "被拒绝" ∷ []

abbrev pub timeout_words : List String
timeout_words = "timeout" ∷ "timed out" ∷ "deadline exceeded" ∷ "超时" ∷ []

abbrev pub network_words : List String
network_words =
    "connection refused" ∷ "connection reset" ∷ "no such host" ∷ "dial tcp" ∷ "tls handshake"
    ∷ "network is unreachable" ∷ "connection closed" ∷ "broken pipe" ∷ "网络错误" ∷ "连接失败" ∷ "连接被重置"
    ∷ "bad gateway" ∷ "service unavailable" ∷ []

-- The loop of atoiSafe over the runes, with the number so far.
unfoldable pub atoi_safe : ℕ → List ℕ → ℕ
atoi_safe n [] = n
atoi_safe n (r ∷ rs) =
    let rest = atoi_safe (n * 10 + (r - 48)) rs in if ltb r 48 || ltb 57 r then 0 else rest

-- The second switch.
abbrev pub kind_of_code : ℕ → String
kind_of_code code =
    if code == 429
    then "rate_limit"
    else if code == 401 || code == 403
    then "access_denied"
    else if leb 500 code
    then "network"
    else "unknown"

module _ (patterns : Patterns) where
  unfoldable pub contains_any : String → List String → Bool
  contains_any value [] = false
  contains_any value (needle ∷ needles) =
      if patterns.contains value needle then true else contains_any value needles

  unfoldable pub status_code_from_message : String → ℕ
  status_code_from_message msg = elim (patterns.http_status msg) [
    | some digits ↦ atoi_safe 0 (patterns.runes digits)
    | none ↦ elim (patterns.bare_http_code msg) [
      | some digits ↦ atoi_safe 0 (patterns.runes digits)
      | none ↦ 0
    ]
  ]

  -- The first switch, and the second one after it.
  unfoldable pub kind_of_message : String → String
  kind_of_message msg =
      if contains_any msg captcha_words
      then "captcha"
      else if contains_any msg parse_words
      then "parse"
      else if contains_any msg no_result_words
      then "no_result"
      else if contains_any msg rate_limit_words
      then "rate_limit"
      else if contains_any msg access_denied_words
      then "access_denied"
      else if contains_any msg timeout_words
      then "timeout"
      else if contains_any msg network_words
      then "network"
      else kind_of_code (status_code_from_message msg)

  module _ (text : Text) where
    unfoldable pub classify_error_message : String → String
    classify_error_message message =
        let msg = text.trim_space (text.to_lower message) in
        if str_eq msg "" then "unknown" else kind_of_message msg

    -- `none` is a nil error.
    unfoldable pub classify_error_kind : Option String → String
    classify_error_kind none = ""
    classify_error_kind (some message) = classify_error_message (text.to_lower message)

-- The default policy has a pause of its own for the kind.
abbrev pub has_pause : String → Bool
has_pause kind = elim (default_suspended_times kind) [ none ↦ false | some ms ↦ ltb 0 ms ]

abbrev IsCovered : String → Type 0
IsCovered kind = (has_pause kind || str_eq kind "unknown") ≡ true

IsCovered-if :
    (b : Bool) (k l : String) → IsCovered k → IsCovered l → IsCovered (if b then k else l)
IsCovered-if true k l hk hl = hk
IsCovered-if false k l hk hl = hl

kind_of_code-IsCovered : (code : ℕ) → IsCovered (kind_of_code code)
kind_of_code-IsCovered code = IsCovered-if (code == 429) "rate_limit" _ refl (
    IsCovered-if (code == 401 || code == 403) "access_denied" _ refl
      (IsCovered-if (leb 500 code) "network" "unknown" refl refl))

kind_of_message-IsCovered : (p : Patterns) (msg : String) → IsCovered (kind_of_message p msg)
unfolding kind_of_message
kind_of_message-IsCovered p msg =
    let has : List String → Bool = contains_any p msg in
    IsCovered-if (has captcha_words) "captcha" _ refl (
      IsCovered-if (has parse_words) "parse" _ refl (
        IsCovered-if (has no_result_words) "no_result" _ refl (
          IsCovered-if (has rate_limit_words) "rate_limit" _ refl (
            IsCovered-if (has access_denied_words) "access_denied" _ refl (
              IsCovered-if (has timeout_words) "timeout" _ refl (
                IsCovered-if (has network_words) "network" _ refl
                  (kind_of_code-IsCovered (status_code_from_message p msg))))))))

-- Every error is classified as unknown or as a kind for which the default policy has a pause of its own.
pub classify_error_kind-has_pause :
    (p : Patterns) (text : Text) (message : String)
    → (has_pause (classify_error_kind p text (some message))
        || str_eq (classify_error_kind p text (some message)) "unknown")
      ≡ true
unfolding classify_error_kind classify_error_message
classify_error_kind-has_pause p text message =
    let msg = text.trim_space (text.to_lower (text.to_lower message)) in
    IsCovered-if (str_eq msg "") "unknown" _ refl (kind_of_message-IsCovered p msg)
