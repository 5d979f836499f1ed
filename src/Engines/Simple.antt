-- ===== src/Engines/Simple.antt =====
-- One search of the page engines of Bing, Baidu and Google (pkg/search/engine). The request and the HTML
-- parser are outside; the reply of the site is an argument. The sleep of preDelay before the request,
-- which is pre_delay of Session, changes nothing that is kept and is left out.
use websearch_mcpserver_dash.Prelude.{
  ℕ, String, Bool, not, ◌&&◌, ◌||◌, Option, none, some, List, ltb, ◌==◌, if◌then◌else◌, length,
  str_eq,
}
use websearch_mcpserver_dash.Go.{Text}
use websearch_mcpserver_dash.Antirobot.{Result, RateLimiter, allow}
use websearch_mcpserver_dash.Engines.Session.{
  Pace, Session, record_fail, record_success, rotate_session_if_needed, bing_pace, baidu_pace,
  google_pace,
}
use websearch_mcpserver_dash.Engines.Blocked.{without_blocked}

-- The status, the address after the redirects with its host and path, and the body.
pub record WebPage : Type 0 where
  pub status_code : ℕ
  pub final_url : String
  pub final_host : String
  pub final_path : String
  pub body : String

-- http.NewRequest fails, the request or the read of the body fails, or a page comes.
pub data PageReply : Type 0 where
  not_built : String → PageReply
  not_received : String → PageReply
  page : WebPage → PageReply

-- strings.Contains, `len`, and the parsers of the three sites; Baidu's may fail.
pub record Parsers (F : Type 0) : Type 0 where
  pub contains : String → String → Bool
  pub byte_length : String → ℕ
  pub parse_bing : String → List (Result F)
  pub parse_google : String → List (Result F)
  pub parse_baidu : String → Option (List (Result F))

pub record EngineState : Type 0 where
  pub limiter : RateLimiter
  pub session : Session

-- The limiter refused, which gives an empty response; results; or an error.
pub data PageSearch (F : Type 0) : Type 0 where
  limited : PageSearch F
  found : List (Result F) → PageSearch F
  blocked_by : String → PageSearch F

module _ {F : Type 0} (text : Text) (ps : Parsers F) (blocked : List String) where
  -- recordFail and an error.
  abbrev pub failing : Pace → String → Session → Session × PageSearch F
  failing pace err s = (record_fail pace s, blocked_by err)

  -- recordSuccess, the filter of the blocked sites and the turn of the session.
  abbrev pub succeeding : Pace → List (Result F) → Session → Session × PageSearch F
  succeeding pace rs s =
      (rotate_session_if_needed pace (record_success s), found (without_blocked text blocked rs))

  unfoldable pub bing_reply : PageReply → Session → Session × PageSearch F
  bing_reply (not_built err) s = (s, blocked_by err)
  bing_reply (not_received err) s = failing bing_pace err s
  bing_reply (page p) s =
      if not (p.status_code == 200)
      then failing bing_pace "HTTP status" s
      else if not (ps.contains p.body "id=\"b_results\"")
      then failing bing_pace "blocked by anti-bot" s
      else succeeding bing_pace (ps.parse_bing p.body) s

  abbrev pub baidu_results : Option (List (Result F)) → Session → Session × PageSearch F
  baidu_results none s = failing baidu_pace "parse error" s
  baidu_results (some rs) s = succeeding baidu_pace rs s

  unfoldable pub baidu_reply : PageReply → Session → Session × PageSearch F
  baidu_reply (not_built err) s = (s, blocked_by err)
  baidu_reply (not_received err) s = failing baidu_pace err s
  baidu_reply (page p) s =
      if not (p.status_code == 200)
      then failing baidu_pace "HTTP status" s
      else if ps.contains p.final_url "wappass.baidu.com/static/captcha"
      then failing baidu_pace "blocked by Baidu CAPTCHA" s
      else baidu_results (ps.parse_baidu p.body) s

  unfoldable pub detect_sorry : WebPage → Bool
  detect_sorry p =
      str_eq p.final_host "sorry.google.com"
      || ps.contains p.final_path "/sorry"
      || p.status_code == 302
      || (ltb (ps.byte_length p.body) 2000 && ps.contains p.body "/sorry/")
      || ps.contains p.body "/httpservice/retry/enablejs"
      || (ps.contains p.body "SG_SS" && not (ps.contains p.body "id=\"rso\""))

  unfoldable pub google_reply : PageReply → Session → Session × PageSearch F
  google_reply (not_built err) s = (s, blocked_by err)
  google_reply (not_received err) s = failing google_pace err s
  google_reply (page p) s =
      let rs = ps.parse_google p.body in
      if detect_sorry p
      then failing google_pace "blocked by Google CAPTCHA" s
      else if not (p.status_code == 200)
      then failing google_pace "HTTP status" s
      else if length rs == 0
      then failing google_pace "no results parsed" s
      else succeeding google_pace rs s

  -- Search of these engines: the limiter, and the site's reply to the request.
  abbrev pub limited_search :
      (PageReply → Session → Session × PageSearch F)
      → ℕ
      → PageReply
      → EngineState
      → EngineState × PageSearch F
  limited_search react now reply e =
      let (limiter, allowed) = allow now e.limiter in
      let (session, out) = react reply e.session in
      if allowed
      then (record { limiter = limiter; session = session }, out)
      else (record e { limiter = limiter }, limited)

  unfoldable pub bing_search : ℕ → PageReply → EngineState → EngineState × PageSearch F
  bing_search = limited_search bing_reply

  unfoldable pub baidu_web_search : ℕ → PageReply → EngineState → EngineState × PageSearch F
  baidu_web_search = limited_search baidu_reply

  unfoldable pub google_search : ℕ → PageReply → EngineState → EngineState × PageSearch F
  google_search = limited_search google_reply
