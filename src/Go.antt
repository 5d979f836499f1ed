-- ===== src/Go.antt =====
-- What the code takes from Go's standard library: each is a parameter, with no law but those that
-- a theorem states.
use websearch_mcpserver_dash.Prelude.{ℕ, String, Bool, Option}

-- strings.TrimSpace, strings.ToLower, strings.HasSuffix(s, suffix), strings.TrimPrefix(s, prefix),
-- `a + b` on strings, and the lower-case host of a URL that url.Parse accepts, if it is not empty.
pub record Text : Type 0 where
  pub trim_space : String → String
  pub to_lower : String → String
  pub has_suffix : String → String → Bool
  pub trim_prefix : String → String → String
  pub concat : String → String → String
  pub parsed_host : String → Option String

-- What url.Parse makes of a URL that it accepts.
pub record Url : Type 0 where
  pub host : String
  pub hostname : String
  pub escaped_path : String
  pub raw_query : String

-- url.Parse, strings.TrimRight(s, cutset), and `len(s)`, the number of bytes.
pub record UrlText : Type 0 where
  pub parse_url : String → Option Url
  pub trim_right : String → String → String
  pub byte_length : String → ℕ
