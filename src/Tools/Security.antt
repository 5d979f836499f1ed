-- ===== src/Tools/Security.antt =====
-- The checks of an address before its page is fetched (mcp/security.go). The parser of URLs, the
-- resolver, the tests on an IP address and the answers of the servers are parameters.
use websearch_mcpserver_dash.Prelude.{
  ℕ, ◌*◌, String, Bool, true, false, not, ◌&&◌, ◌||◌, Option, none, some, List, [], ◌∷◌, ◌++◌, leb,
  ◌==◌, if◌then◌else◌, length, str_eq, str_mem,
}

-- url.Parse's Scheme in lower case, and Hostname().
pub record WebUrl : Type 0 where
  pub scheme : String
  pub hostname : String

-- net.ParseIP, and the methods of net.IP that the check calls; `none` is no address.
pub record Network (Ip : Type 0) : Type 0 where
  pub parse_url : String → Option WebUrl
  pub lookup_host : String → Option (List String)
  pub parse_ip : String → Option Ip
  pub is_loopback : Ip → Bool
  pub is_private : Ip → Bool
  pub is_link_local_unicast : Ip → Bool
  pub is_link_local_multicast : Ip → Bool
  pub is_unspecified : Ip → Bool
  pub is_metadata_v4 : Ip → Bool
  pub is_v4 : Ip → Bool

-- The status of the last answer, and its Content-Length if that is a number.
pub record HeadAnswer : Type 0 where
  pub status_code : ℕ
  pub content_length : Option ℕ

pub data HeadEnd : Type 0 where
  unsafe_redirect head_failed : HeadEnd
  answered : HeadAnswer → HeadEnd

-- The addresses that were sent a HEAD request, in order, and how that ended.
pub record Followed : Type 0 where
  pub requested : List String
  pub end : HeadEnd

-- Why an address is refused.
pub data Refusal : Type 0 where
  malformed other_scheme no_host private_host private_address : Refusal

unfoldable pub is_private_host_fast : String → Bool
is_private_host_fast host = str_mem host (
    "localhost" ∷ "127.0.0.1" ∷ "::1" ∷ "0.0.0.0" ∷ "169.254.169.254" ∷ "metadata.google.internal"
    ∷ "[::1]" ∷ [])

abbrev pub max_redirect_hops : ℕ
max_redirect_hops = 5

abbrev pub is_refused : Option Refusal → Bool
is_refused none = false
is_refused (some r) = true

abbrev pub head_end : Option HeadAnswer → HeadEnd
head_end none = head_failed
head_end (some a) = answered a

-- `cleanFetchMaxSizeMB` in bytes, 10 MB if it is not positive.
abbrev pub size_limit : ℕ → ℕ
size_limit max_size_mb = (if max_size_mb == 0 then 10 else max_size_mb) * 1048576

abbrev pub fits : ℕ → Option ℕ → Bool
fits max_size_mb none = true
fits max_size_mb (some size) = leb size (size_limit max_size_mb)

-- A request that fails, or ends with an error status, is let through.
abbrev pub passes : ℕ → HeadEnd → Bool
passes max_size_mb unsafe_redirect = false
passes max_size_mb head_failed = true
passes max_size_mb (answered a) = leb 400 a.status_code || fits max_size_mb a.content_length

module _ {Ip : Type 0} (net : Network Ip) where
  unfoldable pub is_cloud_metadata : Ip → Bool
  is_cloud_metadata ip = net.is_metadata_v4 ip || net.is_link_local_unicast ip && not (net.is_v4 ip)

  unfoldable pub is_unsafe_ip : Ip → Bool
  is_unsafe_ip ip =
      net.is_loopback ip
      || net.is_private ip
      || net.is_link_local_unicast ip
      || net.is_link_local_multicast ip
      || net.is_unspecified ip
      || is_cloud_metadata ip

  abbrev pub is_unsafe_text : Option Ip → Bool
  is_unsafe_text none = false
  is_unsafe_text (some ip) = is_unsafe_ip ip

  -- The loop over the resolved addresses.
  unfoldable pub any_unsafe : List String → Bool
  any_unsafe [] = false
  any_unsafe (s ∷ ss) = is_unsafe_text (net.parse_ip s) || any_unsafe ss

  -- A failed resolution is no refusal.
  abbrev pub resolved_refusal : Option (List String) → Option Refusal
  resolved_refusal none = none
  resolved_refusal (some ips) = if any_unsafe ips then some private_address else none

  abbrev pub url_refusal : WebUrl → Option Refusal
  url_refusal u =
      if not (str_eq u.scheme "http") && not (str_eq u.scheme "https")
      then some other_scheme
      else if str_eq u.hostname ""
      then some no_host
      else if is_private_host_fast u.hostname
      then some private_host
      else resolved_refusal (net.lookup_host u.hostname)

  unfoldable pub validate_url_security : String → Option Refusal
  validate_url_security raw = elim (net.parse_url raw) [
    | none ↦ some malformed
    | some u ↦ url_refusal u
  ]

  -- The last answer of a HEAD request that is followed to its end.
  unfoldable pub follow : List String → List String → Option HeadAnswer → Followed
  follow via [] end = record { requested = via; end = head_end end }
  follow via (u ∷ us) end =
      let rest = follow (via ++ u ∷ []) us end in
      if leb max_redirect_hops (length via)
      then record { requested = via; end = head_failed }
      else if is_refused (validate_url_security u)
      then record { requested = via; end = unsafe_redirect }
      else rest

  -- headCheck, with the requests that it made: `true` lets the page be fetched. `hops` are the targets
  -- to which the servers redirect one after the other.
  unfoldable pub head_check :
      ℕ → Bool → List String → Option HeadAnswer → String → List String × Bool
  head_check max_size_mb builds hops end raw =
      if not builds
      then ([], true)
      else (let f = follow (raw ∷ []) hops end in (f.requested, passes max_size_mb f.end))
