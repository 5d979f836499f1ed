-- ===== src/Tools/FetchTests.antt =====
-- The fetch of pages and the filter on concrete inputs (mcp/tool_search.go, mcp/security.go).
use websearch_mcpserver_dash.Prelude.{
  tally, ℕ, ◌≤◌, true, false, ◌&&◌, ◌≡◌, refl, none, some, [], ◌∷◌, ltb, leb, if◌then◌else◌, length,
  get_elem?, str_eq,
}
use websearch_mcpserver_dash.Core.{SearchResult}
use websearch_mcpserver_dash.Cache.Sample.{titled}
use websearch_mcpserver_dash.Tools.Types.{good, bad}
use websearch_mcpserver_dash.Tools.Enrich.{with_content, enrich_top_n}
use websearch_mcpserver_dash.Tools.Filter.{configured_filter, post_search_filter}
use websearch_mcpserver_dash.Tools.Security.{
  Network, validate_url_security, is_private_host_fast, any_unsafe, is_unsafe_ip, is_cloud_metadata,
  head_check, follow,
}
use websearch_mcpserver_dash.Tools.Fetch.{WebFetch, PageAnswers, fetch_page_content}
use websearch_mcpserver_dash.Tools.Fetched.{content_of_page, asks_for, enrich_top_n-get_elem?}
use websearch_mcpserver_dash.Tools.Bounded.{exceeds, too_weak, post_search_filter-Bounded}
use websearch_mcpserver_dash.Tools.Safe.{refused, fetch_page_content-Safe}
use websearch_mcpserver_dash.Tools.Tests.{text, tool, whole, found, conf, outside}

abbrev second : SearchResult ℕ
second = record (titled "spec") { url = "u2" }

-- The second result's page is behind a challenge.
enrich_top_n-get_elem?_example :
    (r' : SearchResult ℕ) × (get_elem?
        (enrich_top_n text tool outside.cancelled outside.fetch (titled "a" ∷ second ∷ []) 2)
        1
      ≡ some r')
    × (length (enrich_top_n text tool outside.cancelled outside.fetch (titled "a" ∷ second ∷ []) 2)
        ≡ 2)
    × (with_content text tool r' "" ≡ second)
    × (r'.content ≡ (
        if asks_for text tool outside.cancelled outside.fetch 2 1 second
        then content_of_page text tool "" (bad "WAF")
        else ""))
enrich_top_n-get_elem?_example =
    enrich_top_n-get_elem? text tool outside.cancelled outside.fetch (titled "a" ∷ second ∷ []) 2 1
      refl

post_search_filter-Bounded_example :
    (tally
        (λ r. str_eq r.title "spec")
        (post_search_filter whole (λ rs. rs) conf (titled "spec" ∷ found) "tavily")
      ≤ 2)
    × (exceeds whole 3 (post_search_filter whole (λ rs. rs) conf (titled "spec" ∷ found) "tavily")
        ≡ false)
    × (exceeds whole 0 (post_search_filter whole (λ rs. rs) conf (titled "spec" ∷ found) "tavily")
        ≡ false)
    × (too_weak whole 0
          (titled "spec" ∷ found)
          (post_search_filter whole (λ rs. rs) conf (titled "spec" ∷ found) "tavily")
        ≡ false)
unfolding tally configured_filter
post_search_filter-Bounded_example =
    post_search_filter-Bounded whole (λ rs. rs) (λ test xs. refl) conf (titled "spec" ∷ found)
      "tavily" (λ r. str_eq r.title "spec")

-- Every name leads to the address 1, which is private for those that end at "inner".
abbrev net : Network ℕ
net = record {
  parse_url = λ raw. some (record { scheme = "https"; hostname = raw });
  lookup_host = λ host. some (host ∷ []);
  parse_ip = λ host. some (if str_eq host "inner" then 1 else 0);
  is_loopback = λ ip. false;
  is_private = λ ip. leb 1 ip;
  is_link_local_unicast = λ ip. false;
  is_link_local_multicast = λ ip. false;
  is_unspecified = λ ip. false;
  is_metadata_v4 = λ ip. false;
  is_v4 = λ ip. true;
}

-- The page redirects to an inner address.
abbrev answers : PageAnswers
answers = record {
  builds = true;
  hops = "inner" ∷ [];
  head = some (record { status_code = 200; content_length = none });
  page = good none;
}

abbrev web : WebFetch
web = record { has_inst = true; lazy = none; max_size_mb = 10 }

fetch_page_content-Safe_example :
    (tally
        (refused net)
        (fetch_page_content text tool net (λ r. "refused") answers "outer" web).heads
      ≡ 0)
    × (length (fetch_page_content text tool net (λ r. "refused") answers "outer" web).heads ≤ 5)
    × (((fetch_page_content text tool net (λ r. "refused") answers "outer" web).asked_page
          && refused net "outer")
        ≡ false)
    × (((fetch_page_content text tool net (λ r. "refused") answers "outer" web).asked_page
          && true
          && ltb 0 (tally (refused net) ("inner" ∷ [])))
        ≡ false)
fetch_page_content-Safe_example =
    fetch_page_content-Safe text tool net (λ r. "refused") answers "outer" web

redirect_blocked :
    (fetch_page_content text tool net (λ r. "refused") answers "outer" web).asked_page ≡ false
unfolding fetch_page_content validate_url_security is_private_host_fast any_unsafe is_unsafe_ip
    is_cloud_metadata head_check follow
redirect_blocked = refl
