-- ===== src/Antirobot/Tests.antt =====
-- The limiter on concrete times, and the deduplication of results (pkg/antirobot).
use websearch_mcpserver_dash.Prelude.{
  String, false, dedup_by, ℕ, ◌≡◌, refl, none, List, [], ◌∷◌, arith,
}
use websearch_mcpserver_dash.Go.{Text}
use websearch_mcpserver_dash.Antirobot.Results.{
  Result, normalize_doi, result_key, deduplicate_results,
}
use websearch_mcpserver_dash.Antirobot.Limiter.{
  allow, allowed_times, new_rate_limiter, with_min_interval, filter_after,
}
use websearch_mcpserver_dash.Antirobot.History.{
  Ordered, permitted_times, allowed_times-permitted_times,
}

-- Three calls at once, one half a second later, and one after a second.
abbrev calls : List ℕ
calls = 10 ∷ 10 ∷ 10 ∷ 500000010 ∷ 1000000010 ∷ []

calls-Ordered : Ordered 0 calls
calls-Ordered = (omega arith, (omega arith, (omega arith, (omega arith, (omega arith, tt)))))

two_a_second :
    allowed_times (with_min_interval 0 (new_rate_limiter 2 100)) calls ≡ 10 ∷ 10 ∷ 1000000010 ∷ []
unfolding allowed_times allow filter_after
two_a_second = refl

allowed_times-permitted_times_example :
    allowed_times (with_min_interval 400000000 (new_rate_limiter 2 100)) calls
    ≡ permitted_times 2 100 400000000 [] calls
allowed_times-permitted_times_example =
    allowed_times-permitted_times 2 100 400000000 calls calls-Ordered

-- Texts whose prefixes are kept, and of which only the second part is.
abbrev inert : Text
inert = record {
  trim_space = λ s. s;
  to_lower = λ s. s;
  has_suffix = λ s suffix. false;
  trim_prefix = λ s prefix. s;
  concat = λ s t. t;
  parsed_host = λ u. none;
}

abbrev paper : String → String → Result ℕ
paper url doi = record {
  kind = "";
  title = "";
  url = url;
  content = "";
  pdf_url = "";
  authors = "";
  published_at = "";
  doi = doi;
  journal = "";
  cited_by = 0;
  score = 0;
  engine = "";
}

abbrev papers : List (Result ℕ)
papers = paper "a" "10.1/x" ∷ paper "b" "10.1/x" ∷ paper "c" "" ∷ []

first_of_each : deduplicate_results inert papers ≡ paper "a" "10.1/x" ∷ paper "c" "" ∷ []
unfolding deduplicate_results result_key normalize_doi dedup_by
first_of_each = refl
