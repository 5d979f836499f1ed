-- ===== src/Enhance/Aggregate.antt =====
-- The results of all engines gathered by their URLs (pkg/search/enhance/enhance.go). The map `m` and
-- the slice `order` are one list of keys with their aggregates, in the order of the keys' first
-- results. The set `engines` of an aggregate is its `engineOrder`.
use websearch_mcpserver_dash.Prelude.{
  ℕ, ◌+◌, String, Option, none, some, List, [], ◌∷◌, ◌++◌, ltb, leb, ◌==◌, if◌then◌else◌, str_eq,
  str_mem,
}
use websearch_mcpserver_dash.Core.{SearchResult, ScoreBucket, Numbers}
use websearch_mcpserver_dash.Go.{Text, UrlText, Url}

module _ (text : Text) (urls : UrlText) where
  abbrev pub path_key : Url → String
  path_key u =
      text.concat (text.trim_prefix (text.to_lower u.hostname) "www.")
        (urls.trim_right u.escaped_path "/")

  abbrev pub url_parts_key : Url → String
  url_parts_key u =
      if str_eq u.raw_query ""
      then path_key u
      else text.concat (text.concat (path_key u) "?") u.raw_query

  -- The key of a URL that has been trimmed and is not empty.
  abbrev pub parsed_key : String → Option Url → String
  parsed_key s none = urls.trim_right s "/"
  parsed_key s (some u) =
      if str_eq u.host ""
      then urls.trim_right s "/"
      else if str_eq (url_parts_key u) ""
      then urls.trim_right s "/"
      else url_parts_key u

  unfoldable pub normalize_url_key : String → String
  normalize_url_key raw =
      let s = text.trim_space raw in if str_eq s "" then "" else parsed_key s (urls.parse_url s)

pub record UrlAgg (F : Type 0) : Type 0 where
  pub res : SearchResult F
  pub rrf : F
  pub engine_order : List String

module _ {F : Type 0} (num : Numbers F) where
  abbrev pub rrf_k : F
  rrf_k = num.dec 60 0

  -- `1.0 / (rrfK + float64(rank))`
  abbrev pub rank_score : ℕ → F
  rank_score rank = num.div (num.dec 1 0) (num.add rrf_k (num.of_int rank))

  abbrev pub weight_or_one : F → F
  weight_or_one w = if num.float.le w num.float.nil then num.dec 1 0 else w

  abbrev pub new_agg : SearchResult F → UrlAgg F
  new_agg r = record { res = r; rrf = num.float.nil; engine_order = [] }

  -- One more result at a rank of an engine.
  abbrev pub counted : F → String → ℕ → UrlAgg F → UrlAgg F
  counted w name rank a = record a {
    rrf = num.add a.rrf (num.mul w (rank_score rank));
    engine_order =
        if str_mem name a.engine_order then a.engine_order else a.engine_order ++ name ∷ [];
  }

  unfoldable pub consensus_boost : ℕ → F
  consensus_boost n =
      if leb n 1
      then num.float.nil
      else if n == 2
      then num.dec 5 2
      else if n == 3
      then num.dec 10 2
      else num.dec 12 2

abbrev pub or_else : String → String → String
or_else old new = if str_eq old "" then new else old

module _ {F : Type 0} (num : Numbers F) (text : Text) (urls : UrlText) where
  abbrev pub key_of_result : SearchResult F → String
  key_of_result r = normalize_url_key text urls r.url

  -- The fuller of the contents; a title and a date where there were none.
  abbrev pub joined : SearchResult F → UrlAgg F → UrlAgg F
  joined r a = record a {
    res = record a.res {
      content =
          if ltb (urls.byte_length a.res.content) (urls.byte_length r.content)
          then r.content
          else a.res.content;
      title = or_else a.res.title r.title;
      publish_date = or_else a.res.publish_date r.publish_date;
    };
  }

  unfoldable pub add_result :
      F → String → ℕ → String → SearchResult F → List (String × UrlAgg F) → List (String × UrlAgg F)
  add_result w name rank key r [] = (key, counted num w name rank (new_agg num r)) ∷ []
  add_result w name rank key r ((k, a) ∷ gs) =
      if str_eq key k
      then (k, counted num w name rank (joined r a)) ∷ gs
      else (k, a) ∷ add_result w name rank key r gs

  -- The results of one engine from a rank on.
  unfoldable pub add_ranked :
      F → String → ℕ → List (SearchResult F) → List (String × UrlAgg F) → List (String × UrlAgg F)
  add_ranked w name rank [] gs = gs
  add_ranked w name rank (r ∷ rs) gs =
      add_ranked w name (rank + 1) rs
        (if str_eq (key_of_result r) "" then gs else add_result w name rank (key_of_result r) r gs)

  unfoldable pub aggregate :
      List (ScoreBucket F) → List (String × UrlAgg F) → List (String × UrlAgg F)
  aggregate [] gs = gs
  aggregate (b ∷ bs) gs =
      aggregate bs (add_ranked (weight_or_one num b.weight) b.name 0 b.results gs)
