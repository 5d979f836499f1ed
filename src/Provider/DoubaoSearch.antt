-- ===== src/Provider/DoubaoSearch.antt =====
-- SearchRaw of the Doubao engine, and which key its errors name (pkg/search/provider/doubao.go).
use websearch_mcpserver_dash.Prelude.{
  ℕ, ◌+◌, ◌<◌, String, Bool, true, false, not, ◌&&◌, ◌||◌, ◌≡◌, sym, some, List, ltb, if◌then◌else◌,
  length, str_eq, arith,
}
use mathlib.Core.Path.{subst}
use websearch_mcpserver_dash.Core.{Float}
use websearch_mcpserver_dash.Go.{Text}
use websearch_mcpserver_dash.KeyPool.{KeyPool, IsValid, u64_mod}
use websearch_mcpserver_dash.ApiPool.{Outcome, err, key_error, other_error, Search, Engine}
use websearch_mcpserver_dash.Provider.Request.{
  Reply, transport_error, response, TakesKey, with_key, with_key-TakesKey,
}
use websearch_mcpserver_dash.Provider.Doubao.{
  DoubaoSearch, GlobalRequest, GlobalBody, CustomBody, global_request,
  lookback_days_to_doubao_range, doubao_err, global_outcome, custom_outcome,
}

-- A blank query, and one of more than a hundred characters, are refused without a key.
unfoldable pub is_bad_query : Text → (String → ℕ) → String → Bool
is_bad_query text rune_count query =
    str_eq (text.trim_space query) "" || ltb 100 (rune_count (text.trim_space query))

module _ (text : Text) (contains : String → String → Bool) (join : List String → String)
    (rune_count : String → ℕ) {F : Type 0} (fl : Float F)
    (http_global : ℕ → String → GlobalRequest → Reply GlobalBody)
    (http_custom : ℕ → String → DoubaoSearch → String → Reply (CustomBody F)) where
  -- The outcome of the one request, to the API that the version names.
  abbrev pub doubao_reply : DoubaoSearch → ℕ → String → String → Outcome F
  doubao_reply d now query key =
      if d.is_custom
      then custom_outcome text contains join fl d key (http_custom now key d query)
      else global_outcome text contains join fl d key (http_global now key (global_request d query))

  unfoldable pub doubao_search_raw : DoubaoSearch → Search F KeyPool
  doubao_search_raw d query now pool =
      if is_bad_query text rune_count query
      then some (pool, err other_error)
      else with_key (doubao_reply d now (text.trim_space query)) now pool

  -- SearchRawWithTimeRange: only the custom API takes a time range.
  abbrev pub with_range : DoubaoSearch → ℕ → DoubaoSearch
  with_range d days =
      let r = lookback_days_to_doubao_range days in
      if d.is_custom && not (str_eq r "") then record d { time_range = r } else d

  unfoldable pub doubao_engine : DoubaoSearch → Engine F KeyPool
  doubao_engine d = record {
    engine_name = "doubao";
    search_raw = doubao_search_raw d;
    search_range = some (λ days. doubao_search_raw (with_range d days));
  }

  doubao_err-key_error :
      (key : String) (status : ℕ) (code k : String)
      → doubao_err text contains {F = F} key status code ≡ err (key_error k)
      → k ≡ key
  doubao_err-key_error key status code k h = ground arith

  global_outcome-key_error :
      (d : DoubaoSearch) (key : String) (r : Reply GlobalBody) (k : String)
      → global_outcome text contains join fl d key r ≡ err (key_error k)
      → k ≡ key
  unfolding global_outcome
  global_outcome-key_error d key transport_error k h = ground arith
  global_outcome-key_error d key (response status body) k h = ground arith

  custom_outcome-key_error :
      (d : DoubaoSearch) (key : String) (r : Reply (CustomBody F)) (k : String)
      → custom_outcome text contains join fl d key r ≡ err (key_error k)
      → k ≡ key
  unfolding custom_outcome
  custom_outcome-key_error d key transport_error k h = ground arith
  custom_outcome-key_error d key (response status body) k h = ground arith

  doubao_reply-key_error :
      (d : DoubaoSearch) (now : ℕ) (query key k : String)
      → doubao_reply d now query key ≡ err (key_error k)
      → k ≡ key
  doubao_reply-key_error d now query key k h = by_version d.is_custom h
    where
      by_version :
          (b : Bool)
          → (if b
              then custom_outcome text contains join fl d key (http_custom now key d query)
              else global_outcome text contains join fl d key
                  (http_global now key (global_request d query)))
            ≡ err (key_error k)
          → k ≡ key
      by_version true = custom_outcome-key_error d key (http_custom now key d query) k
      by_version false =
          global_outcome-key_error d key (http_global now key (global_request d query)) k

  -- A query of up to a hundred characters that is not blank takes exactly one key by Next and leaves the
  -- pool as this Next does, and a KeyError names that key, whatever the API replies and whichever time
  -- range is asked for.
  pub doubao_search_raw-TakesKey :
      (d : DoubaoSearch) (query : String) (now : ℕ) (pool : KeyPool)
      → is_bad_query text rune_count query ≡ false
      → IsValid pool
      → pool.idx + length pool.keys < u64_mod
      → TakesKey now pool (doubao_search_raw d query now pool)
  unfolding doubao_search_raw
  doubao_search_raw-TakesKey d query now pool fine v fits =
      subst
        (λ b. TakesKey now pool (
          if b
          then some (pool, err other_error)
          else with_key (doubao_reply d now (text.trim_space query)) now pool))
        (sym fine)
        (with_key-TakesKey (doubao_reply d now (text.trim_space query)) now pool
          (λ key k. doubao_reply-key_error d now (text.trim_space query) key k) v fits)
