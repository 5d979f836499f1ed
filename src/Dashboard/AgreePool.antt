-- ===== src/Dashboard/AgreePool.antt =====
-- The active sources of the mode apipool (pkg/dashboard/sources.go), and the providers of its API pool
-- (BuildApipoolMode in pkg/search/mode/factory.go).
use websearch_mcpserver_dash.Prelude.{
  String, Bool, true, false, ◌&&◌, ◌||◌, ◌≡◌, refl, sym, ap, ◌∙◌, Option, none, some, List, [], ◌∷◌,
  arith, if◌then◌else◌, str_eq, eq_iff,
}
use websearch_mcpserver_dash.Go.{Text}
use websearch_mcpserver_dash.KeyPool.{KeyPool}
use websearch_mcpserver_dash.Modes.Config.{Config, get_engines, apipool_mode}
use websearch_mcpserver_dash.Modes.Pages.{PageOptions, page_options, init_baidu_web_engine}
use websearch_mcpserver_dash.Modes.Types.{EngineChoice, ProviderChoice}
use websearch_mcpserver_dash.Modes.Build.{
  if_there, provider_of, apipool_provider, apipool_providers, apipool_or_nil,
  new_baidu_search_from_conf, tavily_from_conf, exa_from_conf, anysearch_from_conf,
  new_doubao_from_conf, build_apipool_mode,
}
use websearch_mcpserver_dash.Modes.Group.{init_pages, init_pools}
use websearch_mcpserver_dash.Dashboard.Catalog.{has_keys, api_configured, activated_api, active_in}
use websearch_mcpserver_dash.Dashboard.Running.{
  present, is_source, any_provider, runs, any_provider-if_there,
}
use websearch_mcpserver_dash.Dashboard.Agree.{Keyed, is_source-baidu}

not-both : (x a b : String) → str_eq a b ≡ false → str_eq x a ≡ true → str_eq x b ≡ false
not-both x a b h k = ground (arith, h, k, eq_iff x a, eq_iff x b, eq_iff a b)

keyed_right :
    (a b c d e : Bool) → (a || b || c || d || e) ≡ (a || (b || (c || (d || (e || false)))))
keyed_right a b c d e = ground arith

joined :
    (all first rest a b c : Bool)
    → all ≡ (first || rest)
    → first ≡ a
    → rest ≡ (b || c)
    → all ≡ ((a || b) || c)
joined all first rest a b c h k l = ground (arith, h, k, l)

module _ {F : Type 0} (text : Text) (conf : Config F) (id : String) where
  -- The source that a provider is.
  provided : Option ProviderChoice → Bool
  provided o = any_provider id (if_there o [])

  provided-step :
      (n known : String) (from_conf : KeyPool → EngineChoice) (pool : Option KeyPool) (keys : Bool)
      (rest : Option ProviderChoice) (r b : Bool)
      → ((p : KeyPool) → is_source id (from_conf p) ≡ str_eq id known)
      → present pool ≡ keys
      → (str_eq n known ≡ true → r ≡ false)
      → str_eq n known ≡ b
      → provided rest ≡ (str_eq id n && r)
      → provided (if b then provider_of text conf known from_conf pool else rest)
        ≡ (str_eq id n && ((b && keys) || r))
  unfolding provided any_provider
  provided-step n known from_conf none keys rest r true is there others h k =
      ground (arith, there, others h)
  provided-step n known from_conf (some p) keys rest r true is there others h k =
      ground (arith, there, others h, is p, h, eq_iff n known, eq_iff id n, eq_iff id known)
  provided-step n known from_conf pool keys rest r false is there others h k = k

  provider-agrees :
      Keyed text conf
      → (n : String)
      → provided (apipool_provider text conf (init_pools text conf) n)
        ≡ (str_eq id n && api_configured text conf n)
  unfolding apipool_provider api_configured is_source provided any_provider
  provider-agrees keyed n =
      let pools = init_pools text conf in
      let is_none : provided none ≡ (str_eq id n && false) = ground arith in
      let picked_doubao =
        if str_eq n "doubao"
        then provider_of text conf "doubao" (new_doubao_from_conf text conf) pools.doubao
        else none in
      let is_doubao =
        provided-step n "doubao" (new_doubao_from_conf text conf) pools.doubao
          (has_keys conf.doubao.keys) none false (str_eq n "doubao") (λ p. refl) keyed.doubao
          (λ h. refl) refl is_none in
      let in_doubao = (str_eq n "doubao" && has_keys conf.doubao.keys) || false in
      let picked_exa =
        if str_eq n "exa"
        then provider_of text conf "exa" (exa_from_conf text conf) pools.exa
        else picked_doubao in
      let is_exa =
        provided-step n "exa" (exa_from_conf text conf) pools.exa (has_keys conf.exa.keys)
          picked_doubao in_doubao (str_eq n "exa") (λ p. refl) keyed.exa
          (λ h. ground (arith, not-both n "exa" "doubao" refl h)) refl is_doubao in
      let in_exa = (str_eq n "exa" && has_keys conf.exa.keys) || in_doubao in
      let picked_tavily =
        if str_eq n "tavily"
        then provider_of text conf "tavily" (tavily_from_conf text conf) pools.tavily
        else picked_exa in
      let is_tavily =
        provided-step n "tavily" (tavily_from_conf text conf) pools.tavily
          (has_keys conf.tavily.keys) picked_exa in_exa (str_eq n "tavily") (λ p. refl) keyed.tavily
          (λ h.
            ground (arith, not-both n "tavily" "exa" refl h, not-both n "tavily" "doubao" refl h))
          refl is_exa in
      let in_tavily = (str_eq n "tavily" && has_keys conf.tavily.keys) || in_exa in
      let picked_baidu =
        if str_eq n "baidu"
        then provider_of text conf "baidu" (new_baidu_search_from_conf text conf) pools.baidu
        else picked_tavily in
      let is_baidu =
        provided-step n "baidu" (new_baidu_search_from_conf text conf) pools.baidu
          (has_keys conf.baidu.keys) picked_tavily in_tavily (str_eq n "baidu")
          (is_source-baidu text conf id) keyed.baidu
          (λ h. ground (
            arith,
            not-both n "baidu" "tavily" refl h,
            not-both n "baidu" "exa" refl h,
            not-both n "baidu" "doubao" refl h,
          ))
          refl is_tavily in
      let in_baidu = (str_eq n "baidu" && has_keys conf.baidu.keys) || in_tavily in
      let picked_anysearch =
        if str_eq n "anysearch"
        then provider_of text conf "anysearch" (anysearch_from_conf text conf) pools.anysearch
        else picked_baidu in
      let is_anysearch =
        provided-step n "anysearch" (anysearch_from_conf text conf) pools.anysearch
          (has_keys conf.anysearch.keys) picked_baidu in_baidu (str_eq n "anysearch") (λ p. refl)
          keyed.anysearch
          (λ h. ground (
            arith,
            not-both n "anysearch" "baidu" refl h,
            not-both n "anysearch" "tavily" refl h,
            not-both n "anysearch" "exa" refl h,
            not-both n "anysearch" "doubao" refl h,
          ))
          refl is_baidu in
      let in_anysearch = (str_eq n "anysearch" && has_keys conf.anysearch.keys) || in_baidu in
      is_anysearch
      ∙ ap (λ b. str_eq id n && b)
          (sym (
            keyed_right (str_eq n "anysearch" && has_keys conf.anysearch.keys)
              (str_eq n "baidu" && has_keys conf.baidu.keys)
              (str_eq n "tavily" && has_keys conf.tavily.keys)
              (str_eq n "exa" && has_keys conf.exa.keys)
              (str_eq n "doubao" && has_keys conf.doubao.keys)))

  web-agrees :
      (o : PageOptions) (on : Bool)
      → any_provider id
          (apipool_providers text conf (init_pools text conf) (if on then some o else none) [])
        ≡ (str_eq id "baidu_web" && on)
  unfolding apipool_providers any_provider is_source
  web-agrees o true = ground arith
  web-agrees o false = ground arith

  providers-agree :
      Keyed text conf
      → (names : List String)
      → any_provider id (
          apipool_providers text conf
            (init_pools text conf)
            (init_baidu_web_engine text conf)
            names)
        ≡ (activated_api text conf names id || (str_eq id "baidu_web" && conf.baidu.web_enabled))
  unfolding activated_api apipool_providers provided
  providers-agree keyed [] = web-agrees (page_options text conf []) conf.baidu.web_enabled
  providers-agree keyed (name ∷ names) =
      let n = text.to_lower name in
      let pools = init_pools text conf in
      let rest = apipool_providers text conf pools (init_baidu_web_engine text conf) names in
      let first : any_provider id (if_there (apipool_provider text conf pools n) rest)
          ≡ (provided (apipool_provider text conf pools n) || any_provider id rest) =
        any_provider-if_there id (apipool_provider text conf pools n) rest in
      joined _ _ _ _ _ _ first (provider-agrees keyed n) (providers-agree keyed names)

  runs-apipool_or_nil :
      (ps : List ProviderChoice) → runs id (apipool_or_nil text conf ps) ≡ any_provider id ps
  unfolding any_provider
  runs-apipool_or_nil [] = refl
  runs-apipool_or_nil (p ∷ ps) = refl

  pub apipool-agrees :
      Keyed text conf
      → active_in text conf apipool_mode id
        ≡ runs id (build_apipool_mode text conf (init_pages text conf) (init_pools text conf))
  unfolding active_in build_apipool_mode
  apipool-agrees keyed =
      sym (providers-agree keyed (get_engines conf.apipool)) ∙ sym (runs-apipool_or_nil _)
