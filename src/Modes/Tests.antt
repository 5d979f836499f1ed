-- ===== src/Modes/Tests.antt =====
-- The engines of concrete configurations (pkg/search/factory.go).
use websearch_mcpserver_dash.Prelude.{true, false, ◌≡◌, refl, some, none, [], ◌∷◌}
use websearch_mcpserver_dash.KeyPool.{new_key_pool, filter_keys}
use websearch_mcpserver_dash.Modes.Config.{get_mode}
use websearch_mcpserver_dash.Modes.Sample.{same_text, no_keys, config, one_key}
use websearch_mcpserver_dash.Modes.Types.{one, nil_bing}
use websearch_mcpserver_dash.Modes.Build.{build_provider_mode}
use websearch_mcpserver_dash.Modes.Group.{new_key_pool_from_list, init_pools, new_from_config}
use websearch_mcpserver_dash.Modes.Usable.{is_usable, new_from_config-is_usable}
use websearch_mcpserver_dash.Modes.Order.{pool_of, providers_of, new_from_config-providers}

-- Without a key and without Bing, the engine of the mode tavily is a nil pointer in an interface that
-- is not nil.
nil_pointer : new_from_config same_text (config "tavily" no_keys false) ≡ one nil_bing
unfolding new_from_config get_mode build_provider_mode new_key_pool_from_list
nil_pointer = refl

new_from_config-is_usable_example :
    is_usable (new_from_config same_text (config "hybrid" no_keys true)) ≡ true
unfolding get_mode
new_from_config-is_usable_example =
    new_from_config-is_usable same_text (config "hybrid" no_keys true) refl refl

new_from_config-providers_example :
    providers_of (new_from_config same_text (config "apipool" one_key true))
    ≡ some (
        (
          "tavily",
          "tavily",
          pool_of (init_pools same_text (config "apipool" one_key true)) "tavily",
        )
        ∷ ("baidu_web", "baidu_web", none)
        ∷ [])
unfolding get_mode new_key_pool_from_list new_key_pool filter_keys
new_from_config-providers_example =
    new_from_config-providers same_text (config "apipool" one_key true) refl
