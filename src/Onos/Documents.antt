-- ===== src/Onos/Documents.antt =====
-- When `SynchronizeFabricToOnos` (pkg/synchronizer/synchronize-device.go) leaves a push out: the cache
-- against the document that would be sent.
use fabric_adapter.Base.{◌≡◌, ◌↔◌, refl, sym, true, some, text_eq, lookup, ◌∙◌}
use fabric_adapter.Netcfg.{OnosNetConfig}
use fabric_adapter.Netcfg.Reflexive.{IsNetConfig}
use fabric_adapter.Netcfg.Encode.{net_config_json, marshal_indent}
use fabric_adapter.Netcfg.Equal.{deep_equal}
use fabric_adapter.Netcfg.Documents.{deep_equal_iff}
use fabric_adapter.Netcfg.Sent.{IsAscii, deep_equal-marshal_indent_iff}
use fabric_adapter.Cache.{cache_key, cache_model_net_config, cache_check}
use fabric_adapter.Onos.{unchanged}
use fabric_adapter.World.{Services, World, FabricScope, Config}

module _ (S : Services) (config : Config) (scope : FabricScope) (w : World S.Sids)
    (c : OnosNetConfig) where
  unchanged-deep_equal :
      config.partial_update_enable ≡ true
      → lookup (cache_key cache_model_net_config scope.fabric_id) w.cache ≡ some c
      → unchanged S config scope.fabric_id w ≡ deep_equal c w.net_config
  unfolding unchanged cache_check
  unchanged-deep_equal p e = rw (p, e) refl

  -- With partial updates on and c cached, a fabric is left out exactly when its new configuration has
  -- the same JSON document as c.
  unchanged_iff :
      config.partial_update_enable ≡ true
      → lookup (cache_key cache_model_net_config scope.fabric_id) w.cache ≡ some c
      → IsNetConfig c
      → IsNetConfig w.net_config
      → (unchanged S config scope.fabric_id w ≡ true)
        ↔ (net_config_json c ≡ net_config_json w.net_config)
  unchanged_iff p e mc md =
      let same = unchanged-deep_equal p e in
      let iff = deep_equal_iff c w.net_config mc md in
      (λ h. iff.0 (sym same ∙ h), λ f. same ∙ iff.1 f)

  -- With partial updates on, a fabric for which a configuration c is cached is left out of the
  -- pushes exactly when its new configuration is encoded as the same JSON text as c; the maps of
  -- both have each key once, and their strings are ASCII.
  pub unchanged-marshal_indent_iff :
      config.partial_update_enable ≡ true
      → lookup (cache_key cache_model_net_config scope.fabric_id) w.cache ≡ some c
      → IsNetConfig c
      → IsNetConfig w.net_config
      → IsAscii c
      → IsAscii w.net_config
      → (unchanged S config scope.fabric_id w ≡ true)
        ↔ (marshal_indent c ≡ marshal_indent w.net_config)
  unchanged-marshal_indent_iff p e mc md ac ad =
      let same = unchanged-deep_equal p e in
      let iff = deep_equal-marshal_indent_iff c w.net_config mc md ac ad in
      (λ h. iff.0 (sym same ∙ h), λ f. same ∙ iff.1 f)
