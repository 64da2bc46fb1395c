-- ===== src/Cache.antt =====
-- pkg/synchronizer/cache.go: the configurations that were pushed last.
pub mod Contents
use fabric_adapter.Base.{
  Bool, true, false, Option, none, some, List, [], ◌∷◌, ◌++◌, Text, Dict, codes, lookup, insert,
  delete, text_eq,
}
use fabric_adapter.Netcfg.{OnosNetConfig}
use fabric_adapter.Netcfg.Equal.{deep_equal}

-- `CacheModelNetConfig`
abbrev pub cache_model_net_config : Text
cache_model_net_config = codes "netconfig"

abbrev pub Cache : Type 0
Cache = Dict Text OnosNetConfig

-- `fmt.Sprintf("%s-%s", modelName, modelID)`
abbrev pub cache_key : Text → Text → Text
cache_key model_name model_id = model_name ++ b'-' ∷ model_id

abbrev same_as : OnosNetConfig → Option OnosNetConfig → Bool
same_as contents none = false
same_as contents (some entry) = deep_equal entry contents

-- `CacheCheck`, `CacheUpdate`, `CacheInvalidate` and `CacheDelete`
unfoldable pub cache_check : Text → Text → OnosNetConfig → Cache → Bool
cache_check model_name model_id contents cache =
    same_as contents (lookup (cache_key model_name model_id) cache)

unfoldable pub cache_update : Text → Text → OnosNetConfig → Cache → Cache
cache_update model_name model_id contents cache =
    insert (cache_key model_name model_id) contents cache

unfoldable pub cache_invalidate : Cache → Cache
cache_invalidate cache = []

unfoldable pub cache_delete : Text → Text → Cache → Cache
cache_delete model_name model_id cache = delete (cache_key model_name model_id) cache
