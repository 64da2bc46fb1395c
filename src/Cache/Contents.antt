-- ===== src/Cache/Contents.antt =====
-- The four operations of pkg/synchronizer/cache.go against each other.
use fabric_adapter.Base.{
  false, ◌≡◌, [], ◌∷◌, Text, text_eq, text_eqb, lookup-insert, lookup-delete, if◌then◌else◌, arith,
}
use fabric_adapter.Netcfg.{OnosNetConfig}
use fabric_adapter.Netcfg.Equal.{deep_equal}
use fabric_adapter.Cache.{Cache, cache_key, cache_check, cache_update, cache_delete}

same_prefix : (name i j : Text) → text_eqb (cache_key name i) (cache_key name j) ≡ text_eqb i j
unfolding text_eqb
same_prefix [] i j = ground arith
same_prefix (x ∷ name) i j = ground (arith, same_prefix name i j)

-- After CacheUpdate of one id, CacheCheck of that id is reflect.DeepEqual with the new contents,
-- and CacheCheck of another id of the model is as before.
pub cache_check-cache_update :
    (name i j : Text) (c d : OnosNetConfig) (cache : Cache)
    → cache_check name j d (cache_update name i c cache)
      ≡ (if text_eqb i j then deep_equal c d else cache_check name j d cache)
unfolding cache_check cache_update
cache_check-cache_update name i j c d cache =
    ground
      (arith, lookup-insert (cache_key name i) (cache_key name j) c cache, same_prefix name i j)

-- After CacheDelete of one id, CacheCheck of that id is false, and CacheCheck of another id of
-- the model is as before.
cache_check-cache_delete :
    (name i j : Text) (d : OnosNetConfig) (cache : Cache)
    → cache_check name j d (cache_delete name i cache)
      ≡ (if text_eqb i j then false else cache_check name j d cache)
unfolding cache_check cache_delete
cache_check-cache_delete name i j d cache =
    ground (arith, lookup-delete (cache_key name i) (cache_key name j) cache, same_prefix name i j)
