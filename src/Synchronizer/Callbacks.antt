-- ===== src/Synchronizer/Callbacks.antt =====
-- `Synchronize` (pkg/synchronizer/synchronizer.go) and `synchronizerWrapper`
-- (cmd/fabric-adapter/fabric-adapter.go): what a gNMI callback does to the queue and to the cache.
use fabric_adapter.Base.{
  ◌≡◌, false, Option, none, some, Option-cases, [], Text, Dict, Error, Result, arith, inl, inr,
  lookup, text_eq,
}
use fabric_adapter.Fabric.{RootDevice}
use fabric_adapter.Netcfg.{OnosNetConfig}
use fabric_adapter.Cache.{Cache, cache_check, cache_invalidate}
use fabric_adapter.Queue.{CallbackType, initial, apply, rollback, deleted, forced, Queue, enqueue}
use fabric_adapter.Synchronizer.{
  Synchronizer, with_queue, synchronize, synchronizer_wrapper, handle_delete,
}

module _ (deep_copy : RootDevice → Result RootDevice) where
  -- The cache and the queue after a callback, by its type.
  abbrev pub Handled :
      CallbackType
      → Dict Text RootDevice
      → Text
      → Synchronizer
      → Synchronizer
      → Option Error
      → Type 0
  Handled deleted config target s s' e = (s' ≡ s) × (e ≡ none)
  Handled forced config target s s' e =
      (enqueue deep_copy config forced target s.queue ≡ some (s'.queue, e))
      × ((name id : Text) (c : OnosNetConfig) → cache_check name id c s'.cache ≡ false)
  Handled t config target s s' e =
      (enqueue deep_copy config t target s.queue ≡ some (s'.queue, e)) × (s'.cache ≡ s.cache)

  queued :
      (cache : Cache) (o : Option (Queue × Option Error)) (s' : Synchronizer) (e : Option Error)
      → with_queue deep_copy cache o ≡ some (s', e)
      → (o ≡ some (s'.queue, e)) × (s'.cache ≡ cache)
  queued cache none s' e h = absurd (ground (arith, h))
  queued cache (some (q, x)) s' e h = (ground (arith, h), ground (arith, h))

  -- A delete changes nothing and reports no error; any other callback is queued, and its error is
  -- that of enqueue; a forced one also empties the cache, so that no configuration counts as
  -- sent, and the others keep it.
  pub synchronize-Handled :
      (t : CallbackType) (config : Dict Text RootDevice) (target : Text) (s s' : Synchronizer)
      (e : Option Error)
      → synchronize deep_copy config t target s ≡ some (s', e)
      → Handled t config target s s' e
  unfolding synchronize handle_delete cache_check cache_invalidate lookup
  synchronize-Handled initial config target s s' e h = queued s.cache _ s' e h
  synchronize-Handled apply config target s s' e h = queued s.cache _ s' e h
  synchronize-Handled rollback config target s s' e h = queued s.cache _ s' e h
  synchronize-Handled deleted config target s s' e h = (ground (arith, h), ground (arith, h))
  synchronize-Handled forced config target s s' e h =
      let (q, emptied) = queued [] _ s' e h in (q, λ name id c. ground (arith, emptied))

  -- The wrapper that the gNMI server calls reports no error, whatever the outcome.
  pub synchronizer_wrapper-no_error :
      (t : CallbackType) (config : Dict Text RootDevice) (target : Text) (s s' : Synchronizer)
      (e : Option Error)
      → synchronizer_wrapper deep_copy config t target s ≡ some (s', e)
      → (e ≡ none)
        × ((e' : Option Error) × (synchronize deep_copy config t target s ≡ some (s', e')))
  unfolding synchronizer_wrapper
  synchronizer_wrapper-no_error t config target s s' e h =
      elim (Option-cases (synchronize deep_copy config t target s)) [
        | inl p ↦ absurd (ground (arith, p, h))
        | inr ((s₁, e₁), p) ↦ (ground (arith, p, h), (e₁, ground (arith, p, h)))
      ]
