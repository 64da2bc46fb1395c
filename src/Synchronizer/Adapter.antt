-- ===== src/Synchronizer/Adapter.antt =====
-- The whole synchronizer: the callbacks and the loop of pkg/synchronizer/synchronizer.go around
-- `SynchronizeDevice` (pkg/synchronizer/synchronize-device.go).
use fabric_adapter.Base.{ℕ, Option, none, some, Text, Dict, Error, Result, zoom}
use fabric_adapter.Fabric.{RootDevice}
use fabric_adapter.Queue.{CallbackType, ConfigUpdate, Queue, new_updates_pending}
use fabric_adapter.Device.{synchronize_device}
use fabric_adapter.Synchronizer.{Synchronizer, synchronizer_wrapper, Environment, Retry, loop_round}
use fabric_adapter.World.{Services, World, Config}

pub record Adapter (S : Services) : Type 0 where
  pub queue : Queue
  pub world : World S.Sids

module _ (S : Services) where
  abbrev put_queue : Queue → Adapter S → Adapter S
  put_queue q a = record a { queue = q }

  abbrev with_world : World S.Sids → Adapter S → Adapter S
  with_world w a = record a { world = w }

  -- the parts that a callback changes: the queue and the cache
  abbrev restored :
      Adapter S → Option (Synchronizer × Option Error) → Option (Adapter S × Option Error)
  restored a none = none
  restored a (some (s, e)) =
      some (record { queue = s.queue; world = record a.world { cache = s.cache } }, e)

  -- A callback of the gNMI server.
  unfoldable pub callback :
      (RootDevice → Result RootDevice)
      → Dict Text RootDevice
      → CallbackType
      → Text
      → Adapter S
      → Option (Adapter S × Option Error)
  callback deep_copy config callback_type target a = restored a (
      synchronizer_wrapper deep_copy config callback_type target
        (record { queue = a.queue; cache = a.world.cache }))

  module _ (config : Config) (meanwhile : Adapter S → Adapter S) where
    -- what the loop has around it for an update; `meanwhile` is what happens while it sleeps
    unfoldable pub environment : ConfigUpdate → Environment (Adapter S)
    environment update = record {
      pending = λ a. new_updates_pending a.queue;
      synchronize_device =
          zoom (λ (a : Adapter S). a.world) with_world
            (synchronize_device S config 0 update.config);
      sleep = meanwhile;
    }

    -- a round of `Loop`, on a number of retries
    unfoldable pub service : ℕ → Adapter S → Option (Retry (Adapter S))
    unfolding environment
    service retries a = loop_round (λ (b : Adapter S). b.queue) put_queue environment retries a
