-- ===== src/Synchronizer/Newest.antt =====
-- Series of callbacks before a round of `Loop` (pkg/synchronizer/synchronizer.go): which update is
-- serviced, and what has become of the cache.
use fabric_adapter.Base.{
  ℕ, suc, ◌≡◌, refl, Option, none, some, List, [], ◌∷◌, Text, Dict, Error, Result, ok, err, ret,
  arith, All, ap, ◌∙◌,
}
use fabric_adapter.Fabric.{RootDevice}
use fabric_adapter.Fabric.Formed.{IsFormed}
use fabric_adapter.Queue.{
  CallbackType, initial, apply, rollback, deleted, forced, ConfigUpdate, Queue, copy_configs, drain,
  send_update, enqueue, dequeue, complete, new_updates_pending,
}
use fabric_adapter.Cache.{Cache, cache_invalidate}
use fabric_adapter.Device.{synchronize_device}
use fabric_adapter.Device.Willing.{AreWilling}
use fabric_adapter.Device.Succeeds.{synchronize_device-ArePushed}
use fabric_adapter.Synchronizer.{
  synchronize, synchronizer_wrapper, ended, success, synchronize_and_retry, loop_round,
}
use fabric_adapter.Synchronizer.Adapter.{Adapter, callback, service}
use fabric_adapter.World.{Services, World, Config}

pub record Request : Type 0 where
  pub config : Dict Text RootDevice
  pub callback_type : CallbackType
  pub target : Text

module _ (S : Services) (deep_copy : RootDevice → Result RootDevice) where
  abbrev continued :
      Option (Adapter S × Option Error) → (Adapter S → Option (Adapter S)) → Option (Adapter S)
  continued none f = none
  continued (some (a, e)) f = f a

  -- callbacks one after the other; `none` if one blocks
  unfoldable pub callbacks : List Request → Adapter S → Option (Adapter S)
  callbacks [] a = some a
  callbacks (r ∷ rs) a =
      continued (callback S deep_copy r.config r.callback_type r.target a) (callbacks rs)

-- What is promised: the update of the last callback that is no delete and whose configuration can be
-- copied waits, and the cache is empty once a callback was forced.
module _ (deep_copy : RootDevice → Result RootDevice) where
  abbrev newer :
      CallbackType
      → Text
      → Option ConfigUpdate
      → Result (Dict Text RootDevice)
      → Option ConfigUpdate
  newer deleted target waiting copy = waiting
  newer t target waiting (err e) = waiting
  newer t target waiting (ok copy) =
      some (record { config = copy; callback_type = t; target = target })

  unfoldable pub newest : List Request → Option ConfigUpdate → Option ConfigUpdate
  newest [] waiting = waiting
  newest (r ∷ rs) waiting =
      newest rs (newer r.callback_type r.target waiting (copy_configs deep_copy r.config))

abbrev cleared : CallbackType → Cache → Cache
cleared forced cache = []
cleared t cache = cache

unfoldable pub cache_left : List Request → Cache → Cache
cache_left [] cache = cache
cache_left (r ∷ rs) cache = cache_left rs (cleared r.callback_type cache)

-- the queue in which an update waits, or none
abbrev pub waiting_queue : Option ConfigUpdate → Queue
waiting_queue none = record { update_channel = []; busy = 0 }
waiting_queue (some u) = record { update_channel = u ∷ []; busy = 1 }

module _ (S : Services) (deep_copy : RootDevice → Result RootDevice) where
  abbrev pub adapter_with : Option ConfigUpdate → Cache → World S.Sids → Adapter S
  adapter_with waiting cache w = record {
    queue = waiting_queue waiting;
    world = record w { cache = cache };
  }

  callback-newer :
      (forest : Dict Text RootDevice) (t : CallbackType) (target : Text)
      (waiting : Option ConfigUpdate) (cache : Cache) (w : World S.Sids)
      → callback S deep_copy forest t target (adapter_with waiting cache w)
        ≡ some (
          adapter_with
              (newer deep_copy t target waiting (copy_configs deep_copy forest))
              (cleared t cache)
              w,
          none,
        )
  unfolding callback synchronizer_wrapper synchronize enqueue drain send_update cache_invalidate
  callback-newer forest deleted target none cache w = refl
  callback-newer forest deleted target (some u) cache w = refl
  callback-newer forest initial target none cache w = ground arith
  callback-newer forest initial target (some u) cache w = ground arith
  callback-newer forest apply target none cache w = ground arith
  callback-newer forest apply target (some u) cache w = ground arith
  callback-newer forest rollback target none cache w = ground arith
  callback-newer forest rollback target (some u) cache w = ground arith
  callback-newer forest forced target none cache w = ground arith
  callback-newer forest forced target (some u) cache w = ground arith

  callbacks-newest :
      (rs : List Request) (waiting : Option ConfigUpdate) (cache : Cache) (w : World S.Sids)
      → callbacks S deep_copy rs (adapter_with waiting cache w)
        ≡ some (adapter_with (newest deep_copy rs waiting) (cache_left rs cache) w)
  unfolding callbacks newest cache_left
  callbacks-newest [] waiting cache w = refl
  callbacks-newest (r ∷ rs) waiting cache w =
      ap (λ o. continued S deep_copy o (callbacks S deep_copy rs))
        (callback-newer r.config r.callback_type r.target waiting cache w)
      ∙ callbacks-newest rs
          (newer deep_copy r.callback_type r.target waiting (copy_configs deep_copy r.config))
          (cleared r.callback_type cache) w

  -- After any series of callbacks to an idle synchronizer, the next round of the loop
  -- synchronizes the update of the last one that was no delete and whose configuration could be
  -- copied, from a cache that is empty if one was forced, in one try and with success, and leaves
  -- the synchronizer idle; no callback blocks. The services answer each call with success, and
  -- the fabrics of that update have no nil pointer where one is read without a test.
  pub callbacks_are_serviced :
      (h : AreWilling S) (config : Config) (meanwhile : Adapter S → Adapter S) (rs : List Request)
      (cache : Cache) (w : World S.Sids) (u : ConfigUpdate) (retries : ℕ)
      → newest deep_copy rs none ≡ some u
      → All (λ (p : Text × RootDevice). IsFormed p.1) u.config
      → (v : World S.Sids) × (callbacks S deep_copy rs (adapter_with none cache w)
          ≡ some (adapter_with (some u) (cache_left rs cache) w))
        × (synchronize_device S config 0 u.config (record w { cache = cache_left rs cache })
            ≡ ret (0, none) v)
        × (service S config meanwhile (suc retries) (adapter_with (some u) (cache_left rs cache) w)
            ≡ some (ended success (record { queue = waiting_queue none; world = v })))
  unfolding service loop_round synchronize_and_retry dequeue complete new_updates_pending
  callbacks_are_serviced h config meanwhile rs cache w u retries e f =
      let (v, done, pushed) =
        synchronize_device-ArePushed S h config u.config (record w { cache = cache_left rs cache })
          f in
      (
        v,
        callbacks-newest rs none cache w
            ∙ ap (λ o. some (adapter_with o (cache_left rs cache) w)) e,
        done,
        ground (arith, done),
      )
