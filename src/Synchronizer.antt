-- ===== src/Synchronizer.antt =====
-- pkg/synchronizer/synchronizer.go and delete.go: the entry of the gNMI callbacks, the retries, and
-- the options. `synchronizerWrapper` is that of cmd/fabric-adapter/fabric-adapter.go.
pub mod Retries
pub mod Recovers
pub mod Callbacks
pub mod Adapter
pub mod Newest
pub mod Start
use fabric_adapter.Base.{
  ℕ, zero, suc, ◌*◌, Bool, true, false, Option, none, some, List, [], ◌∷◌, Text, Dict, codes,
  nat_eqb, if◌then◌else◌, Error, Result, Outcome, ret, fail, panic, Go,
}
use fabric_adapter.Fabric.{RootDevice}
use fabric_adapter.Cache.{Cache, cache_invalidate}
use fabric_adapter.Queue.{
  CallbackType, deleted, forced, ConfigUpdate, Queue, enqueue, dequeue, complete,
}
use fabric_adapter.Onos.{Pushes}
use fabric_adapter.World.{Config}

-- The part of `Synchronizer` that the callbacks change.
pub record Synchronizer : Type 0 where
  pub queue : Queue
  pub cache : Cache

-- `HandleDelete`: not implemented, and no error
unfoldable pub handle_delete : Dict Text RootDevice → Option Error
handle_delete config = none

module _ (deep_copy : RootDevice → Result RootDevice) where
  abbrev with_queue : Cache → Option (Queue × Option Error) → Option (Synchronizer × Option Error)
  with_queue cache none = none
  with_queue cache (some (q, e)) = some (record { queue = q; cache = cache }, e)

  -- `Synchronize`; `none` if the send on the channel blocks
  unfoldable pub synchronize :
      Dict Text RootDevice
      → CallbackType
      → Text
      → Synchronizer
      → Option (Synchronizer × Option Error)
  unfolding handle_delete
  synchronize config deleted target s = some (s, handle_delete config)
  synchronize config forced target s =
      with_queue (cache_invalidate s.cache) (enqueue deep_copy config forced target s.queue)
  synchronize config callback_type target s =
      with_queue s.cache (enqueue deep_copy config callback_type target s.queue)

  -- `synchronizerWrapper`: the error is logged and not passed on
  unfoldable pub synchronizer_wrapper :
      Dict Text RootDevice
      → CallbackType
      → Text
      → Synchronizer
      → Option (Synchronizer × Option Error)
  synchronizer_wrapper config callback_type target s =
      elim (synchronize config callback_type target s) [
        | none ↦ none
        | some (s', e) ↦ some (s', none)
      ]

-- How `SynchronizeAndRetry` ends: a newer update is waiting, a fatal error, or success.
pub data Ending : Type 0 where
  obsoleted success : Ending
  fatal : Error → Ending

-- What is left of the loop after some rounds: it ended, it goes on, or a call panicked.
pub data Retry (W : Type 0) : Type 0 where
  ended : Ending → W → Retry W
  unfinished : W → Retry W
  crashed : Retry W

-- What the loop has around it: the test for newer updates, the call of `synchronizeDeviceFunc`, and
-- what goes on while it sleeps.
pub record Environment (W : Type 0) : Type 0 where
  pub pending : W → Bool
  pub synchronize_device : Go W Pushes
  pub sleep : W → W

module _ {W : Type 0} (env : Environment W) where
  open env use {pending, synchronize_device, sleep}

  -- what the result of a call leads to; `none` is another round
  unfoldable pub ending_of : Pushes → Option Ending
  ending_of (n, some e) = some (fatal e)
  ending_of (n, none) = if nat_eqb n 0 then some success else none

  -- `SynchronizeAndRetry`, on a number of rounds. An error beside a count and an error outcome are
  -- one here: `synchronizeDeviceFunc` returns a pair.
  unfoldable pub synchronize_and_retry : ℕ → W → Retry W
  unfolding ending_of
  synchronize_and_retry zero w = unfinished w
  synchronize_and_retry (suc rounds) w = elim (pending w) [
    | true ↦ ended obsoleted w
    | false ↦ elim (synchronize_device w) [
      | panic ↦ crashed
      | fail e w' ↦ ended (fatal e) w'
      | ret pushes w' ↦ elim (ending_of pushes) [
        | some ending ↦ ended ending w'
        | none ↦ synchronize_and_retry rounds (sleep w')
      ]
    ]
  ]

-- One round of `Loop`, on a state that holds the queue: an update is taken, synchronized, and counted
-- off; `none` if the receive blocks.
module _ {W : Type 0} (queue_of : W → Queue) (with : Queue → W → W)
    (env : ConfigUpdate → Environment W) where
  abbrev completed : Retry W → Retry W
  completed (ended x w) = ended x (with (complete (queue_of w)) w)
  completed (unfinished w) = unfinished w
  completed crashed = crashed

  unfoldable pub loop_round : ℕ → W → Option (Retry W)
  loop_round rounds w = elim (dequeue (queue_of w)) [
    | none ↦ none
    | some (update, q) ↦ some (completed (synchronize_and_retry (env update) rounds (with q w)))
  ]

-- A `SynchronizerOption`, and the five that exist.
abbrev pub SynchronizerOption : Type 0
SynchronizerOption = Config → Config

abbrev pub with_post_enable : Bool → SynchronizerOption
with_post_enable b c = record c { post_enable = b }

abbrev pub with_post_timeout : ℕ → SynchronizerOption
with_post_timeout t c = record c { post_timeout = t }

abbrev pub with_partial_update_enable : Bool → SynchronizerOption
with_partial_update_enable b c = record c { partial_update_enable = b }

abbrev pub with_topo_endpoint : Text → SynchronizerOption
with_topo_endpoint e c = record c { topo_endpoint = e }

abbrev pub with_cert_paths : Text → Text → Text → SynchronizerOption
with_cert_paths ca key cert c = record c { ca_path = ca; key_path = key; cert_path = cert }

-- `DefaultImsiFormat`, which nothing uses
abbrev pub default_imsi_format : Text
default_imsi_format = codes "CCCNNNEEESSSSSS"

-- `DefaultPostTimeout` and `DefaultPartialUpdateEnable`; times are in seconds
abbrev pub default_post_timeout : ℕ
default_post_timeout = 10

abbrev pub default_partial_update_enable : Bool
default_partial_update_enable = true

-- `retryInterval` of `NewSynchronizer`, which no option changes
abbrev pub retry_interval : ℕ
retry_interval = 5

-- The defaults of `NewSynchronizer`.
abbrev pub default_config : Config
default_config = record {
  post_enable = true;
  post_timeout = default_post_timeout;
  partial_update_enable = default_partial_update_enable;
  topo_endpoint = [];
  ca_path = [];
  key_path = [];
  cert_path = [];
}

-- the loop over the options of `NewSynchronizer`
unfoldable pub apply_options : List SynchronizerOption → Config → Config
apply_options [] c = c
apply_options (opt ∷ opts) c = apply_options opts (opt c)

unfoldable pub new_synchronizer : List SynchronizerOption → Config × Synchronizer
unfolding apply_options
new_synchronizer opts = (
  apply_options opts default_config,
  record { queue = record { update_channel = []; busy = 0 }; cache = [] },
)
