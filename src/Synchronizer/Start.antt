-- ===== src/Synchronizer/Start.antt =====
-- `Start` of pkg/synchronizer/synchronizer.go, over the SID store of pkg/store/store.go.
use fabric_adapter.Base.{
  Bool, true, false, Option, Outcome, ret, fail, panic, Go, Error, Text, Dict, Result, zoom,
}
use fabric_adapter.Fabric.{RootDevice}
use fabric_adapter.Queue.{CallbackType}
use fabric_adapter.Synchronizer.Adapter.{Adapter, callback}
use fabric_adapter.World.{Services}
use fabric_adapter.Sid
use fabric_adapter.Sid.{Atomix, new_atomix_store}

-- `SynchronizerInterface` (pkg/synchronizer/interface.go), on a state; `GetModels` is left out, a
-- constant of the libraries
pub record SynchronizerInterface (W : Type 0) : Type 0 where
  pub synchronize : Dict Text RootDevice → CallbackType → Text → W → Option (W × Option Error)
  pub start : Go W Bool

-- What `Start` leaves: the SID store, or nil, and the loop, launched or not.
abbrev loop_launched : {W : Type 0} → Outcome W (Unit {0}) → Outcome W Bool
loop_launched (ret store s) = ret true s
loop_launched (fail e s) = ret false s
loop_launched panic = panic

-- `Start`: an error of the store is logged, and the loop is not launched
unfoldable pub start : (X : Atomix) → Go X.State Bool
start X s = loop_launched (new_atomix_store X s)

-- The services, with the SID store over an Atomix.
abbrev pub with_store : Services → Atomix → Services
with_store S X = record S { Sids = X.State; sid_get = Sid.get X }

-- The synchronizer of this package as its interface. A callback that blocks is none.
abbrev pub as_interface :
    (S : Services) (X : Atomix)
    → (RootDevice → Result RootDevice)
    → SynchronizerInterface (Adapter (with_store S X))
as_interface S X deep_copy = record {
  synchronize = callback (with_store S X) deep_copy;
  start =
      zoom (λ (a : Adapter (with_store S X)). a.world.sids)
        (λ sids a. record a { world = record a.world { sids = sids } }) (start X);
}
