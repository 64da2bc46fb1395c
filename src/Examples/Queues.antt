-- ===== src/Examples/Queues.antt =====
-- The update queue (pkg/synchronizer/async.go), the callbacks and the retries
-- (pkg/synchronizer/synchronizer.go), at concrete inputs.
use fabric_adapter.Base.{
  ℕ, ◌+◌, ◌<◌, ◌≡◌, ◌↔◌, refl, true, false, Option, none, some, [], ◌∷◌, codes, arith, Error,
  external, Result, ok, err, ret, nat_eqb,
}
use fabric_adapter.Fabric.{RootDevice}
use fabric_adapter.Cache.{cache_invalidate}
use fabric_adapter.Queue.{
  apply, forced, ConfigUpdate, Queue, copy_configs, drain, send_update, enqueue, is_idle,
}
use fabric_adapter.Queue.Interleaving.{
  System, draining, count, Reach, here, next, start, IsCounted, IsQuiet, Reach-IsCounted,
  is_idle_iff, both_counted, overtaken, older_after_newer,
}
use fabric_adapter.Synchronizer.{
  Synchronizer, synchronize, synchronizer_wrapper, Environment, ended, success,
  synchronize_and_retry,
}
use fabric_adapter.Synchronizer.Retries.{Rounds, Stops, retry_iff}
use fabric_adapter.Synchronizer.Callbacks.{
  Handled, synchronize-Handled, synchronizer_wrapper-no_error,
}
use fabric_adapter.Examples.Data.{fabric}

abbrev update : ConfigUpdate
update = record { config = []; callback_type = apply; target = codes "f" }

-- one caller has counted its update
abbrev counted : System
counted = record start {
  queue = record { update_channel = []; busy = 1 };
  producers = draining update ∷ [];
}

counted_reached : Reach start counted
counted_reached = next here (count update)

Reach-IsCounted_example : IsCounted counted
Reach-IsCounted_example = Reach-IsCounted counted_reached

is_idle_iff_example : (is_idle counted.queue ≡ true) ↔ IsQuiet counted
is_idle_iff_example = is_idle_iff counted_reached (omega arith)

older_after_newer_example :
    Reach
      (both_counted update (record update { callback_type = forced }))
      (overtaken update (record update { callback_type = forced }))
older_after_newer_example = older_after_newer update (record update { callback_type = forced })

abbrev copier : RootDevice → Result RootDevice
copier c = ok c

abbrev waiting_one : Queue
waiting_one = record { update_channel = update ∷ []; busy = 2 }

copied : copy_configs copier ((codes "f", fabric) ∷ []) ≡ ok ((codes "f", fabric) ∷ [])
unfolding copy_configs
copied = refl

abbrev breaker : RootDevice → Result RootDevice
breaker c = err (external (codes "copy"))

broken : copy_configs breaker ((codes "f", fabric) ∷ []) ≡ err (external (codes "copy"))
unfolding copy_configs
broken = refl

abbrev before : Synchronizer
before = record { queue = record { update_channel = []; busy = 0 }; cache = [] }

abbrev after : Synchronizer
after = record {
  queue = record { update_channel = record update { callback_type = forced } ∷ []; busy = 1 };
  cache = [];
}

forced_callback : synchronize copier [] forced (codes "f") before ≡ some (after, none)
unfolding synchronize enqueue copy_configs drain send_update cache_invalidate
forced_callback = refl

synchronize-Handled_example : Handled copier forced [] (codes "f") before after none
synchronize-Handled_example =
    synchronize-Handled copier forced [] (codes "f") before after none forced_callback

wrapped_callback : synchronizer_wrapper copier [] forced (codes "f") before ≡ some (after, none)
unfolding synchronizer_wrapper synchronize enqueue copy_configs drain send_update cache_invalidate
wrapped_callback = refl

synchronizer_wrapper-no_error_example :
    (◌≡◌ {A = Option Error} none none)
    × ((e : Option Error) × (synchronize copier [] forced (codes "f") before ≡ some (after, e)))
synchronizer_wrapper-no_error_example =
    synchronizer_wrapper-no_error copier forced [] (codes "f") before after none wrapped_callback

-- a fabric whose push fails until the state is 3
abbrev environment : Environment ℕ
environment = record {
  pending = λ w. false;
  synchronize_device = λ w. elim (nat_eqb w 3) [ true ↦ ret (0, none) w | false ↦ ret (1, none) w ];
  sleep = λ w. w + 1;
}

retry_iff_example :
    (synchronize_and_retry environment 5 1 ≡ ended success 3)
    ↔ ((k : ℕ) × (v : ℕ) × (k < 5) × Rounds environment k 1 v × Stops environment v success 3)
retry_iff_example = retry_iff environment 5 1 3 success
