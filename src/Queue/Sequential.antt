-- ===== src/Queue/Sequential.antt =====
-- One caller of `enqueue` at a time (pkg/synchronizer/async.go).
use fabric_adapter.Base.{
  ℕ, ◌+◌, ◌%◌, ◌^◌, ◌≡◌, none, some, List, [], ◌∷◌, Text, Dict, length, arith, Result, ok, err,
  Error,
}
use fabric_adapter.Fabric.{RootDevice}
use fabric_adapter.Queue.{
  CallbackType, ConfigUpdate, Queue, add_one, sub_one, drain_loop, copy_configs, enqueue,
}

drain_loop_lem :
    (us : List ConfigUpdate) (b n : ℕ) → b ≡ (n + length us) % 2 ^ 32 → drain_loop us b ≡ n % 2 ^ 32
unfolding drain_loop
drain_loop_lem [] b n e = omega arith
drain_loop_lem (u ∷ us) b n e = drain_loop_lem us (sub_one b) n (omega arith)

module _ (deep_copy : RootDevice → Result RootDevice) where
  -- With one caller at a time, an enqueue whose copy succeeds does not block and leaves exactly
  -- its update in the channel; busy, which counted n updates in progress and those queued, then
  -- counts the n and the new one.
  enqueue-replaces :
      (config copy : Dict Text RootDevice) (callback_type : CallbackType) (target : Text)
      (q : Queue) (n : ℕ)
      → copy_configs deep_copy config ≡ ok copy
      → q.busy ≡ (n + length q.update_channel) % 2 ^ 32
      → enqueue deep_copy config callback_type target q
        ≡ some (
          record {
            update_channel =
                record { config = copy; callback_type = callback_type; target = target } ∷ [];
            busy = (n + 1) % 2 ^ 32;
          },
          none,
        )
  unfolding enqueue
  enqueue-replaces config copy callback_type target q n c e =
      ground (arith, drain_loop_lem q.update_channel (add_one q.busy) (n + 1) (omega arith))

  -- If the copy of a configuration fails, enqueue returns its error and the queue is as it was.
  enqueue-copy_error :
      (config : Dict Text RootDevice) (callback_type : CallbackType) (target : Text) (q : Queue)
      (x : Error)
      → copy_configs deep_copy config ≡ err x
      → enqueue deep_copy config callback_type target q ≡ some (q, some x)
  unfolding enqueue
  enqueue-copy_error config callback_type target q x c = ground arith
