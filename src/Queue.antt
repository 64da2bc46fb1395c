-- ===== src/Queue.antt =====
-- pkg/synchronizer/async.go: the buffer between the gNMI server and the synchronizer loop. The
-- channel has room for one update; `busy` is an int32, kept as its bit pattern.
pub mod Interleaving
pub mod Sequential
pub mod Latest
use fabric_adapter.Base.{
  ℕ, suc, ◌+◌, ◌-◌, ◌*◌, ◌%◌, ◌^◌, Bool, true, false, Option, none, some, List, [], ◌∷◌, ◌++◌, Text,
  Dict, length, ltb, nat_eqb, if◌then◌else◌, Error, Result, ok, err,
}
use fabric_adapter.Fabric.{RootDevice}
use fabric_adapter.Util.{u32}

-- `ConfigCallbackType` of the gNMI library, as far as it is told apart
pub data CallbackType : Type 0 where
  initial apply rollback deleted forced : CallbackType

-- `ConfigUpdate`
pub record ConfigUpdate : Type 0 where
  pub config : Dict Text RootDevice
  pub callback_type : CallbackType
  pub target : Text

pub record Queue : Type 0 where
  pub update_channel : List ConfigUpdate
  pub busy : ℕ

-- `make(chan *ConfigUpdate, 1)`
abbrev pub capacity : ℕ
capacity = 1

-- `atomic.AddInt32(&s.busy, 1)` and `atomic.AddInt32(&s.busy, -1)`
abbrev pub add_one : ℕ → ℕ
add_one busy = u32 (busy + 1)

abbrev pub sub_one : ℕ → ℕ
sub_one busy = u32 (busy + (2 ^ 32 - 1))

-- `drain`: what is in the channel is taken out, and `busy` goes down each time
unfoldable pub drain_loop : List ConfigUpdate → ℕ → ℕ
drain_loop [] busy = busy
drain_loop (u ∷ us) busy = drain_loop us (sub_one busy)

unfoldable pub drain : Queue → Queue
unfolding drain_loop
drain q = record { update_channel = []; busy = drain_loop q.update_channel q.busy }

-- a send, which blocks (`none`) while the channel is full
unfoldable pub send_update : ConfigUpdate → Queue → Option Queue
send_update u q =
    if ltb (length q.update_channel) capacity
    then some (record q { update_channel = q.update_channel ++ u ∷ [] })
    else none

-- the loop that copies the configuration of each target
unfoldable pub copy_configs :
    (RootDevice → Result RootDevice) → Dict Text RootDevice → Result (Dict Text RootDevice)
copy_configs deep_copy [] = ok []
copy_configs deep_copy ((target, config) ∷ configs) = elim (deep_copy config) [
  | err e ↦ err e
  | ok copy ↦ elim (copy_configs deep_copy configs) [
    | err e ↦ err e
    | ok copies ↦ ok ((target, copy) ∷ copies)
  ]
]

-- `enqueue`, with nobody else at work: `none` if the send blocks
unfoldable pub enqueue :
    (RootDevice → Result RootDevice)
    → Dict Text RootDevice
    → CallbackType
    → Text
    → Queue
    → Option (Queue × Option Error)
unfolding drain send_update
enqueue deep_copy config callback_type target q = elim (copy_configs deep_copy config) [
  | err e ↦ some (q, some e)
  | ok copy ↦
      let update : ConfigUpdate = record {
        config = copy;
        callback_type = callback_type;
        target = target;
      } in
      elim (send_update update (drain (record q { busy = add_one q.busy }))) [
        | none ↦ none
        | some q' ↦ some (q', none)
      ]
]

-- `dequeue`, which blocks (`none`) on an empty channel
unfoldable pub dequeue : Queue → Option (ConfigUpdate × Queue)
dequeue q = elim q.update_channel [
  | [] ↦ none
  | u ∷ us ↦ some (u, record q { update_channel = us })
]

-- `complete`, `newUpdatesPending` and `isIdle`
unfoldable pub complete : Queue → Queue
complete q = record q { busy = sub_one q.busy }

unfoldable pub new_updates_pending : Queue → Bool
new_updates_pending q = ltb 0 (length q.update_channel)

unfoldable pub is_idle : Queue → Bool
is_idle q = nat_eqb q.busy 0
