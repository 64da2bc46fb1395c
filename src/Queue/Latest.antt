-- ===== src/Queue/Latest.antt =====
-- What the queue of pkg/synchronizer/async.go promises, with one caller at a time: it keeps the latest
-- update and forgets those before it.
use fabric_adapter.Base.{
  ℕ, ◌+◌, ◌≡◌, Bool, true, false, not, ◌&&◌, Option, none, some, List, [], ◌∷◌, Text, Dict, Error,
  Result, ok, err, arith, length, Option-cases, inl, inr,
}
use fabric_adapter.Fabric.{RootDevice}
use fabric_adapter.Queue.{
  CallbackType, ConfigUpdate, Queue, copy_configs, enqueue, dequeue, complete, new_updates_pending,
  is_idle,
}

-- The promise: the update that waits, if any, and whether one is being serviced.
pub record Latest : Type 0 where
  pub waiting : Option ConfigUpdate
  pub servicing : Bool

-- The calls of the server and of the loop, and what they return.
pub data Operation : Type 0 where
  submit : Dict Text RootDevice → CallbackType → Text → Operation
  receive finish ask_pending ask_idle : Operation

pub data Answer : Type 0 where
  submitted : Option Error → Answer
  received : ConfigUpdate → Answer
  finished : Answer
  answered : Bool → Answer

abbrev is_none {ℓ} : {A : Type ℓ} → Option A → Bool
is_none none = true
is_none (some a) = false

module _ (deep_copy : RootDevice → Result RootDevice) where
  abbrev keep_latest :
      CallbackType → Text → Latest → Result (Dict Text RootDevice) → Latest × Answer
  keep_latest callback_type target s (err e) = (s, submitted (some e))
  keep_latest callback_type target s (ok copy) = (
    record s {
      waiting = some (record { config = copy; callback_type = callback_type; target = target });
    },
    submitted none,
  )

  -- the loop services one update at a time
  abbrev hand_over : Option ConfigUpdate → Bool → Option (Latest × Answer)
  hand_over (some u) false = some (record { waiting = none; servicing = true }, received u)
  hand_over _ _ = none

  unfoldable pub promised : Operation → Latest → Option (Latest × Answer)
  promised (submit config callback_type target) s =
      some (keep_latest callback_type target s (copy_configs deep_copy config))
  promised receive s = hand_over s.waiting s.servicing
  promised finish s = elim s.servicing [
    | true ↦ some (record s { servicing = false }, finished)
    | false ↦ none
  ]
  promised ask_pending s = some (s, answered (not (is_none s.waiting)))
  promised ask_idle s = some (s, answered (is_none s.waiting && not s.servicing))

  -- The same calls on the queue; `none` if a call blocks.
  abbrev sent : Option (Queue × Option Error) → Option (Queue × Answer)
  sent none = none
  sent (some (q, e)) = some (q, submitted e)

  abbrev taken : Option (ConfigUpdate × Queue) → Option (Queue × Answer)
  taken none = none
  taken (some (u, q)) = some (q, received u)

  unfoldable pub performed : Operation → Queue → Option (Queue × Answer)
  performed (submit config callback_type target) q =
      sent (enqueue deep_copy config callback_type target q)
  performed receive q = taken (dequeue q)
  performed finish q = some (complete q, finished)
  performed ask_pending q = some (q, answered (new_updates_pending q))
  performed ask_idle q = some (q, answered (is_idle q))

-- A series of calls, with their answers.
abbrev then_more {ℓ} :
    {S : Type ℓ} → Option (S × Answer) → (S → Option (S × List Answer)) → Option (S × List Answer)
then_more none f = none
then_more (some (s, a)) f = elim (f s) [ none ↦ none | some (t, as_) ↦ some (t, a ∷ as_) ]

unfoldable pub run_all {ℓ} :
    {S : Type ℓ}
    → (Operation → S → Option (S × Answer))
    → List Operation
    → S
    → Option (S × List Answer)
run_all step [] s = some (s, [])
run_all step (op ∷ ops) s = then_more (step op s) (run_all step ops)

-- The queue that stands for a promise: `busy` counts the update that waits and the one in service.
abbrev channel_of : Option ConfigUpdate → List ConfigUpdate
channel_of none = []
channel_of (some u) = u ∷ []

abbrev one_if : Bool → ℕ
one_if true = 1
one_if false = 0

abbrev pub queue_of : Latest → Queue
queue_of s = record {
  update_channel = channel_of s.waiting;
  busy = length (channel_of s.waiting) + one_if s.servicing;
}

module _ (deep_copy : RootDevice → Result RootDevice) where
  operation_kept :
      (op : Operation) (waiting : Option ConfigUpdate) (servicing : Bool) (t : Latest) (a : Answer)
      → promised deep_copy op (record { waiting = waiting; servicing = servicing }) ≡ some (t, a)
      → performed deep_copy op (queue_of (record { waiting = waiting; servicing = servicing }))
        ≡ some (queue_of t, a)
  unfolding promised performed enqueue dequeue complete new_updates_pending is_idle
  operation_kept (submit config callback_type target) none true t a h = ground (arith, h)
  operation_kept (submit config callback_type target) none false t a h = ground (arith, h)
  operation_kept (submit config callback_type target) (some u) true t a h = ground (arith, h)
  operation_kept (submit config callback_type target) (some u) false t a h = ground (arith, h)
  operation_kept op none true t a h = ground (arith, h)
  operation_kept op none false t a h = ground (arith, h)
  operation_kept op (some u) true t a h = ground (arith, h)
  operation_kept op (some u) false t a h = ground (arith, h)

  -- Any series of calls on the queue answers as a cell does that holds the latest update and a
  -- mark that one is in service: a submission replaces what waits unless its copy fails, a
  -- reception empties the cell, and the questions for pending updates and idleness read it.
  pub run_all-performed :
      (ops : List Operation) (s t : Latest) (answers : List Answer)
      → run_all (promised deep_copy) ops s ≡ some (t, answers)
      → run_all (performed deep_copy) ops (queue_of s) ≡ some (queue_of t, answers)
  unfolding run_all
  run_all-performed [] s t answers h = ground (arith, h)
  run_all-performed (op ∷ ops) s t answers h = elim (Option-cases (promised deep_copy op s)) [
    | inl e ↦ absurd (ground (arith, h, e))
    | inr ((u, a), e) ↦ elim (Option-cases (run_all (promised deep_copy) ops u)) [
      | inl f ↦ absurd (ground (arith, h, e, f))
      | inr ((v, later), f) ↦ ground (
        arith,
        h,
        e,
        f,
        operation_kept op s.waiting s.servicing u a e,
        run_all-performed ops u v later f,
      )
    ]
  ]
