-- ===== src/Queue/Interleaving.antt =====
-- pkg/synchronizer/async.go with any number of goroutines in `enqueue` and the synchronizer loop
-- beside them. A step is one channel operation or one atomic addition.
use fabric_adapter.Base.{
  ℕ, ◌+◌, ◌%◌, ◌^◌, ◌≤◌, ◌<◌, ◌≡◌, ◌↔◌, refl, true, List, [], ◌∷◌, ◌++◌, length, length-append,
  arith, ap,
}
use fabric_adapter.Queue.{ConfigUpdate, Queue, capacity, add_one, sub_one, is_idle}

-- Where a goroutine stands in `enqueue`: it has counted its update and is in `drain`, it has taken an
-- older update out and not yet counted it off, or it is at the send.
pub data Producer : Type 0 where
  draining discarding sending : ConfigUpdate → Producer

-- Where the loop stands: in `dequeue`, or at work on an update.
pub data Consumer : Type 0 where
  waiting : Consumer
  servicing : ConfigUpdate → Consumer

pub record System : Type 0 where
  pub queue : Queue
  pub producers : List Producer
  pub consumer : Consumer

abbrev with_queue : System → Queue → System
with_queue s q = record s { queue = q }

pub data Step (s : System) : System → Type 0 where
  -- `atomic.AddInt32(&s.busy, 1)` of a new call of `enqueue`
  count :
      (u : ConfigUpdate)
      → Step s (record s {
        queue = record s.queue { busy = add_one s.queue.busy };
        producers = draining u ∷ s.producers;
      })
  -- a receive in `drain`
  take :
      (ps qs : List Producer) (u old : ConfigUpdate) (rest : List ConfigUpdate)
      → s.producers ≡ ps ++ draining u ∷ qs
      → s.queue.update_channel ≡ old ∷ rest
      → Step s (record s {
        queue = record s.queue { update_channel = rest };
        producers = ps ++ discarding u ∷ qs;
      })
  -- the `atomic.AddInt32(&s.busy, -1)` behind it
  discount :
      (ps qs : List Producer) (u : ConfigUpdate)
      → s.producers ≡ ps ++ discarding u ∷ qs
      → Step s (record s {
        queue = record s.queue { busy = sub_one s.queue.busy };
        producers = ps ++ draining u ∷ qs;
      })
  -- the `default` case: the channel is empty
  drained :
      (ps qs : List Producer) (u : ConfigUpdate)
      → s.producers ≡ ps ++ draining u ∷ qs
      → s.queue.update_channel ≡ []
      → Step s (record s { producers = ps ++ sending u ∷ qs })
  -- the send, once there is room
  send :
      (ps qs : List Producer) (u : ConfigUpdate)
      → s.producers ≡ ps ++ sending u ∷ qs
      → length s.queue.update_channel < capacity
      → Step s (record s {
        queue = record s.queue { update_channel = s.queue.update_channel ++ u ∷ [] };
        producers = ps ++ qs;
      })
  -- `dequeue`
  receive :
      (u : ConfigUpdate) (rest : List ConfigUpdate)
      → s.consumer ≡ waiting
      → s.queue.update_channel ≡ u ∷ rest
      → Step s
          (record s { queue = record s.queue { update_channel = rest }; consumer = servicing u })
  -- `complete`
  finish :
      (u : ConfigUpdate)
      → s.consumer ≡ servicing u
      → Step s
          (record s { queue = record s.queue { busy = sub_one s.queue.busy }; consumer = waiting })

pub data Reach (s : System) : System → Type 0 where
  here : Reach s s
  next : {t u : System} → Reach s t → Step t u → Reach s u

abbrev pub start : System
start = record {
  queue = record { update_channel = []; busy = 0 };
  producers = [];
  consumer = waiting;
}

-- What is under way: an update in the channel, one that a producer holds (two while it discards an
-- older one), and the one that is serviced.
abbrev held : Producer → ℕ
held (draining u) = 1
held (discarding u) = 2
held (sending u) = 1

abbrev pub held_by : List Producer → ℕ
held_by [] = 0
held_by (p ∷ ps) = held p + held_by ps

abbrev pub in_service : Consumer → ℕ
in_service waiting = 0
in_service (servicing u) = 1

abbrev pub under_way : System → ℕ
under_way s = length s.queue.update_channel + held_by s.producers + in_service s.consumer

held_by-append : (ps qs : List Producer) → held_by (ps ++ qs) ≡ held_by ps + held_by qs
held_by-append [] qs = omega arith
held_by-append (p ∷ ps) qs = omega (arith, held_by-append ps qs)

-- The channel never holds more than it has room for, and `busy` counts what is under way.
pub record IsCounted (s : System) : Type 0 where
  pub room : length s.queue.update_channel ≤ capacity
  pub counted : s.queue.busy ≡ under_way s % 2 ^ 32

split_at :
    (s : System) (ps qs : List Producer) (p : Producer)
    → s.producers ≡ ps ++ p ∷ qs
    → held_by s.producers ≡ held_by ps + held p + held_by qs
split_at s ps qs p e = omega (arith, ap held_by e, held_by-append ps (p ∷ qs))

Step-IsCounted : {s t : System} → Step s t → IsCounted s → IsCounted t
Step-IsCounted {s} (count u) i = omega (arith, i)
Step-IsCounted {s} (take ps qs u old rest e c) i = omega (
  arith,
  i,
  split_at s ps qs (draining u) e,
  ap (length {A = ConfigUpdate}) c,
  held_by-append ps (discarding u ∷ qs),
)
Step-IsCounted {s} (discount ps qs u e) i =
    omega (arith, i, split_at s ps qs (discarding u) e, held_by-append ps (draining u ∷ qs))
Step-IsCounted {s} (drained ps qs u e c) i =
    omega (arith, i, split_at s ps qs (draining u) e, held_by-append ps (sending u ∷ qs))
Step-IsCounted {s} (send ps qs u e r) i = omega (
  arith,
  i,
  split_at s ps qs (sending u) e,
  held_by-append ps qs,
  length-append s.queue.update_channel (u ∷ []),
)
Step-IsCounted {s} (receive u rest e c) i =
    omega (arith, i, ap (length {A = ConfigUpdate}) c, ap in_service e)
Step-IsCounted {s} (finish u e) i = omega (arith, i, ap in_service e)

-- In every state that any number of callers of enqueue and the loop reach from the start, the
-- channel holds at most one update and busy is, modulo 2^32, the number of updates that are
-- queued, held by a caller that has counted them, or being serviced.
pub Reach-IsCounted : {s : System} → Reach start s → IsCounted s
Reach-IsCounted here = omega arith
Reach-IsCounted (next r st) = Step-IsCounted st (Reach-IsCounted r)

pub record IsQuiet (s : System) : Type 0 where
  pub nothing_queued : s.queue.update_channel ≡ []
  pub nobody_enqueues : s.producers ≡ []
  pub nothing_serviced : s.consumer ≡ waiting

quiet-under_way : (s : System) → IsQuiet s → under_way s ≡ 0
quiet-under_way s q = omega (
  arith,
  ap (length {A = ConfigUpdate}) q.nothing_queued,
  ap held_by q.nobody_enqueues,
  ap in_service q.nothing_serviced,
)

empty_of_length : (us : List ConfigUpdate) → length us ≡ 0 → us ≡ []
empty_of_length [] e = refl
empty_of_length (u ∷ us) e = absurd (omega arith)

empty_of_held : (ps : List Producer) → held_by ps ≡ 0 → ps ≡ []
empty_of_held [] e = refl
empty_of_held (draining u ∷ ps) e = absurd (omega arith)
empty_of_held (discarding u ∷ ps) e = absurd (omega arith)
empty_of_held (sending u ∷ ps) e = absurd (omega arith)

waiting_of_service : (c : Consumer) → in_service c ≡ 0 → c ≡ waiting
waiting_of_service waiting e = refl
waiting_of_service (servicing u) e = absurd (omega arith)

under_way-IsQuiet : (s : System) → under_way s ≡ 0 → IsQuiet s
under_way-IsQuiet s e = record {
  nothing_queued = empty_of_length s.queue.update_channel (omega arith);
  nobody_enqueues = empty_of_held s.producers (omega arith);
  nothing_serviced = waiting_of_service s.consumer (omega arith);
}

is_idle_zero : (q : Queue) → (is_idle q ≡ true) ↔ (q.busy ≡ 0)
unfolding is_idle
is_idle_zero q = ground arith

-- In such a state with fewer than 2^32 updates under way, isIdle is true exactly when nothing is
-- queued, nobody is in enqueue and nothing is serviced.
pub is_idle_iff :
    {s : System} → Reach start s → under_way s < 2 ^ 32 → (is_idle s.queue ≡ true) ↔ IsQuiet s
is_idle_iff {s} r few = (
  λ h. under_way-IsQuiet s (omega (arith, (is_idle_zero s.queue).0 h, Reach-IsCounted r)),
  λ q. (is_idle_zero s.queue).1 (omega (arith, quiet-under_way s q, Reach-IsCounted r)),
)

-- Two calls of `enqueue` that overlap: `u` is counted first and then `v`, and yet `v` is serviced
-- while `u` waits in the channel to be serviced after it.
abbrev pub overtaken : ConfigUpdate → ConfigUpdate → System
overtaken u v = record {
  queue = record { update_channel = u ∷ []; busy = 2 };
  producers = [];
  consumer = servicing v;
}

-- The system once `u`, and after it `v`, have been counted.
abbrev pub both_counted : ConfigUpdate → ConfigUpdate → System
both_counted u v = record {
  queue = record { update_channel = []; busy = 2 };
  producers = draining v ∷ draining u ∷ [];
  consumer = waiting;
}

counted_in_order : (u v : ConfigUpdate) → Reach start (both_counted u v)
counted_in_order u v = next (next here (count u)) (count v)

-- When two calls of enqueue overlap, an update that was counted first can be serviced after one
-- that was counted second.
pub older_after_newer : (u v : ConfigUpdate) → Reach (both_counted u v) (overtaken u v)
older_after_newer u v =
    next
      (next
        (next
          (next (next here (drained [] (draining u ∷ []) v refl refl))
            (drained (sending v ∷ []) [] u refl refl))
          (send [] (sending u ∷ []) v refl (omega arith)))
        (receive v [] refl refl))
      (send [] [] u refl (omega arith))
