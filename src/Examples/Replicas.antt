-- ===== src/Examples/Replicas.antt =====
-- Several callers of `Get` (pkg/store/store.go), and a series of calls on the update queue
-- (pkg/synchronizer/async.go), at concrete inputs.
use fabric_adapter.Base.{
  ◌≡◌, refl, true, false, none, some, List, [], ◌∷◌, codes, text_eqb, arith, Result, ok,
}
use fabric_adapter.Fabric.{RootDevice}
use fabric_adapter.Sid.Replicas.{Reach, start, twice_given, two_sids}
use fabric_adapter.Sid.Replicas.OneSwitch.{one_switch}
use fabric_adapter.Queue.{apply, forced, copy_configs}
use fabric_adapter.Queue.Latest.{
  Latest, Operation, submit, receive, finish, ask_idle, ask_pending, Answer, submitted, received,
  finished, answered, promised, performed, run_all, queue_of, run_all-performed,
}

leaf_named : text_eqb (codes "leaf1") [] ≡ false
unfolding text_eqb
leaf_named = refl

two_sids_example : Reach start (twice_given (codes "leaf1"))
two_sids_example = two_sids (codes "leaf1") leaf_named

one_switch_example : codes "leaf1" ≡ codes "leaf1"
one_switch_example =
    one_switch (two_sids (codes "leaf1") leaf_named) (omega arith) [] ((codes "leaf1", 101) ∷ []) []
      ((codes "leaf1", 101) ∷ []) (codes "leaf1") (codes "leaf1") 102 refl refl

abbrev copier : RootDevice → Result RootDevice
copier c = ok c

-- two submissions before a reception
abbrev calls : List Operation
calls =
    submit [] apply (codes "f")
    ∷ submit [] forced (codes "f")
    ∷ ask_pending
    ∷ receive
    ∷ ask_idle
    ∷ finish
    ∷ ask_idle
    ∷ []

abbrev given : List Answer
given =
    submitted none
    ∷ submitted none
    ∷ answered true
    ∷ received (record { config = []; callback_type = forced; target = codes "f" })
    ∷ answered false
    ∷ finished
    ∷ answered true
    ∷ []

abbrev nothing_waits : Latest
nothing_waits = record { waiting = none; servicing = false }

promise : run_all (promised copier) calls nothing_waits ≡ some (nothing_waits, given)
unfolding run_all promised copy_configs
promise = refl

run_all-performed_example :
    run_all (performed copier) calls (queue_of nothing_waits) ≡ some (queue_of nothing_waits, given)
run_all-performed_example = run_all-performed copier calls nothing_waits nothing_waits given promise
