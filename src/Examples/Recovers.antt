-- ===== src/Examples/Recovers.antt =====
-- Retries (pkg/synchronizer/synchronizer.go) with services that refuse the first two pushes.
use fabric_adapter.Base.{
  ℕ, ◌≡◌, refl, Bool, false, codes, length, ltb, external, Result, ok, err, if◌then◌else◌, List,
  ◌≤◌, arith,
}
use fabric_adapter.Pusher.{bad_status}
use fabric_adapter.Device.Willing.{AreReachable, willing-AreReachable}
use fabric_adapter.Device.Recovery.{AreRecovering}
use fabric_adapter.Synchronizer.Recovers.{Ended, synchronize_and_retry-Ended}
use fabric_adapter.Examples.Data.{willing, config, world}
use fabric_adapter.Examples.Adapters.{forest, leaf_fabric-IsFormed, willing-AreWilling}
use fabric_adapter.World.{Services, World, Call, HttpResponse}

abbrev answer_to : List Call → HttpResponse
answer_to before =
    if ltb (length before) 2
    then record { status_code = 503; status = codes "503 Service Unavailable" }
    else record { status_code = 200; status = codes "200 OK" }

abbrev set_after : List Call → Result (Unit {0})
set_after before = if ltb (length before) 2 then err (external (codes "unavailable")) else ok tt

abbrev flaky : Services
flaky = record willing {
  http_do = λ before req. ok (answer_to before);
  gnmi_set = λ before endpoint target secure req. set_after before;
}

good_later :
    (before : List Call) → 2 ≤ length before → bad_status (answer_to before).status_code ≡ false
good_later before late = ground (arith, late)

set_later : (before : List Call) → 2 ≤ length before → set_after before ≡ ok tt
set_later before late = ground (arith, late)

flaky-AreReachable : AreReachable flaky
flaky-AreReachable =
    let r = willing-AreReachable willing willing-AreWilling in
    record {
      sids = r.sids;
      encoded = r.encoded;
      requested = r.requested;
      certified = r.certified;
      dialled = r.dialled;
      located = r.located;
    }

flaky-AreRecovering : AreRecovering 2 flaky
flaky-AreRecovering = record {
  reachable = flaky-AreReachable;
  posted = λ before req late. (answer_to before, refl, good_later before late);
  set = λ before endpoint target secure req late. set_later before late;
}

abbrev never : World ℕ → Bool
never w = false

abbrev as_it_is : World ℕ → World ℕ
as_it_is w = w

synchronize_and_retry-Ended_example : Ended flaky config forest never as_it_is 3 world
synchronize_and_retry-Ended_example =
    synchronize_and_retry-Ended flaky config forest never as_it_is 2 flaky-AreRecovering
      (leaf_fabric-IsFormed, tt) (λ w. omega arith) 3 world (omega arith)
