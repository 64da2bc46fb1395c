-- ===== src/Synchronizer/Recovers.antt =====
-- `SynchronizeAndRetry` (pkg/synchronizer/synchronizer.go) around `SynchronizeDevice`, with services that
-- refuse pushes at first.
use fabric_adapter.Base.{
  ℕ, zero, suc, ◌-◌, ◌<◌, ◌≤◌, ◌≡◌, refl, ◌∙◌, Bool, false, none, ◌⊎◌, inl, inr, Text, Dict, length,
  ret, arith, Bool-cases, All,
}
use fabric_adapter.Fabric.{RootDevice}
use fabric_adapter.Fabric.Formed.{IsFormed}
use fabric_adapter.Device.{synchronize_device}
use fabric_adapter.Device.Recovery.{AreRecovering, Gains}
use fabric_adapter.Device.Recovers.{synchronize_device-Gains}
use fabric_adapter.Synchronizer.{
  Ending, obsoleted, success, ended, Environment, synchronize_and_retry,
}
use fabric_adapter.Synchronizer.Retries.{again, newer, pushed, stop_at, synchronize_and_retry-Round}
use fabric_adapter.World.{Services, World, Config}

module _ (S : Services) (config : Config) (configs : Dict Text RootDevice)
    (pending : World S.Sids → Bool) (meanwhile : World S.Sids → World S.Sids) where
  -- the retries of one update
  abbrev pub retrying : Environment (World S.Sids)
  retrying = record {
    pending = pending;
    synchronize_device = synchronize_device S config 0 configs;
    sleep = meanwhile;
  }

  -- An outcome that is no error.
  abbrev pub Ended : ℕ → World S.Sids → Type 0
  Ended f w =
      (x : Ending) × (v : World S.Sids) × (synchronize_and_retry retrying f w ≡ ended x v)
      × ((x ≡ success) ⊎ (x ≡ obsoleted))

  module _ (n : ℕ) (h : AreRecovering n S)
      (formed : All (λ (p : Text × RootDevice). IsFormed p.1) configs)
      (kept : (w : World S.Sids) → length w.calls ≤ length (meanwhile w).calls) where
    after_call :
        (f : ℕ) (w : World S.Sids) (k : ℕ) (v : World S.Sids)
        → pending w ≡ false
        → synchronize_device S config 0 configs w ≡ ret (k, none) v
        → Gains n S h w v k
        → ((u : World S.Sids) → length w.calls < length u.calls → length w.calls < n → Ended f u)
        → Ended (suc f) w
    after_call f w zero v p e gains more = (success, v, stop_at retrying f (pushed v p e), inl refl)
    after_call f w (suc k) v p e gains more =
        let (x, u, done, good) =
          more (meanwhile v) (ground (arith, gains, kept v)) (ground (arith, gains)) in
        (x, u, synchronize_and_retry-Round retrying f (again k v p e refl) ∙ done, good)

    -- SynchronizeAndRetry with SynchronizeDevice ends, without an error, in at most as many
    -- rounds as pushes are missing until the services answer pushes with success, and one more.
    -- The services can be reached, they may refuse the first n pushes in any way and accept those
    -- after them; the fabrics have no nil pointer where one is read without a test, and nothing
    -- that happens between two rounds forgets a push.
    pub synchronize_and_retry-Ended :
        (f : ℕ) (w : World S.Sids) → n - length w.calls < f → Ended f w
    synchronize_and_retry-Ended zero w few = absurd (omega (arith, few))
    synchronize_and_retry-Ended (suc f) w few = elim (Bool-cases (pending w)) [
      | inl p ↦ (obsoleted, w, stop_at retrying f (newer p), inr refl)
      | inr p ↦
          let (k, v, e, gains) = synchronize_device-Gains n S h config configs w formed in
          after_call f w k v p e gains
            (λ u grown late. synchronize_and_retry-Ended f u (omega (arith, few, grown, late)))
    ]
