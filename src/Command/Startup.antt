-- ===== src/Command/Startup.antt =====
-- What the flags of cmd/fabric-adapter/fabric-adapter.go change, and which signals end the process.
use mathlib.Core.Path.{fun_ext, ap₂}
use fabric_adapter.Base.{
  ℕ, ◌+◌, ◌≡◌, refl, Bool, true, false, [], ◌∷◌, Text, Dict, codes, text_eq, text_eqb, ap, Go,
}
use fabric_adapter.Fabric.{RootDevice}
use fabric_adapter.Onos.{synchronize_fabric_to_onos, push_netconfig}
use fabric_adapter.Device.{or_error, synchronize_device, synchronize_fabric}
use fabric_adapter.Command.{Flags, create, signal_loop}
use fabric_adapter.Synchronizer.{new_synchronizer}
use fabric_adapter.World.{Services, World, Config}

-- the configuration that other values of the two flags for posts give
abbrev pub altered : Flags → Bool → ℕ → Config
altered f disable timeout = (create (record f { post_disable = disable; post_timeout = timeout })).0

module _ (S : Services) (f : Flags) (disable : Bool) (timeout : ℕ) where
  fabric_unaffected :
      (id : Text) (fabric : RootDevice)
      → synchronize_fabric S (altered f disable timeout) id fabric
        ≡ synchronize_fabric S (create f).0 id fabric
  unfolding create new_synchronizer synchronize_fabric synchronize_fabric_to_onos push_netconfig
  fabric_unaffected id fabric = refl

  -- The flags for posts, which the description says disable posts and bound their time, change
  -- nothing in SynchronizeDevice.
  pub post_flags-no_effect :
      (n : ℕ) (configs : Dict Text RootDevice)
      → synchronize_device S (altered f disable timeout) n configs
        ≡ synchronize_device S (create f).0 n configs
  unfolding synchronize_device
  post_flags-no_effect n [] = refl
  post_flags-no_effect n ((id, fabric) ∷ configs) = fun_ext (λ w.
      ap₂ or_error (ap (λ (g : Go (World S.Sids) ℕ). g w) (fabric_unaffected id fabric))
        (fun_ext (λ k. post_flags-no_effect (n + k) configs)))

-- the goroutine ends the process by "terminated" or "interrupt" only
signal_loop_samples :
    (signal_loop (codes "hangup" ∷ codes "interrupt" ∷ []) ≡ true)
    × (signal_loop (codes "terminated" ∷ []) ≡ true)
    × (signal_loop (codes "window changed" ∷ codes "hangup" ∷ []) ≡ false)
unfolding signal_loop text_eqb
signal_loop_samples = (refl, refl, refl)
