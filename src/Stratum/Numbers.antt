-- ===== src/Stratum/Numbers.antt =====
-- The two port numbers of a port: in the chassis configuration (`handleStratumSwitchPort` of
-- pkg/synchronizer/synchronize-device.go) and in the network configuration (`cageChannelToPort` of
-- pkg/synchronizer/util.go).
use fabric_adapter.Base.{ℕ, ◌≤◌, ◌<◌, ◌≡◌, ◌↔◌, some, arith, ret}
use fabric_adapter.Util.{cage_channel_to_port}
use fabric_adapter.Stratum.{stratum_port_id}

-- On cages 1 to 99 and channels 0 to 100, two ports with one id in the chassis configuration have
-- the same cage and channel.
pub stratum_port_id-injective :
    (cage channel cage' channel' : ℕ)
    → 0 < cage
    → cage < 100
    → channel ≤ 100
    → 0 < cage'
    → cage' < 100
    → channel' ≤ 100
    → stratum_port_id cage channel ≡ stratum_port_id cage' channel'
    → (cage ≡ cage') × (channel ≡ channel')
unfolding stratum_port_id
stratum_port_id-injective cage channel cage' channel' h₁ h₂ h₃ h₄ h₅ h₆ e = ground arith

-- On uint8 values, the id of a port in the chassis configuration is its number in the network
-- configuration exactly when the channel is 0.
pub port_number-agrees_iff :
    {W : Type 0} (cage channel number : ℕ) (w : W)
    → cage < 256
    → channel < 256
    → cage_channel_to_port (some cage) (some channel) w ≡ ret number w
    → (stratum_port_id cage channel ≡ number) ↔ (channel ≡ 0)
unfolding stratum_port_id cage_channel_to_port
port_number-agrees_iff cage channel number w h₁ h₂ e = ground (arith, e)
