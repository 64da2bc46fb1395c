-- ===== src/Netcfg/Equal.antt =====
-- `reflect.DeepEqual` on the network configurations of pkg/synchronizer/schema.go, which
-- pkg/synchronizer/cache.go calls: maps are equal when they have as many keys and the same value at
-- each of them, in whatever order they are stored.
use native.Mathlib.Decide.{ℕ_discrete}
use mathlib.Core.Bool.{decide}
use fabric_adapter.Base.{
  Bool, true, false, ◌&&◌, Option, none, some, List, [], ◌∷◌, Text, Dict, lookup, text_eq, length,
  nat_eqb,
}
use fabric_adapter.Netcfg.{
  OnosDevice, OnosPort, OnosHost, OnosRoute, OnosUp4Config, OnosDhcpConfig, OnosTelemetryReport,
  OnosTelemetryQueue, OnosApp, OnosNetConfig,
}

pub OnosDevice-discrete : Discrete OnosDevice
OnosDevice-discrete = hlevel ℕ_discrete

pub OnosPort-discrete : Discrete OnosPort
OnosPort-discrete = hlevel ℕ_discrete

pub OnosHost-discrete : Discrete OnosHost
OnosHost-discrete = hlevel ℕ_discrete

pub OnosRoutes-discrete : Discrete (List OnosRoute)
OnosRoutes-discrete = hlevel ℕ_discrete

pub OnosUp4Config-discrete : Discrete (Option OnosUp4Config)
OnosUp4Config-discrete = hlevel ℕ_discrete

pub OnosDhcpConfig-discrete : Discrete (Option OnosDhcpConfig)
OnosDhcpConfig-discrete = hlevel ℕ_discrete

pub OnosTelemetryReport-discrete : Discrete (Option OnosTelemetryReport)
OnosTelemetryReport-discrete = hlevel ℕ_discrete

pub OnosTelemetryQueue-discrete : Discrete OnosTelemetryQueue
OnosTelemetryQueue-discrete = hlevel ℕ_discrete

module _ {ℓ} {V : Type ℓ} (eqv : V → V → Bool) where
  unfoldable pub same_at : V → Option V → Bool
  same_at v none = false
  same_at v (some w) = eqv v w

  -- every entry of the first map is in the second
  unfoldable pub covers : Dict Text V → Dict Text V → Bool
  unfolding same_at
  covers [] m = true
  covers ((k, v) ∷ l) m = same_at v (lookup k m) && covers l m

  unfoldable pub dict_eqb : Dict Text V → Dict Text V → Bool
  unfolding covers
  dict_eqb l m = nat_eqb (length l) (length m) && covers l m

abbrev pub deciding {ℓ} : {V : Type ℓ} → Discrete V → V → V → Bool
deciding d a b = decide (d a b)

unfoldable pub app_eqb : OnosApp → OnosApp → Bool
app_eqb a b =
    deciding OnosRoutes-discrete a.routes b.routes
    && deciding OnosUp4Config-discrete a.up4 b.up4
    && deciding OnosDhcpConfig-discrete a.dhcp_default b.dhcp_default
    && deciding OnosTelemetryReport-discrete a.telemetry_report b.telemetry_report
    && dict_eqb (deciding OnosTelemetryQueue-discrete) a.telemetry_queue_report_latency_thresholds
        b.telemetry_queue_report_latency_thresholds

-- `reflect.DeepEqual` of two configurations; a nil slice or map and an empty one are one value here
unfoldable pub deep_equal : OnosNetConfig → OnosNetConfig → Bool
unfolding app_eqb
deep_equal a b =
    dict_eqb (deciding OnosDevice-discrete) a.devices b.devices
    && dict_eqb (deciding OnosPort-discrete) a.ports b.ports
    && dict_eqb (deciding OnosHost-discrete) a.hosts b.hosts
    && dict_eqb app_eqb a.apps b.apps
