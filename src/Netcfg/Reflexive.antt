-- ===== src/Netcfg/Reflexive.antt =====
-- `reflect.DeepEqual` (pkg/synchronizer/cache.go) holds of a network configuration and itself.
use mathlib.Core.Bool.{decide}
use fabric_adapter.Base.{
  Bool, true, ◌≡◌, refl, none, some, List, [], ◌∷◌, Text, Dict, text_eq, text_eqb_iff, lookup,
  HasDistinctKeys, length, nat_eqb_iff, arith, All, All-map,
}
use fabric_adapter.Netcfg.{OnosApp, OnosNetConfig}
use fabric_adapter.Netcfg.Equal.{
  covers, dict_eqb, deciding, app_eqb, deep_equal, OnosDevice-discrete, OnosDhcpConfig-discrete,
  OnosHost-discrete, OnosPort-discrete, OnosRoutes-discrete, OnosTelemetryQueue-discrete,
  OnosTelemetryReport-discrete, OnosUp4Config-discrete,
}

pub decide_same {ℓ} : {V : Type ℓ} {v : V} (d : Dec (v ≡ v)) → decide d ≡ true
unfolding decide
decide_same (yes p) = refl
decide_same (no n) = absurd (n refl)

module _ {ℓ} {V : Type ℓ} where
  abbrev pub IsEntryOf : Dict Text V → Text × V → Type ℓ
  IsEntryOf m p = lookup p.0 m ≡ some p.1

  entries_under :
      (k : Text) (v : V) (m : Dict Text V) (p : Text × V)
      → lookup k m ≡ none
      → IsEntryOf m p
      → IsEntryOf ((k, v) ∷ m) p
  unfolding lookup
  entries_under k v m p none_k e = ground (arith, text_eqb_iff k p.0)

  entry_first : (k : Text) (v : V) (m : Dict Text V) → IsEntryOf ((k, v) ∷ m) (k, v)
  unfolding lookup
  entry_first k v m = ground (arith, text_eqb_iff k k)

  pub entries : (m : Dict Text V) → HasDistinctKeys m → All (IsEntryOf m) m
  entries [] d = tt
  entries ((k, v) ∷ m) d = (
    entry_first k v m,
    All-map (IsEntryOf m) (IsEntryOf ((k, v) ∷ m)) m (entries m d.1)
        (λ p. entries_under k v m p d.0),
  )

module _ {ℓ} {V : Type ℓ} (eqv : V → V → Bool) where
  IsSelfEqual : Text × V → Type 0
  IsSelfEqual p = eqv p.1 p.1 ≡ true

  covers_entries :
      (l m : Dict Text V)
      → All (IsEntryOf m) l
      → All (λ (p : Text × V). eqv p.1 p.1 ≡ true) l
      → covers eqv l m ≡ true
  unfolding covers
  covers_entries [] m h g = refl
  covers_entries ((k, v) ∷ l) m h g = ground (arith, h.0, covers_entries l m h.1 g.1)

  dict_eqb_refl :
      (m : Dict Text V)
      → HasDistinctKeys m
      → All (λ (p : Text × V). eqv p.1 p.1 ≡ true) m
      → dict_eqb eqv m m ≡ true
  unfolding dict_eqb
  dict_eqb_refl m d g =
      ground (arith, nat_eqb_iff (length m) (length m), covers_entries m m (entries m d) g)

abbrev always {ℓ κ} : {A : Type ℓ} (P : A → Type κ) (xs : List A) → ((x : A) → P x) → All P xs
always P [] f = tt
always P (x ∷ xs) f = (f x, always P xs f)

discrete_refl {ℓ} :
    {V : Type ℓ} (d : Discrete V) (m : Dict Text V)
    → HasDistinctKeys m
    → dict_eqb (deciding d) m m ≡ true
discrete_refl d m h = dict_eqb_refl (deciding d) m h (always _ m (λ p. decide_same (d p.1 p.1)))

-- Every map of an app, and of a configuration, has a key once.
abbrev pub AppIsMap : OnosApp → Type 0
AppIsMap a = HasDistinctKeys a.telemetry_queue_report_latency_thresholds

pub record IsNetConfig (c : OnosNetConfig) : Type 0 where
  pub devices_distinct : HasDistinctKeys c.devices
  pub ports_distinct : HasDistinctKeys c.ports
  pub hosts_distinct : HasDistinctKeys c.hosts
  pub apps_distinct : HasDistinctKeys c.apps
  pub apps_are_maps : All (λ (p : Text × OnosApp). AppIsMap p.1) c.apps

app_eqb_refl : (a : OnosApp) → AppIsMap a → app_eqb a a ≡ true
unfolding app_eqb
app_eqb_refl a h = ground (
  arith,
  decide_same (OnosRoutes-discrete a.routes a.routes),
  decide_same (OnosUp4Config-discrete a.up4 a.up4),
  decide_same (OnosDhcpConfig-discrete a.dhcp_default a.dhcp_default),
  decide_same (OnosTelemetryReport-discrete a.telemetry_report a.telemetry_report),
  discrete_refl OnosTelemetryQueue-discrete a.telemetry_queue_report_latency_thresholds h,
)

-- A network configuration whose maps have each key once is equal to itself under
-- reflect.DeepEqual.
pub deep_equal_refl : (c : OnosNetConfig) → IsNetConfig c → deep_equal c c ≡ true
unfolding deep_equal
deep_equal_refl c h = ground (
  arith,
  discrete_refl OnosDevice-discrete c.devices h.devices_distinct,
  discrete_refl OnosPort-discrete c.ports h.ports_distinct,
  discrete_refl OnosHost-discrete c.hosts h.hosts_distinct,
  dict_eqb_refl app_eqb c.apps h.apps_distinct (
      All-map (λ (p : Text × OnosApp). AppIsMap p.1) _ c.apps h.apps_are_maps
        (λ p. app_eqb_refl p.1)),
)
