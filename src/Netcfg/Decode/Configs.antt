-- ===== src/Netcfg/Decode/Configs.antt =====
-- Whole documents of pkg/synchronizer/schema.go read back, with their maps.
use mathlib.Core.Path.{subst}
use fabric_adapter.Base.{
  ◌≡◌, refl, sym, ap, ◌∙◌, Bool, true, Option, some, [], ◌∷◌, Text, Dict, codes, lookup, text_eq,
  text_eqb, length, HasDistinctKeys, All, arith,
}
use fabric_adapter.Netcfg.{OnosApp, OnosNetConfig}
use fabric_adapter.Netcfg.Equal.{deciding, covers, dict_eqb, app_eqb, deep_equal}
use fabric_adapter.Netcfg.Equal
use fabric_adapter.Netcfg.Reflexive.{IsEntryOf, entries, AppIsMap, IsNetConfig}
use fabric_adapter.Netcfg.Encode.{
  app_fields, app_json, net_config_fields, net_config_json, route_json, up4_json, dhcp_json,
  telemetry_report_json, telemetry_queue_json, device_json, port_json, host_json,
}
use fabric_adapter.Netcfg.Decode.{
  device_from, device_back, port_from, port_back, host_from, host_back, pointer_from, pointer_back,
}
use fabric_adapter.Netcfg.Decode.Apps.{
  route_from, route_back, up4_from, up4_back, dhcp_from, dhcp_back, telemetry_report_from,
  telemetry_report_back, telemetry_queue_from, telemetry_queue_back,
}
use fabric_adapter.Netcfg.Entries.{decide_iff}
use fabric_adapter.Json.{Json, Members, no_members, member, get, filled, pointed, string_map}
use fabric_adapter.Json.Laws.{
  as_members, as_items, as_items-filled, list_of, list_of-items_of, option_field, tags_differ,
}
use fabric_adapter.Json.Maps.{
  mapped, size, sorted_entries, get-sorted_entries, size-sorted_entries, as_members-filled,
}

-- a map, its keys in the order of the document
unfoldable pub map_from : {V : Type 0} → (Json → V) → Members → Dict Text V
map_from g no_members = []
map_from g (member key value ms) = (key, g value) ∷ map_from g ms

module _ {V : Type 0} (f : V → Json) (g : Json → V) (eqv : V → V → Bool) where
  lookup-map_from :
      (k : Text) (ms : Members) (v : Json)
      → get k ms ≡ some v
      → lookup k (map_from g ms) ≡ some (g v)
  unfolding map_from lookup get
  lookup-map_from k no_members v h = absurd (ground (arith, h))
  lookup-map_from k (member key value ms) v h = ground (arith, h, lookup-map_from k ms v)

  length-map_from : (ms : Members) → length (map_from g ms) ≡ size ms
  unfolding map_from
  length-map_from no_members = refl
  length-map_from (member key value ms) = ground (arith, length-map_from ms)

  module _ (m : Dict Text V) where
    covers-map_from :
        (l : Dict Text V)
        → All (IsEntryOf m) l
        → All (λ (p : Text × V). eqv p.1 (g (f p.1)) ≡ true) l
        → covers eqv l (map_from g (sorted_entries f m)) ≡ true
    unfolding covers
    covers-map_from [] h s = refl
    covers-map_from ((k, v) ∷ l) h s = ground (
      arith,
      lookup-map_from k (sorted_entries f m) (f v) (get-sorted_entries f k m ∙ ap (mapped f) h.0),
      s.0,
      covers-map_from l h.1 s.1,
    )

    -- A map with the values that come back is equal to what is read from its document.
    pub dict_eqb-map_from :
        HasDistinctKeys m
        → All (λ (p : Text × V). eqv p.1 (g (f p.1)) ≡ true) m
        → dict_eqb eqv m (map_from g (as_members (filled (string_map f) m))) ≡ true
    unfolding dict_eqb
    dict_eqb-map_from d s = ground (
      arith,
      as_members-filled f m,
      length-map_from (sorted_entries f m),
      size-sorted_entries f m,
      covers-map_from m (entries m d) s,
    )

pub discrete_map_back :
    {V : Type 0} (f : V → Json) (g : Json → V) (d : Discrete V) (back : (v : V) → g (f v) ≡ v)
    (m : Dict Text V)
    → HasDistinctKeys m
    → dict_eqb (deciding d) m (map_from g (as_members (filled (string_map f) m))) ≡ true
discrete_map_back {V} f g d back m dm = dict_eqb-map_from f g (deciding d) m dm (each m)
  where
    each : (l : Dict Text V) → All (λ (p : Text × V). deciding d p.1 (g (f p.1)) ≡ true) l
    each [] = tt
    each ((k, v) ∷ l) = ((decide_iff (d v (g (f v)))).1 (sym (back v)), each l)

unfoldable pub app_from : Json → OnosApp
unfolding map_from
app_from v =
    let ms = as_members (some v) in
    record {
      routes = list_of route_from (as_items (get (codes "routes") ms));
      up4 = pointer_from up4_from (get (codes "up4") ms);
      dhcp_default = pointer_from dhcp_from (get (codes "default") ms);
      telemetry_report = pointer_from telemetry_report_from (get (codes "report") ms);
      telemetry_queue_report_latency_thresholds =
          map_from telemetry_queue_from
            (as_members (get (codes "queueReportLatencyThresholds") ms));
    }

module _ (a : OnosApp) where
  app_field :
      (name : Text) (o : Option Json)
      → lookup name (app_fields a) ≡ some o
      → get name (as_members (some (app_json a))) ≡ o
  unfolding tags_differ lookup text_eqb
  app_field name o h = option_field (app_fields a) refl name o h

  app_back : AppIsMap a → app_eqb a (app_from (app_json a)) ≡ true
  unfolding app_eqb app_from lookup text_eqb
  app_back h =
      let routes : list_of route_from
            (as_items (get (codes "routes") (as_members (some (app_json a)))))
          ≡ a.routes =
        ap (λ o. list_of route_from (as_items o)) (app_field (codes "routes") _ refl)
        ∙ ap (list_of route_from) (as_items-filled route_json a.routes)
        ∙ list_of-items_of route_json route_from a.routes route_back in
      let up4 =
        ap (pointer_from up4_from) (app_field (codes "up4") (pointed up4_json a.up4) refl)
        ∙ pointer_back up4_json up4_from a.up4 up4_back in
      let dhcp =
        ap (pointer_from dhcp_from)
          (app_field (codes "default") (pointed dhcp_json a.dhcp_default) refl)
        ∙ pointer_back dhcp_json dhcp_from a.dhcp_default dhcp_back in
      let report =
        ap (pointer_from telemetry_report_from)
          (app_field (codes "report") (pointed telemetry_report_json a.telemetry_report) refl)
        ∙ pointer_back telemetry_report_json telemetry_report_from a.telemetry_report
            telemetry_report_back in
      let thresholds =
        subst
          (λ (o : Option Json).
            dict_eqb (deciding Equal.OnosTelemetryQueue-discrete)
              a.telemetry_queue_report_latency_thresholds
              (map_from telemetry_queue_from (as_members o))
            ≡ true)
          (sym (app_field (codes "queueReportLatencyThresholds") _ refl))
          (discrete_map_back telemetry_queue_json telemetry_queue_from
            Equal.OnosTelemetryQueue-discrete telemetry_queue_back _ h) in
      ground (
        arith,
        (decide_iff (Equal.OnosRoutes-discrete a.routes _)).1 (sym routes),
        (decide_iff (Equal.OnosUp4Config-discrete a.up4 _)).1 (sym up4),
        (decide_iff (Equal.OnosDhcpConfig-discrete a.dhcp_default _)).1 (sym dhcp),
        (decide_iff (Equal.OnosTelemetryReport-discrete a.telemetry_report _)).1 (sym report),
        thresholds,
      )

-- A network configuration from its document.
unfoldable pub net_config_from : Json → OnosNetConfig
unfolding map_from app_from
net_config_from v =
    let ms = as_members (some v) in
    record {
      devices = map_from device_from (as_members (get (codes "devices") ms));
      ports = map_from port_from (as_members (get (codes "ports") ms));
      hosts = map_from host_from (as_members (get (codes "hosts") ms));
      apps = map_from app_from (as_members (get (codes "apps") ms));
    }

apps_back :
    (m : Dict Text OnosApp)
    → All (λ (p : Text × OnosApp). AppIsMap p.1) m
    → All (λ (p : Text × OnosApp). app_eqb p.1 (app_from (app_json p.1)) ≡ true) m
apps_back [] h = tt
apps_back ((k, a) ∷ m) h = (app_back a h.0, apps_back m h.1)

module _ (c : OnosNetConfig) where
  config_field :
      (name : Text) (o : Option Json)
      → lookup name (net_config_fields c) ≡ some o
      → get name (as_members (some (net_config_json c))) ≡ o
  unfolding tags_differ lookup text_eqb
  config_field name o h = option_field (net_config_fields c) refl name o h

  read_map :
      {V : Type 0} (f : V → Json) (g : Json → V) (eqv : V → V → Bool) (name : Text)
      (m : Dict Text V)
      → lookup name (net_config_fields c) ≡ some (filled (string_map f) m)
      → dict_eqb eqv m (map_from g (as_members (filled (string_map f) m))) ≡ true
      → dict_eqb eqv m (map_from g (as_members (get name (as_members (some (net_config_json c))))))
        ≡ true
  read_map f g eqv name m h =
      subst (λ (o : Option Json). dict_eqb eqv m (map_from g (as_members o)) ≡ true)
        (sym (config_field name _ h))

  -- The document of a configuration is read back as a configuration that is equal to it.
  pub net_config_back : IsNetConfig c → deep_equal c (net_config_from (net_config_json c)) ≡ true
  unfolding deep_equal net_config_from lookup text_eqb
  net_config_back h = ground (
    arith,
    read_map device_json device_from _ (codes "devices") c.devices refl (
        discrete_map_back device_json device_from Equal.OnosDevice-discrete device_back c.devices
          h.devices_distinct),
    read_map port_json port_from _ (codes "ports") c.ports refl (
        discrete_map_back port_json port_from Equal.OnosPort-discrete port_back c.ports
          h.ports_distinct),
    read_map host_json host_from _ (codes "hosts") c.hosts refl (
        discrete_map_back host_json host_from Equal.OnosHost-discrete host_back c.hosts
          h.hosts_distinct),
    read_map app_json app_from app_eqb (codes "apps") c.apps refl (
        dict_eqb-map_from app_json app_from app_eqb c.apps h.apps_distinct
          (apps_back c.apps h.apps_are_maps)),
  )
