-- ===== src/Netcfg/Agree.antt =====
-- The apps of pkg/synchronizer/schema.go: `reflect.DeepEqual` and the JSON document agree on them, and
-- on every struct that can be read back.
use fabric_adapter.Base.{
  ◌≡◌, ◌↔◌, refl, sym, ap, ◌∙◌, true, some, Option, List, [], ◌∷◌, Text, Dict, codes, lookup,
  text_eq, text_eqb, HasDistinctKeys, All, arith,
}
use fabric_adapter.Netcfg.{OnosApp}
use fabric_adapter.Netcfg.Equal.{deciding, app_eqb, dict_eqb}
use fabric_adapter.Netcfg.Equal
use fabric_adapter.Netcfg.Reflexive.{AppIsMap}
use fabric_adapter.Netcfg.Encode.{
  Fields, app_fields, app_json, route_json, up4_json, dhcp_json, telemetry_report_json,
  telemetry_queue_json,
}
use fabric_adapter.Netcfg.Decode.Apps
use fabric_adapter.Netcfg.Decode.{pointer_from, pointer_back}
use fabric_adapter.Netcfg.Entries.{Agrees, decide_iff, dict_eqb_iff}
use fabric_adapter.Json.{Json, object, struct, slice, filled, pointed, string_map}
use fabric_adapter.Json.Laws.{
  same_field, tags_differ, as_items, as_items-filled, as_members, list_of, list_of-items_of,
}
use fabric_adapter.Json.Maps.{sorted_entries, as_members-filled, length-sorted_entries}

discrete_agrees :
    {V : Type 0} (f : V → Json) (g : Json → V) (d : Discrete V)
    → ((v : V) → g (f v) ≡ v)
    → Agrees f (deciding d) (λ v. Unit {0})
discrete_agrees f g d back v w p q = (
  λ h. ap f ((decide_iff (d v w)).0 h),
  λ e. (decide_iff (d v w)).1 (sym (back v) ∙ ap g e ∙ back w),
)

pointed_injective :
    {A : Type 0} (f : A → Json) (g : Json → A) (a b : Option A)
    → ((x : A) → g (f x) ≡ x)
    → pointed f a ≡ pointed f b
    → a ≡ b
pointed_injective f g a b back e =
    sym (pointer_back f g a back) ∙ ap (pointer_from g) e ∙ pointer_back f g b back

filled_injective :
    {A : Type 0} (f : A → Json) (g : Json → A) (a b : List A)
    → ((x : A) → g (f x) ≡ x)
    → filled (slice f) a ≡ filled (slice f) b
    → a ≡ b
filled_injective f g a b back e =
    sym (ap (list_of g) (as_items-filled f a) ∙ list_of-items_of f g a back)
    ∙ ap (λ o. list_of g (as_items o)) e
    ∙ (ap (list_of g) (as_items-filled f b) ∙ list_of-items_of f g b back)

module _ {V : Type 0} (f : V → Json) where
  pub filled_same :
      (m n : Dict Text V)
      → sorted_entries f m ≡ sorted_entries f n
      → filled (string_map f) m ≡ filled (string_map f) n
  unfolding string_map
  filled_same [] [] e = refl
  filled_same [] (x ∷ n) e = absurd (omega (arith, length-sorted_entries f [] (x ∷ n) e))
  filled_same (x ∷ m) [] e = absurd (omega (arith, length-sorted_entries f (x ∷ m) [] e))
  filled_same (x ∷ m) (y ∷ n) e = ap (λ ms. some (object ms)) e

  pub same_filled :
      (m n : Dict Text V)
      → filled (string_map f) m ≡ filled (string_map f) n
      → sorted_entries f m ≡ sorted_entries f n
  same_filled m n e = sym (as_members-filled f m) ∙ ap as_members e ∙ as_members-filled f n

always_unit : {A : Type 0} (xs : List A) → All (λ x. Unit {0}) xs
always_unit [] = tt
always_unit (x ∷ xs) = (tt, always_unit xs)

-- A map of structs that can be read back.
pub discrete_dict_iff :
    {V : Type 0} (f : V → Json) (g : Json → V) (d : Discrete V) (back : (v : V) → g (f v) ≡ v)
    (m n : Dict Text V)
    → HasDistinctKeys m
    → HasDistinctKeys n
    → (dict_eqb (deciding d) m n ≡ true) ↔ (filled (string_map f) m ≡ filled (string_map f) n)
discrete_dict_iff {V} f g d back m n dm dn =
    let iff =
      dict_eqb_iff f (deciding d) (λ (v : V). Unit {0}) (discrete_agrees f g d back) m n dm dn
        (always_unit m) (always_unit n) in
    (λ h. filled_same f m n (iff.0 h), λ e. iff.1 (same_filled f m n e))

module _ (a b : OnosApp) (ma : AppIsMap a) (mb : AppIsMap b) where
  thresholds_iff :
      (dict_eqb
          (deciding Equal.OnosTelemetryQueue-discrete)
          a.telemetry_queue_report_latency_thresholds
          b.telemetry_queue_report_latency_thresholds
        ≡ true)
      ↔ (filled (string_map telemetry_queue_json) a.telemetry_queue_report_latency_thresholds
          ≡ filled (string_map telemetry_queue_json) b.telemetry_queue_report_latency_thresholds)
  thresholds_iff =
      discrete_dict_iff telemetry_queue_json Apps.telemetry_queue_from
        Equal.OnosTelemetryQueue-discrete Apps.telemetry_queue_back _ _ ma mb

  app_same : app_eqb a b ≡ true → app_json a ≡ app_json b
  unfolding app_eqb
  app_same h =
      ap (λ (fields : Fields). struct fields)
        (cc (
          (decide_iff (Equal.OnosRoutes-discrete a.routes b.routes)).0 (ground (arith, h)),
          (decide_iff (Equal.OnosUp4Config-discrete a.up4 b.up4)).0 (ground (arith, h)),
          (decide_iff (Equal.OnosDhcpConfig-discrete a.dhcp_default b.dhcp_default)).0
              (ground (arith, h)),
          (decide_iff (Equal.OnosTelemetryReport-discrete a.telemetry_report b.telemetry_report)).0
              (ground (arith, h)),
          thresholds_iff.0 (ground (arith, h)),
        ))

  module _ (e : app_json a ≡ app_json b) where
    under :
        (name : Text) (o p : Option Json)
        → lookup name (app_fields a) ≡ some o
        → lookup name (app_fields b) ≡ some p
        → o ≡ p
    unfolding tags_differ lookup text_eqb
    under name o p h h' = same_field (app_fields a) (app_fields b) name o p refl refl h h' e

    same_app : app_eqb a b ≡ true
    unfolding app_eqb lookup text_eqb
    same_app = ground (
      arith,
      (decide_iff (Equal.OnosRoutes-discrete a.routes b.routes)).1 (
          filled_injective route_json Apps.route_from _ _ Apps.route_back
            (under (codes "routes") _ _ refl refl)),
      (decide_iff (Equal.OnosUp4Config-discrete a.up4 b.up4)).1 (
          pointed_injective up4_json Apps.up4_from _ _ Apps.up4_back
            (under (codes "up4") _ _ refl refl)),
      (decide_iff (Equal.OnosDhcpConfig-discrete a.dhcp_default b.dhcp_default)).1 (
          pointed_injective dhcp_json Apps.dhcp_from _ _ Apps.dhcp_back
            (under (codes "default") _ _ refl refl)),
      (decide_iff (Equal.OnosTelemetryReport-discrete a.telemetry_report b.telemetry_report)).1 (
          pointed_injective telemetry_report_json Apps.telemetry_report_from _ _
            Apps.telemetry_report_back (under (codes "report") _ _ refl refl)),
      thresholds_iff.1 (under (codes "queueReportLatencyThresholds") _ _ refl refl),
    )

pub app_agrees : Agrees app_json app_eqb AppIsMap
app_agrees a b ma mb = (app_same a b ma mb, same_app a b ma mb)
