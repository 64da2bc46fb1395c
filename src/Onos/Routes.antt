-- ===== src/Onos/Routes.antt =====
-- The routes of a network configuration that `SynchronizeFabricToOnos`
-- (pkg/synchronizer/synchronize-device.go) builds.
use mathlib.Core.List.{append_assoc, append-nil}
use fabric_adapter.Base.{
  ◌≡◌, refl, sym, ◌∙◌, ap, Option, none, some, List, [], ◌∷◌, ◌++◌, Text, text_eq, text_eqb,
  text_eqb_iff, lookup, lookup-insert, Outcome, ret, fail, panic, logged, for_logged, bind-elim,
  After, arith, keys,
}
use mathlib.Core.Path.{subst}
use fabric_adapter.Fabric.{Route}
use fabric_adapter.Netcfg.{OnosRoute, OnosNetConfig, onos_route_app_name}
use fabric_adapter.Lookup.{is_blank, validate_route}
use fabric_adapter.Onos.{route_app, add_route, handle_route, onos_switch, build_netconfig}
use fabric_adapter.Onos.Invariants.{Keeps-switches}
use fabric_adapter.Switch.Writes.{Keeps-handle_switch}
use fabric_adapter.Sorting.{sort_strings}
use fabric_adapter.World.{Services, World, FabricScope}

-- the routes of the route app
abbrev pub routes_of : OnosNetConfig → List OnosRoute
routes_of c = (route_app (lookup onos_route_app_name c.apps)).routes

-- a text that is there and is not empty
abbrev given : Option Text → Option Text
given none = none
given (some []) = none
given (some (x ∷ t)) = some (x ∷ t)

-- the route of the network configuration, if both of its texts are given
abbrev both : Option Text → Option Text → List OnosRoute
both (some prefix) (some address) = record { prefix = prefix; next_hop = address } ∷ []
both _ _ = []

-- the routes that have a prefix and an address, in their order
abbrev pub entry_of : Route → List OnosRoute
entry_of r = both (given r.prefix) (given r.address)

abbrev pub complete_routes : List Route → List OnosRoute
complete_routes [] = []
complete_routes (r ∷ rs) = entry_of r ++ complete_routes rs

add_route-routes_of :
    (r : OnosRoute) (c : OnosNetConfig) → routes_of (add_route r c) ≡ routes_of c ++ r ∷ []
unfolding add_route
add_route-routes_of r c = ground (
  arith,
  lookup-insert onos_route_app_name onos_route_app_name
      (record (route_app (lookup onos_route_app_name c.apps)) { routes = routes_of c ++ r ∷ [] })
      c.apps,
  text_eqb_iff onos_route_app_name onos_route_app_name,
)

abbrev route_with : Option Text → Option Text → Option Text → Route
route_with id prefix address = record { route_id = id; prefix = prefix; address = address }

module _ {Sids : Type 0} where
  -- one round: the route joins if it is complete, and is refused if not
  abbrev Joined : Route → World Sids → Outcome (World Sids) (Unit {0}) → Type 0
  Joined r w (ret t v) = routes_of v.net_config ≡ routes_of w.net_config ++ entry_of r
  Joined r w (fail e v) = routes_of v.net_config ≡ routes_of w.net_config ++ entry_of r
  Joined r w panic = Unit {0}

  joined :
      (id prefix address : Option Text) (w : World Sids)
      → Joined (route_with id prefix address) w (handle_route (route_with id prefix address) w)
  unfolding handle_route validate_route is_blank text_eqb
  joined none none address w = tt
  joined (some id) none address w = sym (append-nil _)
  joined none (some []) address w = tt
  joined (some id) (some []) address w = sym (append-nil _)
  joined none (some (x ∷ p)) none w = tt
  joined (some id) (some (x ∷ p)) none w = sym (append-nil _)
  joined none (some (x ∷ p)) (some []) w = tt
  joined (some id) (some (x ∷ p)) (some []) w = sym (append-nil _)
  joined id (some (x ∷ p)) (some (y ∷ a)) w =
      add_route-routes_of (record { prefix = x ∷ p; next_hop = y ∷ a }) w.net_config

  handle_route-Joined : (r : Route) (w : World Sids) → Joined r w (handle_route r w)
  handle_route-Joined r w = joined r.route_id r.prefix r.address w

  at_state :
      (r : Route) (w u v : World Sids)
      → u ≡ v
      → routes_of u.net_config ≡ routes_of w.net_config ++ entry_of r
      → routes_of v.net_config ≡ routes_of w.net_config ++ entry_of r
  at_state r w u v e =
      subst (λ (x : World Sids). routes_of x.net_config ≡ routes_of w.net_config ++ entry_of r) e

  unmoved : (w v : World Sids) → v ≡ w → routes_of v.net_config ≡ routes_of w.net_config ++ []
  unmoved w v e = ap (λ (x : World Sids). routes_of x.net_config) e ∙ sym (append-nil _)

  logged-Joined :
      (r : Route) (w : World Sids) (o : Outcome (World Sids) (Unit {0})) {v : World Sids}
      → Joined r w o
      → logged o ≡ ret tt v
      → routes_of v.net_config ≡ routes_of w.net_config ++ entry_of r
  logged-Joined r w (ret t u) {v} j e = at_state r w u v (ground (arith, e)) j
  logged-Joined r w (fail x u) {v} j e = at_state r w u v (ground (arith, e)) j
  logged-Joined r w panic j e = absurd (ground arith)

  -- If the loop over the routes does not panic, the routes of the configuration are those it had, and
  -- then the complete ones of the fabric, in their order; the others are dropped.
  for_logged-handle_route :
      (rs : List Route) (w w' : World Sids)
      → for_logged rs handle_route w ≡ ret tt w'
      → routes_of w'.net_config ≡ routes_of w.net_config ++ complete_routes rs
  unfolding for_logged
  for_logged-handle_route [] w w' e = unmoved w w' (ground (arith, e))
  for_logged-handle_route (r ∷ rs) w w' e =
      bind-elim (λ v. logged (handle_route r v)) (λ _. for_logged rs handle_route) e
        (λ _ u p q.
          for_logged-handle_route rs u w' q
          ∙ ap (λ l. l ++ complete_routes rs)
              (logged-Joined r w (handle_route r w) (handle_route-Joined r w) p)
          ∙ append_assoc (routes_of w.net_config) (entry_of r) (complete_routes rs))

module _ (S : Services) (scope : FabricScope) where
  abbrev SameRoutes : World S.Sids → World S.Sids → Type 0
  SameRoutes w v = routes_of v.net_config ≡ routes_of w.net_config

  switches_same :
      (w : World S.Sids)
      → After
          (SameRoutes w)
          (for_logged (sort_strings (keys scope.fabric.switch)) (onos_switch S scope) w)
  switches_same w =
      (Keeps-switches S (SameRoutes w) scope (
          Keeps-handle_switch S (SameRoutes w)
            (record {
              port_written = λ key p v h. h;
              device_written = λ key d v h. h;
              sids_written = λ s v h. h;
              next_ip_written = λ n v h. h;
            })
            scope)).after
        w refl

  -- If the construction of a configuration does not panic, its routes are those it had and then
  -- the fabric's routes with a prefix and an address, in their order; the others are dropped.
  pub build_netconfig-routes :
      (w w' : World S.Sids)
      → build_netconfig S scope w ≡ ret tt w'
      → routes_of w'.net_config ≡ routes_of w.net_config ++ complete_routes scope.fabric.route
  unfolding build_netconfig
  build_netconfig-routes w w' e =
      bind-elim (for_logged (sort_strings (keys scope.fabric.switch)) (onos_switch S scope)) _ e
        (λ _ u p q.
          for_logged-handle_route scope.fabric.route u w' q
          ∙ ap (λ l. l ++ complete_routes scope.fabric.route)
              (let same : SameRoutes w u = subst (After (SameRoutes w)) p (switches_same w) in
                same))
