-- ===== src/Device/Willing.antt =====
-- Services that answer each call, and single pushes to them (pkg/synchronizer/restpusher.go and
-- gnmipusher.go).
use fabric_adapter.Base.{
  ℕ, ◌≡◌, refl, Bool, false, List, [], ◌∷◌, Text, codes, ◌++◌, text_eq, ok, Outcome, ret, arith,
  IsSafe,
}
use fabric_adapter.Fabric.Formed.{IsPresent}
use fabric_adapter.Chassis.{ChassisConfig}
use fabric_adapter.Pusher.{
  bad_status, update_request, set_request, RestPusher, GnmiPusher, rest_push_update,
  gnmi_push_update,
}
use fabric_adapter.Device.{lookup_fabric_controller_info}
use fabric_adapter.World.{
  Config, HttpRequest, http_call, gnmi_call, HttpResponse, SetRequest, Call, ControllerInfo,
  Services, World,
}

-- Services that answer each call, with a status of success.
pub record AreWilling (S : Services) : Type 0 where
  pub sids : (id : Text) → IsSafe (S.sid_get id)
  pub encoded : (c : ChassisConfig) → (t : Text) × (S.marshal_text c ≡ ok t)
  pub requested : (method url : Text) → S.new_request method url ≡ ok tt
  pub posted :
      (before : List Call) (req : HttpRequest)
      → (r : HttpResponse) × (S.http_do before req ≡ ok r) × (bad_status r.status_code ≡ false)
  pub set :
      (before : List Call) (endpoint target : Text) (secure : Bool) (req : SetRequest)
      → S.gnmi_set before endpoint target secure req ≡ ok tt
  pub certified : (ca key cert : Text) → S.cert_paths ca key cert ≡ ok tt
  pub dialled : (endpoint : Text) → S.dial endpoint ≡ ok tt
  pub located :
      (before : List Call) (name : Text)
      → (o : S.Object) × (i : ControllerInfo) × (S.topo_get before name ≡ ok o)
        × (S.get_aspect o ≡ ok i)
        × IsPresent i.control_endpoint

-- Services that can be reached, and whose answers are read.
pub record AreReachable (S : Services) : Type 0 where
  pub sids : (id : Text) → IsSafe (S.sid_get id)
  pub encoded : (c : ChassisConfig) → (t : Text) × (S.marshal_text c ≡ ok t)
  pub requested : (method url : Text) → S.new_request method url ≡ ok tt
  pub certified : (ca key cert : Text) → S.cert_paths ca key cert ≡ ok tt
  pub dialled : (endpoint : Text) → S.dial endpoint ≡ ok tt
  pub located :
      (before : List Call) (name : Text)
      → (o : S.Object) × (i : ControllerInfo) × (S.topo_get before name ≡ ok o)
        × (S.get_aspect o ≡ ok i)
        × IsPresent i.control_endpoint

pub willing-AreReachable : (S : Services) → AreWilling S → AreReachable S
willing-AreReachable S h = record {
  sids = h.sids;
  encoded = h.encoded;
  requested = h.requested;
  certified = h.certified;
  dialled = h.dialled;
  located = h.located;
}

-- A call that returns a value, and has made some calls.
abbrev pub Sends : {Sids A : Type 0} → World Sids → Outcome (World Sids) A → A → List Call → Type 0
Sends {Sids} w o a calls = (v : World Sids) × (o ≡ ret a v) × (v.calls ≡ w.calls ++ calls)

module _ (S : Services) (h : AreWilling S) where
  pub rest_push-Sends :
      (p : RestPusher) (w : World S.Sids)
      → Sends w (rest_push_update S p w) tt (http_call (update_request p) ∷ [])
  unfolding rest_push_update
  rest_push-Sends p w =
      let (r, answered, good) = h.posted w.calls (update_request p) in
      (
        record w { calls = w.calls ++ http_call (update_request p) ∷ [] },
        ground (arith, h.requested (codes "POST") p.endpoint, answered, good),
        refl,
      )

  pub gnmi_push-Sends :
      (p : GnmiPusher) (w : World S.Sids)
      → Sends w
          (gnmi_push_update S p w)
          tt
          (gnmi_call p.endpoint p.target p.secure (set_request p) ∷ [])
  unfolding gnmi_push_update
  gnmi_push-Sends p w = (
    record w { calls = w.calls ++ gnmi_call p.endpoint p.target p.secure (set_request p) ∷ [] },
    ground (arith, h.set w.calls p.endpoint p.target p.secure (set_request p)),
    refl,
  )

-- the controller of a fabric is found
module _ (S : Services) (h : AreReachable S) (config : Config) where
  pub info-Succeeds :
      (name : Text) (w : World S.Sids)
      → (address : Text) × (port : ℕ) × (info : ControllerInfo) × (lookup_fabric_controller_info S
            config name w
          ≡ ret (address, port, info) w)
  unfolding lookup_fabric_controller_info
  info-Succeeds name w =
      let (o, info, found, read, endpoint) = h.located w.calls name in
      let ((address, port), there) = endpoint in
      (
        address,
        port,
        info,
        ground (
          arith,
          h.certified config.ca_path config.key_path config.cert_path,
          h.dialled config.topo_endpoint,
          found,
          read,
          there,
        ),
      )
