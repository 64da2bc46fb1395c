-- ===== src/Stratum/Ports.antt =====
-- The ports that a chassis configuration should have (`handleStratumSwitchPort` of
-- pkg/synchronizer/synchronize-device.go).
use fabric_adapter.Base.{
  ℕ, ◌+◌, ◌*◌, ◌-◌, ◌%◌, ◌^◌, ◌≡◌, refl, Option, none, some, List, [], ◌∷◌, ◌++◌, Text, codes,
  decimal, lookup, nat_eq, text_eq, nat_eqb, if◌then◌else◌, Error, Result, ok, err, ret, fail,
  panic, Outcome, Keeps, keeps, Keeps-bind, Keeps-deref, Keeps-lift, Option-cases, Result-cases,
  inl, inr,
}
use fabric_adapter.Fabric.{
  Attribute, Port, Speed, SwitchModel, SwitchModelPort, unset, speed_100g, speed_10g, speed_1g,
  speed_2_5g, speed_25g, speed_400g, speed_40g, speed_5g, speed_autoneg,
}
use fabric_adapter.Chassis.{
  TriState, tri_state_true, tri_state_false, SingletonPort, admin_state_enabled,
}
use fabric_adapter.Strconv.{parse_uint}
use fabric_adapter.Stratum.{starting_bps, port_speed}

module _ {ℓ} {W : Type ℓ} (P : W → Type 0) where
  Keeps-starting_bps : (a : Option Attribute) → Keeps P (starting_bps a)
  unfolding starting_bps
  Keeps-starting_bps none = keeps (λ w h. h)
  Keeps-starting_bps (some a) =
      Keeps-bind P _ _ (Keeps-deref P a.value) (λ t. Keeps-lift P (parse_uint t))

  pub Keeps-port_speed : (model : SwitchModel) (speed : Speed) → Keeps P (port_speed model speed)
  unfolding port_speed
  Keeps-port_speed model unset = keeps (λ w h. h)
  Keeps-port_speed model speed_100g = keeps (λ w h. h)
  Keeps-port_speed model speed_10g = keeps (λ w h. h)
  Keeps-port_speed model speed_1g = keeps (λ w h. h)
  Keeps-port_speed model speed_2_5g = keeps (λ w h. h)
  Keeps-port_speed model speed_25g = keeps (λ w h. h)
  Keeps-port_speed model speed_400g = keeps (λ w h. h)
  Keeps-port_speed model speed_40g = keeps (λ w h. h)
  Keeps-port_speed model speed_5g = keeps (λ w h. h)
  Keeps-port_speed model speed_autoneg =
      Keeps-bind P _ _
        (Keeps-starting_bps (lookup (codes "autoneg-starting-bandwidth") model.attribute))
        (λ bps. keeps (λ w h. h))

-- The speed of a port in bits per second, and whether it negotiates; none if the bandwidth that
-- negotiation starts with cannot be read.
abbrev negotiated : Result ℕ → Option (TriState × ℕ)
negotiated (ok bps) = some (tri_state_true, bps)
negotiated (err e) = none

abbrev read_bandwidth : Option Text → Option (TriState × ℕ)
read_bandwidth none = none
read_bandwidth (some t) = negotiated (parse_uint t)

abbrev starting : Option Attribute → Option (TriState × ℕ)
starting none = some (tri_state_true, 10_000_000_000)
starting (some a) = read_bandwidth a.value

abbrev pub speed_of : SwitchModel → Speed → Option (TriState × ℕ)
speed_of model unset = some (tri_state_false, 0)
speed_of model speed_1g = some (tri_state_false, 1_000_000_000)
speed_of model speed_2_5g = some (tri_state_false, 2_500_000_000)
speed_of model speed_5g = some (tri_state_false, 5_000_000_000)
speed_of model speed_10g = some (tri_state_false, 10_000_000_000)
speed_of model speed_25g = some (tri_state_false, 25_000_000_000)
speed_of model speed_40g = some (tri_state_false, 40_000_000_000)
speed_of model speed_100g = some (tri_state_false, 100_000_000_000)
speed_of model speed_400g = some (tri_state_false, 400_000_000_000)
speed_of model speed_autoneg =
    starting (lookup (codes "autoneg-starting-bandwidth") model.attribute)

-- The port on a cage and a channel of a known kind, by its numbers.
abbrev pub numbered_port : ℕ → ℕ → TriState → ℕ → SingletonPort
numbered_port cage channel autoneg bps = record {
  id = if nat_eqb channel 0 then cage % 2 ^ 32 else (cage * 100 + (channel - 1)) % 2 ^ 32;
  name = codes "Port " ++ (decimal cage ++ (b'/' ∷ decimal (channel - 1)));
  slot = 1;
  port = cage;
  channel = channel;
  speed_bps = bps;
  node = 1;
  config_params = record { admin_state = admin_state_enabled; autoneg = autoneg };
}

abbrev pub kind_of : Option ℕ → SwitchModel → Option SwitchModelPort
kind_of none model = none
kind_of (some cage) model = lookup cage model.port

abbrev pub described :
    Option SwitchModelPort → Option (TriState × ℕ) → Option ℕ → Option ℕ → List SingletonPort
described (some kind) (some (autoneg, bps)) (some cage) (some channel) =
    numbered_port cage channel autoneg bps ∷ []
described _ _ _ _ = []

-- the ports of a switch that its model knows and whose speed can be read
unfoldable pub described_ports : SwitchModel → List Port → List SingletonPort
described_ports model [] = []
described_ports model (p ∷ ps) =
    described (kind_of p.cage_number model) (speed_of model p.speed) p.cage_number p.channel_number
    ++ described_ports model ps

-- How the speed of a port is read: its value with no effect, or an end without one.
pub data SpeedRead {ℓ} {W : Type ℓ} (w : W) (s : Option (TriState × ℕ))
    (o : Outcome W (TriState × ℕ)) : Type ℓ where
  known : (t : TriState) (bps : ℕ) → s ≡ some (t, bps) → o ≡ ret (t, bps) w → SpeedRead w s o
  unknown : (x : Error) → s ≡ none → o ≡ fail x w → SpeedRead w s o
  nil : o ≡ panic → SpeedRead w s o

read_cases {ℓ} :
    {W : Type ℓ} (w : W) (model : SwitchModel) (a : Option Attribute)
    → lookup (codes "autoneg-starting-bandwidth") model.attribute ≡ a
    → SpeedRead w (starting a) (port_speed model speed_autoneg w)
unfolding port_speed starting_bps
read_cases w model none e = known _ _ refl (rw e refl)
read_cases w model (some a) e = elim (Option-cases a.value) [
  | inl v ↦ nil (rw e (rw v refl))
  | inr (t, v) ↦ elim (Result-cases (parse_uint t)) [
    | inl (x, r) ↦ unknown x (rw v (rw r refl)) (rw e (rw v (rw r refl)))
    | inr (n, r) ↦ known tri_state_true n (rw v (rw r refl)) (rw e (rw v (rw r refl)))
  ]
]

pub speed_cases {ℓ} :
    {W : Type ℓ} (w : W) (model : SwitchModel) (speed : Speed)
    → SpeedRead w (speed_of model speed) (port_speed model speed w)
unfolding port_speed
speed_cases w model unset = known _ _ refl refl
speed_cases w model speed_1g = known _ _ refl refl
speed_cases w model speed_2_5g = known _ _ refl refl
speed_cases w model speed_5g = known _ _ refl refl
speed_cases w model speed_10g = known _ _ refl refl
speed_cases w model speed_25g = known _ _ refl refl
speed_cases w model speed_40g = known _ _ refl refl
speed_cases w model speed_100g = known _ _ refl refl
speed_cases w model speed_400g = known _ _ refl refl
speed_cases w model speed_autoneg = read_cases w model _ refl
