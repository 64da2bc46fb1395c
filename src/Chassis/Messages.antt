-- ===== src/Chassis/Messages.antt =====
-- The getters of the generated messages in pkg/stratum_hal/common.pb.go that the adapter fills, and
-- the names of their enumerations: a getter reads a nil message as the zero value of the field.
use fabric_adapter.Base.{
  ℕ, ◌≡◌, refl, Option, none, some, List, [], Text, codes, text_eq, text_eqb, ◌==◌, if◌then◌else◌,
}
use fabric_adapter.Chassis.{
  TriState, tri_state_unknown, tri_state_true, tri_state_false, AdminState, admin_state_unknown,
  admin_state_enabled, admin_state_disabled, admin_state_diag, Platform, plt_unknown,
  PortConfigParams, SingletonPort, Node, Chassis, ChassisConfig,
}

-- `if m != nil { return m.Field }; return zero`
abbrev field {ℓ κ} : {A : Type ℓ} {B : Type κ} → (A → B) → B → Option A → B
field f zero none = zero
field f zero (some m) = f m

-- `PortConfigParams`
abbrev pub get_port_config_params_admin_state : Option PortConfigParams → AdminState
get_port_config_params_admin_state = field (λ m. m.admin_state) admin_state_unknown

abbrev pub get_port_config_params_autoneg : Option PortConfigParams → TriState
get_port_config_params_autoneg = field (λ m. m.autoneg) tri_state_unknown

-- `SingletonPort`
abbrev pub get_singleton_port_id : Option SingletonPort → ℕ
get_singleton_port_id = field (λ m. m.id) 0

abbrev pub get_singleton_port_name : Option SingletonPort → Text
get_singleton_port_name = field (λ m. m.name) []

abbrev pub get_singleton_port_slot : Option SingletonPort → ℕ
get_singleton_port_slot = field (λ m. m.slot) 0

abbrev pub get_singleton_port_port : Option SingletonPort → ℕ
get_singleton_port_port = field (λ m. m.port) 0

abbrev pub get_singleton_port_channel : Option SingletonPort → ℕ
get_singleton_port_channel = field (λ m. m.channel) 0

abbrev pub get_singleton_port_speed_bps : Option SingletonPort → ℕ
get_singleton_port_speed_bps = field (λ m. m.speed_bps) 0

abbrev pub get_singleton_port_node : Option SingletonPort → ℕ
get_singleton_port_node = field (λ m. m.node) 0

abbrev pub get_singleton_port_config_params : Option SingletonPort → Option PortConfigParams
get_singleton_port_config_params = field (λ m. some m.config_params) none

-- `Node`
abbrev pub get_node_id : Option Node → ℕ
get_node_id = field (λ m. m.id) 0

abbrev pub get_node_slot : Option Node → ℕ
get_node_slot = field (λ m. m.slot) 0

abbrev pub get_node_index : Option Node → ℕ
get_node_index = field (λ m. m.index) 0

-- `Chassis`
abbrev pub get_chassis_platform : Option Chassis → Platform
get_chassis_platform = field (λ m. m.platform) plt_unknown

abbrev pub get_chassis_name : Option Chassis → Text
get_chassis_name = field (λ m. m.name) []

-- `ChassisConfig`
abbrev pub get_chassis_config_description : Option ChassisConfig → Text
get_chassis_config_description = field (λ m. m.description) []

abbrev pub get_chassis_config_nodes : Option ChassisConfig → List Node
get_chassis_config_nodes = field (λ m. m.nodes) []

abbrev pub get_chassis_config_singleton_ports : Option ChassisConfig → List SingletonPort
get_chassis_config_singleton_ports = field (λ m. m.singleton_ports) []

abbrev pub get_chassis_config_chassis : Option ChassisConfig → Option Chassis
get_chassis_config_chassis = field (λ m. m.chassis) none

-- `TriState_name` and `TriState_value`
unfoldable pub tri_state_name : TriState → Text
tri_state_name tri_state_unknown = codes "TRI_STATE_UNKNOWN"
tri_state_name tri_state_true = codes "TRI_STATE_TRUE"
tri_state_name tri_state_false = codes "TRI_STATE_FALSE"

unfoldable pub tri_state_value : Text → Option TriState
tri_state_value name =
    if name == codes "TRI_STATE_UNKNOWN"
    then some tri_state_unknown
    else if name == codes "TRI_STATE_TRUE"
    then some tri_state_true
    else if name == codes "TRI_STATE_FALSE"
    then some tri_state_false
    else none

-- The name of a value reads back as that value.
pub tri_state_value-tri_state_name : (x : TriState) → tri_state_value (tri_state_name x) ≡ some x
unfolding tri_state_value tri_state_name text_eqb
tri_state_value-tri_state_name tri_state_unknown = refl
tri_state_value-tri_state_name tri_state_true = refl
tri_state_value-tri_state_name tri_state_false = refl

-- `AdminState_name` and `AdminState_value`
unfoldable pub admin_state_name : AdminState → Text
admin_state_name admin_state_unknown = codes "ADMIN_STATE_UNKNOWN"
admin_state_name admin_state_enabled = codes "ADMIN_STATE_ENABLED"
admin_state_name admin_state_disabled = codes "ADMIN_STATE_DISABLED"
admin_state_name admin_state_diag = codes "ADMIN_STATE_DIAG"

unfoldable pub admin_state_value : Text → Option AdminState
admin_state_value name =
    if name == codes "ADMIN_STATE_UNKNOWN"
    then some admin_state_unknown
    else if name == codes "ADMIN_STATE_ENABLED"
    then some admin_state_enabled
    else if name == codes "ADMIN_STATE_DISABLED"
    then some admin_state_disabled
    else if name == codes "ADMIN_STATE_DIAG"
    then some admin_state_diag
    else none

-- The name of a value reads back as that value.
pub admin_state_value-admin_state_name :
    (x : AdminState) → admin_state_value (admin_state_name x) ≡ some x
unfolding admin_state_value admin_state_name text_eqb
admin_state_value-admin_state_name admin_state_unknown = refl
admin_state_value-admin_state_name admin_state_enabled = refl
admin_state_value-admin_state_name admin_state_disabled = refl
admin_state_value-admin_state_name admin_state_diag = refl
