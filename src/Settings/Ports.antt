-- ===== src/Settings/Ports.antt =====
-- lib/settings/settings_store.hpp, HasDuplicatePort and HasPortIdCollision: no two enabled ports share a port-ID.
pub mod Distinct
mod Tests
use unimoc.Prelude.{
  ℕ, zero, suc, ◌+◌, ◌≡◌, ◌≢◌, ◌<◌, ◌↔◌, refl, sym, ◌∙◌, Bool, true, false, not, ◌&&◌, ◌||◌, List,
  [], ◌∷◌, inl, inr, leb, ◌==◌, if◌then◌else◌, length, get_or, arith,
}

abbrev pub unset_port_id : ℕ
unset_port_id = 65535

abbrev pub readiness_follows_node_id : ℕ
readiness_follows_node_id = 65534

abbrev pub sub_readiness_base : ℕ
sub_readiness_base = 1024

-- The inner loop of `HasDuplicatePort`: whether an enabled port has a later one of the same port-ID.
pub clashes : ℕ → List ℕ → Bool
clashes port [] = false
clashes port (p ∷ ports) = not (port == unset_port_id) && (port == p) || clashes port ports

pub has_duplicate_port : List ℕ → Bool
has_duplicate_port [] = false
has_duplicate_port (port ∷ ports) = clashes port ports || has_duplicate_port ports

-- `std::find`
pub is_in : ℕ → List ℕ → Bool
is_in port [] = false
is_in port (p ∷ ports) = (p == port) || is_in port ports

-- The node-ID and the port-IDs of `NvmSettings`.
pub record PortSettings : Type 0 where
  pub node_id : ℕ
  pub sub_readiness_id : ℕ
  pub sub_current_setpoint_id : ℕ
  pub sub_torque_setpoint_id : ℕ
  pub sub_speed_setpoint_id : ℕ
  pub sub_position_setpoint_id : ℕ
  pub sub_servo_setpoint_id : ℕ
  pub pub_telemetry_id : ℕ
  pub sub_wheel_command_id : ℕ
  pub sub_pedal_state_id : ℕ
  pub sub_battery_status_id : ℕ
  pub pub_drive_status_id : ℕ
  pub pub_commissioning_id : ℕ
  pub pub_homing_state_id : ℕ
  pub srv_cymon_variables_id : ℕ
  pub srv_cymon_buffer_info_id : ℕ
  pub srv_cymon_setup_id : ℕ
  pub srv_cymon_arm_id : ℕ
  pub srv_cymon_read_id : ℕ
  pub pub_cymon_trigger_id : ℕ
  pub sub_cymon_trigger_id : ℕ

pub effective_readiness_id : ℕ → ℕ → ℕ
effective_readiness_id configured node_id =
    if not (configured == readiness_follows_node_id)
    then configured
    else if leb node_id 127
    then sub_readiness_base + node_id
    else unset_port_id

pub readiness : PortSettings → ℕ
readiness s =
    if (s.node_id == 0) && (s.sub_readiness_id == readiness_follows_node_id)
    then unset_port_id
    else effective_readiness_id s.sub_readiness_id s.node_id

pub subjects : PortSettings → List ℕ
subjects s =
    readiness s
    ∷ s.sub_current_setpoint_id
    ∷ s.sub_torque_setpoint_id
    ∷ s.sub_speed_setpoint_id
    ∷ s.sub_position_setpoint_id
    ∷ s.sub_servo_setpoint_id
    ∷ s.pub_telemetry_id
    ∷ s.sub_wheel_command_id
    ∷ s.sub_pedal_state_id
    ∷ s.sub_battery_status_id
    ∷ s.pub_drive_status_id
    ∷ s.pub_commissioning_id
    ∷ s.pub_homing_state_id
    ∷ []

pub services : PortSettings → List ℕ
services s =
    s.srv_cymon_variables_id ∷ s.srv_cymon_buffer_info_id ∷ s.srv_cymon_setup_id
    ∷ s.srv_cymon_arm_id ∷ s.srv_cymon_read_id ∷ []

pub on_subject : List ℕ → ℕ → Bool
on_subject ports port = not (port == unset_port_id) && is_in port ports

pub has_port_id_collision : PortSettings → Bool
has_port_id_collision s =
    has_duplicate_port (subjects s)
    || has_duplicate_port (services s)
    || on_subject (subjects s) s.pub_cymon_trigger_id
    || on_subject (subjects s) s.sub_cymon_trigger_id
