-- ===== src/Settings/Ports/Tests.antt =====
-- The factory ports of a drive with the node-ID 5, which do not collide.
use unimoc.Prelude.{◌≡◌, ◌↔◌, false}
use unimoc.Settings.Ports.{PortSettings, has_port_id_collision, subjects, services}
use unimoc.Settings.Ports.Distinct.{IsDistinct, IsOff, has_port_id_collision_lem}

abbrev factory : PortSettings
factory = record {
  node_id = 5;
  sub_readiness_id = 65534;
  sub_current_setpoint_id = 107;
  sub_torque_setpoint_id = 100;
  sub_speed_setpoint_id = 101;
  sub_position_setpoint_id = 102;
  sub_servo_setpoint_id = 108;
  pub_telemetry_id = 110;
  sub_wheel_command_id = 65535;
  sub_pedal_state_id = 65535;
  sub_battery_status_id = 65535;
  pub_drive_status_id = 65535;
  pub_commissioning_id = 111;
  pub_homing_state_id = 112;
  srv_cymon_variables_id = 256;
  srv_cymon_buffer_info_id = 257;
  srv_cymon_setup_id = 258;
  srv_cymon_arm_id = 259;
  srv_cymon_read_id = 260;
  pub_cymon_trigger_id = 120;
  sub_cymon_trigger_id = 120;
}

has_port_id_collision_lem_example : (has_port_id_collision factory ≡ false) ↔ (
    IsDistinct (subjects factory)
    × IsDistinct (services factory)
    × IsOff (subjects factory) 120
    × IsOff (subjects factory) 120)
has_port_id_collision_lem_example = has_port_id_collision_lem factory
