-- ===== src/Ebike/Kunteng/Status/Tests.antt =====
-- A status frame over integers.
use unimoc.Prelude.{◌+◌, ◌*◌, ◌≡◌, bit_and, true, false, not, get_or, length, ◌==◌, arith}
use unimoc.Prelude.Int.{ℤ, pos}
use unimoc.Units.Integers.{integers}
use unimoc.Ebike.Kunteng.{xor_except}
use unimoc.Ebike.Kunteng.Status.{ControllerStatus, three_bars, period, encode_controller_frame}
use unimoc.Ebike.Kunteng.Status.Frame.{controller_frame_lem}

abbrev status : ControllerStatus ℤ
status = record {
  battery_level = three_bars;
  nominal_voltage = 36;
  wheel_period = pos 2;
  error_code = 0;
  throttle = false;
  cruise = false;
  pas = true;
  brake = true;
  battery_current = pos 5;
  motor_temperature = pos 40;
}

controller_frame_lem_example :
    let frame = encode_controller_frame status in
    (length frame ≡ 12)
    × (get_or frame 0 0 ≡ 65)
    × (xor_except frame 0 ≡ 0)
    × (get_or frame 3 0 * 256 + get_or frame 4 0 ≡ period (pos 2))
    × (get_or frame 2 0 ≡ 36)
    × (get_or frame 5 0 ≡ 0)
    × (not (bit_and (get_or frame 7 0) 2 == 0) ≡ false)
    × (not (bit_and (get_or frame 7 0) 8 == 0) ≡ false)
    × (not (bit_and (get_or frame 7 0) 16 == 0) ≡ true)
    × (not (bit_and (get_or frame 7 0) 32 == 0) ≡ true)
controller_frame_lem_example =
    controller_frame_lem status (record { voltage_byte = omega arith; error_byte = omega arith })
