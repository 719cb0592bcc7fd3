-- ===== src/Ebike/Control.antt =====
-- src/ebike/ebike_control.hpp and ebike_control.cpp, class EbikeControl, over the hardware access EbikeIo of
-- hardware/ebike_interface.hpp. Times are `uint64_t` microseconds, so their differences wrap at 2 ^ 64; a
-- method takes the object and the hardware and returns them changed.
pub mod Display
pub mod Cycle
use unimoc.Prelude.{
  ℕ, zero, suc, ◌+◌, ◌-◌, ◌%◌, ◌^◌, min, max, Bool, true, false, not, ◌&&◌, ◌||◌, Option, none,
  some, List, [], ◌∷◌, get_or, take, replicate, ltb, leb, if◌then◌else◌,
}
use unimoc.Units.{
  Float, ◌⊞◌, ◌⊟◌, ◌⊠◌, ◌⊘◌, ◌≺◌, ◌⪯◌, neg, nought, one, abs_unit, min_unit, max_unit,
}
use unimoc.Ebike.Kunteng.{DisplayDecoder, DisplayRequest, display_frame_size, push}
use unimoc.Ebike.Kunteng.Status.{
  BatteryLevel, below_empty, empty, one_bar, two_bars, three_bars, four_bars, ControllerStatus,
  encode_controller_frame,
}
use unimoc.Ebike.Pedal.{PedalObserver, PedalObserverConfig, pi, cadence, mean_torque_of}
use unimoc.Ebike.Pedal
use unimoc.Ebike.Assist.{AssistController, AssistConfig, AssistInput}
use unimoc.Ebike.Assist
use unimoc.Ebike.Kunteng

-- `W` is the state of the hardware; a read takes the size of its buffer.
pub record EbikeIo (F W : Type 0) : Type 0 where
  pub read_crank_torque : W → F × W
  pub read_cadence_pulses : ℕ → W → List F × W
  pub read_display : ℕ → W → List ℕ × W
  pub write_display : List ℕ → W → W

pub record EbikeParameters (F : Type 0) : Type 0 where
  pub pedal : PedalObserverConfig F
  pub assist : AssistConfig F
  pub engage_hold : F
  pub rearm_pedal_stop : F
  pub display_timeout : F
  pub wheel_circumference_m : F
  pub gear_ratio : F
  pub battery_cells : ℕ
  pub nominal_voltage : ℕ
  pub reversed : Bool

pub record EbikeVehicle (F : Type 0) : Type 0 where
  pub motor_speed : F
  pub torque_min : F
  pub torque_max : F
  pub dc_link : F
  pub battery_current : F
  pub motor_temperature : F
  pub engaged : Bool
  pub faulted : Bool

pub record EbikeOutput (F : Type 0) : Type 0 where
  pub engage : Bool
  pub torque : F
  pub light : Bool

pub record EbikeControl (F : Type 0) : Type 0 where
  pub parameters : EbikeParameters F
  pub motor_speed_per_kmh : F
  pub pedal : PedalObserver F
  pub assist : AssistController F
  pub decoder : DisplayDecoder
  pub request : DisplayRequest
  pub started : Bool
  pub last_update_us : ℕ
  pub last_request_us : ℕ
  pub display_alive : Bool
  pub output : EbikeOutput F
  pub wanting : Bool
  pub last_want_us : ℕ
  pub latched : Bool
  pub pedal_still_since_us : ℕ
  pub was_engaged : Bool
  pub bars : ℕ

abbrev pub step_us : ℕ
step_us = 1000

abbrev pub max_step_us : ℕ
max_step_us = 20000

abbrev pub max_pulses_per_update : ℕ
max_pulses_per_update = 8

abbrev pub max_display_bytes : ℕ
max_display_bytes = 16

abbrev pub error_fault : ℕ
error_fault = 1

abbrev pub since : ℕ → ℕ → ℕ
since now at = (now + 2 ^ 64 - at) % 2 ^ 64

abbrev pub bar_codes : List BatteryLevel
bar_codes = below_empty ∷ empty ∷ one_bar ∷ two_bars ∷ three_bars ∷ four_bars ∷ []

abbrev pub no_request : DisplayRequest
no_request = record {
  assist_level = 0;
  light = false;
  wheel_size_code = 0;
  max_speed = 0;
  motor_characteristic = 0;
  power_assist_mode = false;
  max_current_code = 0;
  raw = replicate display_frame_size 0;
}

module _ {F : Type 0} ⦃f : Float F⦄ where
  -- The thresholds of `kCellVolts` from index 1 on.
  abbrev pub cell_volts : List F
  cell_volts =
      f.decimal 315 2 ∷ f.decimal 335 2 ∷ f.decimal 355 2 ∷ f.decimal 375 2 ∷ f.decimal 395 2 ∷ []

  abbrev pub bar_hysteresis : F
  bar_hysteresis = f.decimal 5 2

  abbrev pub bars_max_current : F
  bars_max_current = f.decimal 2 0

  -- `65'535.0_ms`, converted to seconds.
  abbrev pub max_wheel_period : F
  max_wheel_period = f.decimal 65535 0 ⊠ one ⊘ f.decimal 1000 0 ⊠ one ⊘ one

  -- `static_cast<uint64_t>(time.Value() * 1e6F)`
  pub to_us : F → ℕ
  to_us time = f.to_ℕ (time ⊠ f.decimal 1000000 0)

  pub seconds : ℕ → F
  seconds duration_us = f.of_ℕ duration_us ⊠ f.decimal 1 6

  abbrev pub no_output : EbikeOutput F
  no_output = record { engage = false; torque = nought; light = false }

  pub speed_per_kmh : EbikeParameters F → F
  speed_per_kmh parameters =
      f.decimal 2 0
      ⊠ pi
      ⊠ parameters.gear_ratio
      ⊘ (max_unit parameters.wheel_circumference_m (f.decimal 1 1) ⊠ f.decimal 36 1)

  pub configure : EbikeControl F → EbikeParameters F → EbikeControl F
  configure c parameters = record c {
    parameters = parameters;
    pedal = Pedal.new parameters.pedal;
    assist = Assist.new parameters.assist;
    motor_speed_per_kmh = speed_per_kmh parameters;
    wanting = false;
    latched = false;
    output = no_output;
  }

  -- The defaults of the members of `EbikeParameters`.
  abbrev pub default_parameters : EbikeParameters F
  default_parameters = record {
    pedal = record {
      pulses_per_rev = 36;
      angle_variance = f.decimal 3 4;
      cadence_noise = f.of_ℕ 100;
      stop_timeout = f.decimal 5 1;
      torque_time_constant = f.decimal 20 3;
      zero_offset = nought;
      zero_window = f.of_ℕ 3;
      zero_hold = one;
      zero_time_constant = f.of_ℕ 30;
    };
    assist = record {
      level_gain =
          nought
          ∷ f.decimal 3 1
          ∷ f.decimal 6 1
          ∷ one
          ∷ f.decimal 15 1
          ∷ f.of_ℕ 2
          ∷ f.of_ℕ 2
          ∷ f.of_ℕ 2
          ∷ [];
      power_scale = f.of_ℕ 300;
      max_ratio = f.of_ℕ 4;
      torque_ratio = f.decimal 5 1;
      torque_deadband = f.of_ℕ 2;
      min_cadence = f.of_ℕ 2;
      speed_taper = f.of_ℕ 20;
      rise_time = f.decimal 5 1;
      fall_time = f.decimal 15 2;
    };
    engage_hold = f.of_ℕ 2;
    rearm_pedal_stop = one;
    display_timeout = f.of_ℕ 2;
    wheel_circumference_m = f.decimal 21 1;
    gear_ratio = one;
    battery_cells = 10;
    nominal_voltage = 36;
    reversed = false;
  }

  pub new : EbikeControl F
  new =
      configure
        (record {
          parameters = default_parameters;
          motor_speed_per_kmh = nought;
          pedal = Pedal.new default_parameters.pedal;
          assist = Assist.new default_parameters.assist;
          decoder = Kunteng.new;
          request = no_request;
          started = false;
          last_update_us = 0;
          last_request_us = 0;
          display_alive = false;
          output = no_output;
          wanting = false;
          last_want_us = 0;
          latched = false;
          pedal_still_since_us = 0;
          was_engaged = false;
          bars = 5;
        })
        default_parameters

  pub inhibit : EbikeControl F → EbikeControl F
  inhibit c = record c { latched = true; wanting = false }
