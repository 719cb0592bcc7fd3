-- ===== src/Ebike/Control/Display.antt =====
-- src/ebike/ebike_control.cpp, ServiceDisplay, BatteryBars and WheelPeriod of EbikeControl.
pub mod Answers
use unimoc.Prelude.{
  ℕ, ◌+◌, max, Bool, true, false, ◌&&◌, ◌||◌, Option, none, some, List, [], ◌∷◌, get_or, take, ltb,
  leb, if◌then◌else◌,
}
use unimoc.Units.{Float, ◌⊞◌, ◌⊟◌, ◌⊠◌, ◌⊘◌, ◌≺◌, ◌⪯◌, neg, nought, one, abs_unit, min_unit}
use unimoc.Ebike.Kunteng.{DisplayRequest, push}
use unimoc.Ebike.Kunteng.Status.{
  BatteryLevel, below_empty, ControllerStatus, encode_controller_frame,
}
use unimoc.Ebike.Pedal.{pi}
use unimoc.Ebike.Control.{
  EbikeIo, EbikeParameters, EbikeVehicle, EbikeControl, since, bar_codes, cell_volts,
  bar_hysteresis, bars_max_current, max_wheel_period, max_display_bytes, error_fault, to_us,
}

module _ {F : Type 0} ⦃f : Float F⦄ where
  -- The loop of `BatteryBars` for one of its two levels, from `level` on.
  pub last_level : F → (F → F) → ℕ → List F → ℕ → ℕ
  last_level cell shifted level [] found = found
  last_level cell shifted level (volts ∷ rest) found =
      last_level cell shifted (level + 1) rest (if shifted volts ⪯ cell then level else found)

  pub follow_voltage : ℕ → F → ℕ
  follow_voltage bars cell =
      let rising = last_level cell (λ volts. volts ⊞ bar_hysteresis) 1 cell_volts 0 in
      let falling = last_level cell (λ volts. volts ⊟ bar_hysteresis) 1 cell_volts 0 in
      if ltb bars rising then rising else if ltb falling bars then falling else bars

  pub battery_bars : EbikeControl F → EbikeVehicle F → BatteryLevel × EbikeControl F
  battery_bars c vehicle =
      let cells = f.of_ℕ (max c.parameters.battery_cells 1) in
      let cell = vehicle.dc_link ⊘ one ⊘ cells in
      let light_load =
        vehicle.battery_current ≺ bars_max_current
        && neg bars_max_current ≺ vehicle.battery_current in
      let bars = if light_load then follow_voltage c.bars cell else c.bars in
      (get_or bar_codes bars below_empty, record c { bars = bars })

  pub wheel_period : EbikeParameters F → F → F
  wheel_period parameters motor_speed =
      let speed = abs_unit motor_speed in
      let turn = f.decimal 2 0 ⊠ pi ⊠ parameters.gear_ratio in
      if speed ⪯ nought then max_wheel_period else min_unit (turn ⊘ speed) max_wheel_period

  -- The answer to a request.
  pub status_of : EbikeControl F → EbikeVehicle F → BatteryLevel → ControllerStatus F
  status_of c vehicle level = record {
    battery_level = level;
    nominal_voltage = c.parameters.nominal_voltage;
    wheel_period = wheel_period c.parameters vehicle.motor_speed;
    error_code = if vehicle.faulted || c.latched then error_fault else 0;
    throttle = false;
    cruise = false;
    pas = c.pedal.pedaling;
    brake = false;
    battery_current = vehicle.battery_current;
    motor_temperature = vehicle.motor_temperature;
  }

  -- The end of `ServiceDisplay`.
  unfoldable pub check_display : EbikeControl F → ℕ → EbikeControl F
  check_display c now_us =
      if c.display_alive
        && leb (to_us c.parameters.display_timeout) (since now_us c.last_request_us)
      then record c { display_alive = false }
      else c

  module _ {W : Type 0} (io : EbikeIo F W) where
    -- The rest of the loop body of `ServiceDisplay` after `Push`.
    pub answer :
        EbikeControl F → W → ℕ → EbikeVehicle F → Option DisplayRequest → EbikeControl F × W
    answer c w now_us vehicle none = (c, w)
    answer c w now_us vehicle (some request) =
        let asked = record c {
          request = request;
          last_request_us = now_us;
          display_alive = true;
        } in
        let (level, shown) = battery_bars asked vehicle in
        (shown, io.write_display (encode_controller_frame (status_of asked vehicle level)) w)

    -- The loop of `ServiceDisplay`.
    unfoldable pub take_bytes :
        EbikeControl F → W → ℕ → EbikeVehicle F → List ℕ → EbikeControl F × W
    take_bytes c w now_us vehicle [] = (c, w)
    take_bytes c w now_us vehicle (byte ∷ bytes) =
        let (request, decoder) = push c.decoder byte in
        let (answered, w1) = answer (record c { decoder = decoder }) w now_us vehicle request in
        take_bytes answered w1 now_us vehicle bytes

    unfoldable pub service_display : EbikeControl F → W → ℕ → EbikeVehicle F → EbikeControl F × W
    service_display c w now_us vehicle =
        let (bytes, w1) = io.read_display max_display_bytes w in
        let (answered, w2) = take_bytes c w1 now_us vehicle (take max_display_bytes bytes) in
        (check_display answered now_us, w2)
