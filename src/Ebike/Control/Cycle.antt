-- ===== src/Ebike/Control/Cycle.antt =====
-- src/ebike/ebike_control.cpp, EbikeControl::Update. The engagement of the drive is a part of its own.
mod Latch
mod Engage
mod Tests
use unimoc.Prelude.{ℕ, min, Bool, true, false, not, ◌&&◌, ◌||◌, take, ltb, leb, if◌then◌else◌}
use unimoc.Units.{Float, ◌⊠◌, neg}
use unimoc.Ebike.Pedal.{cadence, mean_torque_of}
use unimoc.Ebike.Pedal
use unimoc.Ebike.Assist.{AssistInput}
use unimoc.Ebike.Assist
use unimoc.Ebike.Control.{
  EbikeIo, EbikeVehicle, EbikeOutput, EbikeControl, step_us, max_step_us, max_pulses_per_update,
  since, to_us, seconds,
}
use unimoc.Ebike.Control.Display.{service_display}

module _ {F : Type 0} ⦃f : Float F⦄ where
  -- The engagement part of `Update`, after the pedals and the display.
  pub wants : EbikeControl F → Bool
  wants c = c.display_alive && ltb 0 c.request.assist_level && c.pedal.pedaling

  pub latch_fault : EbikeControl F → EbikeVehicle F → EbikeControl F
  latch_fault c vehicle =
      if vehicle.faulted && (c.wanting || c.was_engaged || wants c)
      then record c { latched = true }
      else c

  pub rearm : EbikeControl F → ℕ → EbikeControl F
  rearm c now_us =
      if c.latched
        && leb (to_us c.parameters.rearm_pedal_stop) (since now_us c.pedal_still_since_us)
      then record c { latched = false }
      else c

  pub hold_wanting : EbikeControl F → ℕ → EbikeControl F
  hold_wanting c now_us =
      let over = leb (to_us c.parameters.engage_hold) (since now_us c.last_want_us) in
      if wants c && not c.latched
      then record c { wanting = true; last_want_us = now_us }
      else if c.wanting && (c.latched || over)
      then record c { wanting = false }
      else c

  pub engagement : EbikeControl F → ℕ → EbikeVehicle F → EbikeControl F
  engagement c now_us vehicle =
      let noted = if c.pedal.pedaling then record c { pedal_still_since_us = now_us } else c in
      record (hold_wanting (rearm (latch_fault noted vehicle) now_us) now_us) {
        was_engaged = vehicle.engaged;
      }

  -- The input of the assist law; the level is zero while the drive is not wanted.
  pub assist_input : EbikeControl F → EbikeVehicle F → AssistInput F
  assist_input c vehicle =
      let reversed = c.parameters.reversed in
      record {
        pedaling = c.pedal.pedaling;
        cadence = cadence c.pedal;
        pedal_torque = mean_torque_of c.pedal;
        motor_speed = if reversed then neg vehicle.motor_speed else vehicle.motor_speed;
        speed_limit = c.motor_speed_per_kmh ⊠ f.of_ℕ c.request.max_speed;
        torque_limit = if reversed then neg vehicle.torque_min else vehicle.torque_max;
        level =
            if not c.wanting || c.latched
            then 0
            else if c.display_alive
            then c.request.assist_level
            else 0;
      }

  pub drive : EbikeControl F → F → EbikeVehicle F → EbikeOutput F × EbikeControl F
  drive c dt vehicle =
      let assist = Assist.step c.assist dt (assist_input c vehicle) in
      let output : EbikeOutput F = record {
        engage = c.wanting && not c.latched;
        torque = if c.parameters.reversed then neg assist.torque else assist.torque;
        light = c.display_alive && c.request.light;
      } in
      (output, record c { assist = assist; output = output })

  pub is_early : EbikeControl F → ℕ → Bool
  is_early c now_us = c.started && ltb (since now_us c.last_update_us) step_us

  pub elapsed_us : EbikeControl F → ℕ → ℕ
  elapsed_us c now_us =
      if c.started then min (since now_us c.last_update_us) max_step_us else step_us

  pub start : EbikeControl F → ℕ → EbikeControl F
  start c now_us =
      let begun =
        if c.started then c else record c { started = true; pedal_still_since_us = now_us } in
      record begun { last_update_us = now_us }

  module _ (wrap_angle : F → F) {W : Type 0} (io : EbikeIo F W) where
    pub read_pedal : EbikeControl F → W → F → EbikeControl F × W
    read_pedal c w dt =
        let (ages, w1) = io.read_cadence_pulses max_pulses_per_update w in
        let (torque, w2) = io.read_crank_torque w1 in
        (
          record c {
            pedal = Pedal.step wrap_angle c.pedal dt torque (take max_pulses_per_update ages);
          },
          w2,
        )

    -- The part of `Update` before the engagement.
    pub observe : EbikeControl F → W → ℕ → EbikeVehicle F → EbikeControl F × W
    observe c w now_us vehicle =
        let dt = seconds (elapsed_us c now_us) in
        let (read, w1) = read_pedal (start c now_us) w dt in
        service_display io read w1 now_us vehicle

    pub update : EbikeControl F → W → ℕ → EbikeVehicle F → EbikeOutput F × (EbikeControl F × W)
    update c w now_us vehicle =
        let dt = seconds (elapsed_us c now_us) in
        let (observed, w1) = observe c w now_us vehicle in
        let (output, driven) = drive (engagement observed now_us vehicle) dt vehicle in
        if is_early c now_us then (c.output, (c, w)) else (output, (driven, w1))
