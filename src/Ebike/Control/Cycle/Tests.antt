-- ===== src/Ebike/Control/Cycle/Tests.antt =====
-- EbikeControl over integers, on hardware that keeps the frames written to the display.
use unimoc.Prelude.{ℕ, ◌<◌, ◌≡◌, ◌↔◌, ◌⊎◌, refl, true, false, List, [], ◌∷◌, take, All, arith}
use unimoc.Prelude.Int.{ℤ, pos}
use unimoc.Units.Integers.{integers}
use unimoc.Ebike.Kunteng.{receive}
use unimoc.Ebike.Kunteng
use unimoc.Ebike.Pedal.{PedalObserverConfig}
use unimoc.Ebike.Pedal
use unimoc.Ebike.Assist.{AssistConfig}
use unimoc.Ebike.Control.{
  EbikeIo, EbikeParameters, EbikeVehicle, EbikeControl, no_request, new, configure, inhibit, since,
  to_us, seconds,
}
use unimoc.Ebike.Control.Display.{service_display, take_bytes, check_display}
use unimoc.Ebike.Control.Display.Answers.{IsKept, Answered, newest, service_display_answers}
use unimoc.Ebike.Control.Cycle.{
  wants, is_early, update, elapsed_us, start, observe, read_pedal, engagement, latch_fault, rearm,
  hold_wanting, drive,
}
use unimoc.Ebike.Control.Cycle.Engage.{IsBlocked, IsRiding, IsHeld, run, update_engages, run-IsHeld}

abbrev pedal : PedalObserverConfig ℤ
pedal = record {
  pulses_per_rev = 4;
  angle_variance = pos 1;
  cadence_noise = pos 1;
  stop_timeout = pos 9;
  torque_time_constant = pos 1;
  zero_offset = pos 0;
  zero_window = pos 5;
  zero_hold = pos 2;
  zero_time_constant = pos 1;
}

abbrev assist : AssistConfig ℤ
assist = record {
  level_gain = pos 0 ∷ pos 1 ∷ pos 2 ∷ [];
  power_scale = pos 300;
  max_ratio = pos 4;
  torque_ratio = pos 1;
  torque_deadband = pos 2;
  min_cadence = pos 2;
  speed_taper = pos 20;
  rise_time = pos 1;
  fall_time = pos 1;
}

abbrev parameters : EbikeParameters ℤ
parameters = record {
  pedal = pedal;
  assist = assist;
  engage_hold = pos 2;
  rearm_pedal_stop = pos 1;
  display_timeout = pos 2;
  wheel_circumference_m = pos 2;
  gear_ratio = pos 1;
  battery_cells = 10;
  nominal_voltage = 36;
  reversed = false;
}

abbrev vehicle : EbikeVehicle ℤ
vehicle = record {
  motor_speed = pos 4;
  torque_min = pos 0;
  torque_max = pos 30;
  dc_link = pos 36;
  battery_current = pos 1;
  motor_temperature = pos 20;
  engaged = false;
  faulted = true;
}

-- A request at level 3 with the light on.
abbrev request : List ℕ
request = Kunteng.encode_display_request (record no_request { assist_level = 3; light = true }) 10

abbrev io : EbikeIo ℤ (List (List ℕ))
io = record {
  read_crank_torque = λ w. (pos 10, w);
  read_cadence_pulses = λ n w. (pos 0 ∷ [], w);
  read_display = λ n w. (request, w);
  write_display = λ frame w. frame ∷ w;
}

abbrev same_angle : ℤ → ℤ
same_angle angle = angle

abbrev bike : EbikeControl ℤ
bike = configure new parameters

service_display_answers_example :
    let (requests, decoder) = receive bike.decoder (take 16 request) in
    let (n, w') = service_display io bike [] 5000 vehicle in
    (n.decoder ≡ decoder)
    × (n.request ≡ newest bike.request requests)
    × IsKept n bike
    × Answered io bike vehicle [] requests w'
service_display_answers_example = service_display_answers io 5000 vehicle bike []

update_engages_example :
    let (output, (n, w1)) = update same_angle io bike [] 5000 vehicle in
    ((is_early bike 5000 ≡ true)
      × (update same_angle io bike [] 5000 vehicle ≡ (bike.output, (bike, []))))
    ⊎ ((is_early bike 5000 ≡ false)
        × ((n.latched ≡ true) ↔ (
            IsBlocked n 5000
            × ((bike.latched ≡ true)
                ⊎ ((true ≡ true)
                    × ((bike.wanting ≡ true) ⊎ (bike.was_engaged ≡ true) ⊎ (wants n ≡ true))))))
        × ((output.engage ≡ true) ↔ (
            (n.latched ≡ false)
            × ((wants n ≡ true)
                ⊎ ((bike.wanting ≡ true)
                    × (since 5000 bike.last_want_us < to_us bike.parameters.engage_hold))))))
update_engages_example = update_engages same_angle io bike [] 5000 vehicle

-- A drive that was taken off the e-bike, on hardware where nothing happens.
abbrev inhibited : EbikeControl ℤ
inhibited = inhibit bike

abbrev quiet : EbikeIo ℤ (List (List ℕ))
quiet = record {
  read_crank_torque = λ w. (pos 0, w);
  read_cadence_pulses = λ n w. ([], w);
  read_display = λ n w. ([], w);
  write_display = λ frame w. frame ∷ w;
}

abbrev inputs : List (ℕ × EbikeVehicle ℤ)
inputs = (5000, vehicle) ∷ (7000, vehicle) ∷ []

rides : All (IsRiding same_angle quiet) (run same_angle quiet inhibited [] inputs)
unfolding inhibit new configure update is_early elapsed_us start observe read_pedal service_display
    take_bytes check_display engagement latch_fault rearm hold_wanting wants drive to_us seconds
    Pedal.new Pedal.reset_crank Pedal.step Pedal.take_pulses Pedal.predict Pedal.take_torque
    Pedal.trim_zero
rides = (ground arith, (ground arith, tt))

run-IsHeld_example :
    IsHeld same_angle quiet inhibited inputs (run same_angle quiet inhibited [] inputs)
unfolding inhibit new configure
run-IsHeld_example = run-IsHeld same_angle quiet inhibited [] inputs refl rides

-- Inhibit keeps the output, so an early update after it still asks for the engaged drive.
abbrev engaged : EbikeControl ℤ
engaged = record bike {
  started = true;
  last_update_us = 5000;
  output = record { engage = true; torque = pos 0; light = false };
}

early_after_inhibit : (update same_angle quiet (inhibit engaged) [] 5100 vehicle).0.engage ≡ true
unfolding inhibit update is_early new configure
early_after_inhibit = refl
