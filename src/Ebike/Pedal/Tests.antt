-- ===== src/Ebike/Pedal/Tests.antt =====
-- PedalObserver over integers, with an angle that is never wrapped.
use unimoc.Prelude.{◌≡◌, refl, true, false, [], ◌∷◌}
use unimoc.Prelude.Int.{ℤ, pos}
use unimoc.Units.{◌≺◌, neg, std_clamp}
use unimoc.Units.Integers.{integers}
use unimoc.Ebike.Pedal.{
  PedalObserver, PedalObserverConfig, new, reset_crank, predict, limit_cadence, spread, first_pulse,
  next_pulse, fuse_angle, on_pulse, finish_bin, closed_bin, bin_mean, bin_total, take_pulses,
  take_torque, trim_zero, step, mean_torque_of,
}
use unimoc.Ebike.Pedal.Invariant.{IsValid, new-IsValid, step-IsValid}
use unimoc.Ebike.Pedal.Offset.{step_zero_offset}

abbrev config : PedalObserverConfig ℤ
config = record {
  pulses_per_rev = 4;
  angle_variance = pos 1;
  cadence_noise = pos 1;
  stop_timeout = pos 9;
  torque_time_constant = pos 1;
  zero_offset = pos 0;
  zero_window = pos 5;
  zero_hold = pos 2;
  zero_time_constant = pos 1;
}

abbrev same_angle : ℤ → ℤ
same_angle angle = angle

-- One pulse at the end of each step.
abbrev pedal : PedalObserver ℤ → ℤ → PedalObserver ℤ
pedal o torque = step same_angle o (pos 2) torque (pos 0 ∷ [])

abbrev started : PedalObserver ℤ
started = pedal (new config) (pos 8)

-- The mean of the last two bins.
averages : mean_torque_of (pedal (pedal (pedal started (pos 4)) (pos 10)) (pos 0)) ≡ pos 7
unfolding new reset_crank predict limit_cadence spread first_pulse next_pulse fuse_angle on_pulse
    finish_bin closed_bin bin_mean bin_total take_pulses take_torque trim_zero step mean_torque_of
    std_clamp
averages = refl

step-IsValid_example : IsValid started
step-IsValid_example =
    step-IsValid same_angle (new config) (pos 2) (pos 8) (pos 0 ∷ []) (new-IsValid config)

-- A reading near the offset moves it after a pause.
step_zero_offset_example :
    let n = step same_angle (new config) (pos 3) (pos 4) [] in
    (n.pedaling ≡ false)
    × ((n.still_time ≺ pos 2) ≡ false)
    × ((neg (pos 5) ≺ pos 4) ≡ true)
    × ((pos 4 ≺ pos 5) ≡ true)
unfolding new reset_crank predict take_pulses take_torque trim_zero step
step_zero_offset_example = step_zero_offset same_angle (new config) (pos 3) (pos 4) [] (λ e. cc)
