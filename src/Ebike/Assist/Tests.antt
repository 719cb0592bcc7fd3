-- ===== src/Ebike/Assist/Tests.antt =====
-- AssistController over integers.
use unimoc.Prelude.{ℕ, zero, suc, ◌≡◌, refl, true, [], ◌∷◌, get_or}
use unimoc.Prelude.Int.{ℤ, pos}
use unimoc.Units.{◌⊞◌, ◌⊟◌, nought, max_unit, min_unit, abs_unit, std_clamp}
use unimoc.Units.Laws.{◌≼◌}
use unimoc.Units.Integers.{integers, integers-IsOrdered, integers-IsRounded}
use unimoc.Ebike.Assist.{
  AssistConfig, AssistInput, AssistController, step, rise, fall, is_off, demand, driving, level_of,
  assist_ratio, speed_ratio, fade, target,
}
use unimoc.Ebike.Assist.Law.{IsSound, IsMeasured, step_torque}

abbrev config : AssistConfig ℤ
config = record {
  level_gain = pos 0 ∷ pos 1 ∷ pos 2 ∷ pos 3 ∷ [];
  power_scale = pos 300;
  max_ratio = pos 4;
  torque_ratio = pos 1;
  torque_deadband = pos 2;
  min_cadence = pos 2;
  speed_taper = pos 20;
  rise_time = pos 1;
  fall_time = pos 1;
}

abbrev input : AssistInput ℤ
input = record {
  pedaling = true;
  cadence = pos 6;
  pedal_torque = pos 20;
  motor_speed = pos 4;
  speed_limit = pos 50;
  torque_limit = pos 30;
  level = 2;
}

abbrev ready : AssistController ℤ
ready = record { config = config; torque = pos 10; ratio = pos 0 }

assists : (step ready (pos 1) input).torque ≡ pos 30
unfolding step target is_off demand driving level_of assist_ratio speed_ratio fade rise max_unit
    min_unit abs_unit std_clamp
assists = refl

gains : (level : ℕ) → pos 0 ≼ get_or config.level_gain level (pos 0)
gains zero = refl
gains (suc zero) = refl
gains (suc (suc zero)) = refl
gains (suc (suc (suc zero))) = refl
gains (suc (suc (suc (suc n)))) = refl

config-IsSound : IsSound config
config-IsSound = record { gain = gains; ratio = refl; torque_ratio = refl; cadence = refl }

input-IsMeasured : IsMeasured config input
unfolding demand driving level_of assist_ratio speed_ratio fade min_unit abs_unit std_clamp
input-IsMeasured = record {
  cadence = refl;
  motor_speed = refl;
  torque_limit = refl;
  demand_number = refl;
}

step_torque_example :
    let torque = (step ready (pos 1) input).torque in
    (pos 0 ≼ torque)
    × (torque ≼ max_unit (pos 10) (max_unit (pos 30) nought))
    × (torque ≼ pos 10 ⊞ rise ready (pos 1) input)
    × (pos 10 ⊟ fall ready (pos 1) input ≼ torque)
    × (is_off config input ≡ true → torque ≼ pos 10)
unfolding rise fall max_unit
step_torque_example =
    step_torque integers-IsOrdered integers-IsRounded ready (pos 1) input config-IsSound
      input-IsMeasured refl refl refl refl
