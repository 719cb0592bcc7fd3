-- ===== src/Ebike/Assist.antt =====
-- lib/ebike/src/assist_controller.hpp, class AssistController. `Step` returns the new state, whose `torque` is
-- its result.
mod Ramp
mod Law
mod Tests
use unimoc.Prelude.{ℕ, ◌-◌, Bool, true, false, not, ◌||◌, List, get_or, min, ◌==◌, if◌then◌else◌}
use unimoc.Units.{
  Float, ◌⊞◌, ◌⊟◌, ◌⊠◌, ◌⊘◌, ◌≺◌, ◌⪯◌, neg, nought, one, abs_unit, min_unit, max_unit, std_clamp,
}

abbrev pub assist_levels : ℕ
assist_levels = 8

pub record AssistConfig (F : Type 0) : Type 0 where
  pub level_gain : List F
  pub power_scale : F
  pub max_ratio : F
  pub torque_ratio : F
  pub torque_deadband : F
  pub min_cadence : F
  pub speed_taper : F
  pub rise_time : F
  pub fall_time : F

pub record AssistInput (F : Type 0) : Type 0 where
  pub pedaling : Bool
  pub cadence : F
  pub pedal_torque : F
  pub motor_speed : F
  pub speed_limit : F
  pub torque_limit : F
  pub level : ℕ

pub record AssistController (F : Type 0) : Type 0 where
  pub config : AssistConfig F
  pub torque : F
  pub ratio : F

module _ {F : Type 0} ⦃f : Float F⦄ where
  pub new : AssistConfig F → AssistController F
  new config = record { config = config; torque = nought; ratio = nought }

  abbrev pub max_exponent : F
  max_exponent = f.decimal 20 0

  pub level_of : AssistInput F → ℕ
  level_of input = min input.level (assist_levels - 1)

  -- The pedal torque after the deadband.
  pub driving : AssistConfig F → AssistInput F → F
  driving config input = input.pedal_torque ⊟ config.torque_deadband

  -- The early return of `Target`.
  pub is_off : AssistConfig F → AssistInput F → Bool
  is_off config input =
      not input.pedaling
      || level_of input == 0
      || input.cadence ≺ config.min_cadence
      || driving config input ⪯ nought
      || input.speed_limit ⪯ nought
      || input.torque_limit ⪯ nought

  pub assist_ratio : AssistConfig F → AssistInput F → F
  assist_ratio config input =
      let pedal_power = driving config input ⊠ input.cadence in
      let boost = f.exp (min_unit (pedal_power ⊘ config.power_scale) max_exponent) in
      min_unit (boost ⊠ get_or config.level_gain (level_of input) nought) config.max_ratio

  pub speed_ratio : AssistConfig F → AssistInput F → F
  speed_ratio config input =
      let motor = abs_unit input.motor_speed in
      if input.cadence ≺ motor ⊠ config.torque_ratio
      then input.cadence ⊘ motor
      else config.torque_ratio

  pub fade : AssistConfig F → AssistInput F → F
  fade config input =
      std_clamp ((input.speed_limit ⊟ abs_unit input.motor_speed) ⊘ config.speed_taper) nought one

  -- What the law asks for, before the torque limit.
  pub demand : AssistConfig F → AssistInput F → F
  demand config input =
      driving config input
      ⊠ assist_ratio config input
      ⊠ speed_ratio config input
      ⊠ fade config input

  pub target : AssistController F → AssistInput F → F × AssistController F
  target a input = if is_off a.config input then (nought, record a { ratio = nought }) else (
    min_unit (demand a.config input) input.torque_limit,
    record a { ratio = assist_ratio a.config input },
  )

  pub rise : AssistController F → F → AssistInput F → F
  rise a dt input = max_unit input.torque_limit nought ⊠ (dt ⊘ a.config.rise_time)

  -- A lowered limit still ramps down in the fall time.
  pub fall : AssistController F → F → AssistInput F → F
  fall a dt input =
      max_unit (max_unit input.torque_limit nought) a.torque ⊠ (dt ⊘ a.config.fall_time)

  pub step : AssistController F → F → AssistInput F → AssistController F
  step a dt input =
      let (goal, aimed) = target a input in
      record aimed {
        torque =
            if a.torque ≺ goal
            then min_unit (a.torque ⊞ rise a dt input) goal
            else max_unit (a.torque ⊟ fall a dt input) goal;
      }

  pub is_active : AssistController F → Bool
  is_active a = nought ≺ a.torque
