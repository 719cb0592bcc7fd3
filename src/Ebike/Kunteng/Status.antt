-- ===== src/Ebike/Kunteng/Status.antt =====
-- lib/ebike/src/kunteng_protocol.hpp, ControllerStatus and EncodeControllerFrame: the status frame for the display.
mod Frame
mod Tests
use unimoc.Prelude.{ℕ, ◌*◌, ◌/◌, ◌%◌, ◌^◌, bit_or, Bool, List, [], ◌∷◌, set, if◌then◌else◌}
use unimoc.Units.{Float, ◌⊞◌, ◌⊟◌, ◌⊠◌, ◌⊘◌, ◌≺◌, nought, one, std_clamp}
use unimoc.Ebike.Kunteng.{cast8, xor_except}

pub data BatteryLevel : Type 0 where
  below_empty empty one_bar two_bars three_bars four_bars : BatteryLevel

pub level_code : BatteryLevel → ℕ
level_code below_empty = 1
level_code empty = 3
level_code one_bar = 4
level_code two_bars = 8
level_code three_bars = 12
level_code four_bars = 16

pub record ControllerStatus (F : Type 0) : Type 0 where
  pub battery_level : BatteryLevel
  pub nominal_voltage : ℕ
  pub wheel_period : F
  pub error_code : ℕ
  pub throttle : Bool
  pub cruise : Bool
  pub pas : Bool
  pub brake : Bool
  pub battery_current : F
  pub motor_temperature : F

abbrev pub controller_start : ℕ
controller_start = 65

pub flag_bits : (throttle cruise pas brake : Bool) → ℕ
flag_bits throttle cruise pas brake =
    bit_or
      (bit_or (bit_or (if throttle then 2 else 0) (if cruise then 8 else 0))
        (if pas then 16 else 0))
      (if brake then 32 else 0)

module _ {F : Type 0} ⦃f : Float F⦄ where
  pub clamp_byte : F → ℕ
  clamp_byte value = cast8 (f.to_ℕ (std_clamp (value ⊞ f.decimal 5 1) nought (f.decimal 255 0)))

  -- The wheel period in milliseconds: the quotient, converted from thousands to a plain ratio.
  pub period_ms : F → F
  period_ms wheel_period = wheel_period ⊘ one ⊠ f.decimal 1000 0 ⊘ one ⊠ one ⊘ one

  pub period : F → ℕ
  period wheel_period =
      f.to_ℕ (std_clamp (period_ms wheel_period) nought (f.decimal 65535 0)) % 2 ^ 16

  pub current_byte : F → ℕ
  current_byte current = clamp_byte (current ⊘ one ⊠ f.decimal 4 0)

  pub temperature_byte : F → ℕ
  temperature_byte temperature = clamp_byte ((temperature ⊟ f.decimal 15 0) ⊘ one)

  -- The frame before its checksum.
  pub open_frame : ControllerStatus F → List ℕ
  open_frame s =
      controller_start
      ∷ level_code s.battery_level
      ∷ s.nominal_voltage
      ∷ period s.wheel_period / 2 ^ 8
      ∷ period s.wheel_period % 2 ^ 8
      ∷ s.error_code
      ∷ 0
      ∷ flag_bits s.throttle s.cruise s.pas s.brake
      ∷ current_byte s.battery_current
      ∷ temperature_byte s.motor_temperature
      ∷ 0
      ∷ 0
      ∷ []

  pub encode_controller_frame : ControllerStatus F → List ℕ
  encode_controller_frame s = let frame = open_frame s in set frame 6 (xor_except frame 0)
