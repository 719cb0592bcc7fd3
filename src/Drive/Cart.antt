-- ===== src/Drive/Cart.antt =====
-- src/drive/cart_control.hpp and cart_control.cpp, class CartControl. Times are `uint64_t` microseconds, so
-- their differences wrap at 2 ^ 64. A method returns the new state.
mod Modes
mod Torque
mod Tests
use unimoc.Prelude.{ℕ, ◌+◌, ◌-◌, ◌%◌, ◌^◌, Bool, true, false, not, ◌&&◌, ◌||◌, if◌then◌else◌}
use unimoc.Units.{
  Float, ◌⊞◌, ◌⊟◌, ◌⊠◌, ◌⊘◌, ◌≺◌, ◌⪯◌, ◌≐◌, neg, nought, one, abs_unit, min_unit, max_unit,
  clamp_unit,
}

pub record CartParameters (F : Type 0) : Type 0 where
  pub wheel : ℕ
  pub reversed : Bool
  pub timeout : F
  pub torque_ramp : F
  pub limp_home_torque : F
  pub standstill_speed : F
  pub battery_share : F

pub record CartPedals (F : Type 0) : Type 0 where
  pub drive_first : F
  pub drive_second : F
  pub brake_first : F
  pub brake_second : F
  pub drive_plausible : Bool
  pub brake_plausible : Bool

pub data Contactor : Type 0 where
  is_open precharge closed opening : Contactor

pub record CartBattery (F : Type 0) : Type 0 where
  pub discharge_limit : F
  pub charge_limit : F
  pub contactor : Contactor

pub data CartMode : Type 0 where
  off vdc limp_home stopping : CartMode

pub record CartOutput (F : Type 0) : Type 0 where
  pub mode : CartMode
  pub torque : F
  pub holds_engagement : Bool

pub record BatteryLimits (F : Type 0) : Type 0 where
  pub valid : Bool
  pub drive_current : F
  pub charge_current : F

pub record CartControl (F : Type 0) : Type 0 where
  pub parameters : CartParameters F
  pub mode : CartMode
  pub torque : F
  pub last_update_us : ℕ
  pub updated : Bool
  pub has_command : Bool
  pub command_us : ℕ
  pub command_torque : F
  pub has_pedals : Bool
  pub pedals_us : ℕ
  pub pedals : CartPedals F
  pub has_battery : Bool
  pub battery_us : ℕ
  pub battery : CartBattery F

abbrev pub since : ℕ → ℕ → ℕ
since now at = (now + 2 ^ 64 - at) % 2 ^ 64

abbrev pub is_limp_home : CartMode → Bool
is_limp_home limp_home = true
is_limp_home _ = false

abbrev pub is_stopping : CartMode → Bool
is_stopping stopping = true
is_stopping _ = false

abbrev pub is_connected : Contactor → Bool
is_connected closed = true
is_connected opening = true
is_connected _ = false

-- The first `switch` of `Update`.
pub next_mode : CartMode → (command pedals standstill : Bool) → CartMode
next_mode off command pedals standstill = if command then vdc else off
next_mode vdc command pedals standstill =
    if not command then (if pedals then limp_home else stopping) else vdc
next_mode limp_home command pedals standstill =
    if command && standstill then vdc else if pedals then limp_home else stopping
next_mode stopping command pedals standstill =
    if command && standstill then vdc else if pedals then limp_home else stopping

module _ {F : Type 0} ⦃f : Float F⦄ where
  abbrev pub pedal_deadband : F
  pedal_deadband = f.decimal 5 2

  pub clamp_travel : F → F
  clamp_travel value = if f.is_finite value then clamp_unit value nought one else nought

  pub microseconds : ℕ → F
  microseconds duration_us = f.decimal 1 6 ⊠ f.of_ℕ duration_us

  pub configure : CartControl F → CartParameters F → CartControl F
  configure c parameters = record c { parameters = parameters }

  pub reset : CartControl F → CartControl F
  reset c = record c { mode = off; torque = nought }

  pub on_wheel_command : CartControl F → F → ℕ → CartControl F
  on_wheel_command c wheel_torque now_us = record c {
    has_command = true;
    command_us = now_us;
    command_torque = if f.is_finite wheel_torque then wheel_torque else nought;
  }

  pub on_pedal_state : CartControl F → CartPedals F → ℕ → CartControl F
  on_pedal_state c pedals now_us = record c {
    has_pedals = true;
    pedals_us = now_us;
    pedals = pedals;
  }

  pub on_battery_status : CartControl F → CartBattery F → ℕ → CartControl F
  on_battery_status c battery now_us = record c {
    has_battery = true;
    battery_us = now_us;
    battery = battery;
  }

  pub on_bus_lost : CartControl F → CartControl F
  on_bus_lost c = record c { has_command = false; has_pedals = false; has_battery = false }

  pub to_cart : CartParameters F → F → F
  to_cart p value = if p.reversed then neg value else value

  pub is_fresh : CartParameters F → Bool → ℕ → ℕ → Bool
  is_fresh p received at_us now_us = received && microseconds (since now_us at_us) ⪯ p.timeout

  pub brake_travel : CartPedals F → F
  brake_travel p =
      max_unit (max_unit nought (clamp_travel p.brake_first)) (clamp_travel p.brake_second)

  pub drive_travel : CartPedals F → F
  drive_travel p = min_unit (clamp_travel p.drive_first) (clamp_travel p.drive_second)

  -- The brake fades out towards standstill.
  pub brake_fade : CartParameters F → F → F
  brake_fade p speed =
      if nought ≺ p.standstill_speed
      then min_unit (abs_unit speed ⊘ p.standstill_speed) one
      else one

  pub pedal_torque : CartParameters F → CartPedals F → F → F
  pedal_torque p pedals speed =
      let brake = brake_travel pedals in
      let brake_torque = p.limp_home_torque ⊠ brake ⊠ brake_fade p speed in
      let drive = drive_travel pedals in
      if pedal_deadband ≺ brake
      then (if nought ≺ speed
          then neg brake_torque
          else if speed ≺ nought
          then brake_torque
          else nought)
      else if not pedals.drive_plausible
      then nought
      else if pedal_deadband ≺ drive
      then p.limp_home_torque ⊠ drive
      else nought

  -- The second `switch` of `Update`: the torque in the mode, `dt` after the last update.
  pub next_torque : CartControl F → CartMode → F → F → F
  next_torque c off speed dt = nought
  next_torque c vdc speed dt = c.command_torque
  next_torque c limp_home speed dt =
      let step = c.parameters.torque_ramp ⊠ dt in
      clamp_unit (pedal_torque c.parameters c.pedals speed) (c.torque ⊟ step) (c.torque ⊞ step)
  next_torque c stopping speed dt =
      let step = c.parameters.torque_ramp ⊠ dt in
      clamp_unit nought (c.torque ⊟ step) (c.torque ⊞ step)

  pub elapsed : CartControl F → ℕ → F
  elapsed c now_us = if c.updated then microseconds (since now_us c.last_update_us) else nought

  abbrev pub no_output : CartOutput F
  no_output = record { mode = off; torque = nought; holds_engagement = false }

  pub update : CartControl F → ℕ → F → Bool → CartOutput F × CartControl F
  update c now_us shaft_speed engaged =
      let dt = elapsed c now_us in
      let stamped = record c { updated = true; last_update_us = now_us } in
      let p = c.parameters in
      let command = is_fresh p c.has_command c.command_us now_us in
      let pedals = is_fresh p c.has_pedals c.pedals_us now_us in
      let speed = to_cart p shaft_speed in
      let standstill = abs_unit speed ⪯ p.standstill_speed in
      let mode = next_mode c.mode command pedals standstill in
      let torque = next_torque c mode speed dt in
      if not engaged then (no_output, reset stamped) else (
        record {
          mode = mode;
          torque = to_cart p torque;
          holds_engagement = is_limp_home mode || is_stopping mode && not (torque ≐ nought);
        },
        record stamped { mode = mode; torque = torque },
      )

  abbrev pub no_limits : BatteryLimits F
  no_limits = record { valid = false; drive_current = nought; charge_current = nought }

  -- `Battery`
  pub battery_limits : CartControl F → ℕ → BatteryLimits F
  battery_limits c now_us =
      let b = c.battery in
      let share = c.parameters.battery_share in
      if not (is_fresh c.parameters c.has_battery c.battery_us now_us)
      then no_limits
      else if not (f.is_finite b.discharge_limit) || not (f.is_finite b.charge_limit)
      then no_limits
      else if not (is_connected b.contactor)
      then record { valid = true; drive_current = nought; charge_current = nought }
      else record {
        valid = true;
        drive_current = max_unit b.discharge_limit nought ⊠ share;
        charge_current = max_unit b.charge_limit nought ⊠ share;
      }
