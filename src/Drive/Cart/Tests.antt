-- ===== src/Drive/Cart/Tests.antt =====
-- CartControl over integers: torques and speeds in whole units, a timeout that is never over.
use unimoc.Prelude.{◌≡◌, ◌↔◌, ◌⊎◌, refl, true, false, not}
use unimoc.Prelude.Int.{ℤ, pos, negsuc}
use unimoc.Units.{◌⊞◌, ◌⊟◌, ◌⊠◌, ◌≐◌, nought, clamp_unit, min_unit, max_unit, abs_unit}
use unimoc.Units.Laws.{◌≼◌}
use unimoc.Units.Integers.{integers, integers-IsOrdered, integers-IsRounded}
use unimoc.Drive.Cart.{
  CartControl, CartParameters, CartPedals, vdc, limp_home, stopping, closed, next_mode, reset,
  update, on_bus_lost, pedal_torque, elapsed, battery_limits, is_fresh, microseconds, brake_travel,
  clamp_travel, drive_travel, brake_fade,
}
use unimoc.Drive.Cart.Modes.{
  Change, update_modes, bus_lost_stops, has_fresh_command, has_fresh_pedals, stands_still,
}
use unimoc.Drive.Cart.Torque.{IsAllowed, brake-Opposes, update_torque, battery_limits_lem}

abbrev parameters : CartParameters ℤ
parameters = record {
  wheel = 1;
  reversed = false;
  timeout = pos 1;
  torque_ramp = pos 5;
  limp_home_torque = pos 20;
  standstill_speed = pos 2;
  battery_share = pos 1;
}

abbrev pressed : CartPedals ℤ
pressed = record {
  drive_first = pos 1;
  drive_second = pos 1;
  brake_first = pos 0;
  brake_second = pos 1;
  drive_plausible = true;
  brake_plausible = true;
}

abbrev released : CartPedals ℤ
released = record pressed { brake_second = pos 0 }

abbrev limping : CartControl ℤ
limping = record {
  parameters = parameters;
  mode = limp_home;
  torque = pos 12;
  last_update_us = 100;
  updated = true;
  has_command = false;
  command_us = 0;
  command_torque = pos 7;
  has_pedals = true;
  pedals_us = 90;
  pedals = pressed;
  has_battery = true;
  battery_us = 90;
  battery = record { discharge_limit = pos 30; charge_limit = negsuc 4; contactor = closed };
}

brakes : pedal_torque parameters pressed (pos 40) ≡ negsuc 19
unfolding pedal_torque brake_travel clamp_travel brake_fade clamp_unit min_unit max_unit abs_unit
    drive_travel
brakes = refl

update_modes_example :
    ((update limping 200 (pos 40) true).1.mode ≡ limp_home)
    ↔ Change
        (has_fresh_command limping 200 (pos 40))
        (has_fresh_pedals limping 200 (pos 40))
        (stands_still limping 200 (pos 40))
        limp_home
        limp_home
update_modes_example = update_modes limping 200 (pos 40) limp_home

bus_lost_stops_example :
    let (out, d) = update (on_bus_lost limping) 200 (pos 40) true in
    let step = pos 5 ⊠ elapsed limping 200 in
    (out.mode ≡ stopping)
    × (d.mode ≡ stopping)
    × (d.torque ≡ clamp_unit nought (pos 12 ⊟ step) (pos 12 ⊞ step))
    × (out.holds_engagement ≡ not (d.torque ≐ nought))
bus_lost_stops_example = bus_lost_stops limping 200 (pos 40) (λ e. cc)

brake-Opposes_example : pedal_torque parameters pressed (pos 40) ≼ pos 0
unfolding brake_travel clamp_travel clamp_unit min_unit max_unit
brake-Opposes_example =
    brake-Opposes integers-IsOrdered integers-IsRounded parameters (pos 40) refl pressed refl refl
      refl

update_torque_example :
    let d = (update limping 200 (pos 40) true).1 in
    IsAllowed limping (pos 5 ⊠ elapsed limping 200) d.mode d.torque
unfolding elapsed microseconds
update_torque_example =
    update_torque integers-IsOrdered integers-IsRounded limping 200 (pos 40) refl refl refl refl
      refl

battery_limits_lem_example :
    let l = battery_limits limping 200 in
    (is_fresh parameters true 90 200 ≡ true)
    × (pos 0 ≼ l.drive_current)
    × (l.drive_current ≼ max_unit (pos 30) nought)
    × (pos 0 ≼ l.charge_current)
    × (l.charge_current ≼ max_unit (negsuc 4) nought)
    × ((true ≡ true) ⊎ ((l.drive_current ≡ pos 0) × (l.charge_current ≡ pos 0)))
unfolding battery_limits is_fresh microseconds
battery_limits_lem_example =
    battery_limits_lem integers-IsOrdered integers-IsRounded limping 200 (refl, refl) refl

-- A wheel command from before the engage is still fresh after it: the first engaged update takes it.
abbrev commanded : CartControl ℤ
commanded = record limping { mode = vdc; has_command = true; command_us = 99 }

early_command_takes : (update (update commanded 100 (pos 0) false).1 110 (pos 0) true).1.mode ≡ vdc
unfolding update next_mode is_fresh reset microseconds
early_command_takes = refl
