-- ===== src/Ebike/Pedal.antt =====
-- lib/ebike/src/pedal_observer.hpp, class PedalObserver. WrapAngle of lib/motor_control/src/angle_wrap.hpp is
-- the parameter `wrap_angle`; a method returns the new state.
mod Invariant
mod Ring
mod Stroke
mod Offset
mod Tests
use unimoc.Prelude.{
  ℕ, zero, suc, ◌+◌, ◌-◌, ◌/◌, ◌%◌, ◌^◌, min, max, Bool, true, false, not, ◌&&◌, ◌||◌, List, [],
  ◌∷◌, get_or, set, replicate, ltb, ◌==◌, if◌then◌else◌,
}
use unimoc.Units.{Float, ◌⊞◌, ◌⊟◌, ◌⊠◌, ◌⊘◌, ◌≺◌, neg, nought, one, std_clamp}

abbrev pub max_pedal_pulses : ℕ
max_pedal_pulses = 64

pub record PedalObserverConfig (F : Type 0) : Type 0 where
  pub pulses_per_rev : ℕ
  pub angle_variance : F
  pub cadence_noise : F
  pub stop_timeout : F
  pub torque_time_constant : F
  pub zero_offset : F
  pub zero_window : F
  pub zero_hold : F
  pub zero_time_constant : F

pub record Covariance (F : Type 0) : Type 0 where
  pub angle : F
  pub cross : F
  pub cadence : F

pub record PedalObserver (F : Type 0) : Type 0 where
  pub config : PedalObserverConfig F
  pub pulses_per_rev : ℕ
  pub pulse_angle : F
  pub angle : F
  pub omega : F
  pub p : Covariance F
  pub time_since_pulse : F
  pub still_time : F
  pub pulses_seen : ℕ
  pub pedaling : Bool
  pub bins : List F
  pub bin_index : ℕ
  pub completed_bins : ℕ
  pub bin_sum : F
  pub bin_count : ℕ
  pub mean_torque : F
  pub torque_fast : F
  pub zero_offset : F

abbrev pub half_window : ℕ → ℕ
half_window pulses = max (pulses / 2) 1

module _ {F : Type 0} ⦃f : Float F⦄ where
  -- `std::numbers::pi_v<float>`
  abbrev pub pi : F
  pi = f.decimal 3141592653589793 15

  abbrev pub initial_cadence_variance : F
  initial_cadence_variance = f.decimal 100 0

  abbrev pub overdue_margin : F
  overdue_margin = f.decimal 125 2

  abbrev pub new_covariance : Covariance F
  new_covariance = record { angle = one; cross = nought; cadence = initial_cadence_variance }

  unfoldable pub reset_crank : PedalObserver F → PedalObserver F
  reset_crank o = record o {
    pedaling = false;
    pulses_seen = 0;
    omega = nought;
    p = new_covariance;
    time_since_pulse = nought;
    bin_index = 0;
    completed_bins = 0;
    bin_sum = nought;
    bin_count = 0;
    mean_torque = nought;
  }

  unfoldable pub new : PedalObserverConfig F → PedalObserver F
  new config =
      let pulses = max 2 (min config.pulses_per_rev max_pedal_pulses) in
      reset_crank (record {
        config = config;
        pulses_per_rev = pulses;
        pulse_angle = f.decimal 2 0 ⊠ pi ⊠ one ⊘ f.of_ℕ pulses;
        angle = nought;
        omega = nought;
        p = new_covariance;
        time_since_pulse = nought;
        still_time = nought;
        pulses_seen = 0;
        pedaling = false;
        bins = replicate max_pedal_pulses nought;
        bin_index = 0;
        completed_bins = 0;
        bin_sum = nought;
        bin_count = 0;
        mean_torque = nought;
        torque_fast = nought;
        zero_offset = config.zero_offset;
      })

  pub set_zero_offset : PedalObserver F → F → PedalObserver F
  set_zero_offset o offset = record o { zero_offset = offset }

  pub cadence : PedalObserver F → F
  cadence o = if o.pedaling then o.omega else nought

  pub mean_torque_of : PedalObserver F → F
  mean_torque_of o = if o.pedaling then o.mean_torque else nought

  pub pedal_power : PedalObserver F → F
  pedal_power o = mean_torque_of o ⊠ cadence o

  -- The covariance `step` later.
  pub spread : PedalObserverConfig F → Covariance F → F → Covariance F
  spread config p step =
      let noise = config.cadence_noise in
      record {
        angle =
            p.angle
            ⊞ (step ⊠ (f.decimal 2 0 ⊠ p.cross ⊞ step ⊠ p.cadence)
                ⊞ noise ⊠ step ⊠ step ⊠ step ⊘ f.decimal 3 0);
        cross = p.cross ⊞ (step ⊠ p.cadence ⊞ noise ⊠ step ⊠ step ⊘ f.decimal 2 0);
        cadence = p.cadence ⊞ noise ⊠ step;
      }

  -- Overdue pulse: the cadence is at most one pulse angle, with the margin, per elapsed time.
  pub limit_cadence : PedalObserver F → PedalObserver F
  limit_cadence o =
      let limit = o.pulse_angle ⊠ overdue_margin in
      if limit ≺ o.omega ⊠ o.time_since_pulse
      then record o { omega = limit ⊘ o.time_since_pulse }
      else o

  -- The loop of `FinishBin` from `i` on, with `count` bins left.
  pub bin_total : List F → ℕ → ℕ → ℕ → ℕ → F → F
  bin_total bins closed pulses i zero total = total
  bin_total bins closed pulses i (suc count) total =
      bin_total bins closed pulses (i + 1) count
        (total ⊞ get_or bins ((closed + pulses - i) % pulses) nought)

  pub closed_bin : PedalObserver F → ℕ
  closed_bin o = (o.bin_index + o.pulses_per_rev - 1) % o.pulses_per_rev

  pub bin_mean : PedalObserver F → F
  bin_mean o = if ltb 0 o.bin_count then o.bin_sum ⊘ f.of_ℕ o.bin_count else o.torque_fast

  pub finish_bin : PedalObserver F → PedalObserver F
  finish_bin o =
      let closed = closed_bin o in
      let bins = set o.bins closed (bin_mean o) in
      let completed = min (o.completed_bins + 1) (half_window o.pulses_per_rev) in
      record o {
        bins = bins;
        bin_sum = nought;
        bin_count = 0;
        completed_bins = completed;
        mean_torque = bin_total bins closed o.pulses_per_rev 0 completed nought ⊘ f.of_ℕ completed;
      }

  unfoldable pub trim_zero : PedalObserver F → F → F → PedalObserver F
  trim_zero o dt torque =
      let error = torque ⊟ o.zero_offset in
      if o.pedaling || o.still_time ≺ o.config.zero_hold
      then o
      else if neg o.config.zero_window ≺ error && error ≺ o.config.zero_window
      then record o { zero_offset = o.zero_offset ⊞ error ⊠ (dt ⊘ o.config.zero_time_constant) }
      else o

  -- The first pulse after a stop.
  pub first_pulse : PedalObserver F → PedalObserver F
  first_pulse o = record o {
    bin_index = 0;
    angle = nought;
    p = new_covariance;
    bin_sum = nought;
    bin_count = 0;
    pedaling = false;
  }

  -- The torque part of `Step`.
  unfoldable pub take_torque : PedalObserver F → F → F → PedalObserver F
  take_torque o dt torque =
      let compensated = torque ⊟ o.zero_offset in
      let alpha = dt ⊘ (o.config.torque_time_constant ⊞ dt) in
      let fast = record o { torque_fast = o.torque_fast ⊞ (compensated ⊟ o.torque_fast) ⊠ alpha } in
      if ltb 0 o.pulses_seen
      then record fast { bin_sum = o.bin_sum ⊞ compensated; bin_count = (o.bin_count + 1) % 2 ^ 32 }
      else fast

  module _ (wrap_angle : F → F) where
    unfoldable pub predict : PedalObserver F → F → PedalObserver F
    predict o dt =
        let later = o.time_since_pulse ⊞ dt in
        if o.pulses_seen == 0
        then record o { still_time = o.still_time ⊞ dt }
        else if o.config.stop_timeout ≺ later
        then record (reset_crank o) { still_time = later }
        else let turned =
            limit_cadence (record o {
              time_since_pulse = later;
              angle = wrap_angle (o.angle ⊞ o.omega ⊠ dt);
            }) in
          record turned { p = spread o.config o.p dt }

    pub fuse_angle : PedalObserver F → F → PedalObserver F
    fuse_angle o innovation =
        let variance = o.p.angle ⊞ o.config.angle_variance in
        let gain_angle = o.p.angle ⊘ variance in
        let gain_cadence = o.p.cross ⊘ variance in
        record o {
          angle = wrap_angle (o.angle ⊞ innovation ⊠ gain_angle);
          omega = o.omega ⊞ innovation ⊠ gain_cadence;
          p = record {
            cadence = o.p.cadence ⊟ gain_cadence ⊠ o.p.cross;
            angle = o.p.angle ⊠ (one ⊟ gain_angle);
            cross = o.p.cross ⊠ (one ⊟ gain_angle);
          };
        }

    -- The second pulse measures the speed, a later one corrects the estimate.
    pub next_pulse : PedalObserver F → F → PedalObserver F
    next_pulse o measured =
        if o.pulses_seen == 1
        then record o {
          omega = o.pulse_angle ⊘ o.time_since_pulse;
          angle = measured;
          p = record {
            angle = o.config.angle_variance;
            cross = nought;
            cadence = initial_cadence_variance ⊘ f.decimal 100 0;
          };
        }
        else fuse_angle o (wrap_angle (measured ⊟ o.angle))

    pub on_pulse : PedalObserver F → PedalObserver F
    on_pulse o =
        let index = (o.bin_index + 1) % o.pulses_per_rev in
        let moved = record o { still_time = nought; bin_index = index } in
        let measured = o.pulse_angle ⊠ f.of_ℕ index in
        let pulsed =
          if o.pulses_seen == 0
          then first_pulse moved
          else finish_bin (record (next_pulse moved measured) { pedaling = true }) in
        record pulsed {
          time_since_pulse = nought;
          pulses_seen = min ((o.pulses_seen + 1) % 2 ^ 32) 2;
        }

    -- The loop of `Step` over the pulses, with the time handled so far.
    unfoldable pub take_pulses : PedalObserver F → F → F → List F → F × PedalObserver F
    take_pulses o dt elapsed [] = (elapsed, o)
    take_pulses o dt elapsed (age ∷ ages) =
        let edge = std_clamp (dt ⊟ age) elapsed dt in
        take_pulses (on_pulse (predict o (edge ⊟ elapsed))) dt edge ages

    unfoldable pub step : PedalObserver F → F → F → List F → PedalObserver F
    step o dt torque pulse_ages =
        let (elapsed, pulsed) = take_pulses o dt nought pulse_ages in
        trim_zero (take_torque (predict pulsed (dt ⊟ elapsed)) dt torque) dt torque
