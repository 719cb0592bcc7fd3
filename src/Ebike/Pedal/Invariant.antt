-- ===== src/Ebike/Pedal/Invariant.antt =====
-- The invariant of PedalObserver: the pulses, the bins and their indices.
use unimoc.Prelude.{◌+◌, ◌%◌, ◌≤◌, ◌<◌, ◌≡◌, ◌↔◌, true, List, [], ◌∷◌, length, length-set, arith}
use unimoc.Units.{Float, ◌⊟◌, ◌⊠◌, nought, std_clamp}
use unimoc.Ebike.Pedal.{
  PedalObserver, PedalObserverConfig, max_pedal_pulses, half_window, new, reset_crank, predict,
  limit_cadence, fuse_angle, first_pulse, next_pulse, on_pulse, finish_bin, closed_bin, bin_mean,
  take_pulses, take_torque, trim_zero, step,
}

module _ {F : Type 0} ⦃f : Float F⦄ where
  pub record IsValid (o : PedalObserver F) : Type 0 where
    pub pulses_low : 2 ≤ o.pulses_per_rev
    pub pulses_high : o.pulses_per_rev ≤ max_pedal_pulses
    pub size : length o.bins ≡ max_pedal_pulses
    pub index_in : o.bin_index < o.pulses_per_rev
    pub completed_in : o.completed_bins ≤ half_window o.pulses_per_rev
    pub seen_in : o.pulses_seen ≤ 2
    -- The crank turns from the second pulse on, and only then are there bins to average.
    pub turns : (o.pedaling ≡ true) ↔ (o.pulses_seen ≡ 2)
    pub bins_seen : (o.pulses_seen ≡ 2) ↔ (0 < o.completed_bins)

  pub new-IsValid : (config : PedalObserverConfig F) → IsValid (new config)
  unfolding new reset_crank
  new-IsValid config = ground arith

  reset_crank-IsValid : (o : PedalObserver F) → IsValid o → IsValid (reset_crank o)
  unfolding reset_crank
  reset_crank-IsValid o v = ground arith

  limit_cadence-IsValid : (o : PedalObserver F) → IsValid o → IsValid (limit_cadence o)
  unfolding limit_cadence
  limit_cadence-IsValid o v = ground arith

  take_torque-IsValid :
      (o : PedalObserver F) (dt torque : F) → IsValid o → IsValid (take_torque o dt torque)
  unfolding take_torque
  take_torque-IsValid o dt torque v = ground arith

  trim_zero-IsValid :
      (o : PedalObserver F) (dt torque : F) → IsValid o → IsValid (trim_zero o dt torque)
  unfolding trim_zero
  trim_zero-IsValid o dt torque v = ground arith

  module _ (wrap_angle : F → F) where
    predict-IsValid : (o : PedalObserver F) (dt : F) → IsValid o → IsValid (predict wrap_angle o dt)
    unfolding predict reset_crank limit_cadence
    predict-IsValid o dt v = ground arith

    next_pulse-keeps :
        (o : PedalObserver F) (measured : F)
        → let n = next_pulse wrap_angle o measured in
          (n.pulses_per_rev ≡ o.pulses_per_rev)
          × (n.bins ≡ o.bins)
          × (n.bin_index ≡ o.bin_index)
          × (n.completed_bins ≡ o.completed_bins)
    unfolding next_pulse fuse_angle
    next_pulse-keeps o measured = ground arith

    on_pulse-IsValid : (o : PedalObserver F) → IsValid o → IsValid (on_pulse wrap_angle o)
    unfolding on_pulse first_pulse finish_bin
    on_pulse-IsValid o v =
        let index = (o.bin_index + 1) % o.pulses_per_rev in
        let moved = record o { still_time = nought; bin_index = index } in
        let measured = o.pulse_angle ⊠ f.of_ℕ index in
        let turned = record (next_pulse wrap_angle moved measured) { pedaling = true } in
        ground (
          arith,
          next_pulse-keeps moved measured,
          length-set turned.bins (closed_bin turned) (bin_mean turned),
        )

    take_pulses-IsValid :
        (o : PedalObserver F) (dt elapsed : F) (ages : List F)
        → IsValid o
        → IsValid (take_pulses wrap_angle o dt elapsed ages).1
    unfolding take_pulses
    take_pulses-IsValid o dt elapsed [] v = v
    take_pulses-IsValid o dt elapsed (age ∷ ages) v =
        take_pulses-IsValid
          (on_pulse wrap_angle (predict wrap_angle o (std_clamp (dt ⊟ age) elapsed dt ⊟ elapsed)))
          dt _ ages (on_pulse-IsValid _ (predict-IsValid o _ v))

    -- Every step keeps the invariant: the indices stay within the bins of one revolution, at most half of them
    -- are averaged, and the crank counts as turning exactly from the second pulse after a stop on, which is
    -- when there is a bin to average.
    pub step-IsValid :
        (o : PedalObserver F) (dt torque : F) (ages : List F)
        → IsValid o
        → IsValid (step wrap_angle o dt torque ages)
    unfolding step
    step-IsValid o dt torque ages v =
        let pulsed = take_pulses-IsValid o dt _ ages v in
        trim_zero-IsValid _ dt torque (take_torque-IsValid _ dt torque (predict-IsValid _ _ pulsed))
