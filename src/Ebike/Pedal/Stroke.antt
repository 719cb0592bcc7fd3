-- ===== src/Ebike/Pedal/Stroke.antt =====
-- FinishBin of PedalObserver: the bins of the last half revolution as a queue, newest first.
use unimoc.Prelude.{◌+◌, ◌%◌, List, true}
use unimoc.Units.{Float, ◌⊠◌, nought}
use unimoc.Ebike.Pedal.{PedalObserver, Covariance, closed_bin, finish_bin, next_pulse}
use unimoc.Ebike.Pedal.Ring.{back}

module _ {F : Type 0} ⦃f : Float F⦄ where
  -- The bins that the mean is taken of, newest first.
  abbrev pub stroke : PedalObserver F → List F
  stroke o = back o.bins (closed_bin o) o.pulses_per_rev 0 o.completed_bins

  -- A pulse of a turning crank, whatever the filter makes of it.
  module _ (o : PedalObserver F) (angle omega : F) (p : Covariance F) where
    pulsed : PedalObserver F
    pulsed = finish_bin (record o {
      still_time = nought;
      bin_index = (o.bin_index + 1) % o.pulses_per_rev;
      angle = angle;
      omega = omega;
      p = p;
      pedaling = true;
    })

  module _ (wrap_angle : F → F) (o : PedalObserver F) where
    turned : PedalObserver F
    turned =
        let index = (o.bin_index + 1) % o.pulses_per_rev in
        next_pulse wrap_angle (record o { still_time = nought; bin_index = index })
          (o.pulse_angle ⊠ f.of_ℕ index)
