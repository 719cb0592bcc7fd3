-- ===== src/Ebike/Pedal/Offset.antt =====
-- The zero offset of PedalObserver.
use unimoc.Prelude.{◌≡◌, ◌≢◌, ◌∙◌, refl, true, false, List, [], ◌∷◌, arith}
use unimoc.Units.{Float, ◌⊟◌, ◌≺◌, neg, nought, std_clamp}
use unimoc.Ebike.Pedal.{
  PedalObserver, predict, limit_cadence, reset_crank, fuse_angle, first_pulse, next_pulse, on_pulse,
  finish_bin, take_pulses, take_torque, trim_zero, step,
}

module _ {F : Type 0} ⦃f : Float F⦄ where
  -- What the pulses and the torque leave alone.
  abbrev IsKept : PedalObserver F → PedalObserver F → Type 0
  IsKept n o = (n.zero_offset ≡ o.zero_offset) × (n.config ≡ o.config)

  module _ (wrap_angle : F → F) where
    predict-IsKept : (o : PedalObserver F) (dt : F) → IsKept (predict wrap_angle o dt) o
    unfolding predict limit_cadence reset_crank
    predict-IsKept o dt = ground arith

    on_pulse-IsKept : (o : PedalObserver F) → IsKept (on_pulse wrap_angle o) o
    unfolding on_pulse first_pulse next_pulse fuse_angle finish_bin
    on_pulse-IsKept o = ground arith

    take_pulses-IsKept :
        (o : PedalObserver F) (dt elapsed : F) (ages : List F)
        → IsKept (take_pulses wrap_angle o dt elapsed ages).1 o
    unfolding take_pulses
    take_pulses-IsKept o dt elapsed [] = (refl, refl)
    take_pulses-IsKept o dt elapsed (age ∷ ages) =
        let edge = std_clamp (dt ⊟ age) elapsed dt in
        let moved = predict wrap_angle o (edge ⊟ elapsed) in
        let (z, c) = take_pulses-IsKept (on_pulse wrap_angle moved) dt edge ages in
        let (z', c') = on_pulse-IsKept moved in
        let (z'', c'') = predict-IsKept o (edge ⊟ elapsed) in (z ∙ z' ∙ z'', c ∙ c' ∙ c'')

    -- A step changes the zero offset only while the crank does not turn and has stood still for the hold
    -- time, and only for a torque reading closer to the offset than the window.
    pub step_zero_offset :
        (o : PedalObserver F) (dt torque : F) (ages : List F)
        → let n = step wrap_angle o dt torque ages in
          n.zero_offset ≢ o.zero_offset
          → let error = torque ⊟ o.zero_offset in
            (n.pedaling ≡ false)
            × ((n.still_time ≺ o.config.zero_hold) ≡ false)
            × ((neg o.config.zero_window ≺ error) ≡ true)
            × ((error ≺ o.config.zero_window) ≡ true)
    unfolding step take_torque trim_zero
    step_zero_offset o dt torque ages h =
        let (elapsed, pulsed) = take_pulses wrap_angle o dt nought ages in
        let (z, c) = take_pulses-IsKept o dt nought ages in
        let (z', c') = predict-IsKept pulsed (dt ⊟ elapsed) in ground (arith, z' ∙ z, c' ∙ c)
