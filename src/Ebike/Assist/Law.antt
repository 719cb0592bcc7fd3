-- ===== src/Ebike/Assist/Law.antt =====
-- The torque of AssistController: its range, its ramp and where the law is off.
use unimoc.Prelude.{ℕ, ◌≡◌, refl, inl, inr, true, false, get_or, arith, Bool-cases}
use unimoc.Units.{Float, ◌⊞◌, ◌⊟◌, ◌⊠◌, ◌⊘◌, ◌≺◌, ◌⪯◌, nought, one, abs_unit, min_unit, max_unit}
use unimoc.Units.Laws.{
  ◌≼◌, IsOrdered, IsRounded, min_unit_bounds, max_unit_bounds, le-min_unit, zero_refl, le_of_not_lt,
  abs_unit_bounds, std_clamp_bounds, min_unit_nonneg,
}
use unimoc.Ebike.Assist.Ramp.{falls, ramp_bounds}
use unimoc.Ebike.Assist.{
  AssistConfig, AssistInput, AssistController, driving, is_off, assist_ratio, speed_ratio, fade,
  demand, target, rise, fall, step, level_of,
}

module _ {F : Type 0} ⦃f : Float F⦄ where
  abbrev pub IsNumber : F → Type 0
  IsNumber x = x ≼ x

  -- No parameter of the law is negative.
  pub record IsSound (config : AssistConfig F) : Type 0 where
    pub gain : (level : ℕ) → nought ≼ get_or config.level_gain level nought
    pub ratio : nought ≼ config.max_ratio
    pub torque_ratio : nought ≼ config.torque_ratio
    pub cadence : nought ≼ config.min_cadence

  -- The inputs are numbers, and the product of the law is no NaN.
  pub record IsMeasured (config : AssistConfig F) (input : AssistInput F) : Type 0 where
    pub cadence : f.is_finite input.cadence ≡ true
    pub motor_speed : f.is_finite input.motor_speed ≡ true
    pub torque_limit : IsNumber input.torque_limit
    pub demand_number : IsNumber (demand config input)

module _ {F : Type 0} ⦃f : Float F⦄ (laws : IsOrdered F) (rounded : IsRounded F) where
  target_off :
      (a : AssistController F) (input : AssistInput F)
      → is_off a.config input ≡ true
      → (target a input).0 ≡ nought
  unfolding target
  target_off a input off = rw off refl

  module _ (config : AssistConfig F) (input : AssistInput F) where
    fade_nonneg : IsNumber (fade config input) → nought ≼ fade config input
    unfolding fade
    fade_nonneg n = (std_clamp_bounds laws _ nought one laws.nought-le-one n).0

    module _ (sound : IsSound config) where
      assist_ratio_nonneg :
          IsNumber (assist_ratio config input) → nought ≼ assist_ratio config input
      unfolding assist_ratio
      assist_ratio_nonneg =
          let gain = get_or config.level_gain (level_of input) nought in
          let power = driving config input ⊠ input.cadence ⊘ config.power_scale in
          let boost = f.exp (min_unit power (f.decimal 20 0)) in
          let scaled : IsNumber (boost ⊠ gain) → nought ≼ boost ⊠ gain = λ n.
            let (boosted, _) = rounded.factors boost gain n in
            rounded.mul_nonneg boost gain n (rounded.exp_nonneg _ boosted)
              (sound.gain (level_of input)) in
          min_unit_nonneg laws (boost ⊠ gain) config.max_ratio scaled sound.ratio

      module _ (turning : nought ≼ input.cadence) (finite : f.is_finite input.cadence ≡ true)
          (moving : nought ≼ abs_unit input.motor_speed) where
        speed_ratio_nonneg : nought ≼ speed_ratio config input
        unfolding speed_ratio
        speed_ratio_nonneg =
            let motor = abs_unit input.motor_speed in
            let power = motor ⊠ config.torque_ratio in
            ground (
              arith,
              sound.torque_ratio,
              rounded.div_nonneg input.cadence motor finite turning,
              rounded.mul_pos motor config.torque_ratio moving,
              laws.lt_of_le_of_lt nought input.cadence power turning,
            )

        demand_nonneg :
            nought ≼ driving config input
            → IsNumber (demand config input)
            → nought ≼ demand config input
        unfolding demand
        demand_nonneg pressing n =
            let d = driving config input in
            let r = assist_ratio config input in
            let s = speed_ratio config input in
            let (n3, nf) = rounded.factors (d ⊠ r ⊠ s) (fade config input) n in
            let (n2, ns) = rounded.factors (d ⊠ r) s n3 in
            let (nd, nr) = rounded.factors d r n2 in
            rounded.mul_nonneg _ _ n
              (rounded.mul_nonneg _ _ n3
                (rounded.mul_nonneg d r n2 pressing (assist_ratio_nonneg nr)) speed_ratio_nonneg)
              (fade_nonneg nf)

  module _ (a : AssistController F) (input : AssistInput F) (sound : IsSound a.config)
      (measured : IsMeasured a.config input) where
    on_tests :
        is_off a.config input ≡ false
        → ((input.cadence ≺ a.config.min_cadence) ≡ false)
          × ((driving a.config input ⪯ nought) ≡ false)
          × ((input.torque_limit ⪯ nought) ≡ false)
    unfolding is_off
    on_tests on = ground arith

    nonneg_of_not_nonpos : (x : F) → IsNumber x → (x ⪯ nought) ≡ false → nought ≼ x
    nonneg_of_not_nonpos x n h = ground (arith, laws.le_total x nought n (zero_refl laws rounded))

    demand_on : is_off a.config input ≡ false → nought ≼ demand a.config input
    unfolding demand
    demand_on on =
        let (turns, presses, _) = on_tests on in
        let n = measured.demand_number in
        let cadence_refl = laws.refl_of_finite input.cadence measured.cadence in
        let (_, cadence_min) = laws.refl_of_le nought a.config.min_cadence sound.cadence in
        let turning =
          laws.le_trans _ _ _ sound.cadence
            (le_of_not_lt laws input.cadence a.config.min_cadence cadence_refl cadence_min turns) in
        let (n3, _) = rounded.factors _ _ n in
        let (n2, _) = rounded.factors _ _ n3 in
        let (driven, _) = rounded.factors _ _ n2 in
        let (moving, _) = abs_unit_bounds laws rounded input.motor_speed measured.motor_speed in
        demand_nonneg a.config input sound turning measured.cadence moving
          (nonneg_of_not_nonpos (driving a.config input) driven presses) n

    target_bounds :
        let goal = (target a input).0 in
        (nought ≼ goal) × (goal ≼ max_unit input.torque_limit nought)
    unfolding target
    target_bounds =
        let zero = zero_refl laws rounded in
        let limit = input.torque_limit in
        let (below, above, _) = max_unit_bounds laws limit nought measured.torque_limit zero in
        elim (Bool-cases (is_off a.config input)) [
          | inl off ↦ rw off (zero, above)
          | inr on ↦
              let (_, _, limited) = on_tests on in
              let able = nonneg_of_not_nonpos limit measured.torque_limit limited in
              let (_, high, _) =
                min_unit_bounds laws _ limit measured.demand_number measured.torque_limit in
              rw on (
                le-min_unit laws nought _ limit (demand_on on) able,
                laws.le_trans _ _ _ high below,
              )
        ]

  -- With parameters that are not negative, inputs that are numbers, a finite torque that is not negative and ramp steps that are not negative,
  -- the torque after a step is not negative and at most the larger of the torque limit and the torque before. It is at most one step of the rise above the torque before and at most
  -- one step of the fall below it, and where the law is off it does not grow.
  pub step_torque :
      (a : AssistController F) (dt : F) (input : AssistInput F)
      → IsSound a.config
      → IsMeasured a.config input
      → f.is_finite a.torque ≡ true
      → nought ≼ a.torque
      → nought ≼ rise a dt input
      → nought ≼ fall a dt input
      → let torque = (step a dt input).torque in
        (nought ≼ torque)
        × (torque ≼ max_unit a.torque (max_unit input.torque_limit nought))
        × (torque ≼ a.torque ⊞ rise a dt input)
        × (a.torque ⊟ fall a dt input ≼ torque)
        × (is_off a.config input ≡ true → torque ≼ a.torque)
  unfolding step
  step_torque a dt input sound measured held positive up down =
      let (low, high) = target_bounds a input sound measured in
      let (nonneg, below, rising, falling) =
        ramp_bounds laws a.torque (target a input).0 (a.torque ⊞ rise a dt input)
          (a.torque ⊟ fall a dt input) (max_unit input.torque_limit nought) positive low high
          (rounded.le-add a.torque _ held up) (rounded.sub-le a.torque _ held down) in
      (
        nonneg,
        below,
        rising,
        falling,
        (λ off.
            falls laws a.torque _ _ _ positive (rounded.sub-le a.torque _ held down)
              (target_off a input off)),
      )
