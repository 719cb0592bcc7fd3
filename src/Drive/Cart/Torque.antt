-- ===== src/Drive/Cart/Torque.antt =====
-- The torque of CartControl: the pedals in limp-home mode, the ramp, and the battery limits.
use unimoc.Prelude.{ℕ, ◌≡◌, refl, ◌⊎◌, inl, inr, Bool, true, false, arith, Bool-cases}
use unimoc.Units.{Float, ◌⊞◌, ◌⊟◌, ◌⊠◌, ◌≺◌, neg, nought, one, abs_unit, max_unit}
use unimoc.Units.Laws.{
  ◌≼◌, IsOrdered, IsRounded, clamp_unit_bounds, min_unit_bounds, max_unit_bounds, le-min_unit,
  min_unit-between, max_unit-between, abs_unit_bounds, sub-le-add, zero_refl, one_refl,
  max_nought-finite,
}
use unimoc.Drive.Cart.{
  CartControl, CartParameters, CartPedals, CartMode, off, vdc, limp_home, stopping, is_connected,
  pedal_deadband, clamp_travel, brake_travel, drive_travel, brake_fade, pedal_torque, next_torque,
  elapsed, update, is_fresh, to_cart, battery_limits,
}

module _ {F : Type 0} ⦃f : Float F⦄ where
  abbrev pub IsUnit : F → Type 0
  IsUnit x = (nought ≼ x) × (x ≼ one)

  -- Against the motion: nothing forward while the wheel turns forward, nothing backward while it turns
  -- backward, and nothing at all at standstill.
  abbrev OpposesIn : (forward backward : Bool) → F → Type 0
  OpposesIn true backward torque = torque ≼ nought
  OpposesIn false true torque = nought ≼ torque
  OpposesIn false false torque = torque ≡ nought

  abbrev pub Opposes : F → F → Type 0
  Opposes speed = OpposesIn (nought ≺ speed) (speed ≺ nought)

  abbrev pub is_braking : CartPedals F → Bool
  is_braking pedals = pedal_deadband ≺ brake_travel pedals

module _ {F : Type 0} ⦃f : Float F⦄ (laws : IsOrdered F) (rounded : IsRounded F) where
  clamp_travel-IsUnit : (x : F) → IsUnit (clamp_travel x)
  unfolding clamp_travel
  clamp_travel-IsUnit x = elim (Bool-cases (f.is_finite x)) [
    | inl h ↦
        rw h (clamp_unit_bounds laws x nought one (laws.refl_of_finite x h) laws.nought-le-one)
    | inr h ↦ rw h (zero_refl laws rounded, laws.nought-le-one)
  ]

  brake_travel-IsUnit : (p : CartPedals F) → IsUnit (brake_travel p)
  unfolding brake_travel
  brake_travel-IsUnit p =
      let (a, b) = clamp_travel-IsUnit p.brake_first in
      let (c, d) = clamp_travel-IsUnit p.brake_second in
      let (x, y) =
        max_unit-between laws nought (clamp_travel p.brake_first) nought one
          (zero_refl laws rounded) laws.nought-le-one a b in
      max_unit-between laws _ (clamp_travel p.brake_second) nought one x y c d

  drive_travel-IsUnit : (p : CartPedals F) → IsUnit (drive_travel p)
  unfolding drive_travel
  drive_travel-IsUnit p =
      let (a, b) = clamp_travel-IsUnit p.drive_first in
      let (c, d) = clamp_travel-IsUnit p.drive_second in
      min_unit-between laws (clamp_travel p.drive_first) (clamp_travel p.drive_second) nought one a
        b c

  module _ (p : CartParameters F) (speed : F) (finite : f.is_finite speed ≡ true) where
    brake_fade-IsUnit : IsUnit (brake_fade p speed)
    unfolding brake_fade
    brake_fade-IsUnit = elim (Bool-cases (nought ≺ p.standstill_speed)) [
      | inl h ↦
          let (positive, magnitude) = abs_unit_bounds laws rounded speed finite in
          let ratio = rounded.div_nonneg (abs_unit speed) p.standstill_speed magnitude positive h in
          let (_, number) = laws.refl_of_le _ _ ratio in
          rw h (
            le-min_unit laws nought _ one ratio laws.nought-le-one,
            (min_unit_bounds laws _ one number (one_refl laws rounded)).1,
          )
      | inr h ↦ rw h (laws.nought-le-one, one_refl laws rounded)
    ]

    module _ (pedals : CartPedals F) (able : nought ≼ p.limp_home_torque)
        (strong : f.is_finite p.limp_home_torque ≡ true) where
      brake_torque : F
      brake_torque = p.limp_home_torque ⊠ brake_travel pedals ⊠ brake_fade p speed

      brake_torque_bounds : (nought ≼ brake_torque) × (brake_torque ≼ p.limp_home_torque)
      unfolding brake_torque
      brake_torque_bounds =
          let (a, b) = brake_travel-IsUnit pedals in
          let (c, d) = brake_fade-IsUnit in
          let (low, high) =
            rounded.scale p.limp_home_torque (brake_travel pedals) strong able a b in
          let finite' = rounded.finite-between _ _ _ rounded.finite-nought strong low high in
          let (low', high') = rounded.scale _ (brake_fade p speed) finite' low c d in
          (low', laws.le_trans _ _ _ high' high)

      drive_torque_bounds :
          let torque = p.limp_home_torque ⊠ drive_travel pedals in
          (nought ≼ torque) × (torque ≼ p.limp_home_torque)
      drive_torque_bounds =
          let (a, b) = drive_travel-IsUnit pedals in
          rounded.scale p.limp_home_torque _ strong able a b

      neg-nonpos : (x : F) → nought ≼ x → neg x ≼ nought
      neg-nonpos x h = laws.le_trans _ _ _ (rounded.neg_mono nought x h) rounded.neg-nought.0

      -- At a finite speed, and for a finite limp-home torque that is not negative, the torque of the pedals is never
      -- larger than the limp-home torque, in either direction.
      pub pedal_torque_bounds :
          (neg p.limp_home_torque ≼ pedal_torque p pedals speed)
          × (pedal_torque p pedals speed ≼ p.limp_home_torque)
      unfolding pedal_torque brake_torque
      pedal_torque_bounds =
          let (low, high) = brake_torque_bounds in
          let (drive_low, drive_high) = drive_torque_bounds in
          let back = neg-nonpos p.limp_home_torque able in
          let braked = neg-nonpos brake_torque low in
          ground (
            arith,
            rounded.neg_mono brake_torque p.limp_home_torque high,
            laws.le_trans (neg brake_torque) nought p.limp_home_torque braked able,
            laws.le_trans (neg p.limp_home_torque) nought brake_torque back low,
            laws.le_trans (neg p.limp_home_torque) nought (p.limp_home_torque ⊠ drive_travel pedals)
                back drive_low,
          )

      -- At a finite speed, and for a finite limp-home torque that is not negative: with the brake pressed the torque of the pedals opposes the motion, whatever the drive pedal says;
      -- at standstill it is zero.
      pub brake-Opposes : is_braking pedals ≡ true → Opposes speed (pedal_torque p pedals speed)
      unfolding pedal_torque brake_torque
      brake-Opposes braking =
          let (low, _) = brake_torque_bounds in ground (arith, neg-nonpos brake_torque low)

      -- At a finite speed, and for a finite limp-home torque that is not negative: without the brake the pedals never drive backward, and do not drive at all where the drive pedal is
      -- implausible.
      pub drive_forward :
          is_braking pedals ≡ false
          → (nought ≼ pedal_torque p pedals speed)
            × ((pedals.drive_plausible ≡ true) ⊎ (pedal_torque p pedals speed ≡ nought))
      unfolding pedal_torque brake_torque
      drive_forward released =
          let (low, _) = drive_torque_bounds in ground (arith, zero_refl laws rounded)

module _ {F : Type 0} ⦃f : Float F⦄ where
  -- The torque that each mode allows, `step` being what the ramp allows since the last update.
  abbrev pub IsAllowed : CartControl F → F → CartMode → F → Type 0
  IsAllowed c step off torque = torque ≡ nought
  IsAllowed c step vdc torque = torque ≡ c.command_torque
  IsAllowed c step limp_home torque = (c.torque ⊟ step ≼ torque) × (torque ≼ c.torque ⊞ step)
  IsAllowed c step stopping torque = (c.torque ⊟ step ≼ torque) × (torque ≼ c.torque ⊞ step)

module _ {F : Type 0} ⦃f : Float F⦄ (laws : IsOrdered F) (rounded : IsRounded F) where
  module _ (c : CartControl F) (speed dt : F) where
    next_torque-IsAllowed :
        (m : CartMode)
        → f.is_finite speed ≡ true
        → f.is_finite c.torque ≡ true
        → nought ≼ c.parameters.limp_home_torque
        → f.is_finite c.parameters.limp_home_torque ≡ true
        → nought ≼ c.parameters.torque_ramp ⊠ dt
        → IsAllowed c (c.parameters.torque_ramp ⊠ dt) m (next_torque c m speed dt)
    unfolding next_torque
    next_torque-IsAllowed off moves held able strong ramp = refl
    next_torque-IsAllowed vdc moves held able strong ramp = refl
    next_torque-IsAllowed limp_home moves held able strong ramp =
        let target =
          pedal_torque_bounds laws rounded c.parameters speed moves c.pedals able strong in
        clamp_unit_bounds laws _ _ _ (laws.refl_of_le _ _ target.0).1
          (sub-le-add laws rounded c.torque _ held ramp)
    next_torque-IsAllowed stopping moves held able strong ramp =
        clamp_unit_bounds laws _ _ _ (zero_refl laws rounded)
          (sub-le-add laws rounded c.torque _ held ramp)

  -- After an update of an engaged drive the torque is the one that the new mode allows: none in the mode
  -- off, the wheel command unramped in the mode of the VDC, and in limp-home and stopping a torque at
  -- most one ramp step from the torque before. This is so at a finite speed and torque, and for a
  -- finite limp-home torque and a ramp step that are not negative.
  pub update_torque :
      (c : CartControl F) (now_us : ℕ) (shaft_speed : F)
      → f.is_finite (to_cart c.parameters shaft_speed) ≡ true
      → f.is_finite c.torque ≡ true
      → nought ≼ c.parameters.limp_home_torque
      → f.is_finite c.parameters.limp_home_torque ≡ true
      → nought ≼ c.parameters.torque_ramp ⊠ elapsed c now_us
      → let d = (update c now_us shaft_speed true).1 in
        IsAllowed c (c.parameters.torque_ramp ⊠ elapsed c now_us) d.mode d.torque
  unfolding update
  update_torque c now_us shaft_speed moves held able strong ramp =
      next_torque-IsAllowed c (to_cart c.parameters shaft_speed) (elapsed c now_us) _ moves held
        able strong ramp

  share_bounds :
      (x share : F)
      → IsUnit share
      → f.is_finite x ≡ true
      → let limit = max_unit x nought in
        (nought ≼ limit) × (nought ≼ limit ⊠ share) × (limit ⊠ share ≼ limit)
  share_bounds x share (low, high) h =
      let (_, positive, _) =
        max_unit_bounds laws x nought (laws.refl_of_finite x h) (zero_refl laws rounded) in
      let (scaled, limited) =
        rounded.scale (max_unit x nought) share (max_nought-finite laws rounded x h) positive low
          high in
      (positive, scaled, limited)

  -- Battery limits are valid only with a fresh battery status. They are then not negative and at most the
  -- limits of the BMS (or zero, where those are negative), for a share between 0 and 1; and with the
  -- contactor neither closed nor opening both are zero.
  pub battery_limits_lem :
      (c : CartControl F) (now_us : ℕ)
      → IsUnit c.parameters.battery_share
      → (battery_limits c now_us).valid ≡ true
      → let l = battery_limits c now_us in
        let b = c.battery in
        (is_fresh c.parameters c.has_battery c.battery_us now_us ≡ true)
        × (nought ≼ l.drive_current)
        × (l.drive_current ≼ max_unit b.discharge_limit nought)
        × (nought ≼ l.charge_current)
        × (l.charge_current ≼ max_unit b.charge_limit nought)
        × ((is_connected b.contactor ≡ true)
            ⊎ ((l.drive_current ≡ nought) × (l.charge_current ≡ nought)))
  unfolding battery_limits
  battery_limits_lem c now_us share valid = ground (
    arith,
    share_bounds c.battery.discharge_limit c.parameters.battery_share share,
    share_bounds c.battery.charge_limit c.parameters.battery_share share,
    zero_refl laws rounded,
  )
