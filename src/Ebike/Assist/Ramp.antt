-- ===== src/Ebike/Assist/Ramp.antt =====
-- The ramp of AssistController::Step between two limits: at most up to `up`, at least down to `down`.
use unimoc.Prelude.{◌≡◌, inl, inr, arith, Bool-cases, if◌then◌else◌}
use unimoc.Units.{Float, ◌≺◌, nought, min_unit, max_unit}
use unimoc.Units.Laws.{
  ◌≼◌, IsOrdered, min_unit_bounds, max_unit_bounds, le-min_unit, max_unit-le, le_of_lt,
  le_of_not_lt,
}

module _ {F : Type 0} ⦃f : Float F⦄ (laws : IsOrdered F) where
  pub falls :
      (t goal up down : F)
      → nought ≼ t
      → down ≼ t
      → goal ≡ nought
      → (if t ≺ goal then min_unit up goal else max_unit down goal) ≼ t
  falls t goal up down p q h =
      let (zero, t_refl) = laws.refl_of_le nought t p in
      rw h
        (ground (arith, laws.lt-eq-not-le t nought t_refl zero, max_unit-le laws down nought t q p))

  -- A ramp between two limits of the step.
  pub ramp_bounds :
      (t goal up down top : F)
      → nought ≼ t
      → nought ≼ goal
      → goal ≼ top
      → t ≼ up
      → down ≼ t
      → let r = if t ≺ goal then min_unit up goal else max_unit down goal in
        (nought ≼ r) × (r ≼ max_unit t top) × (r ≼ up) × (down ≼ r)
  ramp_bounds t goal up down top p q h rising falling =
      let (_, t_refl) = laws.refl_of_le nought t p in
      let (goal_refl, top_refl) = laws.refl_of_le goal top h in
      let (_, up_refl) = laws.refl_of_le t up rising in
      let (down_refl, _) = laws.refl_of_le down t falling in
      let (held, topped, _) = max_unit_bounds laws t top t_refl top_refl in
      elim (Bool-cases (t ≺ goal)) [
        | inl b ↦
            let ahead = le_of_lt laws t goal t_refl goal_refl b in
            let (first, second, _) = min_unit_bounds laws up goal up_refl goal_refl in
            rw b (
              laws.le_trans _ _ _ p (le-min_unit laws t up goal rising ahead),
              laws.le_trans _ _ _ second (laws.le_trans _ _ _ h topped),
              first,
              laws.le_trans _ _ _ falling (le-min_unit laws t up goal rising ahead),
            )
        | inr b ↦
            let behind = le_of_not_lt laws t goal t_refl goal_refl b in
            let (first, second, _) = max_unit_bounds laws down goal down_refl goal_refl in
            let below = max_unit-le laws down goal t falling behind in
            rw b (
              laws.le_trans _ _ _ q second,
              laws.le_trans _ _ _ below held,
              laws.le_trans _ _ _ below rising,
              first,
            )
      ]
