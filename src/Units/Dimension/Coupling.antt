-- ===== src/Units/Dimension/Coupling.antt =====
-- The rules for products, quotients and roots of dimensions agree with each other.
use unimoc.Prelude.{◌≡◌, refl, ap, if◌then◌else◌, inl, inr, Bool-cases, true, false, ◌&&◌, arith}
use unimoc.Prelude.Int.{ℤ, pos, negsuc, ◌+ℤ◌, ◌==ℤ◌}
use unimoc.Units.Dimension.{
  Dimension, same, half, is_even, has_root, dimension_product, dimension_quotient, dimension_root,
  product_dimension, quotient_dimension, angular_velocity, magnetic_flux, current, voltage, power,
  torque,
}

add_comm : (a b : ℤ) → a +ℤ b ≡ b +ℤ a
add_comm a b = ground arith

half_double : (a : ℤ) → half (a +ℤ a) ≡ a
half_double (pos a) = ground arith
half_double (negsuc a) = ground arith

even_double : (a : ℤ) → is_even (a +ℤ a) ≡ true
unfolding is_even
even_double (pos a) = ground arith
even_double (negsuc a) = ground arith

product_comm : (d e : Dimension) → dimension_product d e ≡ dimension_product e d
unfolding dimension_product
product_comm d e =
    rw
      (
        add_comm d.mass e.mass,
        add_comm d.length e.length,
        add_comm d.time e.time,
        add_comm d.current e.current,
        add_comm d.temperature e.temperature,
        add_comm d.angle e.angle,
      )
      refl

product_dimension_comm : (d e : Dimension) → product_dimension d e ≡ product_dimension e d
unfolding product_dimension
product_dimension_comm d e = ground (arith, product_comm d e)

-- The electromechanical rules of a machine, `first` times `second` is `result`: the back-EMF is the flux linkage at
-- an angular velocity, and a torque is a flux with a current.
pub data Coupling : (first second result : Dimension) → Type 0 where
  back_emf : Coupling angular_velocity magnetic_flux voltage
  torque_of_flux : Coupling magnetic_flux current torque
  torque_of_current : Coupling current magnetic_flux torque

-- The rules drop or add only radians: without the angle they are products and quotients.
abbrev pub without_angle : Dimension → Dimension
without_angle d = record d { angle = pos 0 }

equal_ℤ : (a b : ℤ) → (a ==ℤ b) ≡ true → a ≡ b
equal_ℤ (pos m) (pos n) h = ap pos (ground arith)
equal_ℤ (negsuc m) (negsuc n) h = ap negsuc (ground arith)
equal_ℤ (pos m) (negsuc n) h = absurd cc
equal_ℤ (negsuc m) (pos n) h = absurd cc

same-equal : (d e : Dimension) → same d e ≡ true → d ≡ e
unfolding same
same-equal d e h = ground (
  arith,
  equal_ℤ d.mass e.mass,
  equal_ℤ d.length e.length,
  equal_ℤ d.time e.time,
  equal_ℤ d.current e.current,
  equal_ℤ d.temperature e.temperature,
  equal_ℤ d.angle e.angle,
)

-- One rule of a specialization, `x` and `y` to `result`, before the `rest` of the rules.
rule_lem :
    (op : Dimension → Dimension → Dimension) (x y result d e rest : Dimension)
    → without_angle result ≡ op (without_angle x) (without_angle y)
    → without_angle rest ≡ op (without_angle d) (without_angle e)
    → without_angle (if same d x && same e y then result else rest)
      ≡ op (without_angle d) (without_angle e)
rule_lem op x y result d e rest here later = elim (Bool-cases (same d x)) [
  | inl p ↦ elim (Bool-cases (same e y)) [
    | inl q ↦ rw (p, q) (rw (same-equal d x p, same-equal e y q) here)
    | inr q ↦ rw (p, q) later
  ]
  | inr p ↦ rw p later
]

product-without_angle :
    (d e : Dimension)
    → without_angle (product_dimension d e) ≡ dimension_product (without_angle d) (without_angle e)
unfolding product_dimension dimension_product magnetic_flux angular_velocity voltage power torque
    dimension_quotient
product-without_angle d e =
    let op = dimension_product in
    rule_lem op angular_velocity magnetic_flux voltage d e _ refl (
      rule_lem op magnetic_flux angular_velocity voltage d e _ refl (
        rule_lem op magnetic_flux current torque d e _ refl
          (rule_lem op current magnetic_flux torque d e _ refl refl)))

quotient-without_angle :
    (d e : Dimension)
    → without_angle (quotient_dimension d e)
      ≡ dimension_quotient (without_angle d) (without_angle e)
unfolding quotient_dimension dimension_product magnetic_flux angular_velocity voltage power torque
    dimension_quotient
quotient-without_angle d e =
    let op = dimension_quotient in
    rule_lem op torque magnetic_flux current d e _ refl (
      rule_lem op torque current magnetic_flux d e _ refl
        (rule_lem op voltage angular_velocity magnetic_flux d e _ refl refl))

coupling_lem :
    {a b c : Dimension}
    → Coupling a b c
    → (product_dimension a b ≡ c) × (product_dimension b a ≡ c) × (quotient_dimension c a ≡ b)
unfolding product_dimension quotient_dimension dimension_product same magnetic_flux angular_velocity
    voltage power torque dimension_quotient
coupling_lem back_emf = (refl, refl, refl)
coupling_lem torque_of_flux = (refl, refl, refl)
coupling_lem torque_of_current = (refl, refl, refl)

-- A dimension that is two of the dimensions of the couplings does not exist.
flux_and_speed : (d : Dimension) → same d magnetic_flux && same d angular_velocity ≡ false
unfolding same magnetic_flux angular_velocity voltage power dimension_product dimension_quotient
flux_and_speed d = ground arith

flux_and_current : (d : Dimension) → same d magnetic_flux && same d current ≡ false
unfolding same magnetic_flux voltage power dimension_product dimension_quotient
flux_and_current d = ground arith

square_lem : (d : Dimension) → product_dimension d d ≡ dimension_product d d
unfolding product_dimension
square_lem d = ground (arith, flux_and_speed d, flux_and_current d)

root_lem :
    (d : Dimension)
    → (has_root (dimension_product d d) ≡ true) × (dimension_root (dimension_product d d) ≡ d)
unfolding has_root dimension_root dimension_product
root_lem d = (
  rw
      (
        even_double d.mass,
        even_double d.length,
        even_double d.time,
        even_double d.current,
        even_double d.temperature,
        even_double d.angle,
      )
      refl,
  rw
      (
        half_double d.mass,
        half_double d.length,
        half_double d.time,
        half_double d.current,
        half_double d.temperature,
        half_double d.angle,
      )
      refl,
)

-- For the three couplings of a machine, angular velocity with flux is voltage, flux with current is torque, and current
-- with flux is torque: the product in either order is the result, and the result over the first factor is the second.
-- For any two dimensions the product is the same in either order, and in all but the angle the exponents of the
-- product are the sums, and those of the quotient the differences. The root of a square exists and is what was squared.
pub rules_agree :
    (d e : Dimension) {a b c : Dimension}
    → Coupling a b c
    → (product_dimension a b ≡ c)
      × (product_dimension b a ≡ c)
      × (quotient_dimension c a ≡ b)
      × (product_dimension d e ≡ product_dimension e d)
      × (without_angle (product_dimension d e)
          ≡ dimension_product (without_angle d) (without_angle e))
      × (without_angle (quotient_dimension d e)
          ≡ dimension_quotient (without_angle d) (without_angle e))
      × (has_root (product_dimension d d) ≡ true)
      × (dimension_root (product_dimension d d) ≡ d)
rules_agree d e coupling =
    let (product, swapped, quotient) = coupling_lem coupling in
    (
      product,
      swapped,
      quotient,
      product_dimension_comm d e,
      product-without_angle d e,
      quotient-without_angle d e,
      rw (square_lem d) (root_lem d).0,
      rw (square_lem d) (root_lem d).1,
    )
