-- ===== src/Units/Dimension/Tests.antt =====
-- Tests of Units/Dimension: the quantities of a machine.
use unimoc.Prelude.{◌≡◌, refl, true, false}
use unimoc.Prelude.Int.{pos, negsuc}
use unimoc.Units.Dimension.{
  same, dimension_product, dimension_quotient, dimension_root, has_root, is_even, product_dimension,
  quotient_dimension, time, current, angular_velocity, angular_acceleration, power, torque, inertia,
  voltage, magnetic_flux, inductance,
}
use unimoc.Units.Dimension.Coupling.{torque_of_flux, without_angle, rules_agree}

-- The two orders of the comment of `ProductDimension`: both are power.
machine_power :
    (product_dimension (product_dimension angular_velocity magnetic_flux) current ≡ power)
    × (product_dimension angular_velocity (product_dimension magnetic_flux current) ≡ power)
unfolding product_dimension same dimension_product dimension_quotient angular_velocity magnetic_flux
    voltage power torque
machine_power = (refl, refl)

inertia_exponents : inertia ≡ record {
  mass = pos 1;
  length = pos 2;
  time = pos 0;
  current = pos 0;
  temperature = pos 0;
  angle = negsuc 1;
}
unfolding inertia torque angular_acceleration angular_velocity dimension_quotient
inertia_exponents = refl

flux_of_inductance : product_dimension inductance current ≡ magnetic_flux
unfolding product_dimension same dimension_product dimension_quotient inductance magnetic_flux
    voltage power angular_velocity torque
flux_of_inductance = refl

no_root : has_root torque ≡ false
unfolding has_root is_even torque dimension_quotient
no_root = refl

rules_agree_example :
    (product_dimension magnetic_flux current ≡ torque)
    × (product_dimension current magnetic_flux ≡ torque)
    × (quotient_dimension torque magnetic_flux ≡ current)
    × (product_dimension torque time ≡ product_dimension time torque)
    × (without_angle (product_dimension torque time)
        ≡ dimension_product (without_angle torque) (without_angle time))
    × (without_angle (quotient_dimension torque time)
        ≡ dimension_quotient (without_angle torque) (without_angle time))
    × (has_root (product_dimension torque torque) ≡ true)
    × (dimension_root (product_dimension torque torque) ≡ torque)
rules_agree_example = rules_agree torque time torque_of_flux
