-- ===== src/Units/Dimension.antt =====
-- lib/units/units.hpp, the dimensions of the quantities: the template Dimension and the aliases and specializations
-- that the compiler evaluates. Only `Unit` values of one dimension are added, compared or converted.
mod Coupling
mod Tests
use unimoc.Prelude.{ℕ, ◌+◌, ◌/◌, ◌%◌, Bool, true, false, ◌&&◌, ◌||◌, ◌==◌, if◌then◌else◌}
use unimoc.Prelude.Int.{ℤ, pos, negsuc, ◌+ℤ◌, ◌-ℤ◌, ◌==ℤ◌, pos_part, neg_part}

-- The exponents of kg, m, s, A, K and rad.
pub record Dimension : Type 0 where
  pub mass : ℤ
  pub length : ℤ
  pub time : ℤ
  pub current : ℤ
  pub temperature : ℤ
  pub angle : ℤ

pub same : Dimension → Dimension → Bool
same d e =
    d.mass ==ℤ e.mass
    && d.length ==ℤ e.length
    && d.time ==ℤ e.time
    && d.current ==ℤ e.current
    && d.temperature ==ℤ e.temperature
    && d.angle ==ℤ e.angle

pub dimension_product : Dimension → Dimension → Dimension
dimension_product d e = record {
  mass = d.mass +ℤ e.mass;
  length = d.length +ℤ e.length;
  time = d.time +ℤ e.time;
  current = d.current +ℤ e.current;
  temperature = d.temperature +ℤ e.temperature;
  angle = d.angle +ℤ e.angle;
}

pub dimension_quotient : Dimension → Dimension → Dimension
dimension_quotient d e = record {
  mass = d.mass -ℤ e.mass;
  length = d.length -ℤ e.length;
  time = d.time -ℤ e.time;
  current = d.current -ℤ e.current;
  temperature = d.temperature -ℤ e.temperature;
  angle = d.angle -ℤ e.angle;
}

-- An exponent divided by 2, towards zero as in C++.
abbrev pub half : ℤ → ℤ
half n = pos (pos_part n / 2) -ℤ pos (neg_part n / 2)

pub is_even : ℤ → Bool
is_even n = (pos_part n + neg_part n) % 2 == 0

-- The assertion of `DimensionRoot`.
pub has_root : Dimension → Bool
has_root d =
    is_even d.mass
    && is_even d.length
    && is_even d.time
    && is_even d.current
    && is_even d.temperature
    && is_even d.angle

pub dimension_root : Dimension → Dimension
dimension_root d = record {
  mass = half d.mass;
  length = half d.length;
  time = half d.time;
  current = half d.current;
  temperature = half d.temperature;
  angle = half d.angle;
}

abbrev pub dimensionless : Dimension
dimensionless = record {
  mass = pos 0;
  length = pos 0;
  time = pos 0;
  current = pos 0;
  temperature = pos 0;
  angle = pos 0;
}

abbrev pub time : Dimension
time = record dimensionless { time = pos 1 }

abbrev pub current : Dimension
current = record dimensionless { current = pos 1 }

abbrev pub angle : Dimension
angle = record dimensionless { angle = pos 1 }

abbrev pub energy : Dimension
energy = record dimensionless { mass = pos 1; length = pos 2; time = negsuc 1 }

pub angular_velocity : Dimension
angular_velocity = dimension_quotient angle time

pub angular_acceleration : Dimension
angular_acceleration = dimension_quotient angular_velocity time

pub power : Dimension
power = dimension_quotient energy time

pub torque : Dimension
torque = dimension_quotient energy angle

pub inertia : Dimension
inertia = dimension_quotient torque angular_acceleration

pub voltage : Dimension
voltage = dimension_quotient power current

pub magnetic_flux : Dimension
magnetic_flux = dimension_product voltage time

pub inductance : Dimension
inductance = dimension_quotient magnetic_flux current

-- `ProductDimension` with its specializations.
pub product_dimension : Dimension → Dimension → Dimension
product_dimension d e =
    if same d angular_velocity && same e magnetic_flux
    then voltage
    else if same d magnetic_flux && same e angular_velocity
    then voltage
    else if same d magnetic_flux && same e current
    then torque
    else if same d current && same e magnetic_flux
    then torque
    else dimension_product d e

-- `QuotientDimension` with its specializations.
pub quotient_dimension : Dimension → Dimension → Dimension
quotient_dimension d e =
    if same d torque && same e magnetic_flux
    then current
    else if same d torque && same e current
    then magnetic_flux
    else if same d voltage && same e angular_velocity
    then magnetic_flux
    else dimension_quotient d e
