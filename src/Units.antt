-- ===== src/Units.antt =====
-- lib/units/units.hpp: a unit is a `float`, with its dimension checked by the C++ compiler and left out
-- here. The type of the floats is a parameter with the operations that the code uses.
pub mod Laws
pub mod Integers
pub mod Dimension
use unimoc.Prelude.{ℕ, Bool, if◌then◌else◌}

pub record Float (F : Type 0) : Type 0 where
  -- `m / 10 ^ k`
  pub decimal : ℕ → ℕ → F
  pub of_ℕ : ℕ → F
  -- The conversion to an unsigned integer, towards zero.
  pub to_ℕ : F → ℕ
  pub add : F → F → F
  pub sub : F → F → F
  pub mul : F → F → F
  pub div : F → F → F
  pub neg : F → F
  pub exp : F → F
  pub lt : F → F → Bool
  pub le : F → F → Bool
  pub eq : F → F → Bool
  pub is_finite : F → Bool

module _ {F : Type 0} ⦃f : Float F⦄ where
  -- The operations round, and the comparisons are the Boolean tests of the code.
  infixl 65 ◌⊞◌ ◌⊟◌
  infixl 70 ◌⊠◌ ◌⊘◌
  infix 50 ◌≺◌ ◌⪯◌ ◌≐◌
  abbrev pub ◌⊞◌ : F → F → F
  a ⊞ b = f.add a b

  abbrev pub ◌⊟◌ : F → F → F
  a ⊟ b = f.sub a b

  abbrev pub ◌⊠◌ : F → F → F
  a ⊠ b = f.mul a b

  abbrev pub ◌⊘◌ : F → F → F
  a ⊘ b = f.div a b

  abbrev pub ◌≺◌ : F → F → Bool
  a ≺ b = f.lt a b

  abbrev pub ◌⪯◌ : F → F → Bool
  a ⪯ b = f.le a b

  abbrev pub ◌≐◌ : F → F → Bool
  a ≐ b = f.eq a b

  abbrev pub neg : F → F
  neg a = f.neg a

  abbrev pub nought : F
  nought = f.decimal 0 0

  abbrev pub one : F
  one = f.decimal 1 0

  unfoldable pub abs_unit : F → F
  abs_unit x = if x ≺ nought then neg x else x

  unfoldable pub min_unit : F → F → F
  min_unit a b = if b ≺ a then b else a

  unfoldable pub max_unit : F → F → F
  max_unit a b = if a ≺ b then b else a

  -- `Unit::Clamp`: `std::min(std::max(val, min_val), max_val)`.
  unfoldable pub clamp_unit : F → F → F → F
  clamp_unit x low high = min_unit (max_unit x low) high

  unfoldable pub std_clamp : F → F → F → F
  std_clamp value low high = if value ≺ low then low else if high ≺ value then high else value
