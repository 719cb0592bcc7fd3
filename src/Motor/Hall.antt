-- ===== src/Motor/Hall.antt =====
-- lib/motor_control/src/hall_decoder.hpp, class HallDecoder. `Angles` are what it takes from other files: the width
-- of a sector, pi / 3, and WrapAngle of angle_wrap.hpp.
mod Geometry
mod Tests
use unimoc.Prelude.{
  ℕ, zero, suc, ◌+◌, ◌%◌, Option, none, some, List, [], ◌∷◌, ◌==◌, if◌then◌else◌, get_or,
}
use unimoc.Units.{Float, ◌⊞◌, ◌⊟◌, ◌⊠◌, ◌≺◌, neg, nought}

pub record Angles (F : Type 0) : Type 0 where
  pub sector_width : F
  pub wrap_angle : F → F

abbrev pub sectors : ℕ
sectors = 6

abbrev pub sector_of_code : List (Option ℕ)
sector_of_code = none ∷ some 1 ∷ some 3 ∷ some 2 ∷ some 5 ∷ some 0 ∷ some 4 ∷ none ∷ []

-- `Sector`; a code beyond the table is invalid too.
unfoldable pub sector : ℕ → Option ℕ
sector code = get_or sector_of_code code none

module _ {F : Type 0} ⦃f : Float F⦄ ⦃a : Angles F⦄ where
  unfoldable pub sector_start : (offset : F) → ℕ → F
  sector_start offset k = a.wrap_angle (offset ⊞ a.sector_width ⊠ f.of_ℕ (k % sectors))

  -- The end of `EdgeAngle`, for the sectors of two valid codes.
  unfoldable pub edge_between : (offset : F) (from to : ℕ) → Option F
  edge_between offset from to =
      if to == (from + 1) % sectors
      then some (sector_start offset to)
      else if from == (to + 1) % sectors
      then some (sector_start offset from)
      else none

  unfoldable pub edge_of : (offset : F) → Option ℕ → Option ℕ → Option F
  edge_of offset none to = none
  edge_of offset (some from) none = none
  edge_of offset (some from) (some to) = edge_between offset from to

  unfoldable pub edge_angle : (offset : F) (previous code : ℕ) → Option F
  edge_angle offset previous code = edge_of offset (sector previous) (sector code)

  pub sector_innovation : (offset : F) → ℕ → (estimate : F) → F
  sector_innovation offset k estimate =
      let half_width = a.sector_width ⊠ f.decimal 5 1 in
      let center = sector_start offset k ⊞ half_width in
      let deviation = a.wrap_angle (estimate ⊟ center) in
      if half_width ≺ deviation
      then half_width ⊟ deviation
      else if deviation ≺ neg half_width
      then neg half_width ⊟ deviation
      else nought
