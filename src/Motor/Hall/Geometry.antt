-- ===== src/Motor/Hall/Geometry.antt =====
-- lib/motor_control/src/hall_decoder.hpp: the table of codes against the three sensors, and the edges between sectors.
use unimoc.Prelude.{
  ℕ, zero, suc, ◌+◌, ◌*◌, ◌%◌, ◌≡◌, ◌≤◌, ◌<◌, refl, ◌&&◌, ◌||◌, Option, none, some, ◌⊎◌, inl, inr,
  leb, ltb, ◌==◌, if◌then◌else◌, Bool-cases, arith,
}
use unimoc.Units.{Float}
use unimoc.Motor.Hall.{Angles, sector, edge_between, edge_of, edge_angle}

-- The sensors at the start of the sector `k`, 60 degrees each: A is high in [0, 180), B in [120, 300) and C in
-- [240, 60) degrees.
unfoldable pub sensor_code : ℕ → ℕ
sensor_code k =
    (if ltb (60 * k) 180 then 1 else 0)
    + (if leb 120 (60 * k) && ltb (60 * k) 300 then 2 else 0)
    + (if leb 240 (60 * k) || ltb (60 * k) 60 then 4 else 0)

-- What `sector` may say of a code.
unfoldable pub IsSector : ℕ → Option ℕ → Type 0
IsSector code none = (code ≡ 0) ⊎ (7 ≤ code)
IsSector code (some k) = (k < 6) × (sensor_code k ≡ code)

-- The table agrees with the sensors: the sector of a code is one of the six, and its sensors give the code; the
-- codes without a sector are 0 and those from 7 on.
pub sector-IsSector : (code : ℕ) → IsSector code (sector code)
unfolding sector IsSector sensor_code
sector-IsSector zero = inl refl
sector-IsSector (suc zero) = (omega arith, refl)
sector-IsSector (suc (suc zero)) = (omega arith, refl)
sector-IsSector (suc (suc (suc zero))) = (omega arith, refl)
sector-IsSector (suc (suc (suc (suc zero)))) = (omega arith, refl)
sector-IsSector (suc (suc (suc (suc (suc zero))))) = (omega arith, refl)
sector-IsSector (suc (suc (suc (suc (suc (suc zero)))))) = (omega arith, refl)
sector-IsSector (suc (suc (suc (suc (suc (suc (suc zero))))))) = inr (omega arith)
sector-IsSector (suc (suc (suc (suc (suc (suc (suc (suc code)))))))) = inr (omega arith)

module _ {F : Type 0} ⦃f : Float F⦄ ⦃a : Angles F⦄ where
  edge_between-swap :
      (offset : F) (from to : ℕ)
      → from < 6
      → to < 6
      → edge_between offset from to ≡ edge_between offset to from
  unfolding edge_between
  edge_between-swap offset from to p q = elim (Bool-cases (to == (from + 1) % 6)) [
    | inl e ↦ elim (Bool-cases (from == (to + 1) % 6)) [
      | inl e' ↦ absurd (ground arith)
      | inr e' ↦ rw (e, e') refl
    ]
    | inr e ↦ elim (Bool-cases (from == (to + 1) % 6)) [
      | inl e' ↦ rw (e, e') refl
      | inr e' ↦ rw (e, e') refl
    ]
  ]

  edge_of-swap :
      (offset : F) (p c : ℕ) (from to : Option ℕ)
      → IsSector p from
      → IsSector c to
      → edge_of offset from to ≡ edge_of offset to from
  unfolding edge_of IsSector
  edge_of-swap offset p c none none h k = refl
  edge_of-swap offset p c none (some to) h k = refl
  edge_of-swap offset p c (some from) none h k = refl
  edge_of-swap offset p c (some from) (some to) h k = edge_between-swap offset from to (h.0) (k.0)

  -- The edge between two codes lies at the same angle in both directions of rotation.
  pub edge_angle-swap :
      (offset : F) (previous code : ℕ)
      → edge_angle offset previous code ≡ edge_angle offset code previous
  unfolding edge_angle
  edge_angle-swap offset previous code =
      edge_of-swap offset previous code (sector previous) (sector code) (sector-IsSector previous)
        (sector-IsSector code)
