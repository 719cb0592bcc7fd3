-- ===== src/Motor/HallFusion.antt =====
-- lib/motor_control/src/hall_fusion.hpp, class HallFusion. The mechanical observer is the interface `Estimator`.
mod Counts
mod Tests
use unimoc.Prelude.{
  ℕ, zero, suc, ◌+◌, ◌-◌, ◌%◌, ◌^◌, Bool, true, false, ◌&&◌, ◌||◌, not, Option, none, some, List,
  [], ◌∷◌, ltb, leb, ◌==◌, if◌then◌else◌,
}
use unimoc.Units.{Float, ◌⊞◌, ◌⊟◌, ◌⊠◌, ◌⊘◌, ◌≺◌, ◌≐◌, neg, nought}
use unimoc.Motor.Hall.{Angles, sector, sector_start, edge_angle, sector_innovation}
use unimoc.Motor.HallQueue.{HallEvent}

-- What HallFusion uses of `MechanicalObserver`.
pub record Estimator (F M : Type 0) : Type 0 where
  pub theta : M → F
  pub omega : M → F
  pub update_angle : M → (innovation noise : F) → M
  pub update_speed : M → (innovation noise : F) → M
  pub hold_still : M → M
  pub reset : M → (theta omega : F) → M

pub record HallFusion (F : Type 0) : Type 0 where
  pub hall_offset : F
  pub r_edge : F
  pub r_sector : F
  pub enabled : Bool
  pub valid : Bool
  pub started : Bool
  pub code : ℕ
  pub last_change : ℕ
  pub edges : ℕ
  pub invalid_codes : ℕ
  pub invalid_transitions : ℕ

-- The 32 bits of a difference of time stamps, and the sign of the `int32_t` that they are.
abbrev pub difference : (reference stamp : ℕ) → ℕ
difference reference stamp = (reference + 2 ^ 32 - stamp) % 2 ^ 32

abbrev pub is_negative : ℕ → Bool
is_negative d = leb (2 ^ 31) d

abbrev pub max_age_ticks : ℕ
max_age_ticks = 2 ^ 30

abbrev pub count : ℕ → ℕ
count n = (n + 1) % 2 ^ 32

-- The variables of the loop of `Update`.
pub record Pass (F M : Type 0) : Type 0 where
  pub fusion : HallFusion F
  pub observer : M
  pub code_at_reference : ℕ

module _ {F : Type 0} where
  pub reset : HallFusion F → HallFusion F
  reset h = record h {
    valid = false;
    started = false;
    code = 0;
    last_change = 0;
    edges = 0;
    invalid_codes = 0;
    invalid_transitions = 0;
  }

  -- `Init`, with the fields of the settings that it loads.
  pub init : (hall_enable : ℕ) (hall_offset r_edge r_sector : F) → HallFusion F → HallFusion F
  init hall_enable hall_offset r_edge r_sector h = reset (record h {
    enabled = not (hall_enable == 0);
    hall_offset = hall_offset;
    r_edge = r_edge;
    r_sector = r_sector;
  })

  pub bound_age : (reference : ℕ) → HallFusion F → HallFusion F
  bound_age reference h =
      let age = difference reference h.last_change in
      if not (is_negative age) && ltb max_age_ticks age
      then record h { last_change = difference reference max_age_ticks }
      else h

module _ {F : Type 0} ⦃f : Float F⦄ where
  pub signed_float : ℕ → F
  signed_float d = if is_negative d then neg (f.of_ℕ (2 ^ 32 - d)) else f.of_ℕ d

module _ {F M : Type 0} ⦃f : Float F⦄ ⦃a : Angles F⦄ ⦃k : Estimator F M⦄ where
  -- The update with an edge at the angle `edge`.
  pub fuse_edge : (ticks_after : ℕ) (tick_period edge : F) → Pass F M → Pass F M
  fuse_edge ticks_after tick_period edge p =
      let age = tick_period ⊠ signed_float ticks_after in
      let measured = edge ⊞ k.omega p.observer ⊠ age in
      record p {
        observer =
            k.update_angle p.observer (a.wrap_angle (measured ⊟ k.theta p.observer))
              p.fusion.r_edge;
        fusion = record p.fusion { edges = count p.fusion.edges };
      }

  pub fuse_transition : Pass F M → Pass F M
  fuse_transition p = elim (sector p.fusion.code) [
    | none ↦ p
    | some _ ↦ record p {
      fusion = record p.fusion { invalid_transitions = count p.fusion.invalid_transitions };
    }
  ]

  pub fuse_change : (ticks_after : ℕ) (tick_period : F) (event : HallEvent) → Pass F M → Pass F M
  fuse_change ticks_after tick_period event p = elim (sector event.code) [
    | none ↦ record p { fusion = record p.fusion { invalid_codes = count p.fusion.invalid_codes } }
    | some _ ↦ elim (edge_angle p.fusion.hall_offset p.fusion.code event.code) [
      | none ↦ fuse_transition p
      | some edge ↦ fuse_edge ticks_after tick_period edge p
    ]
  ]

  pub set_code : (ticks_after : ℕ) (event : HallEvent) → Pass F M → Pass F M
  set_code ticks_after event p = record p {
    fusion = record p.fusion { code = event.code; last_change = event.timestamp };
    code_at_reference = if is_negative ticks_after then p.code_at_reference else event.code;
  }

  pub fuse_event : (reference : ℕ) (tick_period : F) → HallEvent → Pass F M → Pass F M
  fuse_event reference tick_period event p =
      let ticks_after = difference reference event.timestamp in
      if event.code == p.fusion.code
      then p
      else set_code ticks_after event (fuse_change ticks_after tick_period event p)

  pub fuse_events : (reference : ℕ) (tick_period : F) → List HallEvent → Pass F M → Pass F M
  fuse_events reference tick_period [] p = p
  fuse_events reference tick_period (event ∷ events) p =
      fuse_events reference tick_period events (fuse_event reference tick_period event p)

  -- The measurement of the sector of a valid code.
  pub fuse_sector : ℕ → HallFusion F → M → M
  fuse_sector s h m =
      let innovation = sector_innovation h.hall_offset s (k.theta m) in
      let outside = not (innovation ≐ nought) in
      if not h.started || (not h.valid && outside)
      then k.reset m (a.wrap_angle (sector_start h.hall_offset s ⊞ a.sector_width ⊠ f.decimal 5 1))
          (k.omega m)
      else if outside
      then k.update_angle m innovation h.r_sector
      else m

  -- The speed updates at the time since the last change.
  pub bound_speed : (r_sector since_change : F) → M → M
  bound_speed r_sector since_change m =
      let limit = (a.sector_width ⊘ since_change) ⊠ f.of_ℕ 2 in
      let speed = k.omega m in
      let target = if nought ≺ speed then limit else neg limit in
      let bounded =
        if (limit ≺ speed) || (speed ≺ neg limit)
        then k.update_speed m (target ⊟ speed) (r_sector ⊘ (since_change ⊠ since_change))
        else m in
      if f.decimal 5 1 ≺ since_change then k.hold_still bounded else bounded

  pub fuse_age : (reference : ℕ) (tick_period : F) → HallFusion F → M → M
  fuse_age reference tick_period h m =
      let ticks = difference reference h.last_change in
      if is_negative ticks || (ticks == 0)
      then m
      else bound_speed h.r_sector (tick_period ⊠ f.of_ℕ ticks) m

  -- The part of `Update` behind the loop.
  pub conclude : (reference : ℕ) (tick_period : F) → Pass F M → HallFusion F × M
  conclude reference tick_period p = elim (sector p.code_at_reference) [
    | none ↦ (record p.fusion { valid = false }, p.observer)
    | some s ↦
        let h = bound_age reference (record p.fusion { valid = true; started = true }) in
        (h, fuse_age reference tick_period h (fuse_sector s p.fusion p.observer))
  ]

  pub update :
      (events : List HallEvent) (reference : ℕ) (tick_period : F)
      → HallFusion F
      → M
      → HallFusion F × M
  update events reference tick_period h m = conclude reference tick_period (
      fuse_events reference tick_period events
        (record { fusion = h; observer = m; code_at_reference = h.code }))
