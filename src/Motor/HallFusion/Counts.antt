-- ===== src/Motor/HallFusion/Counts.antt =====
-- What HallFusion counts: the changes of the Hall code, each once.
use unimoc.Prelude.{
  ℕ, zero, suc, ◌+◌, ◌%◌, ◌^◌, ◌≡◌, refl, ap, ◌∙◌, Bool, true, false, ◌&&◌, ◌||◌, not, none, some,
  List, [], ◌∷◌, leb, ◌==◌, if◌then◌else◌, arith,
}
use unimoc.Units.{Float}
use unimoc.Motor.Hall.{Angles, sector, edge_angle, edge_of}
use unimoc.Motor.HallQueue.{HallEvent}
use unimoc.Motor.HallFusion.{
  Estimator, HallFusion, Pass, fuse_edge, fuse_transition, fuse_change, set_code, fuse_event,
  fuse_events, bound_age, conclude, update,
}

-- The code after the events.
abbrev pub last_code : ℕ → List HallEvent → ℕ
last_code code [] = code
last_code code (event ∷ events) = last_code event.code events

-- Three sensors at 120 degrees are never all low or all high.
abbrev pub is_code : ℕ → Bool
is_code code = leb 1 code && leb code 6

-- A change that is judged: to an invalid code, or between valid codes. A change from an invalid code to a valid one
-- only ends the fault.
abbrev pub is_judged : (previous code : ℕ) → Bool
is_judged previous code = not (code == previous) && (not (is_code code) || is_code previous)

abbrev pub judged : ℕ → List HallEvent → ℕ
judged code [] = 0
judged code (event ∷ events) =
    (if is_judged code event.code then 1 else 0) + judged event.code events

module _ {F : Type 0} where
  abbrev pub total : HallFusion F → ℕ
  total h = (h.edges + h.invalid_codes + h.invalid_transitions) % 2 ^ 32

sector_lem : (code : ℕ) → is_code code ≡ elim (sector code) [ none ↦ false | some s ↦ true ]
unfolding sector
sector_lem zero = refl
sector_lem (suc zero) = refl
sector_lem (suc (suc zero)) = refl
sector_lem (suc (suc (suc zero))) = refl
sector_lem (suc (suc (suc (suc zero)))) = refl
sector_lem (suc (suc (suc (suc (suc zero))))) = refl
sector_lem (suc (suc (suc (suc (suc (suc zero)))))) = refl
sector_lem (suc (suc (suc (suc (suc (suc (suc zero))))))) = refl
sector_lem (suc (suc (suc (suc (suc (suc (suc (suc code)))))))) = ground arith

module _ {F : Type 0} ⦃f : Float F⦄ ⦃a : Angles F⦄ where
  no_edge :
      (offset : F) (previous code : ℕ)
      → sector previous ≡ none
      → edge_angle offset previous code ≡ none
  unfolding edge_angle edge_of
  no_edge offset previous code e = rw e refl

module _ {F M : Type 0} ⦃f : Float F⦄ ⦃a : Angles F⦄ ⦃k : Estimator F M⦄ where
  fuse_event_lem :
      (reference : ℕ) (tick_period : F) (event : HallEvent) (p : Pass F M)
      → let q = fuse_event reference tick_period event p in
        (q.fusion.code ≡ event.code)
        × (total q.fusion
            ≡ (total p.fusion + (if is_judged p.fusion.code event.code then 1 else 0)) % 2 ^ 32)
  unfolding fuse_event fuse_change fuse_transition fuse_edge set_code
  fuse_event_lem reference tick_period event p = ground (
    arith,
    sector_lem event.code,
    sector_lem p.fusion.code,
    no_edge p.fusion.hall_offset p.fusion.code event.code,
  )

  fuse_events_lem :
      (reference : ℕ) (tick_period : F) (events : List HallEvent) (p : Pass F M)
      → let q = fuse_events reference tick_period events p in
        (q.fusion.code ≡ last_code p.fusion.code events)
        × (total q.fusion ≡ (total p.fusion + judged p.fusion.code events) % 2 ^ 32)
  unfolding fuse_events
  fuse_events_lem reference tick_period [] p = (refl, omega arith)
  fuse_events_lem reference tick_period (event ∷ events) p =
      let (code, first) = fuse_event_lem reference tick_period event p in
      let q = fuse_event reference tick_period event p in
      let (last, rest) = fuse_events_lem reference tick_period events q in
      (
        last ∙ ap (λ c. last_code c events) code,
        rest
            ∙ ap (λ n. (n + judged q.fusion.code events) % 2 ^ 32) first
            ∙ ap
                (λ c.
                  ((total p.fusion + (if is_judged p.fusion.code event.code then 1 else 0)) % 2 ^ 32
                    + judged c events)
                  % 2 ^ 32)
                code
            ∙ omega arith,
      )

  conclude_lem :
      (reference : ℕ) (tick_period : F) (p : Pass F M)
      → let (h, m) = conclude reference tick_period p in
        (h.code ≡ p.fusion.code) × (total h ≡ total p.fusion)
  unfolding conclude bound_age
  conclude_lem reference tick_period p = ground arith

  -- Update ends with the code of the last event, and its three counters have together grown, modulo 2 ^ 32, by the
  -- changes of the code to an invalid code or between two valid codes: each such change is counted once.
  pub update_counts :
      (events : List HallEvent) (reference : ℕ) (tick_period : F) (h : HallFusion F) (m : M)
      → let (after, _) = update events reference tick_period h m in
        (after.code ≡ last_code h.code events)
        × (total after ≡ (total h + judged h.code events) % 2 ^ 32)
  unfolding update
  update_counts events reference tick_period h m =
      let p : Pass F M = record { fusion = h; observer = m; code_at_reference = h.code } in
      let q = fuse_events reference tick_period events p in
      let (code, counts) = fuse_events_lem reference tick_period events p in
      let (same, kept) = conclude_lem reference tick_period q in (same ∙ code, kept ∙ counts)
