-- ===== src/Ebike/Control/Cycle/Engage.antt =====
-- EbikeControl::Update: when it asks for the engaged drive, and that it does not while the latch is set.
use mathlib.Core.Path.{subst}
use unimoc.Prelude.{
  ℕ, ◌<◌, ◌≡◌, ◌↔◌, ◌⊎◌, ◌∙◌, refl, sym, ap, inl, inr, Bool, true, false, not, ◌&&◌, ◌||◌, List, [],
  ◌∷◌, All, arith, Bool-cases, leb,
}
use unimoc.Units.{Float}
use unimoc.Ebike.Control.{EbikeIo, EbikeVehicle, EbikeOutput, EbikeControl, since, to_us, seconds}
use unimoc.Ebike.Control.Display.Answers.{service_display_answers}
use unimoc.Ebike.Control.Cycle.{
  wants, engagement, drive, is_early, elapsed_us, start, read_pedal, observe, update,
}
use unimoc.Ebike.Control.Cycle.Latch.{engagement-fields}

and_twice : (a b : Bool) → ((not a && b) && not a) ≡ (not a && b)
and_twice true b = refl
and_twice false true = refl
and_twice false false = refl

released_while :
    (latched wish engage : Bool) → engage ≡ (not latched && wish) → latched ≡ true → engage ≡ false
released_while latched wish engage h l = ground arith

latch_iff :
    (a fault wanted engaged wish : Bool) (limit time : ℕ) (latched : Bool)
    → latched ≡ ((a || fault && (wanted || engaged || wish)) && not (leb limit time))
    → (latched ≡ true) ↔ (
        (time < limit)
        × ((a ≡ true) ⊎ ((fault ≡ true) × ((wanted ≡ true) ⊎ (engaged ≡ true) ⊎ (wish ≡ true)))))
latch_iff a fault wanted engaged wish limit time latched h = ground arith

engage_iff :
    (latched wish wanted : Bool) (limit time : ℕ) (engage : Bool)
    → engage ≡ (not latched && (wish || wanted && not (leb limit time)))
    → (engage ≡ true) ↔ ((latched ≡ false) × ((wish ≡ true) ⊎ ((wanted ≡ true) × (time < limit))))
engage_iff latched wish wanted limit time engage h = ground arith

module _ {F : Type 0} ⦃f : Float F⦄ where
  -- The pedals have not stood still for the re-arm time.
  abbrev pub IsBlocked : EbikeControl F → ℕ → Type 0
  IsBlocked n now_us = since now_us n.pedal_still_since_us < to_us n.parameters.rearm_pedal_stop

  abbrev IsUntouched : EbikeControl F → EbikeControl F → Type 0
  IsUntouched n c =
      (n.parameters ≡ c.parameters)
      × (n.wanting ≡ c.wanting)
      × (n.last_want_us ≡ c.last_want_us)
      × (n.latched ≡ c.latched)
      × (n.was_engaged ≡ c.was_engaged)

  start-IsUntouched : (c : EbikeControl F) (now_us : ℕ) → IsUntouched (start c now_us) c
  unfolding start
  start-IsUntouched c now_us = elim (Bool-cases c.started) [
    | inl h ↦ rw h (refl, refl, refl, refl, refl)
    | inr h ↦ rw h (refl, refl, refl, refl, refl)
  ]

  drive-fields :
      (c : EbikeControl F) (dt : F) (vehicle : EbikeVehicle F)
      → let (output, n) = drive c dt vehicle in
        (output.engage ≡ (c.wanting && not c.latched))
        × (wants n ≡ wants c)
        × (n.parameters ≡ c.parameters)
        × (n.latched ≡ c.latched)
        × (n.pedal_still_since_us ≡ c.pedal_still_since_us)
        × (n.output.engage ≡ output.engage)
  unfolding drive wants
  drive-fields c dt vehicle = (refl, refl, refl, refl, refl, refl)

  module _ (wrap_angle : F → F) {W : Type 0} (io : EbikeIo F W) where
    module _ (c : EbikeControl F) (w : W) (now_us : ℕ) (vehicle : EbikeVehicle F) where
      observe-IsUntouched : IsUntouched (observe wrap_angle io c w now_us vehicle).0 c
      unfolding observe read_pedal
      observe-IsUntouched =
          let dt = seconds (elapsed_us c now_us) in
          let (read, w1) = read_pedal wrap_angle io (start c now_us) w dt in
          let (p, q, a, l, t) = start-IsUntouched c now_us in
          let (_, _, (p', _, q', a', l', _, t'), _) =
            service_display_answers io now_us vehicle read w1 in
          (p' ∙ p, q' ∙ q, a' ∙ a, l' ∙ l, t' ∙ t)

      -- What an update that is not early makes of the engagement.
      update-fields :
          is_early c now_us ≡ false
          → let (output, (n, w1)) = update wrap_angle io c w now_us vehicle in
            (n.parameters ≡ c.parameters)
            × (output.engage ≡ (
                not n.latched
                && (wants n
                    || c.wanting
                      && not (leb (to_us c.parameters.engage_hold) (since now_us c.last_want_us)))))
            × (n.latched ≡ (
                (c.latched || vehicle.faulted && (c.wanting || c.was_engaged || wants n))
                && not (
                    leb
                      (to_us n.parameters.rearm_pedal_stop)
                      (since now_us n.pedal_still_since_us))))
            × (n.output.engage ≡ output.engage)
      unfolding update
      update-fields timely =
          let dt = seconds (elapsed_us c now_us) in
          let m = (observe wrap_angle io c w now_us vehicle).0 in
          let g = engagement m now_us vehicle in
          let (p, q, a, l, t) = observe-IsUntouched in
          let (p', wish, latched, wanting) = engagement-fields m now_us vehicle in
          let (engage, wish', p'', latched', s, out) = drive-fields g dt vehicle in
          rw timely (
            p'' ∙ p' ∙ p,
            engage ∙ ap (λ b. b && not g.latched) wanting ∙ and_twice g.latched _ ∙ cc,
            cc,
            out,
          )

      timely_engages :
          is_early c now_us ≡ false
          → let (output, (n, w1)) = update wrap_angle io c w now_us vehicle in
            ((n.latched ≡ true) ↔ (
              IsBlocked n now_us
              × ((c.latched ≡ true)
                  ⊎ ((vehicle.faulted ≡ true)
                      × ((c.wanting ≡ true) ⊎ (c.was_engaged ≡ true) ⊎ (wants n ≡ true))))))
            × ((output.engage ≡ true) ↔ (
                (n.latched ≡ false)
                × ((wants n ≡ true)
                    ⊎ ((c.wanting ≡ true)
                        × (since now_us c.last_want_us < to_us c.parameters.engage_hold)))))
      timely_engages timely =
          let (output, (n, w1)) = update wrap_angle io c w now_us vehicle in
          let (parameters, engage, latched, _) = update-fields timely in
          (latch_iff _ _ _ _ _ _ _ n.latched latched, engage_iff _ _ _ _ _ output.engage engage)

    update_early :
        (c : EbikeControl F) (w : W) (now_us : ℕ) (vehicle : EbikeVehicle F)
        → is_early c now_us ≡ true
        → update wrap_angle io c w now_us vehicle ≡ (c.output, (c, w))
    unfolding update
    update_early c w now_us vehicle h = rw h refl

    -- An early update, less than one period after the last one, changes nothing and returns the output from before.
    -- Any other update leaves the latch set exactly if the pedals have not stood still for the re-arm time and either
    -- the latch was set before, or there is a fault while the drive was wanted, was engaged at the update before, or
    -- is wanted now. It asks for the engaged drive exactly if the latch is not set then and the drive is wanted now,
    -- that is the pedals turn at a level above 0 of a display that is alive, or it was wanted before and the engage
    -- hold since is not over.
    pub update_engages :
        (c : EbikeControl F) (w : W) (now_us : ℕ) (vehicle : EbikeVehicle F)
        → let (output, (n, w1)) = update wrap_angle io c w now_us vehicle in
          ((is_early c now_us ≡ true)
            × (update wrap_angle io c w now_us vehicle ≡ (c.output, (c, w))))
          ⊎ ((is_early c now_us ≡ false)
              × ((n.latched ≡ true) ↔ (
                  IsBlocked n now_us
                  × ((c.latched ≡ true)
                      ⊎ ((vehicle.faulted ≡ true)
                          × ((c.wanting ≡ true) ⊎ (c.was_engaged ≡ true) ⊎ (wants n ≡ true))))))
              × ((output.engage ≡ true) ↔ (
                  (n.latched ≡ false)
                  × ((wants n ≡ true)
                      ⊎ ((c.wanting ≡ true)
                          × (since now_us c.last_want_us < to_us c.parameters.engage_hold))))))
    update_engages c w now_us vehicle = elim (Bool-cases (is_early c now_us)) [
      | inl h ↦ inl (h, update_early c w now_us vehicle h)
      | inr h ↦ let (l, e) = timely_engages c w now_us vehicle h in inr (h, l, e)
    ]

    -- The updates of a run, with the time and the results of each.
    pub record Updated : Type 0 where
      pub at_us : ℕ
      pub output : EbikeOutput F
      pub state : EbikeControl F

    abbrev pub run : EbikeControl F → W → List (ℕ × EbikeVehicle F) → List Updated
    run c w [] = []
    run c w ((now_us, vehicle) ∷ rest) =
        let (output, (n, w1)) = update wrap_angle io c w now_us vehicle in
        let here : Updated = record { at_us = now_us; output = output; state = n } in
        here ∷ run n w1 rest

    abbrev pub IsRiding : Updated → Type 0
    IsRiding u = IsBlocked u.state u.at_us

    abbrev pub IsReleased : Updated → Type 0
    IsReleased u = (u.output.engage ≡ false) × (u.state.latched ≡ true)

    -- What a timely update of a latched control makes; the output from before does not matter.
    timely-IsReleased :
        (c : EbikeControl F) (w : W) (now_us : ℕ) (vehicle : EbikeVehicle F)
        → is_early c now_us ≡ false
        → c.latched ≡ true
        → let (output, (n, w1)) = update wrap_angle io c w now_us vehicle in
          IsBlocked n now_us
          → (output.engage ≡ false) × (n.latched ≡ true) × (n.output.engage ≡ false)
    timely-IsReleased c w now_us vehicle h set blocked =
        let ((_, sets), _) = timely_engages c w now_us vehicle h in
        let (_, engage, _, out) = update-fields c w now_us vehicle h in
        let kept = sets (blocked, inl set) in
        let quiet = released_while _ _ _ engage kept in (quiet, kept, out ∙ quiet)

    -- The results of a run that starts with the latch set: a leading early update returns the output from before and
    -- keeps the state, and from the first update that is not early on every result is released.
    abbrev pub IsHeld : EbikeControl F → List (ℕ × EbikeVehicle F) → List Updated → Type 0
    IsHeld c ((now_us, vehicle) ∷ inputs) (u ∷ us) =
        ((is_early c now_us ≡ true) × (u.output ≡ c.output) × (u.state ≡ c) × IsHeld c inputs us)
        ⊎ ((is_early c now_us ≡ false) × All IsReleased (u ∷ us))
    IsHeld c inputs us = Unit {0}

    update-IsReleased :
        (c : EbikeControl F) (w : W) (now_us : ℕ) (vehicle : EbikeVehicle F)
        → c.latched ≡ true
        → c.output.engage ≡ false
        → let (output, (n, w1)) = update wrap_angle io c w now_us vehicle in
          IsBlocked n now_us
          → (output.engage ≡ false) × (n.latched ≡ true) × (n.output.engage ≡ false)
    update-IsReleased c w now_us vehicle set idle blocked = elim (Bool-cases (is_early c now_us)) [
      | inl h ↦ rw (update_early c w now_us vehicle h) (idle, set, idle)
      | inr h ↦ timely-IsReleased c w now_us vehicle h set blocked
    ]

    run-IsReleased :
        (c : EbikeControl F) (w : W) (inputs : List (ℕ × EbikeVehicle F))
        → c.latched ≡ true
        → c.output.engage ≡ false
        → All IsRiding (run c w inputs)
        → All IsReleased (run c w inputs)
    run-IsReleased c w [] set idle riding = tt
    run-IsReleased c w ((now_us, vehicle) ∷ rest) set idle (here, later) =
        let (output, (n, w1)) = update wrap_angle io c w now_us vehicle in
        let (quiet, set', idle') = update-IsReleased c w now_us vehicle set idle here in
        ((quiet, set'), run-IsReleased n w1 rest set' idle' later)

    -- A run of updates starts with the latch set, as Inhibit leaves it, and during it the pedals never stand still for
    -- the re-arm time. Early updates at its start keep the state and return the output from before, which Inhibit
    -- does not clear; from the first update that is not early on, no update asks for the engaged drive and the latch
    -- stays set, whatever the display, the pedals and the vehicle do.
    pub run-IsHeld :
        (c : EbikeControl F) (w : W) (inputs : List (ℕ × EbikeVehicle F))
        → c.latched ≡ true
        → All IsRiding (run c w inputs)
        → IsHeld c inputs (run c w inputs)
    run-IsHeld c w [] set riding = tt
    run-IsHeld c w ((now_us, vehicle) ∷ rest) set (here, later) =
        elim (Bool-cases (is_early c now_us)) [
          | inl h ↦
              let e = update_early c w now_us vehicle h in
              inl (
                h,
                ap (λ u. u.0) e,
                ap (λ u. u.1.0) e,
                (subst (λ x. IsHeld c rest (run x.1.0 x.1.1 rest)) (sym e)
                    (run-IsHeld c w rest set
                      (subst (λ x. All IsRiding (run x.1.0 x.1.1 rest)) e later))),
              )
          | inr h ↦
              let (output, (n, w1)) = update wrap_angle io c w now_us vehicle in
              let (quiet, set', idle') = timely-IsReleased c w now_us vehicle h set here in
              inr (h, ((quiet, set'), run-IsReleased n w1 rest set' idle' later))
        ]
