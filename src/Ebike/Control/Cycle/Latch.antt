-- ===== src/Ebike/Control/Cycle/Latch.antt =====
-- The engagement of EbikeControl: when the drive is asked for, and how long the latch holds.
use unimoc.Prelude.{
  ℕ, ◌≡◌, ◌∙◌, refl, Bool, true, false, not, ◌&&◌, ◌||◌, arith, leb, if◌then◌else◌,
}
use unimoc.Units.{Float}
use unimoc.Ebike.Control.{EbikeVehicle, EbikeControl, since, to_us}
use unimoc.Ebike.Control.Cycle.{wants, latch_fault, rearm, hold_wanting, engagement}

module _ {F : Type 0} ⦃f : Float F⦄ where
  -- What the parts of the engagement leave alone.
  abbrev IsSame : EbikeControl F → EbikeControl F → Type 0
  IsSame n c =
      (n.parameters ≡ c.parameters)
      × (n.last_want_us ≡ c.last_want_us)
      × (n.was_engaged ≡ c.was_engaged)
      × (wants n ≡ wants c)

  note_pedals :
      (turning : Bool) (now_us : ℕ) (c : EbikeControl F)
      → let n = if turning then record c { pedal_still_since_us = now_us } else c in
        IsSame n c × (n.latched ≡ c.latched) × (n.wanting ≡ c.wanting)
  unfolding wants
  note_pedals true now_us c = ((refl, refl, refl, refl), refl, refl)
  note_pedals false now_us c = ((refl, refl, refl, refl), refl, refl)

  set_latch :
      (test value : Bool) (c : EbikeControl F)
      → let n = if test then record c { latched = value } else c in
        IsSame n c
        × (n.latched ≡ (if test then value else c.latched))
        × (n.wanting ≡ c.wanting)
        × (n.pedal_still_since_us ≡ c.pedal_still_since_us)
  unfolding wants
  set_latch true value c = ((refl, refl, refl, refl), refl, refl, refl)
  set_latch false value c = ((refl, refl, refl, refl), refl, refl, refl)

  set_wanting :
      (start stop : Bool) (now_us : ℕ) (c : EbikeControl F)
      → let n =
          if start
          then record c { wanting = true; last_want_us = now_us }
          else if stop
          then record c { wanting = false }
          else c in
        (n.parameters ≡ c.parameters)
        × (wants n ≡ wants c)
        × (n.latched ≡ c.latched)
        × (n.wanting ≡ (if start then true else if stop then false else c.wanting))
        × (n.pedal_still_since_us ≡ c.pedal_still_since_us)
  unfolding wants
  set_wanting true stop now_us c = (refl, refl, refl, refl, refl)
  set_wanting false true now_us c = (refl, refl, refl, refl, refl)
  set_wanting false false now_us c = (refl, refl, refl, refl, refl)

  latch_fault-fields :
      (c : EbikeControl F) (vehicle : EbikeVehicle F)
      → let n = latch_fault c vehicle in
        IsSame n c
        × (n.latched ≡ (c.latched || vehicle.faulted && (c.wanting || c.was_engaged || wants c)))
        × (n.wanting ≡ c.wanting)
        × (n.pedal_still_since_us ≡ c.pedal_still_since_us)
  unfolding latch_fault
  latch_fault-fields c vehicle =
      let (same, latched, wanting, rest) =
        set_latch (vehicle.faulted && (c.wanting || c.was_engaged || wants c)) true c in
      (same, latched ∙ ground arith, wanting, rest)

  rearm-fields :
      (c : EbikeControl F) (now_us : ℕ)
      → let n = rearm c now_us in
        IsSame n c
        × (n.latched ≡ (
            c.latched
            && not
                (leb (to_us c.parameters.rearm_pedal_stop) (since now_us c.pedal_still_since_us))))
        × (n.wanting ≡ c.wanting)
        × (n.pedal_still_since_us ≡ c.pedal_still_since_us)
  unfolding rearm
  rearm-fields c now_us =
      let rested =
        leb (to_us c.parameters.rearm_pedal_stop) (since now_us c.pedal_still_since_us) in
      let (same, latched, wanting, rest) = set_latch (c.latched && rested) false c in
      (same, latched ∙ ground arith, wanting, rest)

  hold_wanting-fields :
      (c : EbikeControl F) (now_us : ℕ)
      → let n = hold_wanting c now_us in
        (n.parameters ≡ c.parameters)
        × (wants n ≡ wants c)
        × (n.latched ≡ c.latched)
        × (n.wanting ≡ (
            not c.latched
            && (wants c
                || c.wanting
                  && not (leb (to_us c.parameters.engage_hold) (since now_us c.last_want_us)))))
        × (n.pedal_still_since_us ≡ c.pedal_still_since_us)
  unfolding hold_wanting
  hold_wanting-fields c now_us =
      let over = leb (to_us c.parameters.engage_hold) (since now_us c.last_want_us) in
      let (p, w, l, wanting, s) =
        set_wanting (wants c && not c.latched) (c.wanting && (c.latched || over)) now_us c in
      (p, w, l, wanting ∙ ground arith, s)

  pub wants_engaged :
      (c : EbikeControl F) (engaged : Bool) → wants (record c { was_engaged = engaged }) ≡ wants c
  unfolding wants
  wants_engaged c engaged = refl

  -- The latch and the wish to drive after an update at `now_us`, of the state that the pedals and the display
  -- left.
  module _ (c : EbikeControl F) (now_us : ℕ) (vehicle : EbikeVehicle F) where
    abbrev pub caught : Bool
    caught = c.latched || vehicle.faulted && (c.wanting || c.was_engaged || wants c)

    abbrev pub still : EbikeControl F → Bool
    still n = leb (to_us c.parameters.rearm_pedal_stop) (since now_us n.pedal_still_since_us)

    abbrev pub held : Bool
    held = not (leb (to_us c.parameters.engage_hold) (since now_us c.last_want_us))

    pub engagement-fields :
        let n = engagement c now_us vehicle in
        (n.parameters ≡ c.parameters)
        × (wants n ≡ wants c)
        × (n.latched ≡ (caught && not (still n)))
        × (n.wanting ≡ (not n.latched && (wants c || c.wanting && held)))
    unfolding engagement
    engagement-fields =
        let noted = if c.pedal.pedaling then record c { pedal_still_since_us = now_us } else c in
        let fault = latch_fault noted vehicle in
        let armed = rearm fault now_us in
        let ((p1, l1, w1, a1), la1, wa1) = note_pedals c.pedal.pedaling now_us c in
        let ((p2, l2, w2, a2), la2, wa2, s2) = latch_fault-fields noted vehicle in
        let ((p3, l3, w3, a3), la3, wa3, s3) = rearm-fields fault now_us in
        let (p4, a4, la4, wa4, s4) = hold_wanting-fields armed now_us in
        let parameters = p3 ∙ p2 ∙ p1 in
        let wish = a3 ∙ a2 ∙ a1 in
        (p4 ∙ parameters, wants_engaged _ vehicle.engaged ∙ a4 ∙ wish, cc, cc)
