-- ===== src/Drive/Cart/Modes.antt =====
-- The modes of CartControl: which changes an update makes, and what the loss of the bus leads to.
use mathlib.Core.Path.{subst}
use unimoc.Prelude.{ℕ, ◌≡◌, ◌≢◌, ◌↔◌, refl, sym, ◌⊎◌, inl, inr, Bool, true, false, not, arith}
use unimoc.Units.{Float, ◌⊞◌, ◌⊟◌, ◌⊠◌, ◌⪯◌, ◌≐◌, abs_unit, clamp_unit, nought}
use unimoc.Drive.Cart.{
  CartControl, CartMode, off, vdc, limp_home, stopping, next_mode, next_torque, elapsed, is_fresh,
  to_cart, on_bus_lost, update,
}

-- The changes of mode of an engaged drive. `command` and `pedals` say that the wheel command
-- and the pedal state are fresh, `standstill` that the wheel stands still.
pub data Change (command pedals standstill : Bool) : CartMode → CartMode → Type 0 where
  -- A fresh wheel command makes the drive a cart drive, also one that came before the engage.
  take : command ≡ true → Change command pedals standstill off vdc
  wait : command ≡ false → Change command pedals standstill off off
  follow : command ≡ true → Change command pedals standstill vdc vdc
  -- Without a wheel command the pedals drive, or nothing does.
  lose :
      {m : CartMode}
      → m ≢ off
      → command ≡ false
      → pedals ≡ true
      → Change command pedals standstill m limp_home
  stop :
      {m : CartMode}
      → m ≢ off
      → command ≡ false
      → pedals ≡ false
      → Change command pedals standstill m stopping
  -- The wheel command takes over again only at standstill.
  resume :
      {m : CartMode}
      → (m ≡ limp_home) ⊎ (m ≡ stopping)
      → command ≡ true
      → standstill ≡ true
      → Change command pedals standstill m vdc
  keep_pedals :
      {m : CartMode}
      → (m ≡ limp_home) ⊎ (m ≡ stopping)
      → standstill ≡ false
      → pedals ≡ true
      → Change command pedals standstill m limp_home
  keep_stopping :
      {m : CartMode}
      → (m ≡ limp_home) ⊎ (m ≡ stopping)
      → standstill ≡ false
      → pedals ≡ false
      → Change command pedals standstill m stopping

next_mode-Change :
    (m : CartMode) (command pedals standstill : Bool)
    → Change command pedals standstill m (next_mode m command pedals standstill)
unfolding next_mode
next_mode-Change off true p s = take refl
next_mode-Change off false p s = wait refl
next_mode-Change vdc true p s = follow refl
next_mode-Change vdc false true s = lose (λ e. cc) refl refl
next_mode-Change vdc false false s = stop (λ e. cc) refl refl
next_mode-Change limp_home true p true = resume (inl refl) refl refl
next_mode-Change limp_home true true false = keep_pedals (inl refl) refl refl
next_mode-Change limp_home true false false = keep_stopping (inl refl) refl refl
next_mode-Change limp_home false true s = lose (λ e. cc) refl refl
next_mode-Change limp_home false false s = stop (λ e. cc) refl refl
next_mode-Change stopping true p true = resume (inr refl) refl refl
next_mode-Change stopping true true false = keep_pedals (inr refl) refl refl
next_mode-Change stopping true false false = keep_stopping (inr refl) refl refl
next_mode-Change stopping false true s = lose (λ e. cc) refl refl
next_mode-Change stopping false false s = stop (λ e. cc) refl refl

Change-unique :
    {command pedals standstill : Bool} {m n : CartMode}
    → Change command pedals standstill m n
    → n ≡ next_mode m command pedals standstill
unfolding next_mode
Change-unique (take c) = ground arith
Change-unique (wait c) = ground arith
Change-unique (follow c) = ground arith
Change-unique (lose {m} h c p) = ground arith
Change-unique (stop {m} h c p) = ground arith
Change-unique (resume {m} h c s) = ground arith
Change-unique (keep_pedals {m} h s p) = ground arith
Change-unique (keep_stopping {m} h s p) = ground arith

module _ {F : Type 0} ⦃f : Float F⦄ where
  -- The tests that the change of mode rests on.
  module _ (c : CartControl F) (now_us : ℕ) (shaft_speed : F) where
    abbrev pub has_fresh_command : Bool
    has_fresh_command = is_fresh c.parameters c.has_command c.command_us now_us

    abbrev pub has_fresh_pedals : Bool
    has_fresh_pedals = is_fresh c.parameters c.has_pedals c.pedals_us now_us

    abbrev pub stands_still : Bool
    stands_still = abs_unit (to_cart c.parameters shaft_speed) ⪯ c.parameters.standstill_speed

  -- An update of an engaged drive changes the mode as the relation allows and in no other way: a fresh wheel command,
  -- also one from before the engage, makes it a cart drive; without one it is left to fresh pedals, or to stopping;
  -- and after that a fresh wheel command takes over again only at standstill.
  pub update_modes :
      (c : CartControl F) (now_us : ℕ) (shaft_speed : F) (n : CartMode)
      → ((update c now_us shaft_speed true).1.mode ≡ n)
        ↔ Change
            (has_fresh_command c now_us shaft_speed)
            (has_fresh_pedals c now_us shaft_speed)
            (stands_still c now_us shaft_speed)
            c.mode
            n
  unfolding update
  update_modes c now_us shaft_speed n = (
    λ e. subst (Change _ _ _ c.mode) e (next_mode-Change c.mode _ _ _),
    λ h. sym (Change-unique h),
  )

  -- After the bus is lost an engaged drive that was a cart drive is stopping, whatever was received before
  -- and however fresh it is. Its torque is zero clamped to one ramp step around the torque before, and the
  -- engagement is held exactly while that is not zero.
  pub bus_lost_stops :
      (c : CartControl F) (now_us : ℕ) (shaft_speed : F)
      → c.mode ≢ off
      → let (out, d) = update (on_bus_lost c) now_us shaft_speed true in
        let step = c.parameters.torque_ramp ⊠ elapsed c now_us in
        (out.mode ≡ stopping)
        × (d.mode ≡ stopping)
        × (d.torque ≡ clamp_unit nought (c.torque ⊟ step) (c.torque ⊞ step))
        × (out.holds_engagement ≡ not (d.torque ≐ nought))
  unfolding update on_bus_lost next_mode is_fresh next_torque elapsed
  bus_lost_stops c now_us shaft_speed h = ground arith
