-- ===== src/Settings/Store/Save.antt =====
-- lib/settings/settings_store.hpp, SaveChanged: the save gate around the writes, and what a save leaves unsaved.
use unimoc.Prelude.{◌≡◌, refl, Bool, true, false, List, [], ◌∷◌, ◌⊎◌}
use unimoc.Settings.Store.{
  SettingsStatus, success, factory_defaults, invalid_image, invalid_settings, out_of_range,
  storage_unavailable, storage_error, persist_blocked, SettingsStore, Register, Rules, Storage,
  Gate, Saving, is_success, save_register, save_all,
}

is_success_equal : (status : SettingsStatus) → is_success status ≡ true → status ≡ success
unfolding is_success
is_success_equal success h = refl
is_success_equal factory_defaults h = cc
is_success_equal invalid_image h = cc
is_success_equal invalid_settings h = cc
is_success_equal out_of_range h = cc
is_success_equal storage_unavailable h = cc
is_success_equal storage_error h = cc
is_success_equal persist_blocked h = cc

module _ {R D G : Type 0} ⦃rules : Rules R⦄ ⦃disk : Storage D⦄ ⦃door : Gate G⦄ where
  -- What the registers may become of, from the state `s` with the gate not yet held.
  data Outcome (s : Saving D G) (rs : List (Register R))
      : Saving D G → List (Register R) → Type 0 where
    idle : Outcome s rs s rs
    refused :
        (door.try_begin s.gate).0 ≡ false
        → Outcome s rs (record s { result = persist_blocked; gate = (door.try_begin s.gate).1 }) rs
    held :
        {s' : Saving D G} {rs' : List (Register R)}
        → (door.try_begin s.gate).0 ≡ true
        → s'.saving ≡ true
        → s'.gate ≡ (door.try_begin s.gate).1
        → Outcome s rs s' rs'

  -- After a result that is no success nothing more happens.
  pub save_all-stopped :
      (erase_defaults : Bool) (rs : List (Register R)) (s : Saving D G)
      → is_success s.result ≡ false
      → save_all erase_defaults rs s ≡ (s, rs)
  unfolding save_all save_register
  save_all-stopped erase_defaults [] s stopped = refl
  save_all-stopped erase_defaults (r ∷ rs) s stopped =
      rw (stopped) (rw (save_all-stopped erase_defaults rs s stopped) refl)

  -- What happens to one register while the gate is not held.
  data Step (s : Saving D G) (r : Register R) (after : Saving D G × Register R) : Type 0 where
    kept : after ≡ (s, r) → Step s r after
    blocked :
        (door.try_begin s.gate).0 ≡ false
        → after ≡ (record s { result = persist_blocked; gate = (door.try_begin s.gate).1 }, r)
        → Step s r after
    written :
        (door.try_begin s.gate).0 ≡ true
        → after.0.saving ≡ true
        → after.0.gate ≡ (door.try_begin s.gate).1
        → Step s r after

  -- What a save did: nothing, or it was blocked, or it held the gate once around its writes and released it.
  unfoldable pub IsGated : SettingsStore R D G → SettingsStatus × SettingsStore R D G → Type 0
  IsGated before (status, after) =
      ((status ≡ success)
        × (after.storage ≡ before.storage)
        × (after.registers ≡ before.registers)
        × (after.gate ≡ before.gate))
      ⊎ ((status ≡ persist_blocked)
          × ((door.try_begin before.gate).0 ≡ false)
          × (after.storage ≡ before.storage)
          × (after.registers ≡ before.registers)
          × (after.gate ≡ (door.try_begin before.gate).1))
      ⊎ (((door.try_begin before.gate).0 ≡ true)
          × (after.gate ≡ door.end ((door.try_begin before.gate).1)))
