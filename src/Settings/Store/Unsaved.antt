-- ===== src/Settings/Store/Unsaved.antt =====
-- lib/settings/settings_store.hpp, SaveChanged and CountUnsaved: a successful save leaves nothing unsaved.
use unimoc.Prelude.{
  ◌≡◌, refl, Bool, true, false, List, [], ◌∷◌, inl, inr, if◌then◌else◌, same_bytes_self, Bool-cases,
  arith,
}
use unimoc.Settings.Store.{
  success, SettingsStore, Register, Rules, Storage, Gate, Saving, is_success, same_encoding,
  is_kept, count_unsaved, unsaved_count, to_settings_status, write_register, save_register,
  save_all, save_changed, lives, factories,
}
use unimoc.Settings.Store.Save.{save_all-stopped}

success_result : is_success success ≡ true
unfolding is_success
success_result = refl

module _ {R D G : Type 0} ⦃rules : Rules R⦄ ⦃disk : Storage D⦄ ⦃door : Gate G⦄ where
  write_register-saved :
      (r : Register R) (s : Saving D G)
      → let after = write_register r s in
        is_success after.0.result ≡ true → same_encoding after.1.live after.1.stored ≡ true
  unfolding write_register same_encoding
  write_register-saved r s =
      let wrote =
        if same_encoding r.live r.factory
        then disk.erase r.key s.storage
        else disk.write r.key (rules.encode r.live) s.storage in
      elim (Bool-cases (is_success (to_settings_status (wrote.0)))) [
        | inl p ↦ rw (p) (λ ok. same_bytes_self (rules.encode r.live))
        | inr p ↦ rw (p) (λ ok. absurd cc)
      ]

  save_register-saved :
      (erase_defaults : Bool) (r : Register R) (s : Saving D G)
      → let after = save_register erase_defaults r s in
        is_success after.0.result ≡ true → same_encoding after.1.live after.1.stored ≡ true
  unfolding save_register is_kept is_success write_register
  save_register-saved erase_defaults r s = elim (Bool-cases (is_success s.result)) [
    | inr p ↦ rw (p) (λ ok. absurd cc)
    | inl p ↦ elim (Bool-cases (is_kept erase_defaults r)) [
      | inl q ↦ rw (p, q) (λ ok. ground arith)
      | inr q ↦ elim (Bool-cases s.saving) [
        | inl h ↦ rw (p, q, h) (write_register-saved r s)
        | inr h ↦ elim (Bool-cases ((door.try_begin s.gate).0)) [
          | inl b ↦
              rw (p, q, h, b)
                (write_register-saved r (record s { gate = (door.try_begin s.gate).1 }))
          | inr b ↦ rw (p, q, h, b) (λ ok. absurd cc)
        ]
      ]
    ]
  ]

  write_register-live :
      (r : Register R) (s : Saving D G)
      → let r' = (write_register r s).1 in (r'.live ≡ r.live) × (r'.factory ≡ r.factory)
  unfolding write_register
  write_register-live r s =
      let wrote =
        if same_encoding r.live r.factory
        then disk.erase r.key s.storage
        else disk.write r.key (rules.encode r.live) s.storage in
      elim (Bool-cases (is_success (to_settings_status (wrote.0)))) [
        | inl p ↦ rw (p) (refl, refl)
        | inr p ↦ rw (p) (refl, refl)
      ]

  save_register-live :
      (erase_defaults : Bool) (r : Register R) (s : Saving D G)
      → let r' = (save_register erase_defaults r s).1 in
        (r'.live ≡ r.live) × (r'.factory ≡ r.factory)
  unfolding save_register write_register
  save_register-live erase_defaults r s = elim (Bool-cases (is_success s.result)) [
    | inr p ↦ rw (p) (refl, refl)
    | inl p ↦ elim (Bool-cases (is_kept erase_defaults r)) [
      | inl q ↦ rw (p, q) (refl, refl)
      | inr q ↦ elim (Bool-cases s.saving) [
        | inl h ↦ rw (p, q, h) (write_register-live r s)
        | inr h ↦ elim (Bool-cases ((door.try_begin s.gate).0)) [
          | inl b ↦
              rw (p, q, h, b)
                (write_register-live r (record s { gate = (door.try_begin s.gate).1 }))
          | inr b ↦ rw (p, q, h, b) (refl, refl)
        ]
      ]
    ]
  ]

  pub save_all-lives :
      (erase_defaults : Bool) (rs : List (Register R)) (s : Saving D G)
      → let rs' = (save_all erase_defaults rs s).1 in
        (lives rs' ≡ lives rs) × (factories rs' ≡ factories rs)
  unfolding save_all
  save_all-lives erase_defaults [] s = (refl, refl)
  save_all-lives erase_defaults (r ∷ rs) s =
      let first = save_register-live erase_defaults r s in
      let rest = save_all-lives erase_defaults rs ((save_register erase_defaults r s).0) in
      (rw (first.0, rest.0) refl, rw (first.1, rest.1) refl)

  save_all-ok :
      (erase_defaults : Bool) (rs : List (Register R)) (s : Saving D G)
      → is_success (save_all erase_defaults rs s).0.result ≡ true
      → is_success s.result ≡ true
  save_all-ok erase_defaults rs s = elim (Bool-cases (is_success s.result)) [
    | inl p ↦ λ ok. p
    | inr p ↦ rw (save_all-stopped erase_defaults rs s p) (λ ok. ok)
  ]

  save_all-saved :
      (erase_defaults : Bool) (rs : List (Register R)) (s : Saving D G)
      → is_success (save_all erase_defaults rs s).0.result ≡ true
      → count_unsaved ((save_all erase_defaults rs s).1) ≡ 0
  unfolding save_all count_unsaved
  save_all-saved erase_defaults [] s ok = refl
  save_all-saved erase_defaults (r ∷ rs) s ok =
      let next = (save_register erase_defaults r s).0 in
      let first = save_register-saved erase_defaults r s (save_all-ok erase_defaults rs next ok) in
      rw (first, save_all-saved erase_defaults rs next ok) refl

  -- A save never changes the live settings or the factory profile, and a save that succeeds leaves no register unsaved.
  pub save_changed_saves :
      (store : SettingsStore R D G)
      → let after = save_changed store in
        (lives after.1.registers ≡ lives store.registers)
        × (factories after.1.registers ≡ factories store.registers)
        × (after.0 ≡ success → unsaved_count (after.1) ≡ 0)
  unfolding save_changed unsaved_count
  save_changed_saves store =
      let start : Saving D G = record {
        result = success;
        saving = false;
        storage = store.storage;
        gate = store.gate;
      } in
      (
        (save_all-lives store.erase_defaults store.registers start).0,
        (save_all-lives store.erase_defaults store.registers start).1,
        λ ok. save_all-saved store.erase_defaults store.registers start (rw (ok) success_result),
      )
