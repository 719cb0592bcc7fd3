-- ===== src/Settings/Store/Load.antt =====
-- lib/settings/settings_store.hpp, Load, Commit, Update and ResetToFactoryDefaults: which live settings there may be.
use unimoc.Prelude.{
  ℕ, suc, ◌≡◌, refl, sym, ap, ◌∙◌, true, false, List, [], ◌∷◌, ◌⊎◌, inl, inr, same_bytes, length,
  Bool-cases, arith,
}
use unimoc.Settings.Store.{
  invalid_image, SettingsStore, Register, Rules, Storage, Gate, Loading, is_success, lives, storeds,
  factories, set_lives, reset_all, set_loaded, read_register, read_entry, read_entries, commit,
  update, reset_to_factory_defaults, finish_load, load, save_changed, to_settings_status,
}
use unimoc.Settings.Store.Unsaved.{save_changed_saves}

invalid_result : is_success invalid_image ≡ false
unfolding is_success
invalid_result = refl

module _ {R : Type 0} where
  lives-set_lives :
      (rs : List (Register R)) (candidate : List R)
      → length candidate ≡ length (lives rs)
      → lives (set_lives rs candidate) ≡ candidate
  unfolding set_lives
  lives-set_lives [] [] same = refl
  lives-set_lives [] (v ∷ candidate) same = absurd (omega (arith, same))
  lives-set_lives (r ∷ rs) [] same = absurd (omega (arith, same))
  lives-set_lives (r ∷ rs) (v ∷ candidate) same =
      ap (λ vs. v ∷ vs) (lives-set_lives rs candidate (omega (arith, same)))

  factories-set_lives :
      (rs : List (Register R)) (candidate : List R)
      → factories (set_lives rs candidate) ≡ factories rs
  unfolding set_lives
  factories-set_lives [] candidate = refl
  factories-set_lives (r ∷ rs) [] = refl
  factories-set_lives (r ∷ rs) (v ∷ candidate) =
      ap (λ vs. r.factory ∷ vs) (factories-set_lives rs candidate)

  lives-reset_all : (rs : List (Register R)) → lives (reset_all rs) ≡ factories rs
  unfolding reset_all
  lives-reset_all [] = refl
  lives-reset_all (r ∷ rs) = ap (λ vs. r.factory ∷ vs) (lives-reset_all rs)

  factories-reset_all : (rs : List (Register R)) → factories (reset_all rs) ≡ factories rs
  unfolding reset_all
  factories-reset_all [] = refl
  factories-reset_all (r ∷ rs) = ap (λ vs. r.factory ∷ vs) (factories-reset_all rs)

  lives-set_loaded : (rs : List (Register R)) → lives (set_loaded rs) ≡ storeds rs
  unfolding set_loaded
  lives-set_loaded [] = refl
  lives-set_loaded (r ∷ rs) = ap (λ vs. r.stored ∷ vs) (lives-set_loaded rs)

  factories-set_loaded : (rs : List (Register R)) → factories (set_loaded rs) ≡ factories rs
  unfolding set_loaded
  factories-set_loaded [] = refl
  factories-set_loaded (r ∷ rs) = ap (λ vs. r.factory ∷ vs) (factories-set_loaded rs)

  length-factories : (rs : List (Register R)) → length (factories rs) ≡ length (lives rs)
  length-factories [] = refl
  length-factories (r ∷ rs) = ap suc (length-factories rs)

module _ {R : Type 0} ⦃rules : Rules R⦄ where
  -- Reading an entry changes neither the live nor the factory values.
  Alike : List (Register R) → List (Register R) → Type 0
  Alike rs rs' = (lives rs' ≡ lives rs) × (factories rs' ≡ factories rs)

  read_register-Alike :
      (key value : List ℕ) (r : Register R) (rs : List (Register R)) (l : Loading R)
      → Alike rs l.registers
      → Alike (r ∷ rs) ((read_register key value r l).registers)
  unfolding read_register Alike
  read_register-Alike key value r rs l (live, factory) = elim (Bool-cases (same_bytes r.key key)) [
    | inl p ↦ rw (p) (ap (λ vs. r.live ∷ vs) live, ap (λ vs. r.factory ∷ vs) factory)
    | inr p ↦ rw (p) (ap (λ vs. r.live ∷ vs) live, ap (λ vs. r.factory ∷ vs) factory)
  ]

  read_entry-Alike :
      (key value : List ℕ) (rs : List (Register R)) (l : Loading R)
      → l.registers ≡ []
      → Alike rs ((read_entry key value rs l).registers)
  unfolding read_entry Alike
  read_entry-Alike key value [] l empty = rw (empty) (refl, refl)
  read_entry-Alike key value (r ∷ rs) l empty =
      read_register-Alike key value r rs (read_entry key value rs l)
        (read_entry-Alike key value rs l empty)

  read_entries-Alike :
      (entries : List (List ℕ × List ℕ)) (l : Loading R)
      → Alike l.registers ((read_entries entries l).registers)
  unfolding read_entries Alike
  read_entries-Alike [] l = (refl, refl)
  read_entries-Alike ((key, value) ∷ entries) l =
      let first = read_entry-Alike key value l.registers (record l { registers = [] }) refl in
      let rest =
        read_entries-Alike entries
          (read_entry key value l.registers (record l { registers = [] })) in
      (rest.0 ∙ first.0, rest.1 ∙ first.1)

module _ {R D G : Type 0} ⦃rules : Rules R⦄ ⦃disk : Storage D⦄ ⦃door : Gate G⦄ where
  -- The live settings passed the validation, or they are the factory profile.
  unfoldable pub IsTrusted : SettingsStore R D G → Type 0
  IsTrusted store =
      (is_success (rules.validate (lives store.registers)) ≡ true)
      ⊎ (lives store.registers ≡ factories store.registers)

  -- The operations of a store, with the store that each leaves. An operation of `Update` keeps the registers.
  pub data Operation (store : SettingsStore R D G) : SettingsStore R D G → Type 0 where
    loads : Operation store ((load store).1)
    updates :
        (f : List R → List R)
        → ((vs : List R) → length (f vs) ≡ length vs)
        → Operation store ((update f store).1)
    resets : Operation store ((reset_to_factory_defaults store).1)
    saves : Operation store ((save_changed store).1)

  commit-IsTrusted :
      (candidate : List R) (store : SettingsStore R D G)
      → length candidate ≡ length (lives store.registers)
      → IsTrusted store
      → IsTrusted ((commit candidate store).1)
  unfolding commit IsTrusted
  commit-IsTrusted candidate store same trusted =
      elim (Bool-cases (is_success (rules.validate candidate))) [
        | inl p ↦ rw (p) (inl (rw (lives-set_lives store.registers candidate same) p))
        | inr p ↦ rw (p) trusted
      ]

  finish_load-IsTrusted :
      (l : Loading R) (store : SettingsStore R D G)
      → lives l.registers ≡ factories l.registers
      → IsTrusted ((finish_load l store).1)
  unfolding finish_load IsTrusted
  finish_load-IsTrusted l store factory = elim (Bool-cases l.undecodable) [
    | inl u ↦ rw (u, invalid_result) (inr factory)
    | inr u ↦ elim (Bool-cases (is_success (rules.validate (storeds l.registers)))) [
      | inl p ↦ rw (u, p) (inl (rw (lives-set_loaded l.registers) p))
      | inr p ↦ rw (u, p) (inr factory)
    ]
  ]

  load-IsTrusted : (store : SettingsStore R D G) → IsTrusted store → IsTrusted ((load store).1)
  unfolding load IsTrusted Alike
  load-IsTrusted store trusted =
      let reset = reset_all store.registers in
      let read = disk.load_all store.storage in
      let at_factory =
        lives-reset_all store.registers ∙ sym (factories-reset_all store.registers) in
      let start : Loading R = record { registers = reset; loaded_count = 0; undecodable = false } in
      let same = read_entries-Alike (read.1) start in
      elim (Bool-cases (rules.is_valid_profile (factories store.registers))) [
        | inr p ↦ rw (p) trusted
        | inl p ↦ elim (Bool-cases (is_success (to_settings_status (read.0)))) [
          | inr q ↦ rw (p, q) (inr at_factory)
          | inl q ↦
              rw (p, q)
                (finish_load-IsTrusted (read_entries (read.1) start)
                  (record store { registers = reset; erase_defaults = false })
                  (same.0 ∙ at_factory ∙ sym (same.1)))
        ]
      ]

  save_changed-IsTrusted :
      (store : SettingsStore R D G) → IsTrusted store → IsTrusted ((save_changed store).1)
  unfolding IsTrusted
  save_changed-IsTrusted store trusted =
      let (live, factory, saved) = save_changed_saves store in rw (live, factory) trusted

  -- Load, Update, ResetToFactoryDefaults and SaveToFlash keep the live settings trusted: they passed the validation,
  -- or they are the factory profile. An operation of Update keeps the number of registers.
  pub Operation-IsTrusted :
      {store store' : SettingsStore R D G}
      → Operation store store'
      → IsTrusted store
      → IsTrusted store'
  unfolding update reset_to_factory_defaults
  Operation-IsTrusted {store = store} loads trusted = load-IsTrusted store trusted
  Operation-IsTrusted {store = store} (updates f keeps) trusted =
      commit-IsTrusted (f (lives store.registers)) store (keeps (lives store.registers)) trusted
  Operation-IsTrusted {store = store} resets trusted =
      commit-IsTrusted (factories store.registers) store (length-factories store.registers) trusted
  Operation-IsTrusted {store = store} saves trusted = save_changed-IsTrusted store trusted
