-- ===== src/Settings/Store/Tests.antt =====
-- A store of two registers that are numbers, on a list of entries and a gate that counts who holds it.
use unimoc.Prelude.{
  ℕ, suc, ◌-◌, ◌≡◌, refl, Bool, true, false, List, [], ◌∷◌, leb, if◌then◌else◌, inl, length,
}
use unimoc.Settings.Store.{
  SettingsStatus, success, out_of_range, done, SettingsStore, Rules, Storage, Gate, save_changed,
  unsaved_count, is_success, lives, factories, update,
}
use unimoc.Settings.Store.Unsaved.{save_changed_saves}
use unimoc.Settings.Store.Load.{IsTrusted, updates, Operation-IsTrusted}

abbrev Disk : Type 0
Disk = List (List ℕ × List ℕ)

abbrev decode_number : List ℕ → ℕ → Bool × ℕ
decode_number [] v = (false, v)
decode_number (x ∷ xs) v = (true, x)

abbrev in_range : List ℕ → SettingsStatus
in_range [] = success
in_range (v ∷ vs) = if leb v 100 then in_range vs else out_of_range

instance abbrev numbers : Rules ℕ
numbers = record {
  encode = λ v. v ∷ [];
  decode = decode_number;
  validate = in_range;
  is_valid_profile = λ vs. true;
}

instance abbrev disk : Storage Disk
disk = record {
  load_all = λ d. (done, d);
  write = λ key value d. (done, (key, value) ∷ d);
  erase = λ key d. (done, d);
}

instance abbrev door : Gate ℕ
door = record { try_begin = λ g. (true, suc g); end = λ g. g - 1 }

abbrev store : SettingsStore ℕ Disk ℕ
store = record {
  registers =
      record { key = 97 ∷ []; live = 7; stored = 5; factory = 5 }
      ∷ record { key = 98 ∷ []; live = 1; stored = 1; factory = 1 }
      ∷ [];
  storage = [];
  gate = 0;
  erase_defaults = false;
}

save_changed_saves_example :
    let after = save_changed store in
    (lives after.1.registers ≡ 7 ∷ 1 ∷ [])
    × (factories after.1.registers ≡ 5 ∷ 1 ∷ [])
    × (after.0 ≡ success → unsaved_count (after.1) ≡ 0)
save_changed_saves_example = save_changed_saves store

abbrev lower_first : List ℕ → List ℕ
lower_first [] = []
lower_first (v ∷ vs) = (v - 3) ∷ vs

lower_first-length : (vs : List ℕ) → length (lower_first vs) ≡ length vs
lower_first-length [] = refl
lower_first-length (v ∷ vs) = refl

Operation-IsTrusted_example : IsTrusted ((update lower_first store).1)
unfolding IsTrusted is_success
Operation-IsTrusted_example =
    Operation-IsTrusted {store = store} (updates lower_first lower_first-length) (inl refl)
