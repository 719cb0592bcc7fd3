-- ===== src/Settings/Store.antt =====
-- lib/settings/settings_store.hpp, classes SettingsStore, SettingsOperations and SettingsSaveGate. The settings
-- are a list of registers: `R` is the type of a register's value, with its live, stored and factory copy side by
-- side, in the order of ForEachRegister. `Rules` are the encoding of a value and the validation of all of them,
-- `Storage` the key/value storage and `Gate` the save gate of the platform. A call runs under the lock, so it is
-- one step.
pub mod Save
pub mod Unsaved
pub mod Load
mod Tests
use unimoc.Prelude.{
  ℕ, zero, suc, ◌+◌, Bool, true, false, not, ◌&&◌, ◌||◌, List, [], ◌∷◌, map, ◌==◌, if◌then◌else◌,
  same_bytes,
}

pub data SettingsStatus : Type 0 where
  success factory_defaults invalid_image invalid_settings out_of_range : SettingsStatus
  storage_unavailable storage_error persist_blocked : SettingsStatus

pub data SettingsStorageStatus : Type 0 where
  done not_found unavailable io_error : SettingsStorageStatus

pub record Register (R : Type 0) : Type 0 where
  pub key : List ℕ
  pub live : R
  pub stored : R
  pub factory : R

pub record Rules (R : Type 0) : Type 0 where
  pub encode : R → List ℕ
  -- Whether the bytes could be decoded, and the field afterwards.
  pub decode : List ℕ → R → Bool × R
  pub validate : List R → SettingsStatus
  pub is_valid_profile : List R → Bool

pub record Storage (D : Type 0) : Type 0 where
  -- The entries that the callback saw, with the status.
  pub load_all : D → SettingsStorageStatus × List (List ℕ × List ℕ)
  pub write : List ℕ → List ℕ → D → SettingsStorageStatus × D
  pub erase : List ℕ → D → SettingsStorageStatus × D

pub record Gate (G : Type 0) : Type 0 where
  pub try_begin : G → Bool × G
  pub end : G → G

pub record SettingsStore (R D G : Type 0) : Type 0 where
  pub registers : List (Register R)
  pub storage : D
  pub gate : G
  pub erase_defaults : Bool

pub is_success : SettingsStatus → Bool
is_success success = true
is_success factory_defaults = false
is_success invalid_image = false
is_success invalid_settings = false
is_success out_of_range = false
is_success storage_unavailable = false
is_success storage_error = false
is_success persist_blocked = false

pub to_settings_status : SettingsStorageStatus → SettingsStatus
to_settings_status done = success
to_settings_status not_found = success
to_settings_status unavailable = storage_unavailable
to_settings_status io_error = storage_error

module _ {R : Type 0} where
  abbrev pub lives : List (Register R) → List R
  lives [] = []
  lives (r ∷ rs) = r.live ∷ lives rs

  abbrev pub storeds : List (Register R) → List R
  storeds [] = []
  storeds (r ∷ rs) = r.stored ∷ storeds rs

  abbrev pub factories : List (Register R) → List R
  factories [] = []
  factories (r ∷ rs) = r.factory ∷ factories rs

  -- `settings_ = candidate`
  pub set_lives : List (Register R) → List R → List (Register R)
  set_lives [] candidate = []
  set_lives (r ∷ rs) [] = r ∷ rs
  set_lives (r ∷ rs) (v ∷ candidate) = record r { live = v } ∷ set_lives rs candidate

  -- `settings_ = stored_ = factory_settings`
  pub reset_all : List (Register R) → List (Register R)
  reset_all [] = []
  reset_all (r ∷ rs) = record r { live = r.factory; stored = r.factory } ∷ reset_all rs

  -- `settings_ = loaded`, where the loaded values are the stored ones.
  pub set_loaded : List (Register R) → List (Register R)
  set_loaded [] = []
  set_loaded (r ∷ rs) = record r { live = r.stored } ∷ set_loaded rs

-- The local variables of `SaveChanged`.
pub record Saving (D G : Type 0) : Type 0 where
  pub result : SettingsStatus
  pub saving : Bool
  pub storage : D
  pub gate : G

-- The local variables of `Load`.
pub record Loading (R : Type 0) : Type 0 where
  pub registers : List (Register R)
  pub loaded_count : ℕ
  pub undecodable : Bool

module _ {R : Type 0} ⦃rules : Rules R⦄ where
  pub same_encoding : R → R → Bool
  same_encoding first second = same_bytes (rules.encode first) (rules.encode second)

  -- The registers that `SaveChanged` does not touch.
  pub is_kept : Bool → Register R → Bool
  is_kept erase_defaults r =
      same_encoding r.live r.stored && not (erase_defaults && same_encoding r.live r.factory)

  pub count_unsaved : List (Register R) → ℕ
  count_unsaved [] = 0
  count_unsaved (r ∷ rs) = (if same_encoding r.live r.stored then 0 else 1) + count_unsaved rs

  -- The callback of `LoadAll` on one register.
  pub read_register : List ℕ → List ℕ → Register R → Loading R → Loading R
  read_register key value r l =
      let decoded = rules.decode value r.stored in
      if same_bytes r.key key
      then record {
        registers = record r { stored = decoded.1 } ∷ l.registers;
        loaded_count = l.loaded_count + 1;
        undecodable = not (decoded.0) || l.undecodable;
      }
      else record l { registers = r ∷ l.registers }

  pub read_entry : List ℕ → List ℕ → List (Register R) → Loading R → Loading R
  read_entry key value [] l = l
  read_entry key value (r ∷ rs) l = read_register key value r (read_entry key value rs l)

  pub read_entries : List (List ℕ × List ℕ) → Loading R → Loading R
  read_entries [] l = l
  read_entries ((key, value) ∷ entries) l =
      read_entries entries (read_entry key value l.registers (record l { registers = [] }))

module _ {R D G : Type 0} ⦃rules : Rules R⦄ ⦃disk : Storage D⦄ ⦃door : Gate G⦄ where
  -- A register that is to be written, once the gate is held.
  pub write_register : Register R → Saving D G → Saving D G × Register R
  write_register r s =
      let written =
        if same_encoding r.live r.factory
        then disk.erase r.key s.storage
        else disk.write r.key (rules.encode r.live) s.storage in
      let result = to_settings_status (written.0) in
      (
        record s { result = result; saving = true; storage = written.1 },
        if is_success result then record r { stored = r.live } else r,
      )

  pub save_register : Bool → Register R → Saving D G → Saving D G × Register R
  save_register erase_defaults r s =
      let asked = door.try_begin s.gate in
      if not (is_success s.result)
      then (s, r)
      else if is_kept erase_defaults r
      then (s, r)
      else if s.saving
      then write_register r s
      else if not (asked.0)
      then (record s { result = persist_blocked; gate = asked.1 }, r)
      else write_register r (record s { gate = asked.1 })

  pub save_all : Bool → List (Register R) → Saving D G → Saving D G × List (Register R)
  save_all erase_defaults [] s = (s, [])
  save_all erase_defaults (r ∷ rs) s =
      let first = save_register erase_defaults r s in
      let rest = save_all erase_defaults rs (first.0) in (rest.0, first.1 ∷ rest.1)

  pub save_changed : SettingsStore R D G → SettingsStatus × SettingsStore R D G
  save_changed store =
      let start : Saving D G = record {
        result = success;
        saving = false;
        storage = store.storage;
        gate = store.gate;
      } in
      let saved = save_all store.erase_defaults store.registers start in
      let s = saved.0 in
      (
        s.result,
        record {
          registers = saved.1;
          storage = s.storage;
          gate = if s.saving then door.end s.gate else s.gate;
          erase_defaults = if is_success s.result then false else store.erase_defaults;
        },
      )

  pub commit : List R → SettingsStore R D G → SettingsStatus × SettingsStore R D G
  commit candidate store =
      let validation = rules.validate candidate in
      if is_success validation
      then (success, record store { registers = set_lives store.registers candidate })
      else (validation, store)

  pub update : (List R → List R) → SettingsStore R D G → SettingsStatus × SettingsStore R D G
  update operation store = commit (operation (lives store.registers)) store

  pub reset_to_factory_defaults : SettingsStore R D G → SettingsStatus × SettingsStore R D G
  reset_to_factory_defaults store = commit (factories store.registers) store

  pub unsaved_count : SettingsStore R D G → ℕ
  unsaved_count store = count_unsaved store.registers

  -- `Load` once the storage has been read.
  pub finish_load : Loading R → SettingsStore R D G → SettingsStatus × SettingsStore R D G
  finish_load l store =
      let mirrored = record store { registers = l.registers; erase_defaults = l.undecodable } in
      let validation =
        if l.undecodable then invalid_image else rules.validate (storeds l.registers) in
      if not (is_success validation) then (validation, mirrored) else (
        if l.loaded_count == 0 then factory_defaults else success,
        record mirrored { registers = set_loaded l.registers },
      )

  pub load : SettingsStore R D G → SettingsStatus × SettingsStore R D G
  load store =
      let reset = record store { registers = reset_all store.registers; erase_defaults = false } in
      let read = disk.load_all store.storage in
      let l =
        read_entries (read.1)
          (record { registers = reset.registers; loaded_count = 0; undecodable = false }) in
      if not (rules.is_valid_profile (factories store.registers))
      then (invalid_settings, store)
      else if not (is_success (to_settings_status (read.0)))
      then (to_settings_status (read.0), reset)
      else finish_load l reset
