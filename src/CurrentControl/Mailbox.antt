-- ===== src/CurrentControl/Mailbox.antt =====
-- src/current_control/mailbox.hpp, class Mailbox. A value is the list of its words. A reader may interrupt
-- the writer between any two words that it copies, so the writer is a sequence of steps.
mod Reads
mod Tests
use unimoc.Prelude.{
  ℕ, ◌+◌, ◌-◌, ◌%◌, ◌^◌, ◌≡◌, some, List, length, get_elem?, set, ◌==◌, if◌then◌else◌,
}

pub record Mailbox (W : Type 0) : Type 0 where
  pub first : List W
  pub second : List W
  pub active : ℕ

-- What the writer is at: between two writes, or with `done` words of a value copied to the slot `next`.
pub data Writer (W : Type 0) : Type 0 where
  idle : Writer W
  copying : (value : List W) → (next done : ℕ) → Writer W

-- With the value that was published last, as the reader is to see it.
pub record Run (W : Type 0) : Type 0 where
  pub mailbox : Mailbox W
  pub writer : Writer W
  pub published : List W

module _ {W : Type 0} where
  pub slot : Mailbox W → ℕ → List W
  slot m index = if index == 0 then m.first else m.second

  pub set_slot : Mailbox W → ℕ → List W → Mailbox W
  set_slot m index words =
      if index == 0 then record m { first = words } else record m { second = words }

  -- `static_cast<uint8_t>(1U - active_)`
  pub next_slot : Mailbox W → ℕ
  next_slot m = (1 + 2 ^ 32 - m.active) % 2 ^ 32 % 2 ^ 8

  pub read : Mailbox W → List W
  read m = slot m m.active

  -- A write that is not interrupted.
  pub write : Mailbox W → List W → Mailbox W
  write m value = let next = next_slot m in record (set_slot m next value) { active = next }

  -- The steps of `Write`: load the index, copy the value word by word, store the index.
  pub data Step (size : ℕ) : Run W → Run W → Type 0 where
    begin :
        {m : Mailbox W} {p : List W} (value : List W)
        → length value ≡ size
        → Step size
            (record { mailbox = m; writer = idle; published = p })
            (record { mailbox = m; writer = copying value (next_slot m) 0; published = p })
    copy :
        {m : Mailbox W} {p value : List W} {next done : ℕ} {word : W}
        → get_elem? value done ≡ some word
        → Step size
            (record { mailbox = m; writer = copying value next done; published = p })
            (record {
              mailbox = set_slot m next (set (slot m next) done word);
              writer = copying value next (done + 1);
              published = p;
            })
    publish :
        {m : Mailbox W} {p value : List W} {next : ℕ}
        → Step size
            (record { mailbox = m; writer = copying value next size; published = p })
            (record { mailbox = record m { active = next }; writer = idle; published = value })

  pub data Steps (size : ℕ) : Run W → Run W → Type 0 where
    none_more : {r : Run W} → Steps size r r
    then_step : {r s t : Run W} → Steps size r s → Step size s t → Steps size r t
