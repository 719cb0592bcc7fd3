-- ===== src/CurrentControl/SeqLock.antt =====
-- src/current_control/mailbox.hpp, class SeqLock. A value is the list of its words. The writer interrupts the
-- reader between any two words that it copies; the steps of both are taken in any order.
mod Copies
mod Tests
use unimoc.Prelude.{ℕ, ◌+◌, ◌%◌, ◌^◌, ◌≡◌, ◌≢◌, some, List, [], ◌∷◌, ◌++◌, length, get_elem?, set}

pub record SeqLock (W : Type 0) : Type 0 where
  pub value : List W
  pub sequence : ℕ

-- `sequence` is what the writer loaded, `done` the number of words that it has copied.
pub data LockWriter (W : Type 0) : Type 0 where
  idle : LockWriter W
  writing : (sequence : ℕ) → (value : List W) → (done : ℕ) → LockWriter W

-- A reader that copies has loaded `before`, when the sequence had been stored `at` times.
pub data Reader (W : Type 0) : Type 0 where
  resting : Reader W
  taking : (before at : ℕ) → (copied : List W) → Reader W
  returned : List W → Reader W

-- With the value that was published last, and the number of stores to the sequence, which does not wrap.
pub record Run (W : Type 0) : Type 0 where
  pub lock : SeqLock W
  pub writer : LockWriter W
  pub reader : Reader W
  pub published : List W
  pub stores : ℕ

module _ {W : Type 0} where
  pub set_sequence : Run W → ℕ → Run W
  set_sequence r sequence = record r {
    lock = record r.lock { sequence = sequence % 2 ^ 32 };
    stores = r.stores + 1;
  }

  -- The steps of `Write` and of `Read`.
  pub data Step (size : ℕ) : Run W → Run W → Type 0 where
    begin :
        {r : Run W} (value : List W)
        → r.writer ≡ idle
        → length value ≡ size
        → Step size r (record (set_sequence r (r.lock.sequence + 1)) {
          writer = writing r.lock.sequence value 0;
        })
    put :
        {r : Run W} {sequence done : ℕ} {value : List W} {word : W}
        → r.writer ≡ writing sequence value done
        → get_elem? value done ≡ some word
        → Step size r (record r {
          lock = record r.lock { value = set r.lock.value done word };
          writer = writing sequence value (done + 1);
        })
    publish :
        {r : Run W} {sequence : ℕ} {value : List W}
        → r.writer ≡ writing sequence value size
        → Step size r (record (set_sequence r (sequence + 2)) { writer = idle; published = value })
    -- An odd sequence is loaded again.
    load :
        {r : Run W}
        → r.reader ≡ resting
        → r.lock.sequence % 2 ≡ 0
        → Step size r (record r { reader = taking r.lock.sequence r.stores [] })
    take_word :
        {r : Run W} {before at : ℕ} {copied : List W} {word : W}
        → r.reader ≡ taking before at copied
        → get_elem? r.lock.value (length copied) ≡ some word
        → Step size r (record r { reader = taking before at (copied ++ (word ∷ [])) })
    check :
        {r : Run W} {before at : ℕ} {copied : List W}
        → r.reader ≡ taking before at copied
        → length copied ≡ size
        → r.lock.sequence ≡ before
        → Step size r (record r { reader = returned copied })
    retry :
        {r : Run W} {before at : ℕ} {copied : List W}
        → r.reader ≡ taking before at copied
        → length copied ≡ size
        → r.lock.sequence ≢ before
        → Step size r (record r { reader = resting })
    -- The next call of `Read`.
    again :
        {r : Run W} {copied : List W}
        → r.reader ≡ returned copied
        → Step size r (record r { reader = resting })

  pub data Steps (size : ℕ) : Run W → Run W → Type 0 where
    none_more : {r : Run W} → Steps size r r
    then_step : {r s t : Run W} → Steps size r s → Step size s t → Steps size r t
