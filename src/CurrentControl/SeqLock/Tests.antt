-- ===== src/CurrentControl/SeqLock/Tests.antt =====
-- A sequence lock of values of one word, written while a reader copies.
use unimoc.Prelude.{ℕ, ◌≡◌, refl, [], ◌∷◌, arith}
use unimoc.CurrentControl.SeqLock.{
  SeqLock, idle, taking, Run, set_sequence, begin, put, publish, load, take_word, Steps, none_more,
  then_step,
}
use unimoc.CurrentControl.SeqLock.Copies.{fresh, checked-published}

abbrev lock : SeqLock ℕ
lock = record { value = 5 ∷ []; sequence = 4 }

-- A write of 9, and a copy of it after that.
abbrev copied : Run ℕ
copied = record {
  lock = record { value = 9 ∷ []; sequence = 6 };
  writer = idle;
  reader = taking 6 6 (9 ∷ []);
  published = 9 ∷ [];
  stores = 6;
}

write_and_copy : Steps 1 (fresh lock) copied
unfolding set_sequence
write_and_copy =
    then_step
      (then_step
        (then_step (then_step (then_step none_more (begin (9 ∷ []) refl refl)) (put refl refl))
          (publish refl))
        (load refl refl))
      (take_word refl refl)

checked-published_example : 9 ∷ [] ≡ copied.published
checked-published_example =
    checked-published 1 lock copied 6 6 (9 ∷ []) (ground arith) refl refl write_and_copy refl refl
      refl (ground arith)
