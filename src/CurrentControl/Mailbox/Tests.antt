-- ===== src/CurrentControl/Mailbox/Tests.antt =====
-- A mailbox of values of two words.
use unimoc.Prelude.{ℕ, ◌≡◌, refl, [], ◌∷◌, arith}
use unimoc.CurrentControl.Mailbox.{
  Mailbox, idle, copying, Run, slot, set_slot, next_slot, read, write, begin, copy, Steps,
  none_more, then_step,
}
use unimoc.CurrentControl.Mailbox.Reads.{read-published, write_arrives}

abbrev mailbox : Mailbox ℕ
mailbox = record { first = 1 ∷ 2 ∷ []; second = 0 ∷ 0 ∷ []; active = 0 }

flips : read (write mailbox (7 ∷ 8 ∷ [])) ≡ 7 ∷ 8 ∷ []
unfolding read write slot set_slot next_slot
flips = refl

-- The reader interrupts between the two words of the value.
abbrev interrupted : Run ℕ
interrupted = record {
  mailbox = record mailbox { second = 7 ∷ 0 ∷ [] };
  writer = copying (7 ∷ 8 ∷ []) 1 1;
  published = 1 ∷ 2 ∷ [];
}

interrupts :
    Steps 2 (record { mailbox = mailbox; writer = idle; published = 1 ∷ 2 ∷ [] }) interrupted
unfolding slot set_slot next_slot
interrupts = then_step (then_step none_more (begin (7 ∷ 8 ∷ []) refl)) (copy refl)

read-published_example : read interrupted.mailbox ≡ 1 ∷ 2 ∷ []
unfolding read slot
read-published_example = read-published 2 mailbox interrupted (ground arith) refl refl interrupts

write_arrives_example :
    (n : Mailbox ℕ) × Steps 2
      (record { mailbox = mailbox; writer = idle; published = read mailbox })
      (record { mailbox = n; writer = idle; published = 7 ∷ 8 ∷ [] })
    × (read n ≡ 7 ∷ 8 ∷ [])
write_arrives_example = write_arrives 2 mailbox (7 ∷ 8 ∷ []) (ground arith) refl refl refl
