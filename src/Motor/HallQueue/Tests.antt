-- ===== src/Motor/HallQueue/Tests.antt =====
-- A queue of Hall events whose observer interrupts a push, and one whose observer clears it.
use unimoc.Prelude.{ℕ, ◌*◌, ◌≡◌, ◌≤◌, refl, true, false, none, some, [], ◌∷◌, get_elem?, drop}
use unimoc.Motor.HallQueue.{
  HallEvent, is_full, is_empty, idle, checking, resting, copied, Run, start, store_latest,
  find_room, write_slot, store_head, find_event, copy, load_head, skip_all, Steps, none_more,
  then_step,
}
use unimoc.Motor.HallQueue.Order.{run_in_order}

abbrev event : ℕ → HallEvent
event code = record { code = code; timestamp = 100 * code }

-- One event is in the queue, and the observer has copied it while the edge interrupt pushes the next.
abbrev interrupted : Run
interrupted = record {
  queue = record {
    events = event 5 ∷ drop 1 start.queue.events;
    head = 1;
    tail = 0;
    latest_code = 4;
    overflows = 0;
  };
  producer = checking (event 4);
  consumer = copied (event 5) 0;
  accepted = event 5 ∷ [];
  taken = 0;
  popped = none;
}

interrupts : Steps start interrupted
unfolding is_full is_empty
interrupts =
    then_step
      (then_step
        (then_step
          (then_step
            (then_step
              (then_step (then_step none_more (store_latest (event 5) refl)) (find_room refl refl))
              (write_slot refl))
            (store_head refl))
          (find_event refl refl))
        (store_latest (event 4) refl))
      (copy refl)

run_in_order_example :
    (is_full interrupted.queue ≡ false)
    × (is_empty interrupted.queue ≡ false)
    × (1 ≤ 16)
    × (get_elem? (event 5 ∷ []) 0 ≡ some (event 5))
run_in_order_example = run_in_order interrupts

-- `Clear` empties the queue.
abbrev cleared : Run
cleared = record interrupted {
  queue = record interrupted.queue { tail = 1; latest_code = 5 };
  producer = idle;
  consumer = resting;
  taken = 1;
}

clears : Steps start cleared
unfolding is_full
clears =
    then_step
      (then_step
        (then_step
          (then_step
            (then_step (then_step none_more (store_latest (event 5) refl)) (find_room refl refl))
            (write_slot refl))
          (store_head refl))
        (load_head refl))
      (skip_all refl)

cleared_empty : is_empty cleared.queue ≡ true
unfolding is_empty
cleared_empty = refl
