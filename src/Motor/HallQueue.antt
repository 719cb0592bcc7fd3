-- ===== src/Motor/HallQueue.antt =====
-- lib/motor_control/src/hall_capture.hpp, class HallEventQueue, with the capacity of 16 that the program uses. The
-- edge interrupt pushes and the observer pops; either may preempt the other, so their steps are taken in any order.
mod Order
mod Tests
use unimoc.Prelude.{
  ℕ, ◌+◌, ◌-◌, ◌%◌, ◌^◌, ◌≡◌, Bool, true, false, Option, none, some, List, [], ◌∷◌, ◌++◌, length,
  get_or, set, replicate, leb, ◌==◌,
}

pub record HallEvent : Type 0 where
  pub code : ℕ
  pub timestamp : ℕ

pub record HallEventQueue : Type 0 where
  pub events : List HallEvent
  pub head : ℕ
  pub tail : ℕ
  pub latest_code : ℕ
  pub overflows : ℕ

abbrev pub capacity : ℕ
capacity = 16

-- `{}` of a `HallEvent`.
abbrev pub no_event : HallEvent
no_event = record { code = 0; timestamp = 0 }

abbrev pub new : HallEventQueue
new = record {
  events = replicate capacity no_event;
  head = 0;
  tail = 0;
  latest_code = 0;
  overflows = 0;
}

-- The index of a counter: the capacity is a power of two, so the mask keeps the remainder.
abbrev pub slot : ℕ → ℕ
slot counter = counter % capacity

pub is_full : HallEventQueue → Bool
is_full q = leb capacity ((q.head + 2 ^ 32 - q.tail) % 2 ^ 32)

pub is_empty : HallEventQueue → Bool
is_empty q = q.head == q.tail

-- Where `Push` stands: the latest code is stored, the room is checked with `head` as loaded, the slot is written.
pub data Producer : Type 0 where
  idle : Producer
  checking : HallEvent → Producer
  writing : HallEvent → (head : ℕ) → Producer
  written : HallEvent → (head : ℕ) → Producer

-- Where `Pop` or `Clear` stands: `tail` as loaded, with the event that was copied; the head that `Clear` loaded, when
-- `at` events had been accepted.
pub data Consumer : Type 0 where
  resting : Consumer
  reading : (tail : ℕ) → Consumer
  copied : HallEvent → (tail : ℕ) → Consumer
  clearing : (head at : ℕ) → Consumer

-- With the events that pushes put into the queue, oldest first, how many of them are taken, and what the last call of
-- `Pop` returned.
pub record Run : Type 0 where
  pub queue : HallEventQueue
  pub producer : Producer
  pub consumer : Consumer
  pub accepted : List HallEvent
  pub taken : ℕ
  pub popped : Option HallEvent

abbrev pub start : Run
start = record {
  queue = new;
  producer = idle;
  consumer = resting;
  accepted = [];
  taken = 0;
  popped = none;
}

-- The steps of `Push`, `Pop` and `Clear`: each has one access to what the other side changes. `write_slot` and `copy`
-- move a whole event, as no one else uses the slot until the counter is stored.
pub data Step : Run → Run → Type 0 where
  store_latest :
      {r : Run} (event : HallEvent)
      → r.producer ≡ idle
      → Step r (record r {
        queue = record r.queue { latest_code = event.code };
        producer = checking event;
      })
  refuse :
      {r : Run} {event : HallEvent}
      → r.producer ≡ checking event
      → is_full r.queue ≡ true
      → Step r (record r {
        queue = record r.queue { overflows = (r.queue.overflows + 1) % 2 ^ 32 };
        producer = idle;
      })
  find_room :
      {r : Run} {event : HallEvent}
      → r.producer ≡ checking event
      → is_full r.queue ≡ false
      → Step r (record r { producer = writing event r.queue.head })
  write_slot :
      {r : Run} {event : HallEvent} {head : ℕ}
      → r.producer ≡ writing event head
      → Step r (record r {
        queue = record r.queue { events = set r.queue.events (slot head) event };
        producer = written event head;
      })
  store_head :
      {r : Run} {event : HallEvent} {head : ℕ}
      → r.producer ≡ written event head
      → Step r (record r {
        queue = record r.queue { head = (head + 1) % 2 ^ 32 };
        producer = idle;
        accepted = r.accepted ++ (event ∷ []);
      })
  find_none :
      {r : Run}
      → r.consumer ≡ resting
      → is_empty r.queue ≡ true
      → Step r (record r { popped = none })
  find_event :
      {r : Run}
      → r.consumer ≡ resting
      → is_empty r.queue ≡ false
      → Step r (record r { consumer = reading r.queue.tail })
  copy :
      {r : Run} {tail : ℕ}
      → r.consumer ≡ reading tail
      → Step r (record r { consumer = copied (get_or r.queue.events (slot tail) no_event) tail })
  store_tail :
      {r : Run} {event : HallEvent} {tail : ℕ}
      → r.consumer ≡ copied event tail
      → Step r (record r {
        queue = record r.queue { tail = (tail + 1) % 2 ^ 32 };
        consumer = resting;
        taken = r.taken + 1;
        popped = some event;
      })
  load_head :
      {r : Run}
      → r.consumer ≡ resting
      → Step r (record r { consumer = clearing r.queue.head (length r.accepted) })
  skip_all :
      {r : Run} {head at : ℕ}
      → r.consumer ≡ clearing head at
      → Step r (record r { queue = record r.queue { tail = head }; consumer = resting; taken = at })

pub data Steps : Run → Run → Type 0 where
  none_more : {r : Run} → Steps r r
  then_step : {r s t : Run} → Steps r s → Step s t → Steps r t
