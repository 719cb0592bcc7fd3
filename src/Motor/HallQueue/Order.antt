-- ===== src/Motor/HallQueue/Order.antt =====
-- HallEventQueue is first in, first out, however the steps of its two sides are ordered.
use mathlib.Core.Path.{subst}
use unimoc.Prelude.{
  ℕ, zero, suc, ◌+◌, ◌-◌, ◌%◌, ◌^◌, ◌<◌, ◌≤◌, ◌≡◌, refl, sym, ap, ◌∙◌, false, some, List, [], ◌∷◌,
  ◌++◌, leb, ◌==◌, length, get_or, get_elem?, set, length-set, length-append, get_or-set_self,
  get_or-set_ne, arith, inl, inr, Bool-cases, ltb,
}
use unimoc.Motor.HallQueue.{
  HallEvent, capacity, no_event, slot, is_full, is_empty, Producer, idle, checking, writing,
  written, Consumer, resting, reading, copied, clearing, Run, start, Step, store_latest, refuse,
  find_room, write_slot, store_head, find_none, find_event, copy, store_tail, load_head, skip_all,
  Steps, none_more, then_step,
}

-- A push that has found room still has it, and its event is in the slot at the head once it is written.
abbrev IsRoomy : List HallEvent → (head count taken : ℕ) → Producer → Type 0
IsRoomy events head count taken idle = Unit {0}
IsRoomy events head count taken (checking event) = Unit {0}
IsRoomy events head count taken (writing event at) = (at ≡ head) × (count < taken + capacity)
IsRoomy events head count taken (written event at) =
    (at ≡ head) × (count < taken + capacity) × (get_or events (count % capacity) no_event ≡ event)

-- A pop that has found an event still has it, and has copied the oldest one.
abbrev IsOldest : List HallEvent → (tail taken : ℕ) → Consumer → Type 0
IsOldest accepted tail taken resting = Unit {0}
IsOldest accepted tail taken (reading at) = (at ≡ tail) × (taken < length accepted)
IsOldest accepted tail taken (copied event at) =
    (at ≡ tail) × (taken < length accepted) × (event ≡ get_or accepted taken no_event)
IsOldest accepted tail taken (clearing head at) =
    (head ≡ at % 2 ^ 32) × (taken ≤ at) × (at ≤ length accepted)

-- The counters count the events, and the slots between them hold those that are not taken.
pub record IsConsistent (r : Run) : Type 0 where
  pub storage : length r.queue.events ≡ capacity
  pub head_counts : r.queue.head ≡ length r.accepted % 2 ^ 32
  pub tail_counts : r.queue.tail ≡ r.taken % 2 ^ 32
  pub ordered : r.taken ≤ length r.accepted
  pub fits : length r.accepted ≤ r.taken + capacity
  pub kept :
      (i : ℕ)
      → r.taken ≤ i
      → i < length r.accepted
      → get_or r.queue.events (slot i) no_event ≡ get_or r.accepted i no_event
  pub roomy : IsRoomy r.queue.events r.queue.head (length r.accepted) r.taken r.producer
  pub oldest : IsOldest r.accepted r.queue.tail r.taken r.consumer

get_or_before :
    (xs : List HallEvent) (x : HallEvent) (i : ℕ)
    → i < length xs
    → get_or (xs ++ (x ∷ [])) i no_event ≡ get_or xs i no_event
get_or_before [] x i h = absurd (omega arith)
get_or_before (y ∷ ys) x zero h = refl
get_or_before (y ∷ ys) x (suc i) h = get_or_before ys x i (omega arith)

get_or_end :
    (xs : List HallEvent) (x : HallEvent) (i : ℕ)
    → i ≡ length xs
    → get_or (xs ++ (x ∷ [])) i no_event ≡ x
get_or_end [] x zero h = refl
get_or_end [] x (suc i) h = absurd (omega arith)
get_or_end (y ∷ ys) x zero h = absurd (omega arith)
get_or_end (y ∷ ys) x (suc i) h = get_or_end ys x i (omega arith)

room_lem :
    {r : Run}
    → IsConsistent r
    → (is_full r.queue ≡ false → length r.accepted < r.taken + capacity)
      × (is_empty r.queue ≡ false → r.taken < length r.accepted)
unfolding is_full is_empty
room_lem {r} c =
    let head = c.head_counts in
    let tail = c.tail_counts in
    let o = c.ordered in let f = c.fits in (λ e. ground arith, λ e. ground arith)

take-IsRoomy :
    (events : List HallEvent) (head count taken now : ℕ) (p : Producer)
    → taken ≤ now
    → IsRoomy events head count taken p
    → IsRoomy events head count now p
take-IsRoomy events head count taken now idle h room = tt
take-IsRoomy events head count taken now (checking event) h room = tt
take-IsRoomy events head count taken now (writing event at) h (same, room) = (same, omega arith)
take-IsRoomy events head count taken now (written event at) h (same, room, there) =
    (same, omega arith, there)

accept-IsOldest :
    (accepted : List HallEvent) (event : HallEvent) (tail taken : ℕ) (p : Consumer)
    → IsOldest accepted tail taken p
    → IsOldest (accepted ++ (event ∷ [])) tail taken p
accept-IsOldest accepted event tail taken resting o = tt
accept-IsOldest accepted event tail taken (reading at) (same, some_event) =
    (same, omega (arith, length-append accepted (event ∷ [])))
accept-IsOldest accepted event tail taken (copied e at) (same, some_event, is) = (
  same,
  omega (arith, length-append accepted (event ∷ [])),
  is ∙ sym (get_or_before accepted event taken some_event),
)
accept-IsOldest accepted event tail taken (clearing head at) (is, from, to) =
    (is, from, omega (arith, length-append accepted (event ∷ [])))

producer-IsRoomy :
    {r : Run} {p : Producer}
    → IsConsistent r
    → r.producer ≡ p
    → IsRoomy r.queue.events r.queue.head (length r.accepted) r.taken p
producer-IsRoomy {r} c e =
    subst (IsRoomy r.queue.events r.queue.head (length r.accepted) r.taken) e c.roomy

consumer-IsOldest :
    {r : Run} {p : Consumer}
    → IsConsistent r
    → r.consumer ≡ p
    → IsOldest r.accepted r.queue.tail r.taken p
consumer-IsOldest {r} c e = subst (IsOldest r.accepted r.queue.tail r.taken) e c.oldest

-- The write is outside the slots of the events that are not taken.
write-IsConsistent :
    {r : Run} {event : HallEvent} {head : ℕ}
    → r.producer ≡ writing event head
    → IsConsistent r
    → IsConsistent (record r {
      queue = record r.queue { events = set r.queue.events (slot head) event };
      producer = written event head;
    })
write-IsConsistent {r} {event} {head} e c =
    let (same, room) = producer-IsRoomy c e in
    let counts = c.head_counts in
    let storage = c.storage in
    let index : slot head ≡ length r.accepted % capacity = omega arith in
    record {
      storage = length-set r.queue.events (slot head) event ∙ c.storage;
      head_counts = c.head_counts;
      tail_counts = c.tail_counts;
      ordered = c.ordered;
      fits = c.fits;
      kept = λ i from to.
          get_or-set_ne r.queue.events (slot head) (slot i) event no_event (omega arith)
          ∙ c.kept i from to;
      roomy = (
        same,
        room,
        rw (sym index) (get_or-set_self r.queue.events (slot head) event no_event (omega arith)),
      );
      oldest = c.oldest;
    }

-- The event at the head joins those that wait.
accept-IsConsistent :
    {r : Run} {event : HallEvent} {head : ℕ}
    → r.producer ≡ written event head
    → IsConsistent r
    → IsConsistent (record r {
      queue = record r.queue { head = (head + 1) % 2 ^ 32 };
      producer = idle;
      accepted = r.accepted ++ (event ∷ []);
    })
accept-IsConsistent {r} {event} {head} e c =
    let (same, room, there) = producer-IsRoomy c e in
    let counts = c.head_counts in
    let ordered = c.ordered in
    let longer = length-append r.accepted (event ∷ []) in
    record {
      storage = c.storage;
      head_counts = omega arith;
      tail_counts = c.tail_counts;
      ordered = omega arith;
      fits = omega arith;
      kept = λ i from to. elim (Bool-cases (ltb i (length r.accepted))) [
        | inl old ↦
            c.kept i from (ground arith) ∙ sym (get_or_before r.accepted event i (ground arith))
        | inr new ↦
            let last : i ≡ length r.accepted = ground arith in
            ap (λ k. get_or r.queue.events (k % capacity) no_event) last
            ∙ there
            ∙ sym (get_or_end r.accepted event i last)
      ];
      roomy = tt;
      oldest = accept-IsOldest r.accepted event r.queue.tail r.taken r.consumer c.oldest;
    }

step-IsConsistent : {r s : Run} → Step r s → IsConsistent r → IsConsistent s
step-IsConsistent (store_latest event e) c = ground (arith, c)
step-IsConsistent (refuse e full) c = ground (arith, c)
step-IsConsistent (find_room e room) c = ground (arith, c, room_lem c)
step-IsConsistent (write_slot e) c = write-IsConsistent e c
step-IsConsistent (store_head e) c = accept-IsConsistent e c
step-IsConsistent (find_none e empty) c = ground (arith, c)
step-IsConsistent (find_event e some_event) c = ground (arith, c, room_lem c)
step-IsConsistent (copy {r} {tail} e) c = ground (arith, c, consumer-IsOldest c e, c.kept r.taken)
step-IsConsistent (store_tail {r} e) c =
    let o = consumer-IsOldest c e in
    let room =
      take-IsRoomy r.queue.events r.queue.head (length r.accepted) r.taken (r.taken + 1) r.producer
        (omega arith) c.roomy in
    ground (arith, c, o, room)
step-IsConsistent (skip_all {r} {head} {at} e) c =
    let (is, from, to) = consumer-IsOldest c e in
    let room =
      take-IsRoomy r.queue.events r.queue.head (length r.accepted) r.taken at r.producer from
        c.roomy in
    ground (arith, c, room)
step-IsConsistent (load_head e) c = ground (arith, c)

run-IsConsistent : {r s : Run} → Steps r s → IsConsistent r → IsConsistent s
run-IsConsistent none_more c = c
run-IsConsistent (then_step rs st) c = step-IsConsistent st (run-IsConsistent rs c)

start-IsConsistent : IsConsistent start
start-IsConsistent = ground arith

-- The event that a pop has copied is the one that was accepted next after those taken.
abbrev pub IsNext : List HallEvent → (taken : ℕ) → Consumer → Type 0
IsNext accepted taken resting = Unit {0}
IsNext accepted taken (reading tail) = Unit {0}
IsNext accepted taken (copied event tail) = get_elem? accepted taken ≡ some event
IsNext accepted taken (clearing head at) = Unit {0}

get_elem?-get_or :
    (xs : List HallEvent) (i : ℕ) → i < length xs → get_elem? xs i ≡ some (get_or xs i no_event)
get_elem?-get_or [] i h = absurd (omega arith)
get_elem?-get_or (x ∷ xs) zero h = refl
get_elem?-get_or (x ∷ xs) (suc i) h = get_elem?-get_or xs i (omega arith)

next_lem :
    (accepted : List HallEvent) (tail taken : ℕ) (p : Consumer)
    → IsOldest accepted tail taken p
    → IsNext accepted taken p
next_lem accepted tail taken resting o = tt
next_lem accepted tail taken (reading at) o = tt
next_lem accepted tail taken (copied event at) (same, some_event, is) =
    get_elem?-get_or accepted taken some_event ∙ ap some (sym is)
next_lem accepted tail taken (clearing head at) o = tt

-- In every order of the steps of `Push`, `Pop` and `Clear` from the empty queue, at most 16 accepted events
-- are not taken, the queue counts as full exactly when 16 are not and as empty exactly when none is, and the event
-- that a pop copies, and then returns, is the accepted event next to those taken.
pub run_in_order :
    {r : Run}
    → Steps start r
    → (is_full r.queue ≡ leb capacity (length r.accepted - r.taken))
      × (is_empty r.queue ≡ (length r.accepted == r.taken))
      × (length r.accepted ≤ r.taken + capacity)
      × IsNext r.accepted r.taken r.consumer
unfolding is_full is_empty
run_in_order {r} rs =
    let c = run-IsConsistent rs start-IsConsistent in
    let head = c.head_counts in
    let tail = c.tail_counts in
    let ordered = c.ordered in
    let fits = c.fits in
    (ground arith, ground arith, fits, next_lem r.accepted r.queue.tail r.taken r.consumer c.oldest)
