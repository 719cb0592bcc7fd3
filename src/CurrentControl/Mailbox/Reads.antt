-- ===== src/CurrentControl/Mailbox/Reads.antt =====
-- What a reader sees that interrupts a write of Mailbox at any step.
use unimoc.Prelude.{
  ℕ, zero, suc, ◌+◌, ◌<◌, ◌≤◌, ◌≡◌, refl, some, List, [], ◌∷◌, length, take, set, get_elem?,
  length-set, take-set_next, take_all, get_elem?-lt, arith,
}
use unimoc.CurrentControl.Mailbox.{
  Mailbox, Writer, idle, copying, Run, slot, set_slot, next_slot, read, Step, begin, copy, publish,
  Steps, none_more, then_step,
}

module _ {W : Type 0} where
  -- The words copied so far are those of the value, in the slot that is not read.
  abbrev IsCopied : ℕ → Mailbox W → Writer W → Type 0
  IsCopied size m idle = Unit {0}
  IsCopied size m (copying value next done) =
      (next + m.active ≡ 1)
      × (length value ≡ size)
      × (done ≤ size)
      × (take done (slot m next) ≡ take done value)

  pub record IsConsistent (size : ℕ) (r : Run W) : Type 0 where
    pub active_in : r.mailbox.active < 2
    pub first_size : length r.mailbox.first ≡ size
    pub second_size : length r.mailbox.second ≡ size
    pub newest : read r.mailbox ≡ r.published
    pub copied : IsCopied size r.mailbox r.writer

  copy-IsConsistent :
      (size : ℕ) {m : Mailbox W} {p value : List W} {next done : ℕ} {word : W}
      → get_elem? value done ≡ some word
      → IsConsistent size (record { mailbox = m; writer = copying value next done; published = p })
      → IsConsistent size (record {
        mailbox = set_slot m next (set (slot m next) done word);
        writer = copying value next (done + 1);
        published = p;
      })
  unfolding slot set_slot read
  copy-IsConsistent size {m} {p} {value} {next} {done} {word} e c =
      let below = get_elem?-lt value done e in
      ground (
        arith,
        c,
        length-set m.first done word,
        length-set m.second done word,
        λ (h : take done m.first ≡ take done value).
            take-set_next done m.first value {word = word} h e,
        λ (h : take done m.second ≡ take done value).
            take-set_next done m.second value {word = word} h e,
      )

  step-IsConsistent :
      (size : ℕ) {r s : Run W} → Step size r s → IsConsistent size r → IsConsistent size s
  unfolding read next_slot slot
  step-IsConsistent size (begin value fits) c = ground (arith, c)
  step-IsConsistent size (copy e) c = copy-IsConsistent size e c
  step-IsConsistent size (publish {m} {p} {value} {next}) c =
      ground (arith, c, take_all m.first size, take_all m.second size, take_all value size)

  new-IsConsistent :
      (size : ℕ) (m : Mailbox W)
      → m.active < 2
      → length m.first ≡ size
      → length m.second ≡ size
      → IsConsistent size (record { mailbox = m; writer = idle; published = read m })
  new-IsConsistent size m a f s = record {
    active_in = a;
    first_size = f;
    second_size = s;
    newest = refl;
    copied = tt;
  }

  Steps-IsConsistent :
      (size : ℕ) {r s : Run W} → Steps size r s → IsConsistent size r → IsConsistent size s
  Steps-IsConsistent size none_more c = c
  Steps-IsConsistent size (then_step before last) c =
      step-IsConsistent size last (Steps-IsConsistent size before c)

  -- A reader gets the value that was published last, whole and unmixed, at whatever step it interrupts the
  -- writer: after any steps from a mailbox between two writes whose index is 0 or 1 and whose slots have the size of a value.
  pub read-published :
      (size : ℕ) (m : Mailbox W) (r : Run W)
      → m.active < 2
      → length m.first ≡ size
      → length m.second ≡ size
      → Steps size (record { mailbox = m; writer = idle; published = read m }) r
      → read r.mailbox ≡ r.published
  read-published size m r a f s steps =
      (Steps-IsConsistent size steps (new-IsConsistent size m a f s)).newest

  Steps-trans : (size : ℕ) {r s t : Run W} → Steps size r s → Steps size s t → Steps size r t
  Steps-trans size before none_more = before
  Steps-trans size before (then_step middle last) = then_step (Steps-trans size before middle) last

  get_elem?-some :
      (value : List W) (i : ℕ) → i < length value → (word : W) × (get_elem? value i ≡ some word)
  get_elem?-some [] i h = absurd (omega arith)
  get_elem?-some (v ∷ vs) zero h = (v, refl)
  get_elem?-some (v ∷ vs) (suc i) h = get_elem?-some vs i (omega arith)

  copies :
      (size left done : ℕ) (m : Mailbox W) (p value : List W) (next : ℕ)
      → length value ≡ size
      → done + left ≡ size
      → (n : Mailbox W) × Steps size
          (record { mailbox = m; writer = copying value next done; published = p })
          (record { mailbox = n; writer = copying value next size; published = p })
  copies size zero done m p value next fits h =
      let last : done ≡ size = omega arith in (m, rw last none_more)
  copies size (suc left) done m p value next fits h =
      let (word, e) = get_elem?-some value done (omega arith) in
      let (n, rest) =
        copies size left (done + 1) (set_slot m next (set (slot m next) done word)) p value next
          fits (omega arith) in
      (n, Steps-trans size (then_step none_more (copy e)) rest)

  -- A write arrives: from a mailbox between two writes there are steps of the writer after which it is between
  -- two writes again and a reader gets the value.
  pub write_arrives :
      (size : ℕ) (m : Mailbox W) (value : List W)
      → m.active < 2
      → length m.first ≡ size
      → length m.second ≡ size
      → length value ≡ size
      → (n : Mailbox W) × Steps size
          (record { mailbox = m; writer = idle; published = read m })
          (record { mailbox = n; writer = idle; published = value })
        × (read n ≡ value)
  write_arrives size m value a f s fits =
      let (n, middle) = copies size size 0 m (read m) value (next_slot m) fits (omega arith) in
      let steps =
        then_step (Steps-trans size (then_step none_more (begin value fits)) middle) publish in
      (_, steps, read-published size m _ a f s steps)
