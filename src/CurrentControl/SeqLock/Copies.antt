-- ===== src/CurrentControl/SeqLock/Copies.antt =====
-- What a reader of SeqLock returns when writes fall between the words that it copies.
use mathlib.Core.Path.{subst}
use native.Mathlib.Nat.{mod-eq_of_lt}
use unimoc.Prelude.{
  ℕ, ◌+◌, ◌-◌, ◌%◌, ◌^◌, ◌<◌, ◌≤◌, ◌≡◌, refl, sym, ap, ◌∙◌, some, List, [], ◌∷◌, ◌++◌, length, take,
  get_elem?, length-set, take-set_next, take_all, get_elem?-lt, arith,
}
use unimoc.CurrentControl.SeqLock.{
  SeqLock, LockWriter, idle, writing, Reader, resting, taking, returned, Run, set_sequence, Step,
  begin, put, publish, load, take_word, check, retry, again, Steps, none_more, then_step,
}

module _ {W : Type 0} where
  -- Between two writes the value is the published one; during a write a part of the new one.
  abbrev IsWritten : (size stores : ℕ) → (value published : List W) → LockWriter W → Type 0
  IsWritten size stores held published idle = (stores % 2 ≡ 0) × (held ≡ published)
  IsWritten size stores held published (writing sequence value done) =
      (stores % 2 ≡ 1)
      × (sequence % 2 ^ 32 ≡ (stores + (2 ^ 32 - 1)) % 2 ^ 32)
      × (length value ≡ size)
      × (take done held ≡ take done value)

  -- Without a store since the load, the words copied are those of the published value.
  abbrev IsTaken : ℕ → List W → Reader W → Type 0
  IsTaken stores published resting = Unit {0}
  IsTaken stores published (returned copied) = Unit {0}
  IsTaken stores published (taking before at copied) =
      (at % 2 ≡ 0)
      × (at ≤ stores)
      × (before ≡ at % 2 ^ 32)
      × (stores ≡ at → copied ≡ take (length copied) published)

  pub record IsConsistent (size : ℕ) (r : Run W) : Type 0 where
    pub counted : r.lock.sequence ≡ r.stores % 2 ^ 32
    pub fits : length r.lock.value ≡ size
    pub written : IsWritten size r.stores r.lock.value r.published r.writer
    pub taken : IsTaken r.stores r.published r.reader

  -- A store ends what a reader can rely on.
  taken_later :
      (stores : ℕ) (published next : List W) (reader : Reader W)
      → IsTaken stores published reader
      → IsTaken (stores + 1) next reader
  taken_later stores published next resting h = tt
  taken_later stores published next (returned copied) h = tt
  taken_later stores published next (taking before at copied) (even, below, same, copy) =
      (even, omega arith, same, λ e. absurd (omega arith))

  settled :
      (size stores : ℕ) (held published : List W) (writer : LockWriter W)
      → IsWritten size stores held published writer
      → stores % 2 ≡ 0
      → held ≡ published
  settled size stores held published idle (_, same) even = same
  settled size stores held published (writing sequence value done) (odd, _, _, _) even =
      absurd (omega (arith, odd))

  take_snoc :
      (xs ys : List W) {word : W}
      → xs ≡ take (length xs) ys
      → get_elem? ys (length xs) ≡ some word
      → xs ++ (word ∷ []) ≡ take (length (xs ++ (word ∷ []))) ys
  take_snoc [] [] h e = absurd cc
  take_snoc [] (y ∷ ys) h e = cc
  take_snoc (x ∷ xs) [] h e = absurd cc
  take_snoc (x ∷ xs) (y ∷ ys) h e =
      let tails : xs ≡ take (length xs) ys = cc in
      let heads : x ≡ y = cc in let rest = take_snoc xs ys tails e in cc

  step-IsConsistent :
      (size : ℕ) {r s : Run W} → Step size r s → IsConsistent size r → IsConsistent size s
  unfolding set_sequence
  step-IsConsistent size (begin {r} value w fits) c =
      let (even, held) = subst (IsWritten size r.stores r.lock.value r.published) w c.written in
      record {
        counted = omega (arith, c.counted);
        fits = c.fits;
        written = (omega (arith, even), omega (arith, c.counted), fits, refl);
        taken = taken_later r.stores r.published r.published r.reader c.taken;
      }
  step-IsConsistent size (put {r} {sequence} {done} {value} {word} w e) c =
      let (odd, loaded, fits, copied) =
        subst (IsWritten size r.stores r.lock.value r.published) w c.written in
      record {
        counted = c.counted;
        fits = length-set r.lock.value done word ∙ c.fits;
        written = (
          odd,
          loaded,
          fits,
          take-set_next done r.lock.value value copied e
              (omega (arith, get_elem?-lt value done e, c.fits)),
        );
        taken = c.taken;
      }
  step-IsConsistent size (publish {r} {sequence} {value} w) c =
      let (odd, loaded, fits, copied) =
        subst (IsWritten size r.stores r.lock.value r.published) w c.written in
      record {
        counted = omega (arith, loaded, c.counted);
        fits = c.fits;
        written = (
          omega (arith, odd),
          sym (take_all r.lock.value size c.fits) ∙ copied ∙ take_all value size fits,
        );
        taken = taken_later r.stores r.published value r.reader c.taken;
      }
  step-IsConsistent size (load {r} rest even) c = record {
    counted = c.counted;
    fits = c.fits;
    written = c.written;
    taken = (omega (arith, c.counted), omega arith, c.counted, λ e. refl);
  }
  step-IsConsistent size (take_word {r} {before} {at} {copied} {word} h e) c =
      let (even, below, same, copy) = subst (IsTaken r.stores r.published) h c.taken in
      record {
        counted = c.counted;
        fits = c.fits;
        written = c.written;
        taken = (
          even,
          below,
          same,
          λ still.
              let held = settled size _ _ _ r.writer c.written (rw still even) in
              take_snoc copied r.published (copy still)
                (ap (λ xs. get_elem? xs (length copied)) (sym held) ∙ e),
        );
      }
  step-IsConsistent size (check h fits same) c = record {
    counted = c.counted;
    fits = c.fits;
    written = c.written;
    taken = tt;
  }
  step-IsConsistent size (retry h fits differ) c = record {
    counted = c.counted;
    fits = c.fits;
    written = c.written;
    taken = tt;
  }
  step-IsConsistent size (again h) c = record {
    counted = c.counted;
    fits = c.fits;
    written = c.written;
    taken = tt;
  }

  Steps-IsConsistent :
      (size : ℕ) {r s : Run W} → Steps size r s → IsConsistent size r → IsConsistent size s
  Steps-IsConsistent size none_more c = c
  Steps-IsConsistent size (then_step before last) c =
      step-IsConsistent size last (Steps-IsConsistent size before c)

  -- A lock between two writes, with nobody reading.
  abbrev pub fresh : SeqLock W → Run W
  fresh lock = record {
    lock = lock;
    writer = idle;
    reader = resting;
    published = lock.value;
    stores = lock.sequence;
  }

  -- When the check of a reader that has copied the whole value succeeds, the copy is the value published
  -- last, unmixed: after any steps of the reader and the writer from a lock between two writes with an even 32-bit sequence and a
  -- value of the size, unless the sequence was stored 2 ^ 32 times or more during the copy.
  pub checked-published :
      (size : ℕ) (lock : SeqLock W) (r : Run W) (before at : ℕ) (copied : List W)
      → lock.sequence < 2 ^ 32
      → lock.sequence % 2 ≡ 0
      → length lock.value ≡ size
      → Steps size (fresh lock) r
      → r.reader ≡ taking before at copied
      → length copied ≡ size
      → r.lock.sequence ≡ before
      → r.stores < at + 2 ^ 32
      → copied ≡ r.published
  checked-published size lock r before at copied small even fits steps reading whole same recent =
      let start : IsConsistent size (fresh lock) = record {
        counted = sym (mod-eq_of_lt small);
        fits = fits;
        written = (even, refl);
        taken = tt;
      } in
      let c = Steps-IsConsistent size steps start in
      let (even', below, loaded, copy) = subst (IsTaken r.stores r.published) reading c.taken in
      let still : r.stores ≡ at = omega (arith, c.counted) in
      let held = settled size _ _ _ r.writer c.written (rw still even') in
      let sized : length r.published ≡ size = ap length (sym held) ∙ c.fits in
      copy still ∙ rw whole (take_all r.published size sized)
