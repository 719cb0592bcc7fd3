-- ===== src/Ebike/EdgeUart/Fifo.antt =====
-- The receive FIFO of EdgeUartDecoder (`Store`, `Pop`) against a bounded queue of bytes.
use mathlib.Core.Path.{ap₂, subst}
use native.Mathlib.Numerals.{add-one}
use unimoc.Prelude.{
  ℕ, zero, suc, ◌+◌, ◌-◌, ◌%◌, ◌≤◌, ◌<◌, ◌≡◌, refl, ap, ◌∙◌, none, some, List, [], ◌∷◌, ◌++◌,
  length, get_or, set, length-set, get_or-set_self, get_or-set_ne, arith,
}
use unimoc.Ebike.EdgeUart.{EdgeUartDecoder, fifo_size, add32, store, pop}

-- The `n` bytes that the array holds from the index `r` on, round the end.
abbrev pub held : List ℕ → ℕ → ℕ → List ℕ
held fifo r zero = []
held fifo r (suc n) = get_or fifo (r % fifo_size) 0 ∷ held fifo (r + 1) n

-- The received bytes that wait for `Pop`, oldest first.
abbrev pub received : EdgeUartDecoder → List ℕ
received d = held d.fifo d.read d.count

-- The indices of the array are in range.
pub record IsValid (d : EdgeUartDecoder) : Type 0 where
  pub storage : length d.fifo ≡ fifo_size
  pub read_in : d.read < fifo_size
  pub count_in : d.count ≤ fifo_size

pub length-held : (fifo : List ℕ) (r n : ℕ) → length (held fifo r n) ≡ n
length-held fifo r zero = refl
length-held fifo r (suc n) = ap suc (length-held fifo (r + 1) n)

held_congr :
    (fifo : List ℕ) (r s n : ℕ) → r % fifo_size ≡ s % fifo_size → held fifo r n ≡ held fifo s n
held_congr fifo r s zero h = refl
held_congr fifo r s (suc n) h =
    ap₂ ◌∷◌ (ap (λ i. get_or fifo i 0) h) (held_congr fifo (r + 1) (s + 1) n (omega arith))

-- A write `m` places on, at or past the end of the window, leaves the window.
held-set :
    (fifo : List ℕ) (x r n m : ℕ)
    → n ≤ m
    → m < fifo_size
    → held (set fifo ((r + m) % fifo_size) x) r n ≡ held fifo r n
held-set fifo x r zero m h k = refl
held-set fifo x r (suc n) m h k =
    let at_next : (r + 1 + (m - 1)) % fifo_size ≡ (r + m) % fifo_size = omega arith in
    ap₂ ◌∷◌ (get_or-set_ne fifo ((r + m) % fifo_size) (r % fifo_size) x 0 (omega arith)) (
      subst (λ i. held (set fifo i x) (r + 1) n ≡ held fifo (r + 1) n) at_next
        (held-set fifo x (r + 1) n (m - 1) (omega arith) (omega arith)))

held_snoc :
    (fifo : List ℕ) (r n : ℕ)
    → held fifo r (suc n) ≡ held fifo r n ++ (get_or fifo ((r + n) % fifo_size) 0 ∷ [])
held_snoc fifo r zero = ap (λ i. get_or fifo (i % fifo_size) 0 ∷ []) (omega arith)
held_snoc fifo r (suc n) =
    let at_next : (r + 1 + n) % fifo_size ≡ (r + suc n) % fifo_size = omega arith in
    ap (◌∷◌ (get_or fifo (r % fifo_size) 0))
      (held_snoc fifo (r + 1) n ∙ ap (λ i. held fifo (r + 1) n ++ (get_or fifo i 0 ∷ [])) at_next)

held_store :
    (fifo : List ℕ) (r n x : ℕ)
    → length fifo ≡ fifo_size
    → n < fifo_size
    → held (set fifo ((r + n) % fifo_size) x) r (n + 1) ≡ held fifo r n ++ (x ∷ [])
held_store fifo r n x l h = rw add-one (
    held_snoc (set fifo ((r + n) % fifo_size) x) r n
    ∙ ap₂ (λ xs b. xs ++ (b ∷ [])) (held-set fifo x r n n (omega arith) h)
        (get_or-set_self fifo ((r + n) % fifo_size) x 0 (omega arith)))

-- `held` matches on `suc`, and the code tests `count == 0`.
held_of_pos :
    (fifo : List ℕ) (r n : ℕ)
    → r < fifo_size
    → 0 < n
    → held fifo r n ≡ get_or fifo r 0 ∷ held fifo ((r + 1) % fifo_size) (n - 1)
held_of_pos fifo r zero h p = absurd (omega arith)
held_of_pos fifo r (suc n) h p = ap₂ ◌∷◌ (ap (λ i. get_or fifo i 0) (omega arith)) (
    held_congr fifo (r + 1) ((r + 1) % fifo_size) n (omega arith)
    ∙ ap (held fifo ((r + 1) % fifo_size)) (omega arith))

-- In a valid FIFO `Store` appends the byte to what waits, or, with 32 bytes waiting, drops it and counts an
-- overrun.
pub store_refines :
    (d : EdgeUartDecoder) (byte : ℕ)
    → IsValid d
    → (d.count < fifo_size
        → (received (store d byte) ≡ received d ++ (byte ∷ []))
          × ((store d byte).overruns ≡ d.overruns))
      × (d.count ≡ fifo_size → store d byte ≡ record d { overruns = add32 d.overruns 1 })
unfolding store
store_refines d byte v = ground (arith, held_store d.fifo d.read d.count byte v.storage)

pub store-IsValid : (d : EdgeUartDecoder) (byte : ℕ) → IsValid d → IsValid (store d byte)
unfolding store
store-IsValid d byte v = ground (arith, length-set d.fifo ((d.read + d.count) % fifo_size) byte)

-- From a valid FIFO `Pop` takes the oldest byte, and fails exactly when none waits; the FIFO stays valid.
pub pop_refines :
    (d : EdgeUartDecoder)
    → IsValid d
    → let (byte, rest) = pop d in
      IsValid rest × (received d ≡ elim byte [ none ↦ [] | some b ↦ b ∷ received rest ])
unfolding pop
pop_refines d v = ground (arith, held_of_pos d.fifo d.read d.count v.read_in)
