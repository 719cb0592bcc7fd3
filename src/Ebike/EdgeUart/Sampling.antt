-- ===== src/Ebike/EdgeUart/Sampling.antt =====
-- The loop `SampleUntil`: it ends, leaves no sample that is due, and may be split at any time.
use mathlib.Core.Option.{some-injective}
use mathlib.Core.Path.{subst}
use unimoc.Prelude.{
  ℕ, zero, suc, ◌+◌, ◌*◌, ◌/◌, ◌%◌, ◌^◌, ◌≤◌, ◌<◌, ◌≡◌, refl, sym, ap, ◌∙◌, ◌⊎◌, inl, inr, true,
  false, ◌&&◌, some, arith, ltb, lt→ltb, tests,
}
use unimoc.Ebike.EdgeUart.{
  EdgeUartDecoder, Round, done, next, sample_at, is_past, sample_bit, sample_round, sample_loop,
  sample_until, store, add32, u32_mod,
}

Round-cases :
    (r : Round) → ((d : EdgeUartDecoder) × (r ≡ done d)) ⊎ ((d : EdgeUartDecoder) × (r ≡ next d))
Round-cases (done d) = inl (d, refl)
Round-cases (next d) = inr (d, refl)

-- The loop may stop here: the frame is closed, or its next sample is not due.
abbrev pub IsSettled : ℕ → EdgeUartDecoder → Type 0
IsSettled until d = (d.in_frame && is_past until (sample_at d)) ≡ false

module _ (until : ℕ) (d e : EdgeUartDecoder) where
  sample_bit-next : sample_bit d ≡ next e → (e.bit ≡ d.bit + 1) × (d.bit < 9)
  unfolding sample_bit
  sample_bit-next h = ground arith

  sample_bit-done : sample_bit d ≡ done e → e.in_frame ≡ false
  unfolding sample_bit store
  sample_bit-done h = ground arith

  -- A round that goes on has taken one of the first nine samples.
  sample_round-next : sample_round until d ≡ next e → (e.bit ≡ d.bit + 1) × (d.bit < 9)
  unfolding sample_round
  sample_round-next h = ground (arith, sample_bit-next)

  -- A round that returns has closed the frame, or no sample is due.
  sample_round-done : sample_round until d ≡ done e → IsSettled until e
  unfolding sample_round
  sample_round-done h = ground (arith, sample_bit-done)

  sample_loop_step :
      (fuel : ℕ)
      → sample_round until d ≡ next e
      → sample_loop (suc fuel) until d ≡ sample_loop fuel until e
  unfolding sample_loop
  sample_loop_step fuel h = rw (h, sample_loop)

  sample_loop_end :
      (fuel : ℕ) → sample_round until d ≡ done e → sample_loop (suc fuel) until d ≡ some e
  unfolding sample_loop
  sample_loop_end fuel h = rw (h, sample_loop)

  sample_until_of_loop : sample_loop 10 until d ≡ some e → sample_until d until ≡ e
  unfolding sample_until
  sample_until_of_loop h = rw (h, sample_until)

sample_loop-total :
    (fuel until : ℕ) (d : EdgeUartDecoder)
    → 0 < fuel
    → 10 ≤ fuel + d.bit
    → (e : EdgeUartDecoder) × (sample_loop fuel until d ≡ some e) × IsSettled until e
sample_loop-total zero until d p h = absurd (omega arith)
sample_loop-total (suc fuel) until d p h = elim (Round-cases (sample_round until d)) [
  | inl (e, r) ↦ (e, sample_loop_end until d e fuel r, sample_round-done until d e r)
  | inr (e, r) ↦
      let (step, small) = sample_round-next until d e r in
      let (f, run, settled) = sample_loop-total fuel until e (omega arith) (omega arith) in
      (f, sample_loop_step until d e fuel r ∙ run, settled)
]

-- Ten rounds are enough from any state: the loop returns, and then no sample of an open frame is due.
pub sample_until_lem :
    (d : EdgeUartDecoder) (until : ℕ)
    → (sample_loop 10 until d ≡ some (sample_until d until))
      × IsSettled until (sample_until d until)
sample_until_lem d until =
    let (e, run, settled) = sample_loop-total 10 until d (omega arith) (omega arith) in
    rw (sample_until_of_loop until d e run) (run, settled)

-- The runs of the loop as a relation.
pub data Runs (until : ℕ) : EdgeUartDecoder → EdgeUartDecoder → Type 0 where
  ends : {d e : EdgeUartDecoder} → sample_round until d ≡ done e → Runs until d e
  goes : {d e f : EdgeUartDecoder} → sample_round until d ≡ next e → Runs until e f → Runs until d f

Runs-of_loop :
    (fuel until : ℕ) (d e : EdgeUartDecoder) → sample_loop fuel until d ≡ some e → Runs until d e
unfolding sample_loop
Runs-of_loop zero until d e h = cc
Runs-of_loop (suc fuel) until d e h = elim (Round-cases (sample_round until d)) [
  | inl (f, r) ↦
      ends (r ∙ ap done (some-injective _ _ (sym (sample_loop_end until d f fuel r) ∙ h)))
  | inr (f, r) ↦ goes r (Runs-of_loop fuel until f e (sym (sample_loop_step until d f fuel r) ∙ h))
]

pub Runs-sample_until : (until : ℕ) (d : EdgeUartDecoder) → Runs until d (sample_until d until)
Runs-sample_until until d = Runs-of_loop 10 until d _ (sample_until_lem d until).0

next-injective : {d e : EdgeUartDecoder} → next d ≡ next e → d ≡ e
next-injective h = cc

Runs-unique : {until : ℕ} {d e f : EdgeUartDecoder} → Runs until d e → Runs until d f → e ≡ f
Runs-unique (ends p) (ends q) = cc
Runs-unique (ends p) (goes q r) = cc
Runs-unique (goes p r) (ends q) = cc
Runs-unique {until} (goes p r) (goes {f = g} q s) =
    Runs-unique r (subst (λ x. Runs until x g) (next-injective (sym q ∙ p)) s)

pub Runs-eq : {until : ℕ} {d e : EdgeUartDecoder} → Runs until d e → sample_until d until ≡ e
Runs-eq {until} {d} r = Runs-unique (Runs-sample_until until d) r

-- What is past at the time `u` is past at `v`, for every sample of a frame that began at `start`.
abbrev IsLater : ℕ → ℕ → ℕ → Type 0
IsLater start u v =
    (o : ℕ) → o < 2 ^ 31 → is_past u (add32 start o) ≡ true → is_past v (add32 start o) ≡ true

module _ (u v : ℕ) (d e : EdgeUartDecoder) (later : IsLater d.start_ticks u v) where
  later_past : is_past u (sample_at d) ≡ true → is_past v (sample_at d) ≡ true
  unfolding sample_at
  later_past = later ((2 * d.bit + 1) * d.ticks_per_bit % u32_mod / 2) (omega arith)

  later-next :
      sample_round u d ≡ next e → (sample_round v d ≡ next e) × (e.start_ticks ≡ d.start_ticks)
  unfolding sample_round sample_bit
  later-next h = ground (arith, later_past)

  later-done :
      sample_round u d ≡ done e → (e ≡ d) ⊎ ((sample_round v d ≡ done e) × (e.in_frame ≡ false))
  unfolding sample_round
  later-done h = ground (arith, later_past, sample_bit-done u d e)

pub sample_round_settled :
    (until : ℕ) (d : EdgeUartDecoder) → IsSettled until d → sample_round until d ≡ done d
unfolding sample_round
sample_round_settled until d h = rw h

closed-IsSettled : (until : ℕ) (d : EdgeUartDecoder) → d.in_frame ≡ false → IsSettled until d
closed-IsSettled until d h = rw h

Runs-later :
    {u v : ℕ} {d e f : EdgeUartDecoder}
    → IsLater d.start_ticks u v
    → Runs u d e
    → Runs v e f
    → Runs v d f
Runs-later {u} {v} {f = f} later (ends {d = d} {e = e} p) s = elim (later-done u v d e later p) [
  | inl same ↦ subst (λ x. Runs v x f) same s
  | inr (q, shut) ↦
      let still : Runs v e e = ends (sample_round_settled v e (closed-IsSettled v e shut)) in
      subst (Runs v d) (Runs-unique still s) (ends q)
]
Runs-later {u} {v} later (goes {d = d} {e = e} p r) s =
    let (q, start) = later-next u v d e later p in
    goes q (Runs-later (subst (λ t. IsLater t u v) (sym start) later) r s)

pub is_past_offset :
    (start u o : ℕ) → u < 2 ^ 31 → o < 2 ^ 31 → is_past (add32 start u) (add32 start o) ≡ ltb o u
unfolding is_past
is_past_offset start u o hu ho = ground arith

IsLater-offset :
    (start u v : ℕ) → u ≤ v → v < 2 ^ 31 → IsLater start (add32 start u) (add32 start v)
IsLater-offset start u v h hv o ho p =
    is_past_offset start v o hv ho
    ∙ lt→ltb o v (omega (tests, sym (is_past_offset start u o (omega arith) ho) ∙ p))

-- Sampling up to a time and then up to a later one, both counted from the start edge of the frame and
-- less than half the counter's range after it, is sampling up to the later one: a `Poll` in between, or
-- an edge that changes nothing, leaves no trace.
pub sample_until_twice :
    (d : EdgeUartDecoder) (u v : ℕ)
    → u ≤ v
    → v < 2 ^ 31
    → let at = add32 d.start_ticks in
      sample_until (sample_until d (at u)) (at v) ≡ sample_until d (at v)
sample_until_twice d u v h hv = sym (
    Runs-eq (
      Runs-later (IsLater-offset d.start_ticks u v h hv) (Runs-sample_until _ d)
        (Runs-sample_until _ _)))
