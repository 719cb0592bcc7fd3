-- ===== src/Ebike/EdgeUart/Frame.antt =====
-- What EdgeUartDecoder makes of a whole frame on the line, and of a glitch.
use mathlib.Core.Path.{subst}
use unimoc.Prelude.{
  ℕ, zero, suc, ◌+◌, ◌-◌, ◌/◌, ◌%◌, ◌^◌, ◌≤◌, ◌<◌, ◌≡◌, refl, sym, ap, ◌∙◌, Bool, true, false,
  arith, lt→ltb, Bool-cases, inl, inr,
}
use unimoc.Ebike.EdgeUart.{
  EdgeUartDecoder, add32, sample_bit, sample_round, sample_until, push, poll, done,
}
use unimoc.Ebike.EdgeUart.Sampling.{ends, Runs-eq, sample_round_settled, sample_until_twice}
use unimoc.Ebike.EdgeUart.Timing.{
  line_level, middle, edge_at, same, edges_from, frame_edges, IsTimed, receive, within, finish,
  IsSlow, product-lt, is_past-within, sample_until-within, sample_until-stop,
}

eq_of_same : (a b : Bool) → same a b ≡ true → a ≡ b
eq_of_same true b h = sym h
eq_of_same false true h = cc
eq_of_same false false h = refl

module _ (d : EdgeUartDecoder) (byte : ℕ) (stop : Bool) (start : ℕ) (boundary : ℕ → ℕ)
    (slow : IsSlow d) (in_byte : byte < 256) (timed : IsTimed d.ticks_per_bit boundary) where
  -- The decoder `e` is as good as one that has taken the samples before the bit `k`.
  Awaits : ℕ → EdgeUartDecoder → Type 0
  Awaits k e =
      (e.start_ticks ≡ start)
      × ((v : ℕ)
          → boundary k ≤ v
          → v < 2 ^ 31
          → sample_until e (add32 start v)
            ≡ sample_until (within d byte start k (line_level byte stop k)) (add32 start v))

  push_inside :
      (k : ℕ) (l : Bool) (e : EdgeUartDecoder)
      → sample_until e (add32 start (boundary k)) ≡ within d byte start k l
      → push e (edge_at (add32 start (boundary k)) (line_level byte stop k))
        ≡ within d byte start k (line_level byte stop k)
  unfolding push
  push_inside k l e h = rw h

  module _ (k : ℕ) (e : EdgeUartDecoder) (h : k ≤ 8) (awaits : Awaits k e) where
    boundary-lt : boundary (k + 1) < 2 ^ 31
    boundary-lt = omega (
      arith,
      timed.early (k + 1) (omega arith),
      product-lt d.ticks_per_bit (k + 1) slow (omega arith),
    )

    sampled_at_boundary :
        sample_until e (add32 start (boundary (k + 1)))
        ≡ within d byte start (k + 1) (line_level byte stop k)
    unfolding Awaits
    sampled_at_boundary =
        awaits.1 (boundary (k + 1)) (omega (arith, timed.early k (omega arith), timed.late k h))
          boundary-lt
        ∙ sample_until-within d byte stop start slow k (boundary (k + 1)) h in_byte (timed.late k h)
            (timed.early (k + 1) (omega arith))

    Awaits-same : line_level byte stop k ≡ line_level byte stop (k + 1) → Awaits (k + 1) e
    unfolding Awaits
    Awaits-same same_level = (
      awaits.0,
      λ v low small.
          sym (
            subst
              (λ s.
                let at = add32 s in
                sample_until (sample_until e (at (boundary (k + 1)))) (at v)
                ≡ sample_until e (at v))
              awaits.0 (sample_until_twice e (boundary (k + 1)) v low small))
          ∙ ap (λ x. sample_until x (add32 start v)) sampled_at_boundary
          ∙ ap (λ l. sample_until (within d byte start (k + 1) l) (add32 start v)) same_level,
    )

    Awaits-edge :
        Awaits
          (k + 1)
          (push e (edge_at (add32 start (boundary (k + 1))) (line_level byte stop (k + 1))))
    unfolding Awaits
    Awaits-edge =
        rw (push_inside (k + 1) (line_level byte stop k) e sampled_at_boundary)
          (refl, λ v low small. refl)

  receive-edges :
      (n k : ℕ) (e : EdgeUartDecoder)
      → k + n ≡ 9
      → Awaits k e
      → Awaits 9 (receive e (edges_from byte stop start boundary k n))
  receive-edges zero k e h awaits = subst (λ j. Awaits j e) (omega arith) awaits
  receive-edges (suc n) k e h awaits =
      elim (Bool-cases (same (line_level byte stop k) (line_level byte stop (k + 1)))) [
        | inl s ↦ rw s (
            receive-edges n (k + 1) e (omega arith)
              (Awaits-same k e (omega arith) awaits (eq_of_same _ _ s)))
        | inr s ↦
            rw s (receive-edges n (k + 1) _ (omega arith) (Awaits-edge k e (omega arith) awaits))
      ]

pub sample_until_idle :
    (d : EdgeUartDecoder) (until : ℕ) → d.in_frame ≡ false → sample_until d until ≡ d
sample_until_idle d until idle = Runs-eq (ends (sample_round_settled until d (rw idle)))

-- The line is idle: no frame is open and the level is high.
pub record IsIdle (d : EdgeUartDecoder) : Type 0 where
  pub closed : d.in_frame ≡ false
  pub high : d.level ≡ true

push_start :
    (d : EdgeUartDecoder) (byte start : ℕ)
    → IsIdle d
    → push d (edge_at start false) ≡ within d byte start 0 false
unfolding push
push_start d byte start idle =
    let none_yet : byte % 2 ^ (0 - 1) ≡ 0 = omega arith in
    rw (sample_until_idle d start idle.closed, idle.closed, idle.high, none_yet)

pub frame_lem :
    (d : EdgeUartDecoder) (byte : ℕ) (stop : Bool) (start : ℕ) (boundary : ℕ → ℕ) (v : ℕ)
    → IsSlow d
    → IsIdle d
    → byte < 256
    → IsTimed d.ticks_per_bit boundary
    → middle d.ticks_per_bit 9 < v
    → v < 2 ^ 31
    → poll (receive d (frame_edges byte stop start boundary)) (add32 start v)
      ≡ finish d byte stop start
unfolding poll Awaits
frame_lem d byte stop start boundary v slow idle in_byte timed after small =
    let awaits =
      receive-edges d byte stop start boundary slow in_byte timed 9 0 (push d (edge_at start false))
        refl (rw (push_start d byte start idle) (refl, λ v low small. refl)) in
    awaits.1 v (omega (arith, timed.early 9)) small
    ∙ sample_until-stop d byte stop start slow v in_byte after small

-- The line is high again before the middle of the start bit.
pub glitch_lem :
    (d : EdgeUartDecoder) (start up now : ℕ)
    → IsSlow d
    → IsIdle d
    → up ≤ d.ticks_per_bit / 2
    → d.ticks_per_bit / 2 < now
    → now < 2 ^ 31
    → poll (push (push d (edge_at start false)) (edge_at (add32 start up) true)) (add32 start now)
      ≡ record (within d 0 start 0 true) { in_frame = false }
unfolding poll push sample_round sample_bit
glitch_lem d start up now slow idle short after small =
    let low = within d 0 start 0 false in
    let high = within d 0 start 0 true in
    let half : middle d.ticks_per_bit 0 ≡ d.ticks_per_bit / 2 = omega arith in
    let waits : sample_until low (add32 start up) ≡ low = Runs-eq (
      ends (
        sample_round_settled (add32 start up) low (
          rw (is_past-within d 0 false start slow 0 up false (omega arith) (omega arith))
            (ground arith)))) in
    let taken : sample_round (add32 start now) high ≡ done (record high { in_frame = false }) = rw (
      is_past-within d 0 false start slow 0 now true (omega arith) small,
      lt→ltb (middle d.ticks_per_bit 0) now (omega arith),
    ) in
    rw (push_start d 0 start idle, waits) (Runs-eq (ends taken))
