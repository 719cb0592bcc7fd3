-- ===== src/Ebike/EdgeUart/Timing.antt =====
-- A frame on the line, with its start bit, eight data bits (LSB first) and stop bit, and EdgeUartDecoder within it.
use native.Mathlib.Nat.{mod-eq_of_lt}
use unimoc.Prelude.{
  ℕ, zero, suc, ◌+◌, ◌-◌, ◌*◌, ◌/◌, ◌%◌, ◌^◌, ◌≤◌, ◌<◌, ◌≡◌, refl, ap, Bool, true, false, not,
  bit_or, List, [], ◌∷◌, foldl, arith, ltb, lt→ltb, ◌==◌, ==_iff, if◌then◌else◌,
}
use unimoc.Prelude.Bits.{every, every_lem}
use unimoc.Ebike.EdgeUart.{
  EdgeUartDecoder, UartEdge, add32, sample_at, is_past, sample_bit, sample_round, sample_until,
  push, store, done, next,
}
use unimoc.Ebike.EdgeUart.Sampling.{
  IsSettled, ends, goes, Runs-eq, sample_round_settled, is_past_offset,
}

-- The level of the line in the bit `k` of a frame with the data `byte`; `stop` is that of the stop bit.
abbrev pub line_level : ℕ → Bool → ℕ → Bool
line_level byte stop zero = false
line_level byte stop (suc j) = if ltb j 8 then byte / 2 ^ j % 2 == 1 else stop

-- The middle of the bit `k`, in ticks after the start edge.
abbrev pub middle : ℕ → ℕ → ℕ
middle ticks k = (2 * k + 1) * ticks / 2

abbrev pub edge_at : ℕ → Bool → UartEdge
edge_at t l = record { ticks = t; level = l }

abbrev pub same : Bool → Bool → Bool
same true b = b
same false b = not b

-- The edges at the boundaries behind the bit `k`: `boundary (k + 1)` ticks after the start edge the line
-- takes the level of the bit `k + 1`, and there is an edge where that is another level.
abbrev pub edges_from :
    (byte : ℕ) (stop : Bool) (start : ℕ) (boundary : ℕ → ℕ) (k n : ℕ) → List UartEdge
edges_from byte stop start boundary k zero = []
edges_from byte stop start boundary k (suc n) =
    let rest = edges_from byte stop start boundary (k + 1) n in
    if same (line_level byte stop k) (line_level byte stop (k + 1))
    then rest
    else edge_at (add32 start (boundary (k + 1))) (line_level byte stop (k + 1)) ∷ rest

abbrev pub frame_edges : ℕ → Bool → ℕ → (ℕ → ℕ) → List UartEdge
frame_edges byte stop start boundary = edge_at start false ∷ edges_from byte stop start boundary 0 9

-- Each boundary lies between the middles of its two bits: up to half a bit early or late.
pub record IsTimed (ticks : ℕ) (boundary : ℕ → ℕ) : Type 0 where
  pub early : (k : ℕ) → k ≤ 9 → boundary k ≤ middle ticks k
  pub late : (k : ℕ) → k ≤ 8 → middle ticks k < boundary (k + 1)

abbrev pub receive : EdgeUartDecoder → List UartEdge → EdgeUartDecoder
receive = foldl push

-- A decoder that has taken the samples before the bit `k` of the frame.
abbrev pub within : EdgeUartDecoder → ℕ → ℕ → ℕ → Bool → EdgeUartDecoder
within d byte start k l = record d {
  level = l;
  in_frame = true;
  start_ticks = start;
  bit = k;
  bits = byte % 2 ^ (k - 1);
}

abbrev pub shut : EdgeUartDecoder → ℕ → Bool → ℕ → EdgeUartDecoder
shut d byte stop start = record (within d byte start 9 stop) { in_frame = false }

abbrev pub drop_frame : EdgeUartDecoder → EdgeUartDecoder
drop_frame d = record d { framing_errors = add32 d.framing_errors 1 }

-- The frame is over: the byte is stored, or a framing error counted.
abbrev pub finish : EdgeUartDecoder → ℕ → Bool → ℕ → EdgeUartDecoder
finish d byte stop start =
    if stop then store (shut d byte stop start) byte else drop_frame (shut d byte stop start)

pub or_table :
    every 8 (λ j. every 256 (λ x.
      bit_or (x % 2 ^ j) ((if (x / 2 ^ j % 2 == 1) then 1 else 0) * 2 ^ j) % 256
      == x % 2 ^ (j + 1)))
    ≡ true
unfolding every
or_table = refl

pub or_bit :
    (j x : ℕ)
    → j < 8
    → x < 256
    → bit_or (x % 2 ^ j) ((if (x / 2 ^ j % 2 == 1) then 1 else 0) * 2 ^ j) % 256 ≡ x % 2 ^ (j + 1)
or_bit j x hj hx = (==_iff _ _).0 (every_lem 256 _ x hx (every_lem 8 _ j hj or_table))

-- The ticks of a bit allow ten bits in half the counter's range.
abbrev pub IsSlow : EdgeUartDecoder → Type 0
IsSlow d = 19 * d.ticks_per_bit < 2 ^ 32

pub product-lt : (t k : ℕ) → 19 * t < 2 ^ 32 → k ≤ 9 → (2 * k + 1) * t < 2 ^ 32
product-lt t k h hk = grind arith

module _ (d : EdgeUartDecoder) (byte : ℕ) (stop : Bool) (start : ℕ) (slow : IsSlow d) where
  pub sample_at-within :
      (k : ℕ) (l : Bool)
      → k ≤ 9
      → sample_at (within d byte start k l) ≡ add32 start (middle d.ticks_per_bit k)
  unfolding sample_at
  sample_at-within k l h =
      ap (λ x. add32 start (x / 2)) (mod-eq_of_lt (product-lt d.ticks_per_bit k slow h))

  pub is_past-within :
      (k v : ℕ) (l : Bool)
      → k ≤ 9
      → v < 2 ^ 31
      → is_past (add32 start v) (sample_at (within d byte start k l))
        ≡ ltb (middle d.ticks_per_bit k) v
  is_past-within k v l h hv = rw (sample_at-within k l h) (
      is_past_offset start v (middle d.ticks_per_bit k) hv
        (omega (arith, product-lt d.ticks_per_bit k slow h)))

  pub sample_bit-within :
      (k : ℕ)
      → k ≤ 8
      → byte < 256
      → sample_bit (within d byte start k (line_level byte stop k))
        ≡ next (within d byte start (k + 1) (line_level byte stop k))
  unfolding sample_bit
  sample_bit-within zero h hb = refl
  sample_bit-within (suc j) h hb = ground (arith, or_bit j byte)

  -- In the middle of the bit `k` the decoder takes its level, and no more before the next middle.
  pub sample_until-within :
      (k v : ℕ)
      → k ≤ 8
      → byte < 256
      → middle d.ticks_per_bit k < v
      → v ≤ middle d.ticks_per_bit (k + 1)
      → sample_until (within d byte start k (line_level byte stop k)) (add32 start v)
        ≡ within d byte start (k + 1) (line_level byte stop k)
  unfolding sample_round
  sample_until-within k v h hb after before =
      let small : v < 2 ^ 31 =
        omega (arith, product-lt d.ticks_per_bit (k + 1) slow (omega arith)) in
      let l = line_level byte stop k in
      let at = add32 start v in
      let here = within d byte start k l in
      let there = within d byte start (k + 1) l in
      let step : sample_round at here ≡ next there =
        rw (is_past-within k v l (omega arith) small, lt→ltb _ _ after)
          (sample_bit-within k h hb) in
      let settled : IsSettled at there =
        rw (is_past-within (k + 1) v l (omega arith) small) (ground arith) in
      Runs-eq (goes step (ends (sample_round_settled at there settled)))

  -- In the middle of the stop bit the frame is closed, and the byte stored if the line is high.
  pub sample_until-stop :
      (v : ℕ)
      → byte < 256
      → middle d.ticks_per_bit 9 < v
      → v < 2 ^ 31
      → sample_until (within d byte start 9 stop) (add32 start v) ≡ finish d byte stop start
  unfolding sample_round sample_bit
  sample_until-stop v hb after small =
      let whole : byte % 2 ^ 8 ≡ byte = omega arith in
      let step : sample_round (add32 start v) (within d byte start 9 stop)
          ≡ done (finish d byte stop start) =
        rw (is_past-within 9 v stop (omega arith) small, lt→ltb _ _ after)
          (ap
            (λ x. done (
              if stop
              then store (shut d byte stop start) x
              else drop_frame (shut d byte stop start)))
            whole) in
      Runs-eq (ends step)
