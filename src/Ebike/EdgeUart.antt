-- ===== src/Ebike/EdgeUart.antt =====
-- lib/ebike/src/edge_uart_decoder.hpp, class EdgeUartDecoder. A method returns the new decoder.
-- Ticks and counters are `uint32_t`, so their sums, differences and products wrap at 2 ^ 32.
pub mod Fifo
pub mod Sampling
pub mod Timing
pub mod Frame
pub mod Stream
mod Tests
use unimoc.Prelude.{
  ℕ, zero, suc, ◌+◌, ◌-◌, ◌*◌, ◌/◌, ◌%◌, ◌^◌, Bool, true, false, not, ◌&&◌, Option, none, some,
  List, bit_or, get_or, set, replicate, ltb, ◌==◌, if◌then◌else◌,
}

abbrev pub u32_mod : ℕ
u32_mod = 2 ^ 32

-- `uint32_t` sum and difference.
abbrev pub add32 : ℕ → ℕ → ℕ
add32 a b = (a + b) % u32_mod

abbrev pub sub32 : ℕ → ℕ → ℕ
sub32 a b = (a + u32_mod - b) % u32_mod

abbrev pub fifo_size : ℕ
fifo_size = 32

abbrev pub stop_bit : ℕ
stop_bit = 9

-- One edge of the line: its time, and the level after it (`true` is high).
pub record UartEdge : Type 0 where
  pub ticks : ℕ
  pub level : Bool

pub record EdgeUartDecoder : Type 0 where
  pub ticks_per_bit : ℕ
  pub level : Bool
  pub in_frame : Bool
  pub start_ticks : ℕ
  pub bit : ℕ
  pub bits : ℕ  -- data_
  pub fifo : List ℕ
  pub read : ℕ
  pub count : ℕ
  pub framing_errors : ℕ
  pub overruns : ℕ

pub new : ℕ → EdgeUartDecoder
new ticks_per_bit = record {
  ticks_per_bit = ticks_per_bit;
  level = true;
  in_frame = false;
  start_ticks = 0;
  bit = 0;
  bits = 0;
  fifo = replicate fifo_size 0;
  read = 0;
  count = 0;
  framing_errors = 0;
  overruns = 0;
}

pub store : EdgeUartDecoder → ℕ → EdgeUartDecoder
store d byte =
    if d.count == fifo_size
    then record d { overruns = add32 d.overruns 1 }
    else record d { fifo = set d.fifo ((d.read + d.count) % fifo_size) byte; count = d.count + 1 }

pub pop : EdgeUartDecoder → Option ℕ × EdgeUartDecoder
pop d = if d.count == 0 then (none, d) else (
  some (get_or d.fifo d.read 0),
  record d { read = (d.read + 1) % fifo_size; count = d.count - 1 },
)

-- The middle of the bit that is sampled next.
pub sample_at : EdgeUartDecoder → ℕ
sample_at d = add32 d.start_ticks ((2 * d.bit + 1) * d.ticks_per_bit % u32_mod / 2)

-- `static_cast<int32_t>(until - at) > 0`
pub is_past : ℕ → ℕ → Bool
is_past until at = let ahead = sub32 until at in ltb 0 ahead && ltb ahead (2 ^ 31)

-- What one round of the loop leaves: it returns, or goes on with the next bit.
pub data Round : Type 0 where
  done : EdgeUartDecoder → Round
  next : EdgeUartDecoder → Round

-- The sample of a bit of the frame whose time has come, at the level that the line holds.
pub sample_bit : EdgeUartDecoder → Round
sample_bit d =
    if d.bit == 0
    then (if d.level
        then done (record d { in_frame = false })
        else next (record d { bit = d.bit + 1 }))
    else if ltb d.bit stop_bit
    then next (record d {
      bits = bit_or d.bits ((if d.level then 1 else 0) * 2 ^ (d.bit - 1)) % 256;
      bit = d.bit + 1;
    })
    else let closed = record d { in_frame = false } in
      done (
        if d.level
        then store closed d.bits
        else record closed { framing_errors = add32 d.framing_errors 1 })

pub sample_round : ℕ → EdgeUartDecoder → Round
sample_round until d = if d.in_frame && is_past until (sample_at d) then sample_bit d else done d

-- The loop of `SampleUntil`; `none` means that the fuel ran out.
pub sample_loop : ℕ → ℕ → EdgeUartDecoder → Option EdgeUartDecoder
sample_loop zero until d = none
sample_loop (suc fuel) until d = elim (sample_round until d) [
  | done d' ↦ some d'
  | next d' ↦ sample_loop fuel until d'
]

-- A frame has ten bits, so ten rounds are enough.
pub sample_until : EdgeUartDecoder → ℕ → EdgeUartDecoder
sample_until d until = elim (sample_loop 10 until d) [ some d' ↦ d' | none ↦ d ]

pub poll : EdgeUartDecoder → ℕ → EdgeUartDecoder
poll d now = sample_until d now

pub push : EdgeUartDecoder → UartEdge → EdgeUartDecoder
push d edge =
    let sampled = sample_until d edge.ticks in
    let opened =
      if not sampled.in_frame && sampled.level && not edge.level
      then record sampled { in_frame = true; start_ticks = edge.ticks; bit = 0; bits = 0 }
      else sampled in
    record opened { level = edge.level }
