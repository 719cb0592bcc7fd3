-- ===== src/Ebike/EdgeUart/Tests.antt =====
-- EdgeUartDecoder at 104 ticks per bit, across the wrap of the counter.
use unimoc.Prelude.{ℕ, ◌+◌, ◌*◌, ◌<◌, ◌≡◌, refl, true, false, some, List, [], ◌∷◌, arith}
use unimoc.Ebike.EdgeUart.{
  EdgeUartDecoder, new, push, poll, store, sample_at, is_past, sample_bit, sample_round,
  sample_loop, sample_until,
}
use unimoc.Ebike.EdgeUart.Fifo.{received}
use unimoc.Ebike.EdgeUart.Sampling.{IsSettled, sample_until_lem}
use unimoc.Ebike.EdgeUart.Timing.{IsTimed, within}
use unimoc.Ebike.EdgeUart.Stream.{
  Frame, IsReady, IsSound, transmit, transmit_all, stream_received, framing_error,
}

abbrev fresh : EdgeUartDecoder
fresh = new 104

-- Edges that come late by up to two ticks.
abbrev boundary : ℕ → ℕ
boundary k = 104 * k + 2

abbrev frame : ℕ → ℕ → Frame
frame byte start = record { byte = byte; start = start; boundary = boundary; until = 1000 }

abbrev frames : List Frame
frames = frame 0x3a 4_294_967_000 ∷ frame 0xff 900 ∷ []

receives : received (transmit_all fresh frames) ≡ 0x3a ∷ 0xff ∷ []
unfolding poll push new sample_until sample_loop sample_round sample_bit is_past sample_at store
receives = refl

fresh-IsReady : IsReady 104 fresh
unfolding new
fresh-IsReady = ground arith

boundary-IsTimed : IsTimed 104 boundary
boundary-IsTimed = record { early = λ k h. omega arith; late = λ k h. omega arith }

frame-IsSound : (byte start : ℕ) → byte < 256 → IsSound 104 (frame byte start)
frame-IsSound byte start h = record {
  in_byte = h;
  timed = boundary-IsTimed;
  after = omega arith;
  small = omega arith;
}

stream_received_example :
    let e = transmit_all fresh frames in
    (received e ≡ 0x3a ∷ 0xff ∷ []) × (e.framing_errors ≡ 0) × (e.overruns ≡ 0) × IsReady 104 e
unfolding new
stream_received_example =
    stream_received 104 fresh frames fresh-IsReady
      (frame-IsSound 0x3a 4_294_967_000 (omega arith), (frame-IsSound 0xff 900 (omega arith), tt))
      (omega arith)

framing_error_example :
    let e = transmit false fresh (frame 0x3a 900) in
    (received e ≡ []) × (e.framing_errors ≡ 1) × (e.overruns ≡ 0) × (e.in_frame ≡ false)
unfolding new
framing_error_example =
    framing_error 104 fresh (frame 0x3a 900) fresh-IsReady (frame-IsSound 0x3a 900 (omega arith))

abbrev open_frame : EdgeUartDecoder
open_frame = within fresh 0x3a 900 3 true

sample_until_lem_example :
    (sample_loop 10 2000 open_frame ≡ some (sample_until open_frame 2000))
    × IsSettled 2000 (sample_until open_frame 2000)
sample_until_lem_example = sample_until_lem open_frame 2000
