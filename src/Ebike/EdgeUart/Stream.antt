-- ===== src/Ebike/EdgeUart/Stream.antt =====
-- Whole frames on the line: what EdgeUartDecoder receives, drops and ignores.
use mathlib.Core.List.{append-nil, append_assoc}
use mathlib.Core.Path.{subst}
use unimoc.Prelude.{
  ℕ, ◌+◌, ◌*◌, ◌/◌, ◌^◌, ◌≤◌, ◌<◌, ◌≡◌, refl, sym, ap, ◌∙◌, Bool, true, false, List, [], ◌∷◌, ◌++◌,
  map, foldl, length, All, arith,
}
use unimoc.Ebike.EdgeUart.{EdgeUartDecoder, add32, fifo_size, push, poll, store}
use unimoc.Ebike.EdgeUart.Fifo.{IsValid, received, store_refines, store-IsValid}
use unimoc.Ebike.EdgeUart.Frame.{IsIdle, frame_lem, glitch_lem}
use unimoc.Ebike.EdgeUart.Timing.{IsTimed, middle, frame_edges, edge_at, receive, shut, finish}

-- A frame as a sender puts it on the line, and the time of the `Poll` that follows it.
pub record Frame : Type 0 where
  pub byte : ℕ
  pub start : ℕ
  pub boundary : ℕ → ℕ
  pub until : ℕ

pub record IsSound (ticks : ℕ) (f : Frame) : Type 0 where
  pub in_byte : f.byte < 256
  pub timed : IsTimed ticks f.boundary
  pub after : middle ticks 9 < f.until
  pub small : f.until < 2 ^ 31

abbrev pub transmit : Bool → EdgeUartDecoder → Frame → EdgeUartDecoder
transmit stop d f =
    poll (receive d (frame_edges f.byte stop f.start f.boundary)) (add32 f.start f.until)

-- A decoder between two frames.
pub record IsReady (ticks : ℕ) (d : EdgeUartDecoder) : Type 0 where
  pub rate : d.ticks_per_bit ≡ ticks
  pub slow : 19 * ticks < 2 ^ 32
  pub idle : IsIdle d
  pub valid : IsValid d

store_frame : (d : EdgeUartDecoder) (byte : ℕ) → (store d byte).in_frame ≡ d.in_frame
unfolding store
store_frame d byte = ground arith

store_level : (d : EdgeUartDecoder) (byte : ℕ) → (store d byte).level ≡ d.level
unfolding store
store_level d byte = ground arith

store_rate : (d : EdgeUartDecoder) (byte : ℕ) → (store d byte).ticks_per_bit ≡ d.ticks_per_bit
unfolding store
store_rate d byte = ground arith

store_errors : (d : EdgeUartDecoder) (byte : ℕ) → (store d byte).framing_errors ≡ d.framing_errors
unfolding store
store_errors d byte = ground arith

store_count :
    (d : EdgeUartDecoder) (byte : ℕ) → d.count < fifo_size → (store d byte).count ≡ d.count + 1
unfolding store
store_count d byte h = ground arith

module _ (ticks : ℕ) (d : EdgeUartDecoder) (f : Frame) (ready : IsReady ticks d)
    (sound : IsSound ticks f) where
  transmit_lem : (stop : Bool) → transmit stop d f ≡ finish d f.byte stop f.start
  transmit_lem stop =
      let rate = sym ready.rate in
      frame_lem d f.byte stop f.start f.boundary f.until
        (subst (λ t. 19 * t < 2 ^ 32) rate ready.slow) ready.idle sound.in_byte
        (subst (λ t. IsTimed t f.boundary) rate sound.timed)
        (subst (λ t. middle t 9 < f.until) rate sound.after) sound.small

  shut-IsValid : (stop : Bool) → IsValid (shut d f.byte stop f.start)
  shut-IsValid stop = record {
    storage = ready.valid.storage;
    read_in = ready.valid.read_in;
    count_in = ready.valid.count_in;
  }

  transmit-IsReady : IsReady ticks (transmit true d f)
  transmit-IsReady =
      let s = shut d f.byte true f.start in
      rw (transmit_lem true) (record {
        rate = store_rate s f.byte ∙ ready.rate;
        slow = ready.slow;
        idle = record { closed = store_frame s f.byte; high = store_level s f.byte };
        valid = store-IsValid s f.byte (shut-IsValid true);
      })

  transmit-received :
      d.count < fifo_size
      → let e = transmit true d f in
        (received e ≡ received d ++ (f.byte ∷ []))
        × (e.count ≡ d.count + 1)
        × (e.framing_errors ≡ d.framing_errors)
        × (e.overruns ≡ d.overruns)
  transmit-received room =
      let s = shut d f.byte true f.start in
      let (stored, same) = (store_refines s f.byte (shut-IsValid true)).0 room in
      rw (transmit_lem true) (stored, store_count s f.byte room, store_errors s f.byte, same)

abbrev pub transmit_all : EdgeUartDecoder → List Frame → EdgeUartDecoder
transmit_all = foldl (transmit true)

-- A sequence of frames is received whole: for a decoder between two frames, frames whose edges are each less than half
-- a bit early or late, each followed by a `Poll` past the middle of its stop bit and before the next frame, and room in
-- the FIFO for all of them, the bytes of the frames are appended in order to the bytes that wait, no error is counted,
-- and the decoder is ready for the next frame. A bit is shorter than 2 ^ 32 / 19 ticks.
pub stream_received :
    (ticks : ℕ) (d : EdgeUartDecoder) (fs : List Frame)
    → IsReady ticks d
    → All (IsSound ticks) fs
    → d.count + length fs ≤ fifo_size
    → let e = transmit_all d fs in
      (received e ≡ received d ++ map (λ f. f.byte) fs)
      × (e.framing_errors ≡ d.framing_errors)
      × (e.overruns ≡ d.overruns)
      × IsReady ticks e
stream_received ticks d [] ready sound room = (sym (append-nil (received d)), refl, refl, ready)
stream_received ticks d (f ∷ fs) ready (sound, rest) room =
    let (bytes, count, errors, overruns) = transmit-received ticks d f ready sound (omega arith) in
    let (bytes', errors', overruns', ready') =
      stream_received ticks (transmit true d f) fs (transmit-IsReady ticks d f ready sound) rest
        (omega (arith, count)) in
    (
      bytes'
          ∙ ap (λ xs. xs ++ map (λ f. f.byte) fs) bytes
          ∙ append_assoc (received d) (f.byte ∷ []) (map (λ f. f.byte) fs),
      errors' ∙ errors,
      overruns' ∙ overruns,
      ready',
    )

-- A frame to a decoder between two frames, with timely edges and a `Poll` after it, whose stop bit is low, is dropped: no byte is stored, one framing error is counted, and no
-- frame is open.
pub framing_error :
    (ticks : ℕ) (d : EdgeUartDecoder) (f : Frame)
    → IsReady ticks d
    → IsSound ticks f
    → let e = transmit false d f in
      (received e ≡ received d)
      × (e.framing_errors ≡ add32 d.framing_errors 1)
      × (e.overruns ≡ d.overruns)
      × (e.in_frame ≡ false)
framing_error ticks d f ready sound =
    rw (transmit_lem ticks d f ready sound false) (refl, refl, refl, refl)

-- A low pulse of up to half a bit is a glitch to a ready decoder: after the next `Poll` past the middle of the start bit no
-- frame is open, and the bytes and the counters are as before.
pub glitch_ignored :
    (ticks : ℕ) (d : EdgeUartDecoder) (start up now : ℕ)
    → IsReady ticks d
    → up ≤ ticks / 2
    → ticks / 2 < now
    → now < 2 ^ 31
    → let e =
        poll
          (push (push d (edge_at start false)) (edge_at (add32 start up) true))
          (add32 start now) in
      (received e ≡ received d)
      × (e.framing_errors ≡ d.framing_errors)
      × (e.overruns ≡ d.overruns)
      × IsReady ticks e
glitch_ignored ticks d start up now ready short after small =
    rw
      (glitch_lem d start up now (rw (ready.rate) (ready.slow)) ready.idle (rw (ready.rate) short)
        (rw (ready.rate) after) small)
      (
        refl,
        refl,
        refl,
        record {
          rate = ready.rate;
          slow = ready.slow;
          idle = record { closed = refl; high = refl };
          valid = record {
            storage = ready.valid.storage;
            read_in = ready.valid.read_in;
            count_in = ready.valid.count_in;
          };
        },
      )
