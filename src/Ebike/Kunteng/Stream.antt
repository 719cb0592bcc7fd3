-- ===== src/Ebike/Kunteng/Stream.antt =====
-- A stream of encoded requests through DisplayDecoder.
use mathlib.Core.List.{append_assoc, append-nil}
use native.Mathlib.Omega.{arith}
use unimoc.Prelude.{
  ℕ, zero, suc, ◌+◌, ◌^◌, ◌≤◌, ◌<◌, ◌≡◌, refl, sym, ap, ◌∙◌, true, Option, none, some, List, [],
  ◌∷◌, ◌++◌, map, foldl, length, drop, set, All, get_or-set_self, length-append, bit_xor,
}
use unimoc.Prelude.Xor.{xor_cancel, xor-lt_pow}
use unimoc.Ebike.Kunteng.{
  DisplayRequest, DisplayDecoder, display_frame_size, checksum_index, cast8, xor_from, xor_except,
  has_end_marker, window_seed, push, receive, decode, encode_display_request, unsealed,
}
use unimoc.Ebike.Kunteng.RoundTrip.{
  length-unsealed, IsRequest, sent, length-encode, end_bytes, decode-encode,
}
use unimoc.Ebike.Kunteng.Decoder.{shift}

-- The checksum leaves its own byte out.
xor_from-set :
    (skipped i j x sum : ℕ) (frame : List ℕ)
    → i + j ≡ skipped
    → xor_from skipped i sum (set frame j x) ≡ xor_from skipped i sum frame
unfolding xor_from
xor_from-set skipped i j x sum [] h = refl
xor_from-set skipped i zero x sum (y ∷ frame) h = ground arith
xor_from-set skipped i (suc j) x sum (y ∷ frame) h =
    xor_from-set skipped (i + 1) j x _ frame (omega arith)

xor_from-lt : (skipped i sum : ℕ) (frame : List ℕ) → sum < 256 → xor_from skipped i sum frame < 256
unfolding xor_from
xor_from-lt skipped i sum [] h = h
xor_from-lt skipped i sum (y ∷ frame) h = xor_from-lt skipped (i + 1) _ frame (ground arith)

-- The receiver finds the constant with which a frame was encoded.
pub window_seed-encode :
    (r : DisplayRequest) (seed : ℕ)
    → length r.raw ≡ display_frame_size
    → seed < 256
    → window_seed (encode_display_request r seed) ≡ seed
unfolding window_seed encode_display_request xor_except
window_seed-encode r seed h small =
    let frame = unsealed r in
    let sum = xor_from checksum_index 0 0 frame in
    let sum_in : sum < 256 = xor_from-lt checksum_index 0 0 frame (omega arith) in
    let mixed : bit_xor sum seed < 2 ^ 8 = xor-lt_pow 8 sum seed sum_in small in
    let sealed : cast8 (bit_xor sum seed) ≡ bit_xor sum seed = omega arith in
    let in_range : 5 < length frame = omega (arith, length-unsealed r seed h) in
    rw
      (
        xor_from-set checksum_index 0 checksum_index (cast8 (bit_xor sum seed)) 0 frame refl,
        get_or-set_self frame checksum_index (cast8 (bit_xor sum seed)) 0 in_range,
        sealed,
        xor_cancel,
      )
      (omega arith)

drop-append : (n : ℕ) (xs ys : List ℕ) → n ≤ length xs → drop n (xs ++ ys) ≡ drop n xs ++ ys
drop-append zero xs ys h = refl
drop-append (suc n) [] ys h = absurd (omega arith)
drop-append (suc n) (x ∷ xs) ys h = drop-append n xs ys (omega arith)

-- Pushing some bytes shifts them into the window.
shift_all : (w xs : List ℕ) → length xs ≤ length w → foldl shift w xs ≡ drop (length xs) w ++ xs
shift_all w [] h = sym (append-nil w)
shift_all [] (x ∷ xs) h = absurd (omega arith)
shift_all (y ∷ w) (x ∷ xs) h =
    shift_all (w ++ (x ∷ [])) xs (omega (arith, length-append w (x ∷ [])))
    ∙ rw (drop-append (length xs) w (x ∷ []) (omega arith))
        (append_assoc (drop (length xs) w) (x ∷ []) xs)

drop_all : (xs : List ℕ) (n : ℕ) → length xs ≡ n → drop n xs ≡ []
drop_all [] zero h = refl
drop_all [] (suc n) h = refl
drop_all (x ∷ xs) zero h = absurd (omega arith)
drop_all (x ∷ xs) (suc n) h = drop_all xs n (omega arith)

-- The last byte of a frame completes it, and the bytes before it pass in silence.
push_silent :
    (d : DisplayDecoder) (x : ℕ)
    → d.count + 1 < display_frame_size
    → push d x ≡ (none, record d { window = shift d.window x; count = d.count + 1 })
unfolding push
push_silent d x h = ground arith

push_last :
    (d : DisplayDecoder) (x : ℕ)
    → d.count + 1 ≡ display_frame_size
    → has_end_marker (shift d.window x) ≡ true
    → window_seed (shift d.window x) ≡ d.seed
    → push d x ≡ (
      some (decode (shift d.window x)),
      record d { window = shift d.window x; count = 0; candidate_count = 0 },
    )
unfolding push
push_last d x h m s = ground arith

receive_silent :
    (d e : DisplayDecoder) (x : ℕ) (xs : List ℕ)
    → push d x ≡ (none, e)
    → receive d (x ∷ xs) ≡ receive e xs
unfolding receive
receive_silent d e x xs h =
    ap
      (λ (p : Option DisplayRequest × DisplayDecoder). (
        elim p.0 [ none ↦ (receive p.1 xs).0 | some r ↦ r ∷ (receive p.1 xs).0 ],
        (receive p.1 xs).1,
      ))
      h

receive-frame :
    (d : DisplayDecoder) (x : ℕ) (xs : List ℕ)
    → d.count + length (x ∷ xs) ≡ display_frame_size
    → let w = foldl shift d.window (x ∷ xs) in
      has_end_marker w ≡ true
      → window_seed w ≡ d.seed
      → receive d (x ∷ xs)
        ≡ (decode w ∷ [], record d { window = w; count = 0; candidate_count = 0 })
unfolding receive
receive-frame d x [] h m s = rw (push_last d x h m s)
receive-frame d x (y ∷ ys) h m s =
    let e = record d { window = shift d.window x; count = d.count + 1 } in
    receive_silent d e x (y ∷ ys) (push_silent d x (omega arith))
    ∙ receive-frame e y ys (omega arith) m s

-- What a decoder is left with after a frame that it accepted.
abbrev pub after_frame : DisplayDecoder → List ℕ → List DisplayRequest × DisplayDecoder
after_frame d frame =
    (decode frame ∷ [], record d { window = frame; count = 0; candidate_count = 0 })

receive_whole :
    (d : DisplayDecoder) (frame : List ℕ)
    → length d.window ≡ display_frame_size
    → d.count ≡ 0
    → length frame ≡ display_frame_size
    → has_end_marker frame ≡ true
    → window_seed frame ≡ d.seed
    → receive d frame ≡ after_frame d frame
receive_whole d [] size empty len m s = absurd (omega arith)
receive_whole d (x ∷ xs) size empty len m s =
    let frame : List ℕ = x ∷ xs in
    let shifted : foldl shift d.window frame ≡ frame =
      shift_all d.window frame (omega arith)
      ∙ ap (λ ys. ys ++ frame) (drop_all d.window (length frame) (omega arith)) in
    receive-frame d x xs (omega arith) (ap (λ w. has_end_marker w) shifted ∙ m)
      (ap window_seed shifted ∙ s)
    ∙ ap (after_frame d) shifted

receive-append :
    (d : DisplayDecoder) (xs ys : List ℕ)
    → let (first, e) = receive d xs in
      let (rest, f) = receive e ys in receive d (xs ++ ys) ≡ (first ++ rest, f)
unfolding receive
receive-append d [] ys = refl
receive-append d (x ∷ xs) ys = ground (arith, receive-append (push d x).1 xs ys)

-- A decoder between two frames.
pub record IsReady (seed : ℕ) (d : DisplayDecoder) : Type 0 where
  pub size : length d.window ≡ display_frame_size
  pub empty : d.count ≡ 0
  pub constant : d.seed ≡ seed
  pub seed_in : seed < 256

-- The bytes of some requests, one frame after the other.
abbrev pub stream : ℕ → List DisplayRequest → List ℕ
stream seed [] = []
stream seed (r ∷ rs) = encode_display_request r seed ++ stream seed rs

abbrev pub sent_all : ℕ → List DisplayRequest → List DisplayRequest
sent_all seed = map (λ r. sent r (encode_display_request r seed))

receive-encoded :
    (seed : ℕ) (d : DisplayDecoder) (r : DisplayRequest)
    → IsReady seed d
    → IsRequest r
    → let frame = encode_display_request r seed in
      receive d frame
      ≡ (sent r frame ∷ [], record d { window = frame; count = 0; candidate_count = 0 })
receive-encoded seed d r ready v =
    let frame = encode_display_request r seed in
    let (marker, last) = end_bytes r seed v.frame in
    receive_whole d frame ready.size ready.empty (length-encode r seed v.frame) (rw (marker, last))
      (window_seed-encode r seed v.frame ready.seed_in ∙ sym ready.constant)
    ∙ ap (λ q. (q ∷ [], (after_frame d frame).1)) (decode-encode r seed v)

-- A stream of encoded requests is received whole: a decoder between two frames that uses the constant of
-- the sender returns one request for each frame, in order, with the fields that the frame carries, and is
-- then between two frames with the same constant.
pub requests_received :
    (seed : ℕ) (d : DisplayDecoder) (rs : List DisplayRequest)
    → IsReady seed d
    → All IsRequest rs
    → ((receive d (stream seed rs)).0 ≡ sent_all seed rs)
      × IsReady seed (receive d (stream seed rs)).1
unfolding receive
requests_received seed d [] ready vs = (refl, ready)
requests_received seed d (r ∷ rs) ready (v, vs) =
    let frame = encode_display_request r seed in
    let e = (after_frame d frame).1 in
    let here = receive-encoded seed d r ready v in
    let (later, ready') =
      requests_received seed e rs
        (record {
          size = length-encode r seed v.frame;
          empty = refl;
          constant = ready.constant;
          seed_in = ready.seed_in;
        })
        vs in
    rw (receive-append d frame (stream seed rs), here) (ap (◌∷◌ (sent r frame)) later, ready')
