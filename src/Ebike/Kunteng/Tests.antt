-- ===== src/Ebike/Kunteng/Tests.antt =====
-- The display protocol on a request with every field set.
use unimoc.Prelude.{
  ℕ, ◌≤◌, ◌≡◌, ◌↔◌, refl, true, some, false, List, [], ◌∷◌, ◌++◌, get_or, replicate, take, arith,
}
use unimoc.Ebike.Kunteng.{
  DisplayRequest, DisplayDecoder, encode_display_request, unsealed, decode, push, receive, new,
  learn_seed, window_seed, xor_except, xor_from, level_byte, speed_byte, speed_field, mode_byte,
  current_byte,
}
use unimoc.Ebike.Kunteng.RoundTrip.{IsRequest, sent, decode-encode}
use unimoc.Ebike.Kunteng.Decoder.{IsValid, IsAccepted, shift, shown, push_accepts_iff, seed_learned}
use unimoc.Ebike.Kunteng.Stream.{IsReady, requests_received}

abbrev request : DisplayRequest
request = record {
  assist_level = 5;
  light = true;
  wheel_size_code = 21;
  max_speed = 45;
  motor_characteristic = 87;
  power_assist_mode = true;
  max_current_code = 10;
  raw = replicate 13 0xff;
}

abbrev frame : List ℕ
frame = encode_display_request request 10

request-IsRequest : IsRequest request
request-IsRequest = omega arith

encodes :
    frame
    ≡ 0xff ∷ 0x85 ∷ 0x1d ∷ 87 ∷ 0x7f ∷ 0x86 ∷ 0xff ∷ 0xfa ∷ 0xff ∷ 0xff ∷ 0xff ∷ 0x37 ∷ 0x0e ∷ []
unfolding encode_display_request unsealed xor_except xor_from level_byte speed_byte speed_field
    mode_byte current_byte
encodes = refl

decode-encode_example : decode frame ≡ sent request frame
decode-encode_example = decode-encode request 10 request-IsRequest

new-IsReady : IsReady 10 new
unfolding new
new-IsReady = omega arith

requests_received_example :
    ((receive new (frame ++ (frame ++ []))).0 ≡ sent request frame ∷ sent request frame ∷ [])
    × IsReady 10 (receive new (frame ++ (frame ++ []))).1
requests_received_example =
    requests_received 10 new (request ∷ request ∷ []) new-IsReady
      (request-IsRequest, (request-IsRequest, tt))

-- A decoder that saw a frame made with the constant 11, and is about to see the end of another.
abbrev doubtful : DisplayDecoder
doubtful = record {
  window = replicate 6 0 ++ (0x32 ∷ replicate 5 0 ++ (0x37 ∷ []));
  count = 12;
  seed = 10;
  candidate = 11;
  candidate_count = 1;
}

new-IsValid : IsValid new
unfolding new
new-IsValid = omega arith

doubtful-IsValid : IsValid doubtful
doubtful-IsValid = omega arith

learns : (push doubtful 0x0e).1.seed ≡ 11
unfolding push learn_seed window_seed xor_except xor_from
learns = refl

push_accepts_iff_example :
    ((r : DisplayRequest) × ((push doubtful 0x0e).0 ≡ some r)) ↔ IsAccepted doubtful 0x0e
push_accepts_iff_example = push_accepts_iff doubtful 0x0e doubtful-IsValid

-- Two frames made with the constant 11, to a decoder that uses 10.
abbrev other : List ℕ
other = encode_display_request request 11

abbrev first_bytes : List ℕ
first_bytes = other ++ take 12 other

taught : (push (receive new first_bytes).1 (get_or other 12 0)).1.seed ≡ 11
unfolding new receive push learn_seed window_seed xor_except xor_from encode_display_request
    unsealed level_byte speed_byte speed_field mode_byte current_byte
taught = refl

untaught : (receive new first_bytes).1.seed ≡ 10
unfolding new receive push learn_seed window_seed xor_except xor_from encode_display_request
    unsealed level_byte speed_byte speed_field mode_byte current_byte
untaught = refl

seed_learned_example :
    let (r, e) = push (receive new first_bytes).1 (get_or other 12 0) in
    (e.seed ≤ 50)
    × (shown e.seed false new first_bytes ≡ true)
    × (r ≡ some (decode (shift (receive new first_bytes).1.window (get_or other 12 0))))
unfolding new
seed_learned_example =
    seed_learned new first_bytes (get_or other 12 0) new-IsValid refl
      (λ e. absurd (omega (arith, taught, untaught, e)))
