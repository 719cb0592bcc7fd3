-- ===== src/Ebike/Kunteng.antt =====
-- lib/ebike/src/kunteng_protocol.hpp: the frames of the Kunteng display. A byte is a number below 256, an
-- array of bytes a list; a `static_cast<uint8_t>` is `% 256`, `a >> k` is `a / 2 ^ k`.
pub mod Status
mod Fields
mod RoundTrip
mod Decoder
mod Stream
mod Tests
use unimoc.Prelude.{
  ℕ, zero, suc, ◌+◌, ◌-◌, ◌*◌, ◌/◌, ◌%◌, ◌^◌, Bool, true, false, not, ◌&&◌, ◌||◌, Option, none,
  some, List, [], ◌∷◌, ◌++◌, bit_and, bit_or, bit_xor, get_or, set, replicate, drop, min, ltb, ◌==◌,
  if◌then◌else◌,
}

abbrev pub display_frame_size : ℕ
display_frame_size = 13

abbrev pub default_checksum_seed : ℕ
default_checksum_seed = 10

abbrev pub max_checksum_seed : ℕ
max_checksum_seed = 50

abbrev pub display_end : ℕ
display_end = 0x0e

abbrev pub checksum_index : ℕ
checksum_index = 5

abbrev pub cast8 : ℕ → ℕ
cast8 x = x % 256

-- The loop of `XorExcept` from the index `i` on.
pub xor_from : ℕ → ℕ → ℕ → List ℕ → ℕ
xor_from skipped i sum [] = sum
xor_from skipped i sum (x ∷ frame) =
    xor_from skipped (i + 1) (if i == skipped then sum else cast8 (bit_xor sum x)) frame

pub xor_except : List ℕ → ℕ → ℕ
xor_except frame skipped = xor_from skipped 0 0 frame

pub record DisplayRequest : Type 0 where
  pub assist_level : ℕ
  pub light : Bool
  pub wheel_size_code : ℕ
  pub max_speed : ℕ
  pub motor_characteristic : ℕ
  pub power_assist_mode : Bool
  pub max_current_code : ℕ
  pub raw : List ℕ

-- `std::clamp`
abbrev pub clamp : ℕ → ℕ → ℕ → ℕ
clamp x lo hi = if ltb x lo then lo else if ltb hi x then hi else x

abbrev pub has_speed_bit : ℕ → Bool
has_speed_bit speed = ltb 41 speed

pub speed_field : ℕ → ℕ
speed_field speed = cast8 ((if has_speed_bit speed then bit_and speed 0x1f else speed) + 256 - 10)

pub level_byte : ℕ → Bool → ℕ
level_byte level light = cast8 (bit_or (bit_and level 7) (if light then 0x80 else 0))

pub speed_byte : ℕ → ℕ → ℕ
speed_byte wheel field = cast8 (bit_or (bit_and (wheel / 2 ^ 2) 7) (field * 2 ^ 3))

pub mode_byte : ℕ → ℕ → Bool → Bool → ℕ
mode_byte old wheel fast power_assist = cast8 (
    bit_or (bit_or (bit_or (bit_and old 0x17) (bit_and wheel 3 * 2 ^ 6)) (if fast then 0x20 else 0))
      (if power_assist then 0x08 else 0))

pub current_byte : ℕ → ℕ → ℕ
current_byte old code = cast8 (bit_or (bit_and old 0xf0) (bit_and code 0x0f))

-- The frame before its checksum is set.
pub unsealed : DisplayRequest → List ℕ
unsealed r =
    let speed = clamp r.max_speed 10 63 in
    let frame1 = set r.raw 1 (level_byte r.assist_level r.light) in
    let frame2 = set frame1 2 (speed_byte r.wheel_size_code (speed_field speed)) in
    let frame3 = set frame2 3 r.motor_characteristic in
    let frame4 =
      set frame3 4 (
        mode_byte (get_or frame3 4 0) r.wheel_size_code (has_speed_bit speed)
          r.power_assist_mode) in
    let frame7 = set frame4 7 (current_byte (get_or frame4 7 0) r.max_current_code) in
    let frame11 = set frame7 11 0x37 in set frame11 12 display_end

pub encode_display_request : DisplayRequest → ℕ → List ℕ
encode_display_request r seed =
    let frame = unsealed r in
    set frame checksum_index (cast8 (bit_xor (xor_except frame checksum_index) seed))

-- `DisplayDecoder::Decode`
pub decode : List ℕ → DisplayRequest
decode frame =
    let byte = λ (i : ℕ). get_or frame i 0 in
    record {
      assist_level = bit_and (byte 1) 7;
      light = not (bit_and (byte 1) 0x80 == 0);
      wheel_size_code = cast8 (bit_or (bit_and (byte 4) 0xc0 / 2 ^ 6) (bit_and (byte 2) 7 * 2 ^ 2));
      max_speed = cast8 (bit_or (10 + bit_and (byte 2) 0xf8 / 2 ^ 3) (bit_and (byte 4) 0x20));
      motor_characteristic = byte 3;
      power_assist_mode = not (bit_and (byte 4) 0x08 == 0);
      max_current_code = bit_and (byte 7) 0x0f;
      raw = frame;
    }

pub record DisplayDecoder : Type 0 where
  pub window : List ℕ
  pub count : ℕ
  pub seed : ℕ
  pub candidate : ℕ
  pub candidate_count : ℕ

pub new : DisplayDecoder
new = record {
  window = replicate display_frame_size 0;
  count = 0;
  seed = default_checksum_seed;
  candidate = 0;
  candidate_count = 0;
}

abbrev pub has_end_marker : List ℕ → Bool
has_end_marker window =
    let marker = get_or window 11 0 in
    (marker == 0x32 || marker == 0x37) && get_or window 12 0 == display_end

pub learn_seed : DisplayDecoder → ℕ → DisplayDecoder
learn_seed d seed =
    if ltb max_checksum_seed seed
    then record d { candidate_count = 0 }
    else let seen =
        if seed == d.candidate && ltb 0 d.candidate_count
        then record d { candidate_count = d.candidate_count + 1 }
        else record d { candidate = seed; candidate_count = 1 } in
      if ltb seen.candidate_count 2 then seen else record seen { seed = seed; candidate_count = 0 }

-- The constant with which the checksum of the window was made.
pub window_seed : List ℕ → ℕ
window_seed window =
    cast8 (bit_xor (xor_except window checksum_index) (get_or window checksum_index 0))

abbrev pub accept : DisplayDecoder → Option DisplayRequest × DisplayDecoder
accept d = (some (decode d.window), record d { candidate_count = 0; count = 0 })

-- The request is what goes through the reference when `Push` returns true.
pub push : DisplayDecoder → ℕ → Option DisplayRequest × DisplayDecoder
push d byte =
    let shifted = record d {
      window = drop 1 d.window ++ (byte ∷ []);
      count = min (d.count + 1) display_frame_size;
    } in
    if ltb shifted.count display_frame_size || not (has_end_marker shifted.window)
    then (none, shifted)
    else let seed = window_seed shifted.window in
      if seed == shifted.seed
      then accept shifted
      else let learned = learn_seed shifted seed in
        if seed == learned.seed then accept learned else (none, learned)

-- The requests that a stream of bytes gives.
unfoldable pub receive : DisplayDecoder → List ℕ → List DisplayRequest × DisplayDecoder
receive d [] = ([], d)
receive d (byte ∷ bytes) =
    let (request, pushed) = push d byte in
    let (requests, final) = receive pushed bytes in
    (elim request [ none ↦ requests | some r ↦ r ∷ requests ], final)
