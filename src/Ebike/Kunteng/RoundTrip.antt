-- ===== src/Ebike/Kunteng/RoundTrip.antt =====
-- `DisplayDecoder::Decode` after `EncodeDisplayRequest`.
use unimoc.Prelude.{ℕ, ◌%◌, ◌≤◌, ◌<◌, ◌≡◌, List, length, get_or, get_or-set, length-set, arith}
use unimoc.Ebike.Kunteng.{
  DisplayRequest, display_frame_size, display_end, clamp, has_speed_bit, speed_field, level_byte,
  speed_byte, mode_byte, current_byte, unsealed, encode_display_request, decode,
}
use unimoc.Ebike.Kunteng.Fields.{
  level_byte_fields, speed_byte_fields, mode_byte_fields, current_byte_field, speed_field_lem,
  wheel_lem,
}

-- The fields are `uint8_t`, and the raw frame has its 13 bytes.
pub record IsRequest (r : DisplayRequest) : Type 0 where
  pub frame : length r.raw ≡ display_frame_size
  pub level_in : r.assist_level < 256
  pub wheel_in : r.wheel_size_code < 256
  pub current_in : r.max_current_code < 256
  pub mode_in : get_or r.raw 4 0 < 256
  pub old_current_in : get_or r.raw 7 0 < 256

-- What is left of a request: the bits that the frame has room for, and the speed in its range.
abbrev pub sent : DisplayRequest → List ℕ → DisplayRequest
sent r frame = record {
  assist_level = r.assist_level % 8;
  light = r.light;
  wheel_size_code = r.wheel_size_code % 32;
  max_speed = clamp r.max_speed 10 63;
  motor_characteristic = r.motor_characteristic;
  power_assist_mode = r.power_assist_mode;
  max_current_code = r.max_current_code % 16;
  raw = frame;
}

-- The bytes of an encoded frame.
module _ (r : DisplayRequest) (seed : ℕ) (h : length r.raw ≡ display_frame_size) where
  pub length-unsealed : length (unsealed r) ≡ display_frame_size
  unfolding unsealed
  length-unsealed = simp (length-set, h)

  pub length-encode : length (encode_display_request r seed) ≡ display_frame_size
  unfolding encode_display_request unsealed
  length-encode = simp (length-set, h)

  abbrev byte_at : ℕ → ℕ
  byte_at i = get_or (encode_display_request r seed) i 0

  byte_one : byte_at 1 ≡ level_byte r.assist_level r.light
  unfolding encode_display_request unsealed
  byte_one = simp (get_or-set, h)

  byte_two : byte_at 2 ≡ speed_byte r.wheel_size_code (speed_field (clamp r.max_speed 10 63))
  unfolding encode_display_request unsealed
  byte_two = simp (get_or-set, length-set, h)

  byte_three : byte_at 3 ≡ r.motor_characteristic
  unfolding encode_display_request unsealed
  byte_three = simp (get_or-set, length-set, h)

  byte_four :
      byte_at 4
      ≡ mode_byte
          (get_or r.raw 4 0)
          r.wheel_size_code
          (has_speed_bit (clamp r.max_speed 10 63))
          r.power_assist_mode
  unfolding encode_display_request unsealed
  byte_four = simp (get_or-set, length-set, h)

  byte_seven : byte_at 7 ≡ current_byte (get_or r.raw 7 0) r.max_current_code
  unfolding encode_display_request unsealed
  byte_seven = simp (get_or-set, length-set, h)

  pub end_bytes : (byte_at 11 ≡ 0x37) × (byte_at 12 ≡ display_end)
  unfolding encode_display_request unsealed
  end_bytes = (simp (get_or-set, length-set, h), simp (get_or-set, length-set, h))

clamp_speed : (x : ℕ) → (10 ≤ clamp x 10 63) × (clamp x 10 63 < 64)
clamp_speed x = ground arith

-- Decoding an encoded request gives its fields back, each reduced to the bits that the frame has for it:
-- 3 bits of assist level, 5 of wheel size, 4 of current, and a speed limited to 10 to 63 km/h. This holds
-- for every checksum constant and every content of the raw frame.
pub decode-encode :
    (r : DisplayRequest) (seed : ℕ)
    → IsRequest r
    → let frame = encode_display_request r seed in decode frame ≡ sent r frame
unfolding decode
decode-encode r seed v =
    let speed = clamp r.max_speed 10 63 in
    let (low, high) = clamp_speed r.max_speed in
    let (field_in, sum) = speed_field_lem speed low high in
    let (level, light) = level_byte_fields r.assist_level r.light v.level_in in
    let (wheel_high, field) =
      speed_byte_fields r.wheel_size_code (speed_field speed) v.wheel_in field_in in
    let (wheel_low, fast, assist) =
      mode_byte_fields (get_or r.raw 4 0) r.wheel_size_code (has_speed_bit speed)
        r.power_assist_mode v.mode_in v.wheel_in in
    rw (
      byte_one r seed v.frame,
      byte_two r seed v.frame,
      byte_three r seed v.frame,
      byte_four r seed v.frame,
      byte_seven r seed v.frame,
      level,
      light,
      wheel_high,
      field,
      wheel_low,
      fast,
      assist,
      sum,
      wheel_lem r.wheel_size_code v.wheel_in,
      current_byte_field (get_or r.raw 7 0) r.max_current_code v.old_current_in v.current_in,
    )
