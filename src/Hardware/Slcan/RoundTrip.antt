-- ===== src/Hardware/Slcan/RoundTrip.antt =====
-- ParseLine after FormatFrame of SlcanMedia.
mod Digits
mod Data
use mathlib.Core.Option.{bind}
use native.Mathlib.Nat.{div-le_self, div-div-eq-div-mul, pow-suc}
use unimoc.Prelude.{
  ℕ, zero, suc, ◌+◌, ◌-◌, ◌*◌, ◌/◌, ◌%◌, ◌^◌, ◌<◌, ◌≤◌, ◌≡◌, refl, sym, ap, ◌∙◌, min, bit_or, Bool,
  true, false, ◌&&◌, Option, none, some, List, [], ◌∷◌, ◌++◌, length, take, drop, set, get_or,
  get_or-set, length-set, replicate, All, ltb, leb, arith, if◌then◌else◌,
}
use unimoc.Prelude.Or.{or-nibble}
use unimoc.Hardware.Slcan.RoundTrip.Digits.{parse_digits-id, parse_hex-nibble}
use unimoc.Hardware.Slcan.RoundTrip.Data.{
  fill, parse_data-digits, get_or-fill, length-fill, blank, length-data_digits,
}
use unimoc.Hardware.Slcan.{
  CanFrame, LineResult, hex_digit, nibble_of, parse_digits, parse_hex, parse_data, with_data,
  parse_payload, parse_frame, parse_line, id_digits, data_digits, format_frame, max_frame_text,
  can_fd_mtu, dlc_to_length,
}

-- The line of a frame, without the CR that ends it.
abbrev pub text : CanFrame → List ℕ
text frame =
    84
    ∷ (id_digits frame.extended_can_id 8
        ++ (hex_digit frame.size ∷ data_digits frame.payload 0 frame.size))

-- A classic frame with a 29-bit identifier.
pub record IsClassic (frame : CanFrame) : Type 0 where
  pub id_in : frame.extended_can_id < 2 ^ 29
  pub size_in : frame.size ≤ 8
  pub bytes : (j : ℕ) → get_or frame.payload j 0 < 256

classic_length : (size : ℕ) → size ≤ 8 → get_or dlc_to_length size 0 ≡ size
classic_length zero h = refl
classic_length (suc zero) h = refl
classic_length (suc (suc zero)) h = refl
classic_length (suc (suc (suc zero))) h = refl
classic_length (suc (suc (suc (suc zero)))) h = refl
classic_length (suc (suc (suc (suc (suc zero))))) h = refl
classic_length (suc (suc (suc (suc (suc (suc zero)))))) h = refl
classic_length (suc (suc (suc (suc (suc (suc (suc zero))))))) h = refl
classic_length (suc (suc (suc (suc (suc (suc (suc (suc zero)))))))) h = refl
classic_length (suc (suc (suc (suc (suc (suc (suc (suc (suc n))))))))) h = absurd (omega arith)

parse_payload-text :
    (frame : CanFrame)
    → IsClassic frame
    → parse_payload (text frame) (some frame.extended_can_id) (some frame.size)
      ≡ with_data frame.extended_can_id frame.size
          (some (fill frame.payload 0 frame.size (replicate can_fd_mtu 0)))
unfolding parse_payload id_digits
parse_payload-text frame c =
    let line = text frame in
    let sized = length-data_digits frame.payload 0 frame.size in
    let long : ltb (length line) (10 + 2 * frame.size) ≡ false = ground (arith, sized) in
    let classic : ltb 8 frame.size ≡ false = ground (arith, c.size_in) in
    let kept : frame.extended_can_id % 2 ^ 29 ≡ frame.extended_can_id = omega (arith, c.id_in) in
    let read =
      parse_data-digits line frame.payload 0 frame.size (replicate can_fd_mtu 0) c.bytes refl in
    rw (classic_length frame.size c.size_in, classic, long, kept, read) refl

parse_line-text :
    (frame : CanFrame)
    → IsClassic frame
    → parse_line (text frame)
      ≡ with_data frame.extended_can_id frame.size
          (some (fill frame.payload 0 frame.size (replicate can_fd_mtu 0)))
unfolding parse_line parse_frame id_digits parse_hex
parse_line-text frame c =
    let short : ltb (length (text frame)) 10 ≡ false = ground arith in
    let none_above : 0 ≡ frame.extended_can_id / 2 ^ (4 * 8) = omega (arith, c.id_in) in
    let id : parse_digits 0 (id_digits frame.extended_can_id 8) ≡ some frame.extended_can_id =
      ap (λ v. parse_digits v (id_digits frame.extended_can_id 8)) none_above
      ∙ parse_digits-id frame.extended_can_id 8 (omega (arith, c.id_in)) in
    let dlc : parse_digits 0 (hex_digit frame.size ∷ []) ≡ some frame.size =
      parse_hex-nibble frame.size (omega (arith, c.size_in)) in
    rw (short, id, dlc) (parse_payload-text frame c)

-- A formatted frame is parsed back: for a classic frame with a 29-bit identifier and a span that is large
-- enough, the text without its CR gives a frame with the same identifier, size and data, the rest of the
-- data being zero, without a reply or a change of the port.
pub parse_line-format_frame :
    (frame : CanFrame) (room : ℕ)
    → IsClassic frame
    → max_frame_text ≤ room
    → (format_frame frame room ≡ text frame ++ (13 ∷ []))
      × ((payload : List ℕ) × (parse_line (text frame) ≡ record {
        reply = [];
        frame = some (record {
          extended_can_id = frame.extended_can_id;
          size = frame.size;
          payload = payload;
        });
        opens = none;
      })
          × (length payload ≡ can_fd_mtu)
          × ((j : ℕ)
              → get_or payload j 0 ≡ (if ltb j frame.size then get_or frame.payload j 0 else 0)))
unfolding format_frame with_data id_digits
parse_line-format_frame frame room c h =
    let empty : List ℕ = replicate can_fd_mtu 0 in
    let whole : min frame.size 8 ≡ frame.size = omega (arith, c.size_in) in
    let roomy : ltb room max_frame_text ≡ false = ground (arith, h) in
    let fits : 0 + frame.size ≤ length empty = omega (arith, c.size_in) in
    let read : (j : ℕ)
        → get_or (fill frame.payload 0 frame.size empty) j 0
          ≡ (if ltb j frame.size then get_or frame.payload j 0 else 0) =
      λ j. get_or-fill frame.payload 0 frame.size empty j fits ∙ blank frame.size j _ in
    (
      rw (roomy, whole) refl,
      (
        fill frame.payload 0 frame.size empty,
        parse_line-text frame c,
        length-fill frame.payload 0 frame.size empty,
        read,
      ),
    )
