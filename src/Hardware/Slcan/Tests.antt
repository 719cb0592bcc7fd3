-- ===== src/Hardware/Slcan/Tests.antt =====
-- Lines of SlcanMedia.
use unimoc.Prelude.{
  ℕ, zero, suc, ◌<◌, ◌≡◌, refl, some, none, List, [], ◌∷◌, ◌++◌, length, get_or, ltb, if◌then◌else◌,
  arith,
}
use unimoc.Hardware.Slcan.{
  CanFrame, error, can_fd_mtu, parse_frame, parse_line, id_digits, data_digits, format_frame,
}
use unimoc.Hardware.Slcan.RoundTrip.{text, IsClassic, parse_line-format_frame}

-- T 00000123 2 AB 01
abbrev frame : CanFrame
frame = record { extended_can_id = 0x123; size = 2; payload = 0xab ∷ 0x01 ∷ [] }

formats :
    format_frame frame 27
    ≡ 84 ∷ 48 ∷ 48 ∷ 48 ∷ 48 ∷ 48 ∷ 49 ∷ 50 ∷ 51 ∷ 50 ∷ 65 ∷ 66 ∷ 48 ∷ 49 ∷ 13 ∷ []
unfolding format_frame id_digits data_digits
formats = refl

-- A truncated frame is answered with BEL.
refuses : (parse_line (84 ∷ 48 ∷ 48 ∷ [])).reply ≡ error
unfolding parse_line parse_frame
refuses = refl

bytes : (j : ℕ) → get_or frame.payload j 0 < 256
bytes zero = ground arith
bytes (suc zero) = ground arith
bytes (suc (suc j)) = ground arith

frame-IsClassic : IsClassic frame
frame-IsClassic = record { id_in = ground arith; size_in = ground arith; bytes = bytes }

parse_line-format_frame_example :
    (format_frame frame 27 ≡ text frame ++ (13 ∷ []))
    × ((payload : List ℕ) × (parse_line (text frame) ≡ record {
      reply = [];
      frame = some (record { extended_can_id = 0x123; size = 2; payload = payload });
      opens = none;
    })
        × (length payload ≡ can_fd_mtu)
        × ((j : ℕ) → get_or payload j 0 ≡ (if ltb j 2 then get_or frame.payload j 0 else 0)))
parse_line-format_frame_example = parse_line-format_frame frame 27 frame-IsClassic (ground arith)
