-- ===== src/Hardware/Slcan.antt =====
-- hardware/zephyr_sim/slcan_media.hpp and slcan_media.cpp, class SlcanMedia: its lines of text. A character is its
-- code, a text the list of its characters; a mask of the lowest `k` bits is `% 2 ^ k`.
mod RoundTrip
pub mod Ports
mod Tests
use mathlib.Core.Option.{bind}
use unimoc.Prelude.{
  ℕ, zero, suc, ◌+◌, ◌-◌, ◌*◌, ◌/◌, ◌%◌, ◌^◌, min, bit_or, Bool, true, false, ◌&&◌, ◌||◌, Option,
  none, some, List, [], ◌∷◌, ◌++◌, length, take, drop, set, get_or, replicate, ltb, leb, ◌==◌,
  if◌then◌else◌,
}

abbrev pub can_classic_mtu : ℕ
can_classic_mtu = 8

abbrev pub can_fd_mtu : ℕ
can_fd_mtu = 64

pub record CanFrame : Type 0 where
  pub extended_can_id : ℕ
  pub size : ℕ
  pub payload : List ℕ

pub record LineResult : Type 0 where
  pub reply : List ℕ
  pub frame : Option CanFrame
  pub opens : Option Bool

-- `kOk`, `kError`
abbrev pub ok : List ℕ
ok = 13 ∷ []

abbrev pub error : List ℕ
error = 7 ∷ []

-- `kHex`
abbrev pub hex : List ℕ
hex = 48 ∷ 49 ∷ 50 ∷ 51 ∷ 52 ∷ 53 ∷ 54 ∷ 55 ∷ 56 ∷ 57 ∷ 65 ∷ 66 ∷ 67 ∷ 68 ∷ 69 ∷ 70 ∷ []

abbrev pub dlc_to_length : List ℕ
dlc_to_length = 0 ∷ 1 ∷ 2 ∷ 3 ∷ 4 ∷ 5 ∷ 6 ∷ 7 ∷ 8 ∷ 12 ∷ 16 ∷ 20 ∷ 24 ∷ 32 ∷ 48 ∷ 64 ∷ []

abbrev pub max_frame_text : ℕ
max_frame_text = 1 + 8 + 1 + 2 * can_classic_mtu + 1

-- The value of a hexadecimal digit.
pub nibble_of : ℕ → Option ℕ
nibble_of digit =
    if leb 48 digit && leb digit 57
    then some (digit - 48)
    else if leb 65 digit && leb digit 70
    then some (digit - 65 + 10)
    else if leb 97 digit && leb digit 102
    then some (digit - 97 + 10)
    else none

-- The loop of `ParseHex`.
pub parse_digits : ℕ → List ℕ → Option ℕ
parse_digits value [] = some value
parse_digits value (digit ∷ digits) =
    bind (nibble_of digit) (λ nibble. parse_digits (bit_or (value * 2 ^ 4 % 2 ^ 32) nibble) digits)

pub parse_hex : List ℕ → Option ℕ
parse_hex digits = parse_digits 0 digits

abbrev pub failed : LineResult
failed = record { reply = error; frame = none; opens = none }

-- The loop of `ParseLine` over the data, from the byte `i` on with `left` bytes to go.
pub parse_data : List ℕ → (i left : ℕ) → List ℕ → Option (List ℕ)
parse_data line i zero payload = some payload
parse_data line i (suc left) payload =
    bind (parse_hex (take 2 (drop (10 + 2 * i) line)))
      (λ byte. parse_data line (i + 1) left (set payload i (byte % 2 ^ 8)))

pub with_data : (id size : ℕ) → Option (List ℕ) → LineResult
with_data id size none = failed
with_data id size (some payload) = record {
  reply = [];
  frame = some (record { extended_can_id = id; size = size; payload = payload });
  opens = none;
}

-- The rest of the frame case after its guards on the identifier and the DLC.
pub parse_payload : List ℕ → Option ℕ → Option ℕ → LineResult
parse_payload line none dlc = failed
parse_payload line (some id) none = failed
parse_payload line (some id) (some dlc) =
    let size = get_or dlc_to_length dlc 0 in
    if get_or line 0 0 == 84 && ltb 8 dlc || ltb (length line) (10 + 2 * size)
    then failed
    else with_data (id % 2 ^ 29) size (parse_data line 0 size (replicate can_fd_mtu 0))

pub parse_frame : List ℕ → LineResult
parse_frame line =
    if ltb (length line) 10
    then failed
    else parse_payload line (parse_hex (take 8 (drop 1 line))) (parse_hex (take 1 (drop 9 line)))

abbrev pub replied : List ℕ → Option Bool → LineResult
replied reply opens = record { reply = reply; frame = none; opens = opens }

pub parse_line : List ℕ → LineResult
parse_line [] = replied ok none
parse_line (command ∷ rest) =
    if command == 79 || command == 76
    then replied ok (some true)
    else if command == 67
    then replied ok (some false)
    else if command == 84 || command == 68 || command == 66
    then parse_frame (command ∷ rest)
    else if command == 116 || command == 114 || command == 82
    then replied [] none
    else replied ok none

abbrev pub hex_digit : ℕ → ℕ
hex_digit nibble = get_or hex nibble 0

-- The digits of the identifier, with `left` digits to go.
pub id_digits : (id left : ℕ) → List ℕ
id_digits id zero = []
id_digits id (suc left) = hex_digit (id / 2 ^ (4 * left) % 2 ^ 4) ∷ id_digits id left

pub data_digits : List ℕ → (i left : ℕ) → List ℕ
data_digits payload i zero = []
data_digits payload i (suc left) =
    let byte = get_or payload i 0 in
    hex_digit (byte / 2 ^ 4) ∷ hex_digit (byte % 2 ^ 4) ∷ data_digits payload (i + 1) left

-- `room` is the size of the span for the text.
pub format_frame : CanFrame → (room : ℕ) → List ℕ
format_frame frame room =
    let size = min frame.size can_classic_mtu in
    if ltb room max_frame_text
    then []
    else 84
      ∷ (id_digits frame.extended_can_id 8
          ++ (hex_digit size ∷ (data_digits frame.payload 0 size ++ (13 ∷ []))))
