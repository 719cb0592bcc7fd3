-- ===== src/Ebike/Kunteng/Status/Frame.antt =====
-- lib/ebike/src/kunteng_protocol.hpp, EncodeControllerFrame: what a display reads from the frame.
use unimoc.Prelude.{
  ℕ, zero, suc, ◌+◌, ◌*◌, ◌≡◌, ◌≢◌, ◌<◌, refl, sym, ap, ◌∙◌, bit_xor, bit_and, Bool, true, false,
  not, List, [], ◌∷◌, set, get_or, length, All, ◌==◌, if◌then◌else◌, inl, inr, Bool-cases, arith,
}
use unimoc.Prelude.Xor.{xor_comm, xor_assoc, xor_self, zero-xor, xor-lt_pow}
use unimoc.Units.{Float}
use unimoc.Ebike.Kunteng.{cast8, xor_from, xor_except}
use unimoc.Ebike.Kunteng.Status.{
  ControllerStatus, BatteryLevel, below_empty, empty, one_bar, two_bars, three_bars, four_bars,
  level_code, flag_bits, clamp_byte, current_byte, temperature_byte, period, open_frame,
  encode_controller_frame,
}

xor_byte : (a b : ℕ) → a < 256 → b < 256 → cast8 (bit_xor a b) ≡ bit_xor a b
xor_byte a b p q = omega (arith, xor-lt_pow 8 a b p q)

xor_swap : (a b c : ℕ) → bit_xor (bit_xor a b) c ≡ bit_xor (bit_xor a c) b
xor_swap a b c = xor_assoc a b c ∙ ap (bit_xor a) (xor_comm b c) ∙ sym (xor_assoc a c b)

xor_from-mixed :
    (skipped i sum x : ℕ) (frame : List ℕ)
    → sum < 256
    → x < 256
    → All (λ (b : ℕ). b < 256) frame
    → xor_from skipped i (bit_xor sum x) frame ≡ bit_xor (xor_from skipped i sum frame) x
unfolding xor_from
xor_from-mixed skipped i sum x [] p q bytes = refl
xor_from-mixed skipped i sum x (y ∷ frame) p q (r, bytes) = elim (Bool-cases (i == skipped)) [
  | inl e ↦ rw (e) (xor_from-mixed skipped (i + 1) sum x frame p q bytes)
  | inr e ↦
      let mixed = xor-lt_pow 8 sum x p q in
      let next = xor-lt_pow 8 sum y p r in
      rw (e, xor_byte (bit_xor sum x) y mixed r ∙ xor_swap sum x y, xor_byte sum y p r)
        (xor_from-mixed skipped (i + 1) (bit_xor sum y) x frame next q bytes)
]

-- Filling a zero byte mixes it into the sum.
xor_from-filled :
    (skipped i sum j x : ℕ) (frame : List ℕ)
    → sum < 256
    → x < 256
    → All (λ (b : ℕ). b < 256) frame
    → j < length frame
    → get_or frame j 0 ≡ 0
    → i + j ≢ skipped
    → xor_from skipped i sum (set frame j x) ≡ bit_xor (xor_from skipped i sum frame) x
unfolding xor_from
xor_from-filled skipped i sum j x [] p q bytes below blank other = absurd (omega arith)
xor_from-filled skipped i sum zero x (y ∷ frame) p q (r, bytes) below blank other =
    let apart : (i == skipped) ≡ false = ground arith in
    let nothing : cast8 (bit_xor sum 0) ≡ sum =
      xor_byte sum 0 p (omega arith) ∙ xor_comm sum 0 ∙ zero-xor sum in
    let left : xor_from skipped i sum (x ∷ frame) ≡ xor_from skipped (i + 1) (bit_xor sum x) frame =
      rw (apart, xor_byte sum x p q) refl in
    let right : xor_from skipped i sum (y ∷ frame) ≡ xor_from skipped (i + 1) sum frame =
      rw (apart, blank, nothing) refl in
    left ∙ xor_from-mixed skipped (i + 1) sum x frame p q bytes ∙ sym (ap (λ v. bit_xor v x) right)
xor_from-filled skipped i sum (suc j) x (y ∷ frame) p q (r, bytes) below blank other =
    let next = if i == skipped then sum else cast8 (bit_xor sum y) in
    let next_byte : next < 256 = ground arith in
    xor_from-filled skipped (i + 1) next j x frame next_byte q bytes (omega arith) blank
      (omega arith)

xor_from-byte :
    (skipped i sum : ℕ) (frame : List ℕ) → sum < 256 → xor_from skipped i sum frame < 256
unfolding xor_from
xor_from-byte skipped i sum [] p = p
xor_from-byte skipped i sum (y ∷ frame) p = elim (Bool-cases (i == skipped)) [
  | inl e ↦ rw (e) (xor_from-byte skipped (i + 1) sum frame p)
  | inr e ↦ rw (e) (xor_from-byte skipped (i + 1) (cast8 (bit_xor sum y)) frame (omega arith))
]

level_code-byte : (level : BatteryLevel) → level_code level < 256
unfolding level_code
level_code-byte below_empty = omega arith
level_code-byte empty = omega arith
level_code-byte one_bar = omega arith
level_code-byte two_bars = omega arith
level_code-byte three_bars = omega arith
level_code-byte four_bars = omega arith

-- The four flags of the mode byte, and that it is a byte.
flags_read :
    (t c p b : Bool)
    → let m = flag_bits t c p b in
      (m < 256)
      × (not (bit_and m 2 == 0) ≡ t)
      × (not (bit_and m 8 == 0) ≡ c)
      × (not (bit_and m 16 == 0) ≡ p)
      × (not (bit_and m 32 == 0) ≡ b)
unfolding flag_bits
flags_read true true true true = (omega arith, refl, refl, refl, refl)
flags_read true true true false = (omega arith, refl, refl, refl, refl)
flags_read true true false true = (omega arith, refl, refl, refl, refl)
flags_read true true false false = (omega arith, refl, refl, refl, refl)
flags_read true false true true = (omega arith, refl, refl, refl, refl)
flags_read true false true false = (omega arith, refl, refl, refl, refl)
flags_read true false false true = (omega arith, refl, refl, refl, refl)
flags_read true false false false = (omega arith, refl, refl, refl, refl)
flags_read false true true true = (omega arith, refl, refl, refl, refl)
flags_read false true true false = (omega arith, refl, refl, refl, refl)
flags_read false true false true = (omega arith, refl, refl, refl, refl)
flags_read false true false false = (omega arith, refl, refl, refl, refl)
flags_read false false true true = (omega arith, refl, refl, refl, refl)
flags_read false false true false = (omega arith, refl, refl, refl, refl)
flags_read false false false true = (omega arith, refl, refl, refl, refl)
flags_read false false false false = (omega arith, refl, refl, refl, refl)

module _ {F : Type 0} ⦃f : Float F⦄ where
  -- The C++ types of the status: these two fields are `uint8_t`.
  pub record IsStatus (s : ControllerStatus F) : Type 0 where
    pub voltage_byte : s.nominal_voltage < 256
    pub error_byte : s.error_code < 256

  open_frame-bytes : (s : ControllerStatus F) → IsStatus s → All (λ (b : ℕ). b < 256) (open_frame s)
  unfolding open_frame period current_byte temperature_byte clamp_byte
  open_frame-bytes s is =
      let tail : All (λ (b : ℕ). b < 256)
          (current_byte s.battery_current ∷ temperature_byte s.motor_temperature ∷ 0 ∷ 0 ∷ []) =
        (omega arith, (omega arith, (omega arith, (omega arith, tt)))) in
      let middle : All (λ (b : ℕ). b < 256)
          (s.error_code
            ∷ 0
            ∷ flag_bits s.throttle s.cruise s.pas s.brake
            ∷ current_byte s.battery_current
            ∷ temperature_byte s.motor_temperature
            ∷ 0
            ∷ 0
            ∷ []) =
        (is.error_byte, (omega arith, ((flags_read s.throttle s.cruise s.pas s.brake).0, tail))) in
      (
        omega arith,
        (level_code-byte s.battery_level, (is.voltage_byte, (omega arith, (omega arith, middle)))),
      )

  -- The status frame has 12 bytes, the first is 65, and the display's checksum holds: the bytes behind the first
  -- one cancel out. The display reads the wheel period in milliseconds from two bytes, the voltage, the error
  -- code, and the four flags of the mode byte as they were reported.
  pub controller_frame_lem :
      (s : ControllerStatus F)
      → IsStatus s
      → let frame = encode_controller_frame s in
        (length frame ≡ 12)
        × (get_or frame 0 0 ≡ 65)
        × (xor_except frame 0 ≡ 0)
        × (get_or frame 3 0 * 256 + get_or frame 4 0 ≡ period s.wheel_period)
        × (get_or frame 2 0 ≡ s.nominal_voltage)
        × (get_or frame 5 0 ≡ s.error_code)
        × (not (bit_and (get_or frame 7 0) 2 == 0) ≡ s.throttle)
        × (not (bit_and (get_or frame 7 0) 8 == 0) ≡ s.cruise)
        × (not (bit_and (get_or frame 7 0) 16 == 0) ≡ s.pas)
        × (not (bit_and (get_or frame 7 0) 32 == 0) ≡ s.brake)
  unfolding encode_controller_frame open_frame xor_except
  controller_frame_lem s is =
      let frame = open_frame s in
      let sum = xor_from 0 0 0 frame in
      let sum_byte = xor_from-byte 0 0 0 frame (omega arith) in
      let flags = flags_read s.throttle s.cruise s.pas s.brake in
      (
        refl,
        refl,
        xor_from-filled 0 0 0 6 sum frame (omega arith) sum_byte (open_frame-bytes s is)
              (omega arith) refl (omega arith)
            ∙ xor_self sum,
        omega arith,
        refl,
        refl,
        flags.1,
        flags.2,
        flags.3,
        flags.4,
      )
