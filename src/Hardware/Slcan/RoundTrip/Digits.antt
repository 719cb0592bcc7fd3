-- ===== src/Hardware/Slcan/RoundTrip/Digits.antt =====
-- ParseHex of SlcanMedia over the digits that FormatFrame writes.
use mathlib.Core.Option.{bind}
use native.Mathlib.Nat.{div-le_self, div-div-eq-div-mul, pow-suc}
use unimoc.Prelude.{
  ℕ, zero, suc, ◌+◌, ◌*◌, ◌/◌, ◌%◌, ◌^◌, ◌<◌, ◌≤◌, ◌≡◌, refl, sym, ap, ◌∙◌, some, List, [], ◌∷◌,
  arith,
}
use unimoc.Prelude.Or.{or-nibble}
use unimoc.Hardware.Slcan.{hex_digit, nibble_of, parse_digits, parse_hex, id_digits}

nibble-hex : (n : ℕ) → n < 16 → nibble_of (hex_digit n) ≡ some n
unfolding nibble_of
nibble-hex zero h = refl
nibble-hex (suc zero) h = refl
nibble-hex (suc (suc zero)) h = refl
nibble-hex (suc (suc (suc zero))) h = refl
nibble-hex (suc (suc (suc (suc zero)))) h = refl
nibble-hex (suc (suc (suc (suc (suc zero))))) h = refl
nibble-hex (suc (suc (suc (suc (suc (suc zero)))))) h = refl
nibble-hex (suc (suc (suc (suc (suc (suc (suc zero))))))) h = refl
nibble-hex (suc (suc (suc (suc (suc (suc (suc (suc zero)))))))) h = refl
nibble-hex (suc (suc (suc (suc (suc (suc (suc (suc (suc zero))))))))) h = refl
nibble-hex (suc (suc (suc (suc (suc (suc (suc (suc (suc (suc zero)))))))))) h = refl
nibble-hex (suc (suc (suc (suc (suc (suc (suc (suc (suc (suc (suc zero))))))))))) h = refl
nibble-hex (suc (suc (suc (suc (suc (suc (suc (suc (suc (suc (suc (suc zero)))))))))))) h = refl
nibble-hex (suc (suc (suc (suc (suc (suc (suc (suc (suc (suc (suc (suc (suc zero))))))))))))) h =
    refl
nibble-hex (suc (suc (suc (suc (suc (suc (suc (suc (suc (suc (suc (suc (suc (suc zero))))))))))))))
      h =
    refl
nibble-hex
      (suc (suc (suc (suc (suc (suc (suc (suc (suc (suc (suc (suc (suc (suc (suc zero)))))))))))))))
      h =
    refl
nibble-hex
      (suc
        (suc (suc (suc (suc (suc (suc (suc (suc (suc (suc (suc (suc (suc (suc (suc n))))))))))))))))
      h =
    absurd (omega arith)

-- A digit shifts the value and takes the lowest four bits.
parse_digits-hex :
    (v n : ℕ) (digits : List ℕ)
    → v < 2 ^ 28
    → n < 16
    → parse_digits v (hex_digit n ∷ digits) ≡ parse_digits (v * 16 + n) digits
unfolding parse_digits bind
parse_digits-hex v n digits small h =
    let kept : v * 2 ^ 4 % 2 ^ 32 ≡ v * 16 = omega arith in
    rw (nibble-hex n h, kept, or-nibble v n h) refl

pow_digit : (left : ℕ) → 2 ^ (4 * suc left) ≡ 2 ^ (4 * left) * 16
pow_digit left =
    let m = 4 * left in
    let next : 4 * suc left ≡ suc (suc (suc (suc m))) = omega arith in
    ap (λ n. 2 ^ n) next
    ∙ omega (
      arith,
      pow-suc 2 (suc (suc (suc m))),
      pow-suc 2 (suc (suc m)),
      pow-suc 2 (suc m),
      pow-suc 2 m,
    )

pub parse_digits-id :
    (id left : ℕ) → id < 2 ^ 32 → parse_digits (id / 2 ^ (4 * left)) (id_digits id left) ≡ some id
unfolding id_digits parse_digits
parse_digits-id id zero h = ap some (omega arith)
parse_digits-id id (suc left) h =
    let x = id / 2 ^ (4 * left) in
    let shifted : id / 2 ^ (4 * suc left) ≡ x / 16 =
      ap (λ d. id / d) (pow_digit left) ∙ sym (div-div-eq-div-mul id (2 ^ (4 * left)) 16) in
    let below : x ≤ id = div-le_self id (2 ^ (4 * left)) in
    let whole : x / 16 * 16 + x % 16 ≡ x = omega arith in
    rw shifted (
      parse_digits-hex (x / 16) (x % 16) (id_digits id left) (omega arith) (omega arith)
      ∙ ap (λ v. parse_digits v (id_digits id left)) whole
      ∙ parse_digits-id id left h)

pub parse_hex-nibble : (n : ℕ) → n < 16 → parse_hex (hex_digit n ∷ []) ≡ some n
unfolding parse_hex parse_digits
parse_hex-nibble n h = parse_digits-hex 0 n [] (omega arith) h ∙ ap some (omega arith)

pub parse_hex-byte :
    (byte : ℕ)
    → byte < 256
    → parse_hex (hex_digit (byte / 2 ^ 4) ∷ hex_digit (byte % 2 ^ 4) ∷ []) ≡ some byte
unfolding parse_hex parse_digits
parse_hex-byte byte h =
    let high = byte / 2 ^ 4 in
    let low = byte % 2 ^ 4 in
    let whole : (0 * 16 + high) * 16 + low ≡ byte = omega arith in
    parse_digits-hex 0 high (hex_digit low ∷ []) (omega arith) (omega arith)
    ∙ parse_digits-hex (0 * 16 + high) low [] (omega arith) (omega arith)
    ∙ ap some whole
