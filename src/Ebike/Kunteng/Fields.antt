-- ===== src/Ebike/Kunteng/Fields.antt =====
-- The bytes of the display request: each field survives its byte. Checked over all values of the bytes.
use unimoc.Prelude.{
  ℕ, ◌+◌, ◌*◌, ◌/◌, ◌%◌, ◌^◌, ◌≤◌, ◌<◌, ◌≡◌, refl, ◌∙◌, ap, Bool, true, false, not, ◌&&◌, ◌||◌,
  bit_and, bit_or, arith, ltb, ◌==◌, ==_iff, if◌then◌else◌,
}
use unimoc.Prelude.Bits.{every, every_lem}
use unimoc.Ebike.Kunteng.{
  cast8, has_speed_bit, speed_field, level_byte, speed_byte, mode_byte, current_byte,
}

-- A number that counts as a test.
abbrev flag : ℕ → Bool
flag n = not (n == 0)

abbrev same : Bool → Bool → Bool
same true b = b
same false b = not b

both : {a b : Bool} → (a && b) ≡ true → (a ≡ true) × (b ≡ true)
both {a} {b} h = ground arith

eq_of_same : (a b : Bool) → same a b ≡ true → a ≡ b
eq_of_same a b h = ground arith

level_table :
    (light : Bool)
    → every 256 (λ l.
      let b = level_byte l light in bit_and b 7 == l % 8 && same (flag (bit_and b 0x80)) light)
      ≡ true
unfolding every level_byte
level_table true = refl
level_table false = refl

pub level_byte_fields :
    (l : ℕ) (light : Bool)
    → l < 256
    → let b = level_byte l light in (bit_and b 7 ≡ l % 8) × (not (bit_and b 0x80 == 0) ≡ light)
level_byte_fields l light h =
    let (p, q) = both (every_lem 256 _ l h (level_table light)) in
    ((==_iff _ _).0 p, eq_of_same _ _ q)

speed_table :
    every 32 (λ f.
      every 256
        (λ w. let b = speed_byte w f in bit_and b 7 == w / 4 % 8 && bit_and b 0xf8 / 2 ^ 3 == f))
    ≡ true
unfolding every speed_byte
speed_table = refl

pub speed_byte_fields :
    (w f : ℕ)
    → w < 256
    → f < 32
    → let b = speed_byte w f in (bit_and b 7 ≡ w / 4 % 8) × (bit_and b 0xf8 / 2 ^ 3 ≡ f)
speed_byte_fields w f hw hf =
    let (p, q) = both (every_lem 256 _ w hw (every_lem 32 _ f hf speed_table)) in
    ((==_iff _ _).0 p, (==_iff _ _).0 q)

low_table : every 256 (λ w. bit_and w 3 == w % 4 && bit_and w 0x0f == w % 16) ≡ true
unfolding every
low_table = refl

low_bits : (w : ℕ) → w < 256 → (bit_and w 3 ≡ w % 4) × (bit_and w 0x0f ≡ w % 16)
low_bits w h =
    let (p, q) = both (every_lem 256 _ w h low_table) in ((==_iff _ _).0 p, (==_iff _ _).0 q)

mode_table :
    (fast assist : Bool)
    → every 256 (λ old. every 4 (λ w.
      let b = mode_byte old w fast assist in
      (bit_and b 0xc0 / 2 ^ 6 == w && bit_and b 0x20 == (if fast then 0x20 else 0))
      && same (flag (bit_and b 0x08)) assist))
      ≡ true
unfolding every mode_byte
mode_table true true = refl
mode_table true false = refl
mode_table false true = refl
mode_table false false = refl

-- The byte takes only the two low bits of the wheel size.
mode_byte-mod :
    (old w : ℕ) (fast assist : Bool)
    → w < 256
    → mode_byte old w fast assist ≡ mode_byte old (w % 4) fast assist
unfolding mode_byte
mode_byte-mod old w fast assist h =
    ap
      (λ x. cast8 (
        bit_or (bit_or (bit_or (bit_and old 0x17) (x * 2 ^ 6)) (if fast then 0x20 else 0))
          (if assist then 0x08 else 0)))
      (omega (arith, low_bits w h, low_bits (w % 4) (omega arith)))

pub mode_byte_fields :
    (old w : ℕ) (fast assist : Bool)
    → old < 256
    → w < 256
    → let b = mode_byte old w fast assist in
      (bit_and b 0xc0 / 2 ^ 6 ≡ w % 4)
      × (bit_and b 0x20 ≡ (if fast then 0x20 else 0))
      × (not (bit_and b 0x08 == 0) ≡ assist)
mode_byte_fields old w fast assist ho hw =
    let (pq, r) =
      both
        (every_lem 4 _ (w % 4) (omega arith) (every_lem 256 _ old ho (mode_table fast assist))) in
    let (p, q) = both pq in
    rw (mode_byte-mod old w fast assist hw) ((==_iff _ _).0 p, (==_iff _ _).0 q, eq_of_same _ _ r)

current_table : every 256 (λ old. every 16 (λ c. bit_and (current_byte old c) 0x0f == c)) ≡ true
unfolding every current_byte
current_table = refl

pub current_byte_field :
    (old c : ℕ) → old < 256 → c < 256 → bit_and (current_byte old c) 0x0f ≡ c % 16
unfolding current_byte
current_byte_field old c ho hc =
    let low = low_bits c hc in
    let low' = low_bits (c % 16) (omega arith) in
    let fold : bit_and c 0x0f ≡ bit_and (c % 16) 0x0f = omega (arith, low, low') in
    let table = every_lem 16 _ (c % 16) (omega arith) (every_lem 256 _ old ho current_table) in
    ap (λ x. bit_and (cast8 (bit_or (bit_and old 0xf0) x)) 0x0f) fold
    ∙ (==_iff (bit_and (current_byte old (c % 16)) 0x0f) _).0 table

speed_sum_table :
    every 64 (λ s.
      ltb s 10
      || (ltb (speed_field s) 32
          && cast8 (bit_or (10 + speed_field s) (if has_speed_bit s then 0x20 else 0)) == s))
    ≡ true
unfolding every speed_field
speed_sum_table = refl

pub speed_field_lem :
    (s : ℕ)
    → 10 ≤ s
    → s < 64
    → (speed_field s < 32)
      × (cast8 (bit_or (10 + speed_field s) (if has_speed_bit s then 0x20 else 0)) ≡ s)
speed_field_lem s low high = let t = every_lem 64 _ s high speed_sum_table in ground arith

wheel_table : every 256 (λ w. cast8 (bit_or (w % 4) (w / 4 % 8 * 2 ^ 2)) == w % 32) ≡ true
unfolding every
wheel_table = refl

pub wheel_lem : (w : ℕ) → w < 256 → cast8 (bit_or (w % 4) (w / 4 % 8 * 2 ^ 2)) ≡ w % 32
wheel_lem w h = (==_iff _ _).0 (every_lem 256 _ w h wheel_table)
