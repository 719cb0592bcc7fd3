-- ===== src/Cyphal/Node/PortList/MaskBits.antt =====
-- lib/cyphal/node.cpp, WriteServiceList: the bits of a byte of the mask.
use unimoc.Prelude.{
  ℕ, ◌+◌, ◌*◌, ◌/◌, ◌%◌, ◌^◌, ◌≡◌, ◌<◌, refl, ◌∙◌, bit_or, Bool, true, false, ◌&&◌, List, [], ◌∷◌,
  ltb, ◌==◌, ==_iff, if◌then◌else◌, inl, inr, Bool-cases, arith,
}
use unimoc.Prelude.Bits.{every, every_lem}
use unimoc.Cyphal.Node.Setup.{contains}
use unimoc.Cyphal.Node.PortList.{mask_byte}

-- The bit of a service in its byte of a mask.
unfoldable pub bit_of : ℕ → ℕ → ℕ
bit_of byte bit = byte / 2 ^ bit % 2

set_bit_checked :
    every 256 (λ x. every 8 (λ k. every 8 (λ j.
      (bit_of (bit_or x (2 ^ k) % 2 ^ 8) j == (if k == j then 1 else bit_of x j))
      && ltb (bit_or x (2 ^ k) % 2 ^ 8) 256)))
    ≡ true
unfolding every bit_of
set_bit_checked = refl

set_bit_lem :
    (x k j : ℕ)
    → x < 256
    → k < 8
    → j < 8
    → (bit_of (bit_or x (2 ^ k) % 2 ^ 8) j ≡ (if k == j then 1 else bit_of x j))
      × (bit_or x (2 ^ k) % 2 ^ 8 < 256)
set_bit_lem x k j x_below k_below j_below =
    let one_bit =
      every_lem 8
        (λ j'.
          (bit_of (bit_or x (2 ^ k) % 2 ^ 8) j' == (if k == j' then 1 else bit_of x j'))
          && ltb (bit_or x (2 ^ k) % 2 ^ 8) 256)
        j j_below
        (every_lem 8
          (λ k'. every 8 (λ j'.
            (bit_of (bit_or x (2 ^ k') % 2 ^ 8) j' == (if k' == j' then 1 else bit_of x j'))
            && ltb (bit_or x (2 ^ k') % 2 ^ 8) 256))
          k k_below
          (every_lem 256
            (λ x'. every 8 (λ k'. every 8 (λ j'.
              (bit_of (bit_or x' (2 ^ k') % 2 ^ 8) j' == (if k' == j' then 1 else bit_of x' j'))
              && ltb (bit_or x' (2 ^ k') % 2 ^ 8) 256)))
            x x_below set_bit_checked)) in
    (ground (arith, one_bit), ground (arith, one_bit))

pub mask_byte-bit :
    (services : List ℕ) (index bits bit : ℕ)
    → bits < 256
    → bit < 8
    → bit_of (mask_byte services index bits) bit
      ≡ (if contains (8 * index + bit) services then 1 else bit_of bits bit)
unfolding mask_byte contains
mask_byte-bit [] index bits bit below bit_below = refl
mask_byte-bit (s ∷ services) index bits bit below bit_below =
    let set = set_bit_lem bits (s % 8) bit below (omega arith) bit_below in
    elim (Bool-cases (s / 8 == index)) [
      | inr p ↦
          let other : (s == 8 * index + bit) ≡ false = ground arith in
          rw (p, other) (mask_byte-bit services index bits bit below bit_below)
      | inl p ↦
          let later =
            mask_byte-bit services index (bit_or bits (2 ^ (s % 8)) % 2 ^ 8) bit (set.1)
              bit_below in
          rw (p) (elim (Bool-cases (s == 8 * index + bit)) [
            | inl q ↦
                let same : (s % 8 == bit) ≡ true = ground arith in
                rw (q) (later ∙ rw (set.0, same) (if-same (contains (8 * index + bit) services) 1))
            | inr q ↦
                let differ : (s % 8 == bit) ≡ false = ground arith in
                rw (q) (later ∙ rw (set.0, differ) refl)
          ])
    ]
  where
    if-same : (b : Bool) (x : ℕ) → (if b then x else x) ≡ x
    if-same true x = refl
    if-same false x = refl

no_bit_checked : every 8 (λ k. bit_of 0 k == 0) ≡ true
unfolding every bit_of
no_bit_checked = refl

pub bit_of-zero : (k : ℕ) → k < 8 → bit_of 0 k ≡ 0
bit_of-zero k below =
    (==_iff (bit_of 0 k) 0).0 (every_lem 8 (λ k'. bit_of 0 k' == 0) k below no_bit_checked)
