-- ===== src/Prelude/Xor.antt =====
-- Exclusive or at every width: the law for the lowest digit, and the group laws that follow from it.
use Prim.Native.Nat.{
  ℕ, zero, suc, ◌+◌, ◌*◌, ◌/◌, ◌%◌, ◌^◌, ◌≤◌, ◌<◌, bit_xor, digits, differ, bit_xor-bitwise,
}
use mathlib.Core.Path.{◌≡◌, refl, sym, ◌∙◌, ap}
use native.Mathlib.Nat.{pow-suc}
use native.Mathlib.Omega.{arith}

-- The digit recursion of the native operation; more digits to go than `a` has change nothing.
abbrev counted : (count a b : ℕ) → ℕ
counted = digits (λ rest. rest) differ

counted-zero : (count b : ℕ) → counted count zero b ≡ b
counted-zero zero b = refl
counted-zero (suc count) b = refl

counted_agree : (n m a b : ℕ) → a ≤ n → a ≤ m → counted n a b ≡ counted m a b
counted_agree n m zero b below also = counted-zero n b ∙ sym (counted-zero m b)
counted_agree (suc n) (suc m) (suc a) b below also =
    omega (arith, counted_agree n m (suc a / 2) (b / 2) (omega arith) (omega arith))
counted_agree zero m (suc a) b below also = absurd (omega arith)
counted_agree (suc n) zero (suc a) b below also = absurd (omega arith)

differ_digits : (x y : ℕ) → x < 2 → y < 2 → differ x y ≡ (x + y) % 2
differ_digits zero zero p q = refl
differ_digits zero (suc zero) p q = refl
differ_digits zero (suc (suc y)) p q = absurd (omega arith)
differ_digits (suc zero) zero p q = refl
differ_digits (suc zero) (suc zero) p q = refl
differ_digits (suc zero) (suc (suc y)) p q = absurd (omega arith)
differ_digits (suc (suc x)) y p q = absurd (omega arith)

pub zero-xor : (b : ℕ) → bit_xor 0 b ≡ b
zero-xor b = bit_xor-bitwise 0 b

xor_step : (a b : ℕ) → bit_xor a b ≡ bit_xor (a / 2) (b / 2) * 2 + (a + b) % 2
xor_step zero b = omega (arith, zero-xor b, zero-xor (b / 2))
xor_step (suc a) b = omega (
  arith,
  bit_xor-bitwise (suc a) b,
  bit_xor-bitwise (suc a / 2) (b / 2),
  counted_agree a (suc a / 2) (suc a / 2) (b / 2) (omega arith) (omega arith),
  differ_digits (suc a % 2) (b % 2) (omega arith) (omega arith),
)

xor_half : (a b : ℕ) → bit_xor a b / 2 ≡ bit_xor (a / 2) (b / 2)
xor_half a b = omega (arith, xor_step a b)

xor_parity : (a b : ℕ) → bit_xor a b % 2 ≡ (a + b) % 2
xor_parity a b = omega (arith, xor_step a b)

comm_fuel : (n a b : ℕ) → a + b ≤ n → bit_xor a b ≡ bit_xor b a
comm_fuel zero a b h = let p : a ≡ 0 = omega arith in let q : b ≡ 0 = omega arith in rw (p, q)
comm_fuel (suc n) a b h =
    omega (arith, xor_step a b, xor_step b a, comm_fuel n (a / 2) (b / 2) (omega arith))

pub xor_comm : (a b : ℕ) → bit_xor a b ≡ bit_xor b a
xor_comm a b = comm_fuel (a + b) a b (omega arith)

assoc_fuel : (n a b c : ℕ) → a + b + c ≤ n → bit_xor (bit_xor a b) c ≡ bit_xor a (bit_xor b c)
assoc_fuel zero a b c h =
    let p : a ≡ 0 = omega arith in
    let q : b ≡ 0 = omega arith in let r : c ≡ 0 = omega arith in rw (p, q, r)
assoc_fuel (suc n) a b c h =
    let left = rw (xor_half a b) at (xor_step (bit_xor a b) c) in
    let right = rw (xor_half b c) at (xor_step a (bit_xor b c)) in
    omega (
      arith,
      left,
      right,
      xor_parity a b,
      xor_parity b c,
      assoc_fuel n (a / 2) (b / 2) (c / 2) (omega arith),
    )

pub xor_assoc : (a b c : ℕ) → bit_xor (bit_xor a b) c ≡ bit_xor a (bit_xor b c)
xor_assoc a b c = assoc_fuel (a + b + c) a b c (omega arith)

self_fuel : (n a : ℕ) → a ≤ n → bit_xor a a ≡ 0
self_fuel zero zero h = refl
self_fuel zero (suc a) h = absurd (omega arith)
self_fuel (suc n) a h = omega (arith, xor_step a a, self_fuel n (a / 2) (omega arith))

pub xor_self : (a : ℕ) → bit_xor a a ≡ 0
xor_self a = self_fuel a a (omega arith)

-- The same term twice cancels.
pub xor_cancel : (a b : ℕ) → bit_xor a (bit_xor a b) ≡ b
xor_cancel a b = sym (xor_assoc a a b) ∙ ap (λ x. bit_xor x b) (xor_self a) ∙ zero-xor b

pub xor-lt_pow : (k a b : ℕ) → a < 2 ^ k → b < 2 ^ k → bit_xor a b < 2 ^ k
xor-lt_pow zero a b p q =
    let p' : a ≡ 0 = omega arith in let q' : b ≡ 0 = omega arith in rw (p', q') (omega arith)
xor-lt_pow (suc k) a b p q =
    let double = pow-suc 2 k in
    omega (arith, xor_step a b, xor-lt_pow k (a / 2) (b / 2) (omega arith) (omega arith))
