-- ===== src/Prelude/Or.antt =====
-- Inclusive or: the law for the lowest digit, and numbers whose digits do not meet.
use Prim.Native.Nat.{
  ℕ, zero, suc, ◌+◌, ◌*◌, ◌/◌, ◌%◌, ◌≤◌, ◌<◌, max, bit_or, digits, bit_or-bitwise,
}
use mathlib.Core.Path.{◌≡◌, refl}
use native.Mathlib.Omega.{arith}

-- The digit recursion of the native operation; more digits to go than `a` has change nothing.
abbrev counted : (count a b : ℕ) → ℕ
counted = digits (λ rest. rest) max

counted-zero : (count b : ℕ) → counted count zero b ≡ b
counted-zero zero b = refl
counted-zero (suc count) b = refl

counted_agree : (n m a b : ℕ) → a ≤ n → a ≤ m → counted n a b ≡ counted m a b
counted_agree n m zero b below also = omega (arith, counted-zero n b, counted-zero m b)
counted_agree (suc n) (suc m) (suc a) b below also =
    omega (arith, counted_agree n m (suc a / 2) (b / 2) (omega arith) (omega arith))
counted_agree zero m (suc a) b below also = absurd (omega arith)
counted_agree (suc n) zero (suc a) b below also = absurd (omega arith)

or_step : (a b : ℕ) → bit_or a b ≡ bit_or (a / 2) (b / 2) * 2 + max (a % 2) (b % 2)
or_step zero b = omega (arith, bit_or-bitwise zero b, bit_or-bitwise zero (b / 2))
or_step (suc a) b = omega (
  arith,
  bit_or-bitwise (suc a) b,
  bit_or-bitwise (suc a / 2) (b / 2),
  counted_agree a (suc a / 2) (suc a / 2) (b / 2) (omega arith) (omega arith),
)

or-zero_fuel : (n a : ℕ) → a ≤ n → bit_or a 0 ≡ a
or-zero_fuel zero zero h = bit_or-bitwise 0 0
or-zero_fuel zero (suc a) h = absurd (omega arith)
or-zero_fuel (suc n) a h = omega (arith, or_step a 0, or-zero_fuel n (a / 2) (omega arith))

or_double : (a b : ℕ) → bit_or (a * 2) b ≡ bit_or a (b / 2) * 2 + b % 2
or_double a b =
    let half : a * 2 / 2 ≡ a = omega arith in
    let step = rw half at (or_step (a * 2) b) in omega (arith, step)

-- A nibble below the digits of a shifted number.
pub or-nibble : (a b : ℕ) → b < 16 → bit_or (a * 16) b ≡ a * 16 + b
or-nibble a b h =
    let shifted : a * 16 ≡ a * 2 * 2 * 2 * 2 = omega arith in
    let empty : b / 2 / 2 / 2 / 2 ≡ 0 = omega arith in
    let top = rw empty at (or_double a (b / 2 / 2 / 2)) in
    rw shifted (
      omega (
        arith,
        or_double (a * 2 * 2 * 2) b,
        or_double (a * 2 * 2) (b / 2),
        or_double (a * 2) (b / 2 / 2),
        top,
        or-zero_fuel a a (omega arith),
      ))
