-- ===== src/Units/Integers.antt =====
-- Integers in place of floats: an instance at which the definitions run and the laws hold.
use unimoc.Prelude.{zero, suc, ◌+◌, ◌/◌, ◌^◌, ◌≡◌, refl, true, ◌&&◌, arith}
use unimoc.Prelude.Int.{ℤ, pos, negsuc, pos_part, neg_part, sub_ℕ, ◌+ℤ◌, ◌-ℤ◌, ◌*ℤ◌, ltb_ℤ, leb_ℤ}
use unimoc.Units.{Float}
use unimoc.Units.Laws.{◌≼◌, IsOrdered, IsRounded}

abbrev quotient : ℤ → ℤ → ℤ
quotient a b =
    sub_ℕ (pos_part a / (pos_part b + neg_part b)) (neg_part a / (pos_part b + neg_part b))

instance abbrev pub integers : Float ℤ
integers = record {
  decimal = λ m k. pos (m / 10 ^ k);
  of_ℕ = pos;
  to_ℕ = pos_part;
  add = ◌+ℤ◌;
  sub = ◌-ℤ◌;
  mul = ◌*ℤ◌;
  div = quotient;
  neg = λ a. pos 0 -ℤ a;
  exp = λ a. pos (2 ^ pos_part a);
  lt = ltb_ℤ;
  le = leb_ℤ;
  eq = λ a b. leb_ℤ a b && leb_ℤ b a;
  is_finite = λ _. true;
}

pub integers-IsOrdered : IsOrdered ℤ
integers-IsOrdered = record {
  refl_of_finite = λ x h. ground arith;
  refl_of_le = λ x y h. ground arith;
  le_trans = λ x y z p q. ground arith;
  le_total = λ x y p q. ground arith;
  lt-eq-not-le = λ x y p q. ground arith;
  lt_of_le_of_lt = λ x y z p q. ground arith;
  nought-le-one = refl;
}

-- Only 0 and 1 lie between 0 and 1.
scale :
    (a x : ℤ) → true ≡ true → pos 0 ≼ a → pos 0 ≼ x → x ≼ pos 1 → (pos 0 ≼ a *ℤ x) × (a *ℤ x ≼ a)
scale (negsuc n) x h p q r = absurd (ground arith)
scale a (negsuc n) h p q r = absurd (ground arith)
scale (pos n) (pos zero) h p q r = ground arith
scale (pos n) (pos (suc zero)) h p q r = ground arith
scale (pos n) (pos (suc (suc k))) h p q r = absurd (ground arith)

quotient_nonneg :
    (a b : ℤ) → true ≡ true → pos 0 ≼ a → ltb_ℤ (pos 0) b ≡ true → pos 0 ≼ quotient a b
quotient_nonneg a b h p q = ground arith

mul_nonneg : (a b : ℤ) → a *ℤ b ≼ a *ℤ b → pos 0 ≼ a → pos 0 ≼ b → pos 0 ≼ a *ℤ b
mul_nonneg (pos m) (pos n) p q r = ground arith
mul_nonneg (negsuc m) b p q r = absurd (ground arith)
mul_nonneg (pos m) (negsuc n) p q r = absurd (ground arith)

mul_pos : (a b : ℤ) → pos 0 ≼ a → ltb_ℤ (pos 0) (a *ℤ b) ≡ true → ltb_ℤ (pos 0) a ≡ true
mul_pos (pos zero) b p q = ground arith
mul_pos (pos (suc m)) b p q = ground arith
mul_pos (negsuc m) b p q = absurd (ground arith)

pub integers-IsRounded : IsRounded ℤ
integers-IsRounded = record {
  neg_mono = λ x y h. ground arith;
  neg-nought = (refl, refl);
  scale = scale;
  div_nonneg = quotient_nonneg;
  neg-finite = λ x. refl;
  exp_nonneg = λ x h. ground arith;
  finite-between = λ x y z p q r s. refl;
  finite-nought = refl;
  le-add = λ t s p q. ground arith;
  sub-le = λ t s p q. ground arith;
  factors = λ a b p. (ground arith, ground arith);
  mul_nonneg = mul_nonneg;
  mul_pos = mul_pos;
}
