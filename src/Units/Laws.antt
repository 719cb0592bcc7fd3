-- ===== src/Units/Laws.antt =====
-- What the proofs use of floating point arithmetic: the order of the numbers, and rounding that keeps it.
use unimoc.Prelude.{◌≡◌, ◌⊎◌, true, false, not, arith}
use unimoc.Units.{
  Float, ◌⊞◌, ◌⊟◌, ◌⊠◌, ◌⊘◌, ◌≺◌, ◌⪯◌, neg, nought, one, abs_unit, min_unit, max_unit, clamp_unit,
  std_clamp,
}

infix 4 ◌≼◌
abbrev pub ◌≼◌ : {F : Type 0} ⦃f : Float F⦄ → F → F → Type 0
a ≼ b = (a ⪯ b) ≡ true

-- A value that is `<=` itself is a number; NaN is not.
pub record IsOrdered (F : Type 0) ⦃f : Float F⦄ : Type 0 where
  pub refl_of_finite : (x : F) → f.is_finite x ≡ true → x ≼ x
  pub refl_of_le : (x y : F) → x ≼ y → (x ≼ x) × (y ≼ y)
  pub le_trans : (x y z : F) → x ≼ y → y ≼ z → x ≼ z
  pub le_total : (x y : F) → x ≼ x → y ≼ y → (x ≼ y) ⊎ (y ≼ x)
  pub lt-eq-not-le : (x y : F) → x ≼ x → y ≼ y → (x ≺ y) ≡ not (y ⪯ x)
  pub lt_of_le_of_lt : (x y z : F) → x ≼ y → (y ≺ z) ≡ true → (x ≺ z) ≡ true
  pub nought-le-one : ◌≼◌ {F = F} nought one

pub record IsRounded (F : Type 0) ⦃f : Float F⦄ : Type 0 where
  pub neg_mono : (x y : F) → x ≼ y → neg y ≼ neg x
  pub neg-nought : ◌≼◌ {F = F} (neg nought) nought × ◌≼◌ {F = F} nought (neg nought)
  -- A factor between 0 and 1 does not enlarge a finite value.
  pub scale :
      (a x : F)
      → f.is_finite a ≡ true
      → nought ≼ a
      → nought ≼ x
      → x ≼ one
      → (nought ≼ a ⊠ x) × (a ⊠ x ≼ a)
  pub div_nonneg :
      (a b : F) → f.is_finite a ≡ true → nought ≼ a → (nought ≺ b) ≡ true → nought ≼ a ⊘ b
  pub exp_nonneg : (x : F) → f.exp x ≼ f.exp x → nought ≼ f.exp x
  pub neg-finite : (x : F) → f.is_finite (neg x) ≡ f.is_finite x
  pub finite-between :
      (x y z : F)
      → f.is_finite x ≡ true
      → f.is_finite z ≡ true
      → x ≼ y
      → y ≼ z
      → f.is_finite y ≡ true
  pub finite-nought : f.is_finite nought ≡ true
  pub le-add : (t s : F) → f.is_finite t ≡ true → nought ≼ s → t ≼ t ⊞ s
  pub sub-le : (t s : F) → f.is_finite t ≡ true → nought ≼ s → t ⊟ s ≼ t
  -- A product that is a number has factors that are, and the sign of its factors.
  pub factors : (a b : F) → a ⊠ b ≼ a ⊠ b → (a ≼ a) × (b ≼ b)
  pub mul_nonneg : (a b : F) → a ⊠ b ≼ a ⊠ b → nought ≼ a → nought ≼ b → nought ≼ a ⊠ b
  pub mul_pos : (a b : F) → nought ≼ a → (nought ≺ a ⊠ b) ≡ true → (nought ≺ a) ≡ true

module _ {F : Type 0} ⦃f : Float F⦄ (laws : IsOrdered F) where
  open laws use {refl_of_le, le_trans, le_total, lt-eq-not-le, nought-le-one}

  pub max_unit_bounds :
      (a b : F)
      → a ≼ a
      → b ≼ b
      → (a ≼ max_unit a b) × (b ≼ max_unit a b) × (max_unit a b ≼ max_unit a b)
  unfolding max_unit
  max_unit_bounds a b p q = ground (arith, lt-eq-not-le a b, le_total a b)

  pub min_unit_bounds :
      (a b : F)
      → a ≼ a
      → b ≼ b
      → (min_unit a b ≼ a) × (min_unit a b ≼ b) × (min_unit a b ≼ min_unit a b)
  unfolding min_unit
  min_unit_bounds a b p q = ground (arith, lt-eq-not-le b a, le_total b a)

  pub le-min_unit : (c a b : F) → c ≼ a → c ≼ b → c ≼ min_unit a b
  unfolding min_unit
  le-min_unit c a b p q = ground arith

  -- A clamped number lies between the limits.
  pub clamp_unit_bounds :
      (x low high : F)
      → x ≼ x
      → low ≼ high
      → (low ≼ clamp_unit x low high) × (clamp_unit x low high ≼ high)
  unfolding clamp_unit
  clamp_unit_bounds x low high p h =
      let (low_refl, high_refl) = refl_of_le low high h in
      let (_, above, top) = max_unit_bounds x low p low_refl in
      (
        le-min_unit low (max_unit x low) high above h,
        (min_unit_bounds (max_unit x low) high top high_refl).1,
      )

  -- A minimum and a maximum of values between two limits lie between them.
  pub min_unit-between :
      (a b low high : F)
      → low ≼ a
      → a ≼ high
      → low ≼ b
      → (low ≼ min_unit a b) × (min_unit a b ≼ high)
  min_unit-between a b low high p q r =
      let (_, a_refl) = refl_of_le low a p in
      let (_, b_refl) = refl_of_le low b r in
      (le-min_unit low a b p r, le_trans _ _ _ (min_unit_bounds a b a_refl b_refl).0 q)

  pub max_unit-between :
      (a b low high : F)
      → low ≼ a
      → a ≼ high
      → low ≼ b
      → b ≼ high
      → (low ≼ max_unit a b) × (max_unit a b ≼ high)
  unfolding max_unit
  max_unit-between a b low high p q r s = ground arith

  pub max_unit-le : (a b c : F) → a ≼ c → b ≼ c → max_unit a b ≼ c
  unfolding max_unit
  max_unit-le a b c p q = ground arith

  pub le_of_lt : (a b : F) → a ≼ a → b ≼ b → (a ≺ b) ≡ true → a ≼ b
  le_of_lt a b p q h = ground (arith, lt-eq-not-le a b, le_total a b)

  pub le_of_not_lt : (a b : F) → a ≼ a → b ≼ b → (a ≺ b) ≡ false → b ≼ a
  le_of_not_lt a b p q h = ground (arith, lt-eq-not-le a b)

  -- A clamped value that is a number, NaN aside, lies between the limits.
  pub std_clamp_bounds :
      (x low high : F)
      → low ≼ high
      → std_clamp x low high ≼ std_clamp x low high
      → (low ≼ std_clamp x low high) × (std_clamp x low high ≼ high)
  unfolding std_clamp
  std_clamp_bounds x low high h n =
      let (low_refl, high_refl) = refl_of_le low high h in
      ground (arith, le_of_not_lt x low, le_of_not_lt high x)

  pub min_unit_nonneg :
      (a b : F)
      → (a ≼ a → nought ≼ a)
      → nought ≼ b
      → min_unit a b ≼ min_unit a b
      → nought ≼ min_unit a b
  unfolding min_unit
  min_unit_nonneg a b p q n = ground arith

module _ {F : Type 0} ⦃f : Float F⦄ (laws : IsOrdered F) (rounded : IsRounded F) where
  -- Of a finite value, that is.
  pub abs_unit_bounds :
      (x : F) → f.is_finite x ≡ true → (nought ≼ abs_unit x) × (f.is_finite (abs_unit x) ≡ true)
  unfolding abs_unit
  abs_unit_bounds x h =
      let x_refl = laws.refl_of_finite x h in
      let (zero_refl, _) = laws.refl_of_le nought one laws.nought-le-one in
      ground (
        arith,
        rounded.neg_mono x nought,
        le_of_lt laws x nought x_refl zero_refl,
        laws.le_trans nought (neg nought) (neg x) rounded.neg-nought.1,
        laws.lt-eq-not-le x nought x_refl zero_refl,
        laws.le_total x nought x_refl zero_refl,
        rounded.neg-finite x,
      )

  pub sub-le-add : (t s : F) → f.is_finite t ≡ true → nought ≼ s → t ⊟ s ≼ t ⊞ s
  sub-le-add t s p q = laws.le_trans _ _ _ (rounded.sub-le t s p q) (rounded.le-add t s p q)

  pub zero_refl : ◌≼◌ {F = F} nought nought
  zero_refl = (laws.refl_of_le nought one laws.nought-le-one).0

  pub one_refl : ◌≼◌ {F = F} one one
  one_refl = (laws.refl_of_le nought one laws.nought-le-one).1

  pub max_nought-finite : (x : F) → f.is_finite x ≡ true → f.is_finite (max_unit x nought) ≡ true
  unfolding max_unit
  max_nought-finite x h = ground (arith, rounded.finite-nought)
