-- ===== src/Prelude/Lists.antt =====
-- Lists measured and indexed by native numbers, under the library's names.
use Prim.Native.Nat.{ℕ, zero, suc, ◌+◌, ◌-◌, ◌<◌, min}
use mathlib.Core.Path.{◌≡◌, refl, sym, ap}
use mathlib.Core.Logic.{◌≢◌}
use mathlib.Core.Bool.{Bool, true, false, ◌&&◌}
use mathlib.Core.List.{List, [], ◌∷◌, ◌++◌}
use mathlib.Core.Option.{Option, none, some}
use native.Mathlib.Omega.{arith}
use unimoc.Prelude.Tests.{ltb, ◌==◌, if◌then◌else◌}

module _ {ℓ} {A : Type ℓ} where
  abbrev pub length : List A → ℕ
  length [] = 0
  length (x ∷ xs) = suc (length xs)

  abbrev pub get_elem? : List A → ℕ → Option A
  get_elem? [] i = none
  get_elem? (x ∷ xs) zero = some x
  get_elem? (x ∷ xs) (suc i) = get_elem? xs i

  abbrev pub get_or : List A → ℕ → A → A
  get_or [] i d = d
  get_or (x ∷ xs) zero d = x
  get_or (x ∷ xs) (suc i) d = get_or xs i d

  -- A write out of bounds changes nothing.
  abbrev pub set : List A → ℕ → A → List A
  set [] i v = []
  set (x ∷ xs) zero v = v ∷ xs
  set (x ∷ xs) (suc i) v = x ∷ set xs i v

  abbrev pub replicate : ℕ → A → List A
  replicate zero a = []
  replicate (suc n) a = a ∷ replicate n a

  abbrev pub take : ℕ → List A → List A
  take zero xs = []
  take (suc n) [] = []
  take (suc n) (x ∷ xs) = x ∷ take n xs

  abbrev pub drop : ℕ → List A → List A
  drop zero xs = xs
  drop (suc n) [] = []
  drop (suc n) (x ∷ xs) = drop n xs

  abbrev pub All {κ} : (A → Type κ) → List A → Type κ
  All P [] = Unit
  All P (x ∷ xs) = P x × All P xs

module _ {ℓ} {A : Type ℓ} where
  pub length-append : (xs ys : List A) → length (xs ++ ys) ≡ length xs + length ys
  length-append [] ys = omega arith
  length-append (x ∷ xs) ys = omega (arith, length-append xs ys)

  pub length-set : (xs : List A) (i : ℕ) (v : A) → length (set xs i v) ≡ length xs
  length-set [] i v = refl
  length-set (x ∷ xs) zero v = refl
  length-set (x ∷ xs) (suc i) v = ap suc (length-set xs i v)

  pub length-drop : (n : ℕ) (xs : List A) → length (drop n xs) ≡ length xs - n
  length-drop zero xs = omega arith
  length-drop (suc n) [] = omega arith
  length-drop (suc n) (x ∷ xs) = omega (arith, length-drop n xs)

  pub length-take : (n : ℕ) (xs : List A) → length (take n xs) ≡ min n (length xs)
  length-take zero xs = omega arith
  length-take (suc n) [] = omega arith
  length-take (suc n) (x ∷ xs) = omega (arith, length-take n xs)

  pub get_or-set_self :
      (xs : List A) (i : ℕ) (v d : A) → i < length xs → get_or (set xs i v) i d ≡ v
  get_or-set_self [] i v d h = elim h [ ]
  get_or-set_self (x ∷ xs) zero v d h = refl
  get_or-set_self (x ∷ xs) (suc i) v d h = get_or-set_self xs i v d (omega arith)

  pub get_or-set_ne :
      (xs : List A) (i j : ℕ) (v d : A) → i ≢ j → get_or (set xs i v) j d ≡ get_or xs j d
  get_or-set_ne [] i j v d h = refl
  get_or-set_ne (x ∷ xs) zero zero v d h = absurd (h refl)
  get_or-set_ne (x ∷ xs) zero (suc j) v d h = refl
  get_or-set_ne (x ∷ xs) (suc i) zero v d h = refl
  get_or-set_ne (x ∷ xs) (suc i) (suc j) v d h = get_or-set_ne xs i j v d (λ e. h (ap suc e))

  pub get_or-set :
      (xs : List A) (i : ℕ) (v : A) (j : ℕ) (d : A)
      → get_or (set xs i v) j d ≡ (if i == j && ltb i (length xs) then v else get_or xs j d)
  get_or-set [] i v j d = ground arith
  get_or-set (x ∷ xs) zero v zero d = ground arith
  get_or-set (x ∷ xs) zero v (suc j) d = ground arith
  get_or-set (x ∷ xs) (suc i) v zero d = ground arith
  get_or-set (x ∷ xs) (suc i) v (suc j) d = ground (arith, get_or-set xs i v j d)

  take-set :
      (done : ℕ) (xs value : List A) {word : A}
      → take done xs ≡ take done value
      → get_elem? value done ≡ some word
      → done < length xs
      → take (suc done) (set xs done word) ≡ take (suc done) value
  take-set done [] value h e l = absurd (omega arith)
  take-set done (x ∷ xs) [] h e l = cc
  take-set zero (x ∷ xs) (v ∷ vs) h e l = cc
  take-set (suc done) (x ∷ xs) (v ∷ vs) h e l =
      let tails : take done xs ≡ take done vs = cc in
      let heads : x ≡ v = cc in let rest = take-set done xs vs tails e (omega arith) in cc

  pub take_all : (xs : List A) (size : ℕ) → length xs ≡ size → take size xs ≡ xs
  take_all [] zero h = refl
  take_all [] (suc size) h = refl
  take_all (x ∷ xs) zero h = absurd (omega arith)
  take_all (x ∷ xs) (suc size) h = ap (◌∷◌ x) (take_all xs size (omega arith))

  pub get_elem?-lt :
      (value : List A) (i : ℕ) {word : A} → get_elem? value i ≡ some word → i < length value
  get_elem?-lt [] i h = absurd cc
  get_elem?-lt (v ∷ vs) zero h = omega arith
  get_elem?-lt (v ∷ vs) (suc i) h = omega (arith, get_elem?-lt vs i h)

  pub take-set_next :
      (done : ℕ) (xs value : List A) {word : A}
      → take done xs ≡ take done value
      → get_elem? value done ≡ some word
      → done < length xs
      → take (done + 1) (set xs done word) ≡ take (done + 1) value
  take-set_next done xs value h e l =
      let next : suc done ≡ done + 1 = omega arith in rw (sym next) (take-set done xs value h e l)

-- Comparison of two byte strings.
abbrev pub same_bytes : List ℕ → List ℕ → Bool
same_bytes [] [] = true
same_bytes [] (b ∷ ys) = false
same_bytes (a ∷ xs) [] = false
same_bytes (a ∷ xs) (b ∷ ys) = (a == b) && same_bytes xs ys

pub same_bytes_equal : (xs ys : List ℕ) → same_bytes xs ys ≡ true → xs ≡ ys
same_bytes_equal [] [] same = refl
same_bytes_equal [] (y ∷ ys) same = cc
same_bytes_equal (x ∷ xs) [] same = cc
same_bytes_equal (x ∷ xs) (y ∷ ys) same = ground (arith, same_bytes_equal xs ys)

pub same_bytes_self : (xs : List ℕ) → same_bytes xs xs ≡ true
same_bytes_self [] = refl
same_bytes_self (x ∷ xs) = ground (arith, same_bytes_self xs)

pub same_bytes_differ : (xs ys : List ℕ) → same_bytes xs ys ≡ false → xs ≢ ys
same_bytes_differ xs ys differ e = let same = same_bytes_self xs in cc
