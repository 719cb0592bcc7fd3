-- ===== src/Ebike/Pedal/Ring.antt =====
-- The bins of PedalObserver as a ring, and the loop of FinishBin over it.
use native.Mathlib.Nat.{mod-eq_of_lt, mod-add-mod, add-mod_right}
use unimoc.Prelude.{
  ℕ, zero, suc, ◌+◌, ◌-◌, ◌%◌, ◌<◌, ◌≤◌, ◌≡◌, ◌≢◌, refl, sym, ap, ◌∙◌, List, [], ◌∷◌, foldl, length,
  take, get_or, set, get_or-set_self, get_or-set_ne, min, arith,
}
use unimoc.Units.{Float, ◌⊞◌, nought}
use unimoc.Ebike.Pedal.{bin_total}

-- The index `i` places behind another on the ring.
abbrev pub behind : ℕ → ℕ → ℕ → ℕ
behind at pulses i = (at + pulses - i) % pulses

-- One place behind the place before.
behind_next :
    (at pulses i : ℕ)
    → i < pulses
    → behind ((at + pulses - 1) % pulses) pulses i ≡ behind at pulses (i + 1)
behind_next at pulses i h =
    let c = at + pulses - 1 in
    let first : c % pulses + pulses - i ≡ c % pulses + (pulses - i) = omega arith in
    let second : c + (pulses - i) ≡ at + pulses - (i + 1) + pulses = omega arith in
    ap (λ n. n % pulses) first
    ∙ mod-add-mod c pulses (pulses - i)
    ∙ ap (λ n. n % pulses) second
    ∙ add-mod_right (at + pulses - (i + 1)) pulses

behind_here : (at pulses : ℕ) → at < pulses → behind at pulses 0 ≡ at
behind_here at pulses h =
    let same : at + pulses - 0 ≡ at + pulses = omega arith in
    ap (λ n. n % pulses) same ∙ add-mod_right at pulses ∙ mod-eq_of_lt h

behind_elsewhere : (at pulses i : ℕ) → at < pulses → i + 1 < pulses → behind at pulses (i + 1) ≢ at
behind_elsewhere at pulses i h k e =
    let near : i + 1 ≤ at → behind at pulses (i + 1) ≡ at - (i + 1) = λ p.
      let same : at + pulses - (i + 1) ≡ at - (i + 1) + pulses = omega arith in
      let low : at - (i + 1) < pulses = omega arith in
      ap (λ n. n % pulses) same ∙ add-mod_right (at - (i + 1)) pulses ∙ mod-eq_of_lt low in
    let far : at < i + 1 → behind at pulses (i + 1) ≡ at + pulses - (i + 1) =
      λ p. let low : at + pulses - (i + 1) < pulses = omega arith in mod-eq_of_lt low in
    ground (arith, near, far)

pub closed_next :
    (index pulses : ℕ) → index < pulses → ((index + 1) % pulses + pulses - 1) % pulses ≡ index
closed_next index pulses h =
    let first : (index + 1) % pulses + pulses - 1 ≡ (index + 1) % pulses + (pulses - 1) =
      omega arith in
    let second : index + 1 + (pulses - 1) ≡ index + pulses = omega arith in
    ap (λ n. n % pulses) first
    ∙ mod-add-mod (index + 1) pulses (pulses - 1)
    ∙ ap (λ n. n % pulses) second
    ∙ add-mod_right index pulses
    ∙ mod-eq_of_lt h

module _ {F : Type 0} ⦃f : Float F⦄ where
  -- The `count` bins from `i` places behind `at` on.
  abbrev pub back : List F → ℕ → ℕ → ℕ → ℕ → List F
  back bins at pulses i zero = []
  back bins at pulses i (suc count) =
      get_or bins (behind at pulses i) nought ∷ back bins at pulses (i + 1) count

  pub bin_total_lem :
      (bins : List F) (at pulses i count : ℕ) (total : F)
      → bin_total bins at pulses i count total ≡ foldl ◌⊞◌ total (back bins at pulses i count)
  unfolding bin_total
  bin_total_lem bins at pulses i zero total = refl
  bin_total_lem bins at pulses i (suc count) total = bin_total_lem bins at pulses (i + 1) count _

  pub length-back :
      (bins : List F) (at pulses i count : ℕ) → length (back bins at pulses i count) ≡ count
  length-back bins at pulses i zero = refl
  length-back bins at pulses i (suc count) = ap suc (length-back bins at pulses (i + 1) count)

  back-set :
      (bins : List F) (at pulses i count : ℕ) (mean : F)
      → at < pulses
      → i + count < pulses
      → back (set bins at mean) at pulses (i + 1) count ≡ back bins at pulses (i + 1) count
  back-set bins at pulses i zero mean h k = refl
  back-set bins at pulses i (suc count) mean h k =
      let apart = behind_elsewhere at pulses i h (omega arith) in
      rw
        (
          get_or-set_ne bins at (behind at pulses (i + 1)) mean nought (λ e. apart (sym e)),
          back-set bins at pulses (i + 1) count mean h (omega arith),
        )
        refl

  back_next :
      (bins : List F) (at pulses i count : ℕ)
      → i + count ≤ pulses
      → back bins at pulses (i + 1) count ≡ back bins ((at + pulses - 1) % pulses) pulses i count
  back_next bins at pulses i zero h = refl
  back_next bins at pulses i (suc count) h =
      rw
        (
          behind_next at pulses i (omega arith),
          back_next bins at pulses (i + 1) count (omega arith),
        )
        refl

  take-back :
      (bins : List F) (at pulses i n count : ℕ)
      → take n (back bins at pulses i count) ≡ back bins at pulses i (min n count)
  take-back bins at pulses i zero count =
      let none : 0 ≡ min 0 count = omega arith in ap (back bins at pulses i) none
  take-back bins at pulses i (suc n) zero =
      let none : 0 ≡ min (suc n) 0 = omega arith in ap (back bins at pulses i) none
  take-back bins at pulses i (suc n) (suc count) =
      let next : suc (min n count) ≡ min (suc n) (suc count) = omega arith in
      ap (◌∷◌ (get_or bins (behind at pulses i) nought)) (take-back bins at pulses (i + 1) n count)
      ∙ ap (back bins at pulses i) next

  -- Writing the newest bin drops the oldest of a full window.
  pub back_write :
      (bins : List F) (at pulses count window : ℕ) (mean : F)
      → at < pulses
      → at < length bins
      → window < pulses
      → count ≤ suc window
      → back (set bins at mean) at pulses 0 (suc (min count window))
        ≡ mean ∷ take window (back bins ((at + pulses - 1) % pulses) pulses 0 count)
  back_write bins at pulses count window mean h l k full =
      let m = min count window in
      let same : m ≡ min window count = omega arith in
      let within : 0 + m < pulses = omega arith in
      let rest =
        back-set bins at pulses 0 m mean h within
        ∙ back_next bins at pulses 0 m (omega arith)
        ∙ ap (back bins ((at + pulses - 1) % pulses) pulses 0) same
        ∙ sym (take-back bins ((at + pulses - 1) % pulses) pulses 0 window count) in
      ap (λ n. get_or (set bins at mean) n nought ∷ back (set bins at mean) at pulses 1 m)
        (behind_here at pulses h)
      ∙ ap (λ x. x ∷ back (set bins at mean) at pulses 1 m) (get_or-set_self bins at mean nought l)
      ∙ ap (◌∷◌ mean) rest
