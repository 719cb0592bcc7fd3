-- ===== src/Hardware/Slcan/RoundTrip/Data.antt =====
-- The loop of ParseLine over the data of a frame.
use mathlib.Core.Option.{bind}
use unimoc.Prelude.{
  ℕ, zero, suc, ◌+◌, ◌*◌, ◌%◌, ◌^◌, ◌<◌, ◌≤◌, ◌≡◌, refl, sym, ap, ◌∙◌, ◌&&◌, some, List, [], ◌∷◌,
  length, drop, set, get_or, get_or-set, length-set, replicate, ltb, leb, arith, if◌then◌else◌,
}
use unimoc.Hardware.Slcan.RoundTrip.Digits.{parse_hex-byte}
use unimoc.Hardware.Slcan.{parse_data, data_digits, can_fd_mtu}

-- What the loop over the data leaves in the frame.
abbrev pub fill : List ℕ → (i left : ℕ) → List ℕ → List ℕ
fill payload i zero filled = filled
fill payload i (suc left) filled = fill payload (i + 1) left (set filled i (get_or payload i 0))

drop-nil : (k : ℕ) → drop {A = ℕ} k [] ≡ []
drop-nil zero = refl
drop-nil (suc k) = refl

drop-drop : (m n : ℕ) (xs : List ℕ) → drop m (drop n xs) ≡ drop (n + m) xs
drop-drop m zero xs = ap (λ k. drop k xs) (omega arith)
drop-drop m (suc n) [] = drop-nil m ∙ sym (drop-nil (suc n + m))
drop-drop m (suc n) (x ∷ xs) =
    let next : suc (n + m) ≡ suc n + m = omega arith in
    drop-drop m n xs ∙ ap (λ k. drop k (x ∷ xs)) next

pub parse_data-digits :
    (line payload : List ℕ) (i left : ℕ) (filled : List ℕ)
    → ((j : ℕ) → get_or payload j 0 < 256)
    → drop (10 + 2 * i) line ≡ data_digits payload i left
    → parse_data line i left filled ≡ some (fill payload i left filled)
unfolding parse_data data_digits bind
parse_data-digits line payload i zero filled bytes h = refl
parse_data-digits line payload i (suc left) filled bytes h =
    let byte = get_or payload i 0 in
    let next : 10 + 2 * i + 2 ≡ 10 + 2 * (i + 1) = omega arith in
    let rest : drop (10 + 2 * (i + 1)) line ≡ data_digits payload (i + 1) left =
      ap (λ k. drop k line) (sym next) ∙ sym (drop-drop 2 (10 + 2 * i) line) ∙ ap (drop 2) h in
    let kept : byte % 2 ^ 8 ≡ byte = omega (arith, bytes i) in
    rw (h, parse_hex-byte byte (bytes i), kept)
      (parse_data-digits line payload (i + 1) left (set filled i byte) bytes rest)

pub get_or-fill :
    (payload : List ℕ) (i left : ℕ) (filled : List ℕ) (j : ℕ)
    → i + left ≤ length filled
    → get_or (fill payload i left filled) j 0
      ≡ (if leb i j && ltb j (i + left) then get_or payload j 0 else get_or filled j 0)
get_or-fill payload i zero filled j h = ground arith
get_or-fill payload i (suc left) filled j h =
    let byte = get_or payload i 0 in
    let sized = length-set filled i byte in
    ground (
      arith,
      get_or-fill payload (i + 1) left (set filled i byte) j (omega (arith, sized)),
      get_or-set filled i byte j 0,
    )

pub length-fill :
    (payload : List ℕ) (i left : ℕ) (filled : List ℕ)
    → length (fill payload i left filled) ≡ length filled
length-fill payload i zero filled = refl
length-fill payload i (suc left) filled =
    length-fill payload (i + 1) left _ ∙ length-set filled i (get_or payload i 0)

get_or-replicate : (n j : ℕ) → get_or {A = ℕ} (replicate n 0) j 0 ≡ 0
get_or-replicate zero j = refl
get_or-replicate (suc n) zero = refl
get_or-replicate (suc n) (suc j) = get_or-replicate n j

pub blank :
    (size j byte : ℕ)
    → (if leb 0 j && ltb j (0 + size) then byte else get_or (replicate can_fd_mtu 0) j 0)
      ≡ (if ltb j size then byte else 0)
blank size j byte = ground (arith, get_or-replicate can_fd_mtu j)

pub length-data_digits :
    (payload : List ℕ) (i left : ℕ) → length (data_digits payload i left) ≡ 2 * left
unfolding data_digits
length-data_digits payload i zero = refl
length-data_digits payload i (suc left) = omega (arith, length-data_digits payload (i + 1) left)
