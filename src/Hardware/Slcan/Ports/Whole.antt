-- ===== src/Hardware/Slcan/Ports/Whole.antt =====
-- Write and Flush of SlcanMedia: a terminal gets whole lines, whatever part of a line its driver takes at a time.
use unimoc.Prelude.{
  ℕ, zero, suc, ◌≤◌, ◌≡◌, refl, sym, ap, ◌∙◌, ◌⊎◌, inl, inr, true, List, [], ◌∷◌, ◌++◌, length,
  take, drop, All, length-drop, Bool-cases, ◌==◌, arith,
}
use mathlib.Core.List.{append_assoc, append-nil}
use unimoc.Prelude.Int.{pos_part}
use unimoc.Hardware.Slcan.Ports.{Uarts, Port, max_line, is_empty, flush, write_line, write}

-- The driver's documentation: a fill takes the number of characters that it returns from the front of the text.
-- `taken` are all characters that a UART took.
pub record IsDriver {W : Type 0} (io : Uarts W) (taken : ℕ → W → List ℕ) : Type 0 where
  pub takes :
      (uart : ℕ) (text : List ℕ) (w : W)
      → let (written, w1) = io.fifo_fill uart text w in
        taken uart w1 ≡ taken uart w ++ take (pos_part written) text

-- The texts joined, some of them left out.
pub data Kept : List (List ℕ) → List ℕ → Type 0 where
  nothing : Kept [] []
  keep :
      {text rest : List ℕ} {texts : List (List ℕ)}
      → Kept texts rest
      → Kept (text ∷ texts) (text ++ rest)
  leave_out :
      {text rest : List ℕ} {texts : List (List ℕ)} → Kept texts rest → Kept (text ∷ texts) rest

-- What a port's UART took or is still to take.
module _ {W : Type 0} (taken : ℕ → W → List ℕ) where
  abbrev pub stream : Port → W → List ℕ
  stream port w = taken port.uart w ++ port.pending

module _ {W : Type 0} (io : Uarts W) where
  -- One write after the other.
  abbrev pub write_all : Port → W → List (List ℕ) → Port × W
  write_all port w [] = (port, w)
  write_all port w (text ∷ texts) =
      let (port1, w1) = write io port w text in write_all port1 w1 texts

module _ {W : Type 0} (io : Uarts W) (taken : ℕ → W → List ℕ) (driver : IsDriver io taken) where
  take-drop : (n : ℕ) (xs : List ℕ) → take n xs ++ drop n xs ≡ xs
  take-drop zero xs = refl
  take-drop (suc n) [] = refl
  take-drop (suc n) (x ∷ xs) = ap (◌∷◌ x) (take-drop n xs)

  -- A fill moves characters from the pending ones to the UART.
  passed :
      (uart : ℕ) (w : W) (text : List ℕ)
      → let (written, w1) = io.fifo_fill uart text w in
        taken uart w1 ++ drop (pos_part written) text ≡ taken uart w ++ text
  passed uart w text =
      let n = pos_part (io.fifo_fill uart text w).0 in
      ap (λ t. t ++ drop n text) (driver.takes uart text w)
      ∙ append_assoc (taken uart w) (take n text) (drop n text)
      ∙ ap (◌++◌ (taken uart w)) (take-drop n text)

  flush-stream :
      (port : Port) (w : W)
      → let (flushed, (port1, w1)) = flush io port w in
        (stream taken port1 w1 ≡ stream taken port w)
        × (port1.uart ≡ port.uart)
        × (flushed ≡ is_empty port1.pending)
  unfolding flush
  flush-stream port w = elim (Bool-cases (is_empty port.pending)) [
    | inl h ↦ rw h (refl, refl, sym h)
    | inr h ↦
        let (written, w1) = io.fifo_fill port.uart port.pending w in
        rw h (passed port.uart w port.pending, refl, refl)
  ]

  take_short : (n : ℕ) (xs : List ℕ) → length xs ≤ n → take n xs ≡ xs
  take_short zero [] h = refl
  take_short zero (x ∷ xs) h = absurd (omega arith)
  take_short (suc n) [] h = refl
  take_short (suc n) (x ∷ xs) h = ap (◌∷◌ x) (take_short n xs (omega arith))

  nothing_pending : (pending : List ℕ) → is_empty pending ≡ true → pending ≡ []
  nothing_pending [] h = refl
  nothing_pending (x ∷ xs) h = absurd cc

  -- The stream of a port gains the whole line or nothing.
  abbrev pub IsWhole : Port → W → List ℕ → Port → W → Type 0
  IsWhole port w text port1 w1 =
      (stream taken port1 w1 ≡ stream taken port w)
      ⊎ (stream taken port1 w1 ≡ stream taken port w ++ text)

  write_line-uart :
      (port : Port) (w : W) (text : List ℕ) → (write_line io port w text).0.uart ≡ port.uart
  unfolding write_line
  write_line-uart port w text = ground arith

  write_line-IsWhole :
      (port : Port) (w : W) (text : List ℕ)
      → port.pending ≡ []
      → length text ≤ max_line
      → let (port1, w1) = write_line io port w text in IsWhole port w text port1 w1
  unfolding write_line
  write_line-IsWhole port w text none_left fits =
      let n = pos_part (io.fifo_fill port.uart text w).0 in
      let w1 = (io.fifo_fill port.uart text w).1 in
      let t = taken port.uart w in
      elim (Bool-cases (n == 0)) [
        | inl h ↦
            let none_taken : n ≡ 0 = ground (arith, h) in
            let same =
              driver.takes port.uart text w
              ∙ ap (λ k. t ++ take k text) none_taken
              ∙ append-nil t in
            rw h (inl (ap (λ s. s ++ port.pending) same))
        | inr h ↦
            let short : length (drop n text) ≤ 140 = omega (arith, length-drop n text) in
            rw (h, none_left, take_short 140 (drop n text) short)
              (inr (passed port.uart w text ∙ ap (λ s. s ++ text) (sym (append-nil t))))
      ]

  onward :
      (port : Port) (w : W) (text : List ℕ) (port1 : Port) (w1 : W)
      → stream taken port1 w1 ≡ stream taken port w
      → (port2 : Port) (w2 : W) → IsWhole port1 w1 text port2 w2
      → IsWhole port w text port2 w2
  onward port w text port1 w1 same port2 w2 (inl p) = inl (p ∙ same)
  onward port w text port1 w1 same port2 w2 (inr p) = inr (p ∙ ap (λ s. s ++ text) same)

  write-IsWhole :
      (port : Port) (w : W) (text : List ℕ)
      → length text ≤ max_line
      → let (port1, w1) = write io port w text in
        IsWhole port w text port1 w1 × (port1.uart ≡ port.uart)
  unfolding write
  write-IsWhole port w text fits =
      let (flushed, (port1, w1)) = flush io port w in
      let (same, uart, left) = flush-stream port w in
      elim (Bool-cases (is_empty text)) [
        | inl e ↦ rw e (inl refl, refl)
        | inr e ↦ elim (Bool-cases flushed) [
          | inl h ↦
              let next = write_line io port1 w1 text in
              let done = write_line-IsWhole port1 w1 text (nothing_pending _ (sym left ∙ h)) fits in
              let uart' = write_line-uart port1 w1 text in
              rw (e, h) (onward port w text port1 w1 same next.0 next.1 done, uart' ∙ uart)
          | inr h ↦ rw (e, h) (inl same, uart)
        ]
      ]

  -- A terminal gets whole lines: over any writes of texts that fit a line buffer, the characters that the driver took and those
  -- that are pending grow by some of the texts, each of them whole and in order, whatever part the driver takes at
  -- a time.
  pub write_all-Kept :
      (port : Port) (w : W) (texts : List (List ℕ))
      → All (λ text. length text ≤ max_line) texts
      → let (port1, w1) = write_all io port w texts in
        (rest : List ℕ) × Kept texts rest × (stream taken port1 w1 ≡ stream taken port w ++ rest)
  write_all-Kept port w [] fits = ([], nothing, sym (append-nil (stream taken port w)))
  write_all-Kept port w (text ∷ texts) (fits, more) =
      let (port1, w1) = write io port w text in
      let (rest, kept, grown) = write_all-Kept port1 w1 texts more in
      elim (write-IsWhole port w text fits).0 [
        | inl same ↦ (rest, leave_out kept, grown ∙ ap (λ s. s ++ rest) same)
        | inr same ↦ (
          text ++ rest,
          keep kept,
          grown ∙ ap (λ s. s ++ rest) same ∙ append_assoc (stream taken port w) text rest,
        )
      ]
