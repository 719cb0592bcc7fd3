-- ===== src/Hardware/Slcan/Ports/Tests.antt =====
-- A port on a UART that takes three characters at a time, and keeps them.
use unimoc.Prelude.{ℕ, ◌≡◌, refl, none, List, [], ◌∷◌, ◌++◌, take, arith}
use unimoc.Prelude.Int.{pos}
use unimoc.Hardware.Slcan.Ports.{Uarts, no_port, flush, write_line, write}
use unimoc.Hardware.Slcan.Ports.Whole.{IsDriver, Kept, stream, write_all, write_all-Kept}

abbrev slow : Uarts (List ℕ)
slow = record {
  fifo_fill = λ uart text w. (pos 3, w ++ take 3 text);
  poll_in = λ uart w. (none, w);
}

abbrev taken : ℕ → List ℕ → List ℕ
taken uart w = w

slow-IsDriver : IsDriver slow taken
slow-IsDriver = record { takes = λ uart text w. refl }

abbrev lines : List (List ℕ)
lines = (1 ∷ 2 ∷ 3 ∷ 4 ∷ 5 ∷ 6 ∷ 7 ∷ 13 ∷ []) ∷ (8 ∷ 9 ∷ 13 ∷ []) ∷ []

-- The second line finds characters pending and is left out.
leaves_out : (write_all slow no_port [] lines).1 ≡ 1 ∷ 2 ∷ 3 ∷ 4 ∷ 5 ∷ 6 ∷ []
unfolding write flush write_line
leaves_out = refl

write_all-Kept_example :
    let (port1, w1) = write_all slow no_port [] lines in
    (rest : List ℕ) × Kept lines rest × (stream taken port1 w1 ≡ rest)
write_all-Kept_example =
    write_all-Kept slow taken slow-IsDriver no_port [] lines (ground arith, (ground arith, tt))
