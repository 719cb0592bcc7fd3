-- ===== src/Prelude/Bits.antt =====
-- Checks over all values below a bound, by evaluation.
use Prim.Native.Nat.{ℕ, zero, suc, ◌<◌}
use mathlib.Core.Path.{◌≡◌}
use mathlib.Core.Bool.{Bool, true, ◌&&◌}
use native.Mathlib.Omega.{arith}

unfoldable pub every : ℕ → (ℕ → Bool) → Bool
every zero test = true
every (suc k) test = every k test && test k

pub every_lem : (k : ℕ) (test : ℕ → Bool) (v : ℕ) → v < k → every k test ≡ true → test v ≡ true
unfolding every
every_lem (suc k) test v below checked = ground (arith, every_lem k test v)
every_lem zero test v below checked = absurd (omega arith)
