-- ===== src/Prelude/Table.antt =====
-- A test of every number below a bound, for facts that are checked by evaluation.
use Prim.Native.Nat.{ℕ, zero, suc, ◌<◌}
use mathlib.Core.Path.{◌≡◌}
use mathlib.Core.Bool.{Bool, true, ◌&&◌}
use native.Mathlib.Omega.{arith}

unfoldable pub every : ℕ → (ℕ → Bool) → Bool
every zero p = true
every (suc n) p = p n && every n p

pub every-holds : (n : ℕ) (p : ℕ → Bool) (x : ℕ) → every n p ≡ true → x < n → p x ≡ true
unfolding every
every-holds zero p x h below = absurd (omega arith)
every-holds (suc n) p x h below = ground (arith, every-holds n p x)
