-- ===== src/Prelude/Modulo.antt =====
-- Remainders of indices that go round a table.
use Prim.Native.Nat.{ℕ, ◌+◌, ◌-◌, ◌%◌, ◌≤◌, ◌<◌}
use mathlib.Core.Path.{◌≡◌}
use mathlib.Core.Logic.{◌⊎◌, inl, inr}
use native.Mathlib.Nat.{mod-eq_of_lt, mod-eq-sub-mod}
use native.Mathlib.Decide.{dec_lt}
use native.Mathlib.Omega.{arith}

-- A sum of two indices goes round at most once.
pub mod_once : (a c : ℕ) → a < c + c → ((a < c) × (a % c ≡ a)) ⊎ ((c ≤ a) × (a % c + c ≡ a))
mod_once a c h = elim (dec_lt a c) [
  | yes p ↦ inl (p, mod-eq_of_lt p)
  | no p ↦ inr (
    omega arith,
    omega (
      arith,
      mod-eq-sub-mod {n = a} {m = c} (omega arith),
      mod-eq_of_lt {n = a - c} {m = c} (omega arith),
    ),
  )
]
