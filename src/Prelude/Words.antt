-- ===== src/Prelude/Words.antt =====
-- `u64` arithmetic with its wrap-around, as a release build computes it.
use Prim.Native.Nat.{ℕ, ◌+◌, ◌-◌, ◌%◌, ◌≤◌, ◌<◌, ◌^◌}
use mathlib.Core.Path.{◌≡◌}
use native.Mathlib.Omega.{arith}

abbrev pub u64_mod : ℕ
u64_mod = 2 ^ 64

unfoldable pub add_u64 : ℕ → ℕ → ℕ
add_u64 a b = (a + b) % u64_mod

unfoldable pub sub_u64 : ℕ → ℕ → ℕ
sub_u64 a b = (a + u64_mod - b) % u64_mod

pub add_u64_lem : (a b : ℕ) → a + b < u64_mod → add_u64 a b ≡ a + b
unfolding add_u64
add_u64_lem a b h = omega arith

pub sub_u64_lem : (a b : ℕ) → b ≤ a → a < u64_mod → sub_u64 a b ≡ a - b
unfolding sub_u64
sub_u64_lem a b h k = omega arith
