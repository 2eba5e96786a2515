-- ===== src/Prelude/Words.antt =====
-- Go's unsigned arithmetic: a `uint32` is a number below 2 ^ 32, and each operation wraps.
use Prim.Native.Nat.{ℕ, ◌+◌, ◌-◌, ◌%◌, ◌≤◌, ◌<◌}
use mathlib.Core.Path.{◌≡◌}
use native.Mathlib.Nat.{mod-eq_of_lt, mod-eq-sub-mod, mod-add-mod}
use native.Mathlib.Omega.{arith}
use gotcp.Prelude.Tests.{ltb, if◌then◌else◌}

abbrev pub u32_mod : ℕ
u32_mod = 4294967296

abbrev pub u16_mod : ℕ
u16_mod = 65536

abbrev pub add32 : ℕ → ℕ → ℕ
add32 a b = (a + b) % u32_mod

abbrev pub sub32 : ℕ → ℕ → ℕ
sub32 a b = (a + u32_mod - b) % u32_mod

abbrev pub u16 : ℕ → ℕ
u16 a = a % u16_mod

-- Going `u` places on from `a`, at most once round a ring of `c`.
pub add-mod_step :
    (a u c : ℕ)
    → 0 < c
    → u ≤ c
    → (a + u) % c ≡ (if ltb (a % c + u) c then a % c + u else a % c + u - c)
add-mod_step a u c hc hu = ground (
  arith,
  mod-add-mod a c u,
  mod-eq_of_lt {n = a % c + u} {m = c},
  mod-eq-sub-mod {n = a % c + u} {m = c},
  mod-eq_of_lt {n = a % c + u - c} {m = c},
)
