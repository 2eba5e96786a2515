-- ===== src/Prelude/Xor.antt =====
-- An exclusive or stays within the width of its arguments.
use Prim.Native.Nat.{
  ℕ, zero, suc, ◌/◌, ◌%◌, ◌^◌, ◌<◌, ◌≤◌, digits, differ, bit_xor, bit_xor-bitwise,
}
use mathlib.Core.Path.{subst, sym}
use native.Mathlib.Omega.{arith}

differ_le : (x y : ℕ) → x ≤ 1 → y ≤ 1 → differ x y ≤ 1
differ_le zero y h k = k
differ_le (suc x) zero h k = h
differ_le (suc zero) (suc y) h k = omega arith
differ_le (suc (suc x)) (suc y) h k = absurd (omega arith)

digits_lt : (w n a b : ℕ) → a < 2 ^ w → b < 2 ^ w → digits (λ c. c) differ n a b < 2 ^ w
digits_lt w zero a b h k = k
digits_lt w (suc n) zero b h k = k
digits_lt zero (suc n) (suc a) b h k = absurd (omega arith)
digits_lt (suc w) (suc n) (suc a) b h k = omega (
  arith,
  digits_lt w n (suc a / 2) (b / 2) (omega arith) (omega arith),
  differ_le (suc a % 2) (b % 2) (omega arith) (omega arith),
)

pub bit_xor_lt : (w a b : ℕ) → a < 2 ^ w → b < 2 ^ w → bit_xor a b < 2 ^ w
bit_xor_lt w a b h k =
    subst (λ c. c < 2 ^ w) (sym (λ i. bit_xor-bitwise a b i)) (digits_lt w a a b h k)
