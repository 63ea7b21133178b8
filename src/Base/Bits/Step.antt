-- ===== src/Base/Bits/Step.antt =====
-- The lowest digit of the native bit operations.
use Prim.Native.Nat.{
  ℕ, zero, suc, ◌+◌, ◌-◌, ◌*◌, ◌/◌, ◌%◌, ◌≤◌, min, max, digits, bitwise, bit_and, bit_or,
  bit_and-bitwise, bit_or-bitwise,
}
use mathlib.Core.Path.{◌≡◌, ◌∙◌, refl}
use native.Mathlib.Omega.{arith}

module _ (last : ℕ → ℕ) (digit : ℕ → ℕ → ℕ) where
  -- One more step of fuel changes nothing once the number is used up.
  one_more : (n x y : ℕ) → x ≤ n → digits last digit (suc n) x y ≡ digits last digit n x y
  one_more n zero y h = at_zero n
    where
      at_zero : (n : ℕ) → digits last digit (suc n) zero y ≡ digits last digit n zero y
      at_zero zero = refl
      at_zero (suc n) = refl
  one_more zero (suc x) y h = absurd (omega arith)
  one_more (suc n) (suc x) y h = rw (one_more n (suc x / 2) (y / 2) (omega arith))

  many_more :
      (k n m x y : ℕ) → k + n ≡ m → x ≤ n → digits last digit m x y ≡ digits last digit n x y
  many_more zero n m x y e h = let same : m ≡ n = omega arith in rw same refl
  many_more (suc k) n zero x y e h = absurd (omega arith)
  many_more (suc k) n (suc m) x y e h =
      one_more m x y (omega arith) ∙ many_more k n m x y (omega arith) h

  lowest :
      (x y : ℕ) → digits last digit x (suc x / 2) (y / 2) ≡ bitwise last digit (suc x / 2) (y / 2)
  lowest x y =
      many_more (x - suc x / 2) (suc x / 2) x (suc x / 2) (y / 2) (omega arith) (omega arith)

pub bit_and_step : (x y : ℕ) → bit_and x y ≡ bit_and (x / 2) (y / 2) * 2 + min (x % 2) (y % 2)
bit_and_step zero y = simp bit_and-bitwise (omega arith)
bit_and_step (suc x) y = simp bit_and-bitwise (omega (arith, lowest (λ r. 0) min x y))

pub bit_or_step : (x y : ℕ) → bit_or x y ≡ bit_or (x / 2) (y / 2) * 2 + max (x % 2) (y % 2)
bit_or_step zero y = simp bit_or-bitwise (omega arith)
bit_or_step (suc x) y = simp bit_or-bitwise (omega (arith, lowest (λ r. r) max x y))
