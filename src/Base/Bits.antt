-- ===== src/Base/Bits.antt =====
-- Bits of a machine word: what `|`, `&` and `~` do to each bit.
mod Step
use Step.{bit_or_step}
pub use Step.{bit_and_step}
use Prim.Native.Nat.{
  ℕ, zero, suc, ◌+◌, ◌-◌, ◌*◌, ◌/◌, ◌%◌, ◌^◌, ◌≤◌, ◌<◌, bit_and, bit_or, bit_and-bitwise,
  bit_or-bitwise,
}
use mathlib.Core.Path.{◌≡◌, refl, ap, ◌∙◌, sym, subst}
use mathlib.Core.Bool.{Bool, true, false, not, ◌&&◌, ◌||◌}
use native.Mathlib.Omega.{arith}
use native.Mathlib.Nat.{pow-suc, one-le-pow, mul_assoc}
use eyn_os.Base.Tests.{◌==◌, if◌then◌else◌}

-- `(m >> q) & 1`.
unfoldable pub test_bit : ℕ → ℕ → Bool
test_bit m zero = (m % 2) == 1
test_bit m (suc q) = test_bit (m / 2) q

or_low : (a b : ℕ) → (bit_or a b % 2 == 1) ≡ ((a % 2 == 1) || (b % 2 == 1))
or_low a b = ground (arith, bit_or_step a b)

or_high : (a b : ℕ) → bit_or a b / 2 ≡ bit_or (a / 2) (b / 2)
or_high a b = omega (arith, bit_or_step a b)

and_low : (a b : ℕ) → (bit_and a b % 2 == 1) ≡ ((a % 2 == 1) && (b % 2 == 1))
and_low a b = ground (arith, bit_and_step a b)

and_high : (a b : ℕ) → bit_and a b / 2 ≡ bit_and (a / 2) (b / 2)
and_high a b = omega (arith, bit_and_step a b)

pub test_bit-or : (a b q : ℕ) → test_bit (bit_or a b) q ≡ (test_bit a q || test_bit b q)
unfolding test_bit
test_bit-or a b zero = or_low a b
test_bit-or a b (suc q) = rw (or_high a b) (test_bit-or (a / 2) (b / 2) q)

pub test_bit-and : (a b q : ℕ) → test_bit (bit_and a b) q ≡ (test_bit a q && test_bit b q)
unfolding test_bit
test_bit-and a b zero = and_low a b
test_bit-and a b (suc q) = rw (and_high a b) (test_bit-and (a / 2) (b / 2) q)

pub test_bit-zero : (q : ℕ) → test_bit 0 q ≡ false
unfolding test_bit
test_bit-zero zero = refl
test_bit-zero (suc q) = test_bit-zero q

half_pow : (p : ℕ) → 2 ^ suc p / 2 ≡ 2 ^ p
half_pow p = omega (arith, pow-suc 2 p)

even_pow : (p : ℕ) → 2 ^ suc p % 2 ≡ 0
even_pow p = omega (arith, pow-suc 2 p)

pub test_bit-pow : (p q : ℕ) → test_bit (2 ^ p) q ≡ (p == q)
unfolding test_bit
test_bit-pow zero zero = refl
test_bit-pow zero (suc q) = rw (test_bit-zero q) (ground arith)
test_bit-pow (suc p) zero = ground (arith, even_pow p)
test_bit-pow (suc p) (suc q) = rw (half_pow p) (ground (arith, test_bit-pow p q))

-- `~m` of a word of `w` bits.
abbrev pub complement : ℕ → ℕ → ℕ
complement w m = 2 ^ w - 1 - m

half_complement : (w m : ℕ) → m < 2 ^ suc w → complement (suc w) m / 2 ≡ complement w (m / 2)
half_complement w m h = omega (arith, pow-suc 2 w, one-le-pow w 2)

pub test_bit-complement :
    (w m q : ℕ) → m < 2 ^ w → q < w → test_bit (complement w m) q ≡ not (test_bit m q)
unfolding test_bit
test_bit-complement zero m q h l = elim l [ ]
test_bit-complement (suc w) m zero h l = ground (arith, pow-suc 2 w, one-le-pow w 2)
test_bit-complement (suc w) m (suc q) h l =
    rw (half_complement w m h)
      (test_bit-complement w (m / 2) q (omega (arith, pow-suc 2 w)) (omega arith))

pub bit_or-lt : (w a b : ℕ) → a < 2 ^ w → b < 2 ^ w → bit_or a b < 2 ^ w
bit_or-lt zero a b ha hb = omega (arith, bit_or_step a b, bit_or_zeros a b)
  where
    bit_or_zeros : (a b : ℕ) → a < 1 → b < 1 → bit_or a b ≡ 0
    bit_or_zeros zero zero p q = refl
    bit_or_zeros zero (suc b) p q = absurd (omega arith)
    bit_or_zeros (suc a) b p q = absurd (omega arith)
bit_or-lt (suc w) a b ha hb = omega (
  arith,
  pow-suc 2 w,
  bit_or_step a b,
  bit_or-lt w (a / 2) (b / 2) (omega (arith, pow-suc 2 w)) (omega (arith, pow-suc 2 w)),
)

zero-bit_and : (b : ℕ) → bit_and 0 b ≡ 0
zero-bit_and b = bit_and-bitwise 0 b

pub bit_and-lt : (w a b : ℕ) → a < 2 ^ w → bit_and a b < 2 ^ w
bit_and-lt zero zero b ha = ground (arith, bit_and_step 0 b, zero-bit_and b)
bit_and-lt zero (suc a) b ha = absurd (omega arith)
bit_and-lt (suc w) a b ha = omega (
  arith,
  pow-suc 2 w,
  bit_and_step a b,
  bit_and-lt w (a / 2) (b / 2) (omega (arith, pow-suc 2 w)),
)

pub pow-lt : (p w : ℕ) → p < w → 2 ^ p < 2 ^ w
pow-lt zero zero h = elim h [ ]
pow-lt zero (suc w) h = omega (arith, pow-suc 2 w, one-le-pow w 2)
pow-lt (suc p) zero h = elim h [ ]
pow-lt (suc p) (suc w) h = omega (arith, pow-suc 2 w, pow-suc 2 p, pow-lt p w (omega arith))

pub bit_and_zero : (n x : ℕ) → x ≤ n → bit_and x 0 ≡ 0
bit_and_zero zero x h = let none : x ≡ 0 = omega arith in rw none (zero-bit_and 0)
bit_and_zero (suc n) x h = omega (arith, bit_and_step x 0, bit_and_zero n (x / 2) (omega arith))

-- The mask of a byte.
pub bit_and_byte : (x : ℕ) → bit_and x 255 ≡ x % 256
bit_and_byte x =
    let y = x / 16 in
    let high : bit_and y 15 ≡ y % 16 = omega (
      arith,
      bit_and_step y 15,
      bit_and_step (y / 2) 7,
      bit_and_step (y / 2 / 2) 3,
      bit_and_step (y / 2 / 2 / 2) 1,
      bit_and_zero (y / 2 / 2 / 2 / 2) (y / 2 / 2 / 2 / 2) (omega arith),
    ) in
    let sixteenth : x / 2 / 2 / 2 / 2 ≡ y = omega arith in
    let whole = subst (λ z. bit_and z 15 ≡ z % 16) (sym sixteenth) high in
    omega (
      arith,
      bit_and_step x 255,
      bit_and_step (x / 2) 127,
      bit_and_step (x / 2 / 2) 63,
      bit_and_step (x / 2 / 2 / 2) 31,
      whole,
    )

bit_or_zero : (y : ℕ) → bit_or 0 y ≡ y
bit_or_zero y = bit_or-bitwise 0 y

-- Words that share no bit are joined by adding them.
pub bit_or_join : (k x y : ℕ) → x < 2 ^ k → bit_or x (y * 2 ^ k) ≡ x + y * 2 ^ k
bit_or_join zero x y l =
    let none : x ≡ 0 = omega arith in
    let same : y * 2 ^ 0 ≡ y = omega arith in rw none (rw same (omega (arith, bit_or_zero y)))
bit_or_join (suc k) x y l =
    let z = y * 2 ^ k in
    let twice : y * 2 ^ suc k ≡ z * 2 =
      ap (λ (n : ℕ). y * n) (pow-suc 2 k) ∙ sym (mul_assoc y (2 ^ k) 2) in
    let half : z * 2 / 2 ≡ z = omega arith in
    let rest = ap (bit_or (x / 2)) half ∙ bit_or_join k (x / 2) y (omega (arith, pow-suc 2 k)) in
    simp twice (omega (arith, bit_or_step x (z * 2), rest))
