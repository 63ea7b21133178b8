-- ===== src/Sched/Timeslice/Bitmap.antt =====
-- `sched_bsr32` of src/cpu/sched.c finds the highest set bit, and clearing a bit makes one less.
use eyn_os.Base.{
  ℕ, zero, suc, ◌+◌, ◌<◌, ◌≤◌, ◌≡◌, refl, true, false, some, inl, inr, arith, ◌==◌, if◌then◌else◌,
  Bool-cases, subst, sym, ap,
}
use eyn_os.Base.Bits.{test_bit, test_bit-zero}
use eyn_os.Sched.{bsr32, bsr_below, clear_bit}
use eyn_os.Sched.Queues.RemoveHead.{test_bit-clear}

bsr_below-some : (n v p : ℕ) → bsr_below n v ≡ some p → (p < n) × (test_bit v p ≡ true)
unfolding bsr_below
bsr_below-some zero v p e = ground arith
bsr_below-some (suc n) v p e = elim (Bool-cases (test_bit v n)) [
  | inl h ↦
      let same : n ≡ p = ground arith in (omega arith, subst (λ j. test_bit v j ≡ true) same h)
  | inr h ↦ ground (arith, bsr_below-some n v p)
]

-- What is found is a set bit of the word.
pub bsr32-some : (v p : ℕ) → bsr32 v ≡ some p → (p < 32) × (test_bit v p ≡ true)
unfolding bsr32
bsr32-some v p e = ground (arith, bsr_below-some 32 v p)

bsr_below-highest :
    (n v p : ℕ)
    → p < n
    → test_bit v p ≡ true
    → ((q : ℕ) → p < q → q < n → test_bit v q ≡ false)
    → bsr_below n v ≡ some p
unfolding bsr_below
bsr_below-highest zero v p hp t high = absurd (omega arith)
bsr_below-highest (suc n) v p hp t high = elim (Bool-cases (n == p)) [
  | inl h ↦
      let same : n ≡ p = ground arith in
      rw (subst (λ j. test_bit v j ≡ true) (sym same) t) (ap some same)
  | inr h ↦
      rw (high n (ground arith) (omega arith))
        (bsr_below-highest n v p (ground arith) t (λ q a b. high q a (omega arith)))
]

-- A set bit with none above it is the one that is found.
pub bsr32-highest :
    (v p : ℕ)
    → p < 32
    → test_bit v p ≡ true
    → ((q : ℕ) → p < q → q < 32 → test_bit v q ≡ false)
    → bsr32 v ≡ some p
unfolding bsr32
bsr32-highest v p hp t high = elim (Bool-cases (v == 0)) [
  | inl h ↦ ground (arith, test_bit-zero p)
  | inr h ↦ rw h (bsr_below-highest 32 v p hp t high)
]

-- The number of set bits below `n`.
pub bit_count : ℕ → ℕ → ℕ
bit_count zero m = 0
bit_count (suc n) m = (if test_bit m n then 1 else 0) + bit_count n m

bit_count-same :
    (n m k : ℕ) → ((q : ℕ) → q < n → test_bit k q ≡ test_bit m q) → bit_count n k ≡ bit_count n m
unfolding bit_count
bit_count-same zero m k h = refl
bit_count-same (suc n) m k h = ground (arith, h n, bit_count-same n m k (λ q a. h q (omega arith)))

pub bit_count-clear :
    (n m p : ℕ)
    → n ≤ 32
    → p < n
    → test_bit m p ≡ true
    → bit_count n m ≡ suc (bit_count n (clear_bit m p))
unfolding bit_count
bit_count-clear zero m p hn hp t = absurd (omega arith)
bit_count-clear (suc n) m p hn hp t = elim (Bool-cases (p == n)) [
  | inl h ↦ ground (
    arith,
    test_bit-clear m p n (omega arith) (omega arith),
    bit_count-same n m (clear_bit m p)
        (λ q a. ground (arith, test_bit-clear m p q (omega arith) (omega arith))),
  )
  | inr h ↦ ground (
    arith,
    test_bit-clear m p n (omega arith) (omega arith),
    bit_count-clear n m p (omega arith) (ground arith) t,
  )
]

pub bit_count-le : (n m : ℕ) → bit_count n m ≤ n
unfolding bit_count
bit_count-le zero m = omega arith
bit_count-le (suc n) m = ground (arith, bit_count-le n m)
