-- ===== src/Base/Loop.antt =====
-- Counted loops of C.
use Prim.Native.Nat.{ℕ, zero, suc, ◌+◌, ◌≤◌, ◌<◌}
use mathlib.Core.Path.{◌≡◌, subst, sym, ap}
use mathlib.Core.Logic.{inl, inr}
use native.Mathlib.Omega.{arith}
use mathlib.Core.Bool.{Bool, true, false}
use mathlib.Core.Option.{Option, none, some}
use eyn_os.Base.Tests.{if◌then◌else◌, ◌==◌, ==_iff, Bool-cases}

-- `for (k = i; k < i + n; k++) s = body(k, s);`
unfoldable pub for_range {ℓ} : {S : Type ℓ} → ℕ → ℕ → (ℕ → S → S) → S → S
for_range zero k step acc = acc
for_range (suc rounds) k step acc = for_range rounds (k + 1) step (step k acc)

-- What each round carries from its index to the next holds at the end.
pub for_range_inv {ℓ κ} :
    {S : Type ℓ} (Inv : ℕ → S → Type κ) (step : ℕ → S → S) (rounds first last : ℕ) (acc : S)
    → first + rounds ≡ last
    → ((k : ℕ) (t : S) → first ≤ k → k < last → Inv k t → Inv (k + 1) (step k t))
    → Inv first acc
    → Inv last (for_range rounds first step acc)
unfolding for_range
for_range_inv Inv step zero first last acc e keep now =
    subst (λ k. Inv k acc) (add_zero first last e) now
  where
    add_zero : (n m : ℕ) → n + 0 ≡ m → n ≡ m
    add_zero n m h = omega arith
for_range_inv Inv step (suc rounds) first last acc e keep now =
    for_range_inv Inv step rounds (first + 1) last (step first acc) (omega arith)
      (λ k t a b h. keep k t (omega arith) b h) (keep first acc (omega arith) (omega arith) now)

-- The first index from `i` on, of `n`, that passes the test.
unfoldable pub find_from : ℕ → ℕ → (ℕ → Bool) → Option ℕ
find_from zero i test = none
find_from (suc n) i test = if test i then some i else find_from n (i + 1) test

-- A search that succeeds stops at the first index that passes.
pub find_from-some :
    (n i : ℕ) (test : ℕ → Bool) (k : ℕ)
    → find_from n i test ≡ some k
    → (i ≤ k) × (k < i + n) × (test k ≡ true)
unfolding find_from
find_from-some zero i test k e = ground arith
find_from-some (suc n) i test k e = elim (Bool-cases (test i)) [
  | inl h ↦
      let same : i ≡ k = ground arith in
      (omega arith, omega arith, subst (λ j. test j ≡ true) same h)
  | inr h ↦ ground (arith, find_from-some n (i + 1) test k)
]

pub find_from-first :
    (n i : ℕ) (test : ℕ → Bool) (k j : ℕ)
    → find_from n i test ≡ some k
    → i ≤ j
    → j < k
    → test j ≡ false
unfolding find_from
find_from-first zero i test k j e a b = ground arith
find_from-first (suc n) i test k j e a b = elim (Bool-cases (test i)) [
  | inl h ↦ ground arith
  | inr h ↦ elim (Bool-cases (i == j)) [
    | inl same ↦ subst (λ m. test m ≡ false) ((==_iff i j).0 same) h
    | inr other ↦ ground (arith, find_from-first n (i + 1) test k j)
  ]
]

-- A search that fails has tried every index.
pub find_from-none :
    (n i : ℕ) (test : ℕ → Bool) (j : ℕ)
    → find_from n i test ≡ none
    → i ≤ j
    → j < i + n
    → test j ≡ false
unfolding find_from
find_from-none zero i test j e a b = absurd (omega arith)
find_from-none (suc n) i test j e a b = elim (Bool-cases (test i)) [
  | inl h ↦ ground arith
  | inr h ↦ elim (Bool-cases (i == j)) [
    | inl same ↦ subst (λ m. test m ≡ false) ((==_iff i j).0 same) h
    | inr other ↦ ground (arith, find_from-none n (i + 1) test j)
  ]
]

-- The first index that passes is the one that is found.
pub find_from_unique :
    (n i : ℕ) (test : ℕ → Bool) (k : ℕ)
    → i ≤ k
    → k < i + n
    → test k ≡ true
    → ((j : ℕ) → i ≤ j → j < k → test j ≡ false)
    → find_from n i test ≡ some k
unfolding find_from
find_from_unique zero i test k a b t before = absurd (omega arith)
find_from_unique (suc n) i test k a b t before = elim (Bool-cases (i == k)) [
  | inl same ↦
      let e : i ≡ k = (==_iff i k).0 same in rw (subst (λ m. test m ≡ true) (sym e) t) (ap some e)
  | inr other ↦ rw (before i (omega arith) (ground arith)) (
      find_from_unique n (i + 1) test k (ground arith) (omega arith) t
        (λ j c d. before j (omega arith) d))
]
