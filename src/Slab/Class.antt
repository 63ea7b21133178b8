-- ===== src/Slab/Class.antt =====
-- The size classes of src/mm/slab.c: the shift of a size, and the class with that shift.
use eyn_os.Base.{
  ℕ, zero, suc, ◌+◌, ◌-◌, ◌/◌, ◌^◌, ◌<◌, ◌≤◌, ◌≡◌, ◌⊎◌, inl, inr, false, ltb, leb, ◌==◌,
  if◌then◌else◌, Option, none, some, arith, refl, Bool-cases, ltb→lt, subst,
}
use native.Mathlib.Nat.{pow-suc, pow-le-pow_right}

abbrev pub min_shift : ℕ
min_shift = 4

abbrev pub max_shift : ℕ
max_shift = 11

abbrev pub class_count : ℕ
class_count = 8

-- The loop of slab_bsr32 in plain C: `while (v >>= 1) idx++`, with fuel for its rounds.
unfoldable pub bsr_loop : ℕ → (v idx : ℕ) → ℕ
bsr_loop zero v idx = idx
bsr_loop (suc f) v idx =
    let later = bsr_loop f (v / 2) (idx + 1) in if (v / 2) == 0 then idx else later

abbrev pub bsr32 : ℕ → ℕ
bsr32 v = bsr_loop 32 v 0

abbrev pub ceil_log2 : ℕ → ℕ
ceil_log2 size = if leb size 1 then 0 else bsr32 (size - 1) + 1

-- The class of a shift; `none` stands for 0xFFFFFFFF.
abbrev pub class_of_shift : ℕ → Option ℕ
class_of_shift shift =
    let s = if ltb shift min_shift then min_shift else shift in
    if ltb max_shift s then none else some (s - min_shift)

unfoldable pub class_index_for_size : ℕ → Option ℕ
class_index_for_size size = class_of_shift (ceil_log2 size)

-- The loop ends at the highest set bit.
bsr_loop-bounds :
    (f v idx : ℕ)
    → 0 < v
    → v < 2 ^ suc f
    → (k : ℕ) × (bsr_loop f v idx ≡ idx + k) × (2 ^ k ≤ v) × (v < 2 ^ suc k)
unfolding bsr_loop
bsr_loop-bounds zero v idx p b = (0, omega arith, omega (arith, pow-suc 2 0), b)
bsr_loop-bounds (suc f) v idx p b = elim (Bool-cases ((v / 2) == 0)) [
  | inl e ↦ (0, simp e (omega arith), omega arith, ground (arith, pow-suc 2 0))
  | inr e ↦
      let (k, same, low, high) =
        bsr_loop-bounds f (v / 2) (idx + 1) (ground arith) (omega (arith, pow-suc 2 (suc f))) in
      (
        suc k,
        simp e (omega (arith, same)),
        omega (arith, pow-suc 2 k),
        omega (arith, pow-suc 2 (suc k)),
      )
]

abbrev Above : (size shift : ℕ) → Type 0
Above size shift = (shift ≡ 0) ⊎ ((k : ℕ) × (shift ≡ suc k) × (2 ^ k < size))

abbrev Least : (size shift : ℕ) → Type 0
Least size shift = (size ≤ 2 ^ shift) × Above size shift

Least-shift :
    (size k : ℕ)
    → leb size 1 ≡ false
    → bsr32 (size - 1) ≡ 0 + k
    → 2 ^ k ≤ size - 1
    → size - 1 < 2 ^ suc k
    → Least size (ceil_log2 size)
Least-shift size k e same low high =
    let shift : ceil_log2 size ≡ suc k = simp e (omega (arith, same)) in
    rw shift (omega arith, inr (k, refl, omega arith))

-- The least shift that is enough.
ceil_log2-Least : (size : ℕ) → 0 < size → size < 2 ^ 32 → Least size (ceil_log2 size)
ceil_log2-Least size p b = elim (Bool-cases (leb size 1)) [
  | inl e ↦ simp e (ground arith, inl refl)
  | inr e ↦
      let found = bsr_loop-bounds 32 (size - 1) 0 (ground arith) (omega arith) in
      Least-shift size found.0 e found.1 found.2 found.3
]

-- Class `c` is the first whose objects are large enough.
pub record LeastClass (size c : ℕ) : Type 0 where
  pub inside : c < class_count
  pub enough : size ≤ 2 ^ (min_shift + c)
  pub least : (d : ℕ) → size ≤ 2 ^ (min_shift + d) → c ≤ d

abbrev pub Classed : (size : ℕ) → Option ℕ → Type 0
Classed size found =
    ((2 ^ max_shift < size) × (found ≡ none)) ⊎ ((c : ℕ) × (found ≡ some c) × LeastClass size c)

-- A power of two below `size` has the smaller exponent.
pub exponent-lt : (m n size : ℕ) → 2 ^ m < size → size ≤ 2 ^ n → m < n
exponent-lt m n size a b = elim (Bool-cases (ltb m n)) [
  | inl e ↦ ltb→lt m n e
  | inr e ↦
      let p : 2 ^ n ≤ 2 ^ m = pow-le-pow_right (omega arith) (ground arith) in absurd (omega arith)
]

small_shift : (size shift : ℕ) → shift < min_shift → size ≤ 2 ^ shift → LeastClass size 0
small_shift size shift l h = record {
  inside = omega arith;
  enough =
      let p = pow-le-pow_right {n = 2} (omega arith) {i = shift} {j = 4} (omega arith) in
      omega arith;
  least = λ d e. omega arith;
}

middle_shift :
    (size shift : ℕ)
    → min_shift ≤ shift
    → shift ≤ max_shift
    → Least size shift
    → LeastClass size (shift - 4)
middle_shift size shift l u h = record {
  inside = omega arith;
  enough = let same : shift ≡ 4 + (shift - 4) = omega arith in subst (λ n. size ≤ 2 ^ n) same h.0;
  least = λ d e. elim h.1 [
    | inl z ↦ omega arith
    | inr z ↦ let b = exponent-lt z.0 (4 + d) size z.2 e in omega (arith, z.1)
  ];
}

too_large : (size shift : ℕ) → max_shift < shift → Above size shift → 2 ^ max_shift < size
too_large size shift l (inl z) = absurd (omega arith)
too_large size shift l (inr (k, e, b)) =
    let p = pow-le-pow_right {n = 2} (omega arith) {i = 11} {j = k} (omega arith) in omega arith

by_shift : (size shift : ℕ) → Least size shift → Classed size (class_of_shift shift)
by_shift size shift h = elim (Bool-cases (ltb shift min_shift)) [
  | inl e ↦ simp e (inr (0, refl, small_shift size shift (ltb→lt shift 4 e) h.0))
  | inr e ↦ simp e (elim (Bool-cases (ltb max_shift shift)) [
    | inl f ↦ simp f (inl (too_large size shift (ltb→lt 11 shift f) h.1, refl))
    | inr f ↦
        simp f (inr (shift - 4, refl, middle_shift size shift (ground arith) (ground arith) h))
  ])
]

pub class_index_for_size-LeastClass :
    (size : ℕ) → 0 < size → size < 2 ^ 32 → Classed size (class_index_for_size size)
unfolding class_index_for_size
class_index_for_size-LeastClass size p b = by_shift size (ceil_log2 size) (ceil_log2-Least size p b)
