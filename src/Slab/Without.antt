-- ===== src/Slab/Without.antt =====
-- Lists without one element, and how long a list of distinct places can be.
use eyn_os.Base.{
  ℕ, zero, suc, ◌≤◌, ◌<◌, ◌≡◌, refl, true, false, not, ◌&&◌, List, [], ◌∷◌, contains, Distinct,
  length, ◌==◌, if◌then◌else◌, arith, Bool-cases, ==_iff, ==_refl, inl, inr, subst,
}

abbrev pub without : ℕ → List ℕ → List ℕ
without a [] = []
without a (x ∷ xs) = if x == a then without a xs else x ∷ without a xs

pub contains-without :
    (a y : ℕ) (xs : List ℕ) → contains (without a xs) y ≡ (contains xs y && not (y == a))
contains-without a y [] = refl
contains-without a y (x ∷ xs) = elim (Bool-cases (x == a)) [
  | inl e ↦ simp e (ground (arith, contains-without a y xs))
  | inr e ↦ simp e (ground (arith, contains-without a y xs))
]

pub Distinct-without : (a : ℕ) (xs : List ℕ) → Distinct xs → Distinct (without a xs)
Distinct-without a [] d = tt
Distinct-without a (x ∷ xs) (n, d) = elim (Bool-cases (x == a)) [
  | inl e ↦ simp e (Distinct-without a xs d)
  | inr e ↦ simp e (ground (arith, contains-without a x xs), Distinct-without a xs d)
]

without_absent : (a : ℕ) (xs : List ℕ) → contains xs a ≡ false → without a xs ≡ xs
without_absent a [] n = refl
without_absent a (x ∷ xs) n = elim (Bool-cases (x == a)) [
  | inl e ↦ ground arith
  | inr e ↦
      let rest : contains xs a ≡ false = ground arith in simp (e, without_absent a xs rest) refl
]

length-without : (a : ℕ) (xs : List ℕ) → Distinct xs → length xs ≤ suc (length (without a xs))
length-without a [] d = omega arith
length-without a (x ∷ xs) (n, d) = elim (Bool-cases (x == a)) [
  | inl e ↦
      let same : x ≡ a = (==_iff x a).0 e in
      let absent : contains xs a ≡ false = subst (λ z. contains xs z ≡ false) same n in
      simp (e, without_absent a xs absent) (omega arith)
  | inr e ↦ simp e (omega (arith, length-without a xs d))
]

-- Distinct elements at `n` places are at most `n`.
pub length-Distinct :
    (place : ℕ → ℕ) (n : ℕ) (xs : List ℕ)
    → Distinct xs
    → ((a : ℕ) → contains xs a ≡ true → (k : ℕ) × (k < n) × (a ≡ place k))
    → length xs ≤ n
length-Distinct place n [] d at = omega arith
length-Distinct place zero (x ∷ xs) d at =
    let found = at x (simp (==_refl x) refl) in absurd (omega (arith, found.1))
length-Distinct place (suc n) (x ∷ xs) d at =
    let all = x ∷ xs in
    let rest = without (place n) all in
    let still = λ (a : ℕ) (i : contains rest a ≡ true).
      let in_both = contains-without (place n) a all in
      let found = at a (ground arith) in
      let other : (a == place n) ≡ false = ground arith in below a found.0 found.1 found.2 other in
    omega (
      arith,
      length-without (place n) all d,
      length-Distinct place n rest (Distinct-without (place n) all d) still,
    )
  where
    below :
        (a k : ℕ)
        → k < suc n
        → a ≡ place k
        → (a == place n) ≡ false
        → (k : ℕ) × (k < n) × (a ≡ place k)
    below a k l e o = elim (Bool-cases (k == n)) [
      | inl f ↦
          let same : k ≡ n = (==_iff k n).0 f in
          let hit : a ≡ place n = subst (λ m. a ≡ place m) same e in absurd (ground (arith, hit))
      | inr f ↦ (k, ground arith, e)
    ]
