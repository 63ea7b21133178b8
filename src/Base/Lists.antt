-- ===== src/Base/Lists.antt =====
-- Lists measured by the native numbers, and membership as a Boolean test.
use Prim.Native.Nat.{ℕ, zero, suc, ◌+◌, min}
use mathlib.Core.Path.{◌≡◌, refl}
use mathlib.Core.Logic.{◌⊎◌, inl, inr}
use mathlib.Core.Bool.{Bool, false, true, ◌||◌}
use mathlib.Core.List.{List, [], ◌∷◌, ◌++◌}
use mathlib.Core.Option.{Option, none, some}
use native.Mathlib.Omega.{arith}
use eyn_os.Base.Tests.{◌==◌}

module _ {ℓ} {A : Type ℓ} where
  abbrev pub length : List A → ℕ
  length [] = 0
  length (x ∷ xs) = suc (length xs)

  abbrev pub get_elem? : List A → ℕ → Option A
  get_elem? [] i = none
  get_elem? (x ∷ xs) zero = some x
  get_elem? (x ∷ xs) (suc i) = get_elem? xs i

  abbrev pub take : ℕ → List A → List A
  take zero xs = []
  take (suc n) [] = []
  take (suc n) (x ∷ xs) = x ∷ take n xs

  abbrev pub drop : ℕ → List A → List A
  drop zero xs = xs
  drop (suc n) [] = []
  drop (suc n) (x ∷ xs) = drop n xs

  abbrev pub last? : List A → Option A
  last? [] = none
  last? (x ∷ []) = some x
  last? (x ∷ y ∷ xs) = last? (y ∷ xs)

  pub length-append : (xs ys : List A) → length (xs ++ ys) ≡ length xs + length ys
  length-append [] ys = omega arith
  length-append (x ∷ xs) ys = omega (arith, length-append xs ys)

  pub length-take : (n : ℕ) (xs : List A) → length (take n xs) ≡ min n (length xs)
  length-take zero xs = omega arith
  length-take (suc n) [] = omega arith
  length-take (suc n) (x ∷ xs) = omega (arith, length-take n xs)

  abbrev pub is_cons : List A → Bool
  is_cons [] = false
  is_cons (x ∷ xs) = true

  pub is_cons-snoc : (xs : List A) (a : A) → is_cons (xs ++ a ∷ []) ≡ true
  is_cons-snoc [] a = refl
  is_cons-snoc (x ∷ xs) a = refl

-- `x ∈ xs`, as a test.
abbrev pub contains : List ℕ → ℕ → Bool
contains [] a = false
contains (x ∷ xs) a = (x == a) || contains xs a

abbrev pub Distinct : List ℕ → Type 0
Distinct [] = Unit {0}
Distinct (x ∷ xs) = (contains xs x ≡ false) × Distinct xs

pub contains-append :
    (xs ys : List ℕ) (a : ℕ) → contains (xs ++ ys) a ≡ (contains xs a || contains ys a)
contains-append [] ys a = refl
contains-append (x ∷ xs) ys a = ground (arith, contains-append xs ys a)

pub contains-last? : (xs : List ℕ) (t : ℕ) → last? xs ≡ some t → contains xs t ≡ true
contains-last? [] t e = ground arith
contains-last? (x ∷ []) t e = ground arith
contains-last? (x ∷ y ∷ ys) t e = ground (arith, contains-last? (y ∷ ys) t e)

pub last?-cons : (x : ℕ) (xs : List ℕ) → (t : ℕ) × (last? (x ∷ xs) ≡ some t)
last?-cons x [] = (x, refl)
last?-cons x (y ∷ ys) = last?-cons y ys

pub last?-snoc : (xs : List ℕ) (a : ℕ) → last? (xs ++ a ∷ []) ≡ some a
last?-snoc [] a = refl
last?-snoc (x ∷ []) a = refl
last?-snoc (x ∷ y ∷ ys) a = last?-snoc (y ∷ ys) a

pub Distinct-snoc :
    (xs : List ℕ) (a : ℕ) → Distinct xs → contains xs a ≡ false → Distinct (xs ++ a ∷ [])
Distinct-snoc [] a d h = (refl, tt)
Distinct-snoc (x ∷ xs) a d h =
    (ground (arith, contains-append xs (a ∷ []) x), Distinct-snoc xs a d.1 (ground arith))

pub List-cases {ℓ} :
    {A : Type ℓ} (xs : List A) → (xs ≡ []) ⊎ ((x : A) × (ys : List A) × (xs ≡ x ∷ ys))
List-cases [] = inl refl
List-cases (x ∷ xs) = inr (x, xs, refl)
