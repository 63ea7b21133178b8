-- ===== src/Slab/Memory.antt =====
-- The words of slab pages of src/mm/slab.c: what poisoning leaves alone, linked lists, and the search
-- of a free list.
use eyn_os.Base.{
  ℕ, zero, suc, ◌+◌, ◌*◌, ◌/◌, ◌≤◌, ◌<◌, ◌≡◌, ◌≢◌, refl, sym, ◌∙◌, subst, true, false, List, [],
  ◌∷◌, contains, length, ◌==◌, arith, ==_refl, inl, inr, ◌⊎◌, update, update_ne,
}
use eyn_os.Base.Loop.{for_range_inv}
use eyn_os.Slab.{Slabs, poison, poison_word, list_has, obj_ptr_is_valid}

-- `a` lies outside the `size` bytes at `p`.
abbrev pub Outside : (p size a : ℕ) → Type 0
Outside p size a = (a < p) ⊎ (p + size ≤ a)

pub poison-Outside :
    (p size a : ℕ) (word : ℕ → ℕ) → Outside p size a → poison p size word a ≡ word a
unfolding poison
poison-Outside p size a word out =
    for_range_inv (λ k w. w a ≡ word a) (λ i w. update w (p + 4 * i) poison_word) (size / 4) 0
      (size / 4) word (omega arith) kept refl
  where
    kept :
        (k : ℕ) (w : ℕ → ℕ)
        → 0 ≤ k
        → k < size / 4
        → w a ≡ word a
        → update w (p + 4 * k) poison_word a ≡ word a
    kept k w l u same =
        let other : p + 4 * k ≢ a =
          λ e. elim out [ inl b ↦ absurd (omega arith) | inr b ↦ absurd (omega arith) ] in
        update_ne w (p + 4 * k) a poison_word other ∙ same

-- From `p` the links lead through `xs` to NULL.
abbrev pub Walk : (next : ℕ → ℕ) → ℕ → List ℕ → Type 0
Walk next p [] = p ≡ 0
Walk next p (x ∷ xs) = (p ≡ x) × Walk next (next x) xs

-- A list is kept by any change that spares the links of its elements.
pub Walk-frame :
    (f g : ℕ → ℕ) (p : ℕ) (xs : List ℕ)
    → ((a : ℕ) → contains xs a ≡ true → g a ≡ f a)
    → Walk f p xs
    → Walk g p xs
Walk-frame f g p [] same w = w
Walk-frame f g p (x ∷ xs) same (e, w) =
    let first : f x ≡ g x = sym (same x (simp (==_refl x) refl)) in
    (
      e,
      subst (λ q. Walk g q xs) first
          (Walk-frame f g (f x) xs (λ a i. same a (ground (arith, i))) w),
    )

-- slab_freelist_contains finds the pointer if and only if it is in the list.
pub list_has-contains :
    (rounds : ℕ) (s : Slabs) (h it ptr : ℕ) (xs : List ℕ)
    → Walk s.word it xs
    → ((a : ℕ) → contains xs a ≡ true → (a ≢ 0) × (obj_ptr_is_valid s h a ≡ true))
    → length xs ≤ rounds
    → list_has rounds s h it ptr ≡ contains xs ptr
unfolding list_has
list_has-contains zero s h it ptr [] w ok l = refl
list_has-contains zero s h it ptr (x ∷ xs) w ok l = absurd (omega arith)
list_has-contains (suc rounds) s h it ptr [] w ok l = simp w refl
list_has-contains (suc rounds) s h it ptr (x ∷ xs) (e, w) ok l =
    let here = ok x (simp (==_refl x) refl) in
    let there : (x == 0) ≡ false = ground (arith, here.0) in
    let later =
      list_has-contains rounds s h (s.word x) ptr xs w (λ a i. ok a (ground (arith, i)))
        (omega arith) in
    simp (e, there, here.1, later) refl
