-- ===== src/Sched/Queues/Links.antt =====
-- Lists of work items linked by their `next` fields.
use eyn_os.Base.{
  ℕ, ◌≡◌, ◌≢◌, true, Option, none, some, List, [], ◌∷◌, ◌++◌, arith, ==_refl, contains,
  contains-last?, Distinct, last?, is_some, is_cons,
}
use eyn_os.Sched.{Work}

-- From `h` the `next` fields lead through `xs` and stop.
abbrev pub Chain : (ℕ → Work) → Option ℕ → List ℕ → Type 0
Chain w h [] = h ≡ none
Chain w h (x ∷ xs) = (h ≡ some x) × Chain w (w x).next xs

-- A chain sees nothing but the `next` fields of its own items.
pub Chain-frame :
    (w v : ℕ → Work) (h : Option ℕ) (xs : List ℕ)
    → ((j : ℕ) → contains xs j ≡ true → (v j).next ≡ (w j).next)
    → Chain w h xs
    → Chain v h xs
Chain-frame w v h [] same c = c
Chain-frame w v h (x ∷ xs) same c = (
  c.0,
  rw (same x (ground (arith, ==_refl x)))
      (Chain-frame w v (w x).next xs (λ j m. same j (ground arith)) c.1),
)

-- Linking `i` behind the last item of a chain extends the chain by `i`.
pub Chain-link :
    (w v : ℕ → Work) (h : Option ℕ) (x : ℕ) (xs : List ℕ) (t i : ℕ)
    → last? (x ∷ xs) ≡ some t
    → Distinct (x ∷ xs)
    → ((j : ℕ) → contains (x ∷ xs) j ≡ true → j ≢ t → (v j).next ≡ (w j).next)
    → (v t).next ≡ some i
    → (v i).next ≡ none
    → Chain w h (x ∷ xs)
    → Chain v h (x ∷ (xs ++ i ∷ []))
Chain-link w v h x [] t i l d same vt vi c = let e : x ≡ t = ground arith in (c.0, (rw e vt, vi))
Chain-link w v h x (y ∷ ys) t i l d same vt vi c = (
  c.0,
  rw (same x (ground (arith, ==_refl x)) (ground (arith, contains-last? (y ∷ ys) t l)))
      (Chain-link w v (w x).next y ys t i l d.1 (λ j m ne. same j (ground arith) ne) vt vi c.1),
)

pub Chain-head : (w : ℕ → Work) (h : Option ℕ) (xs : List ℕ) → Chain w h xs → is_some h ≡ is_cons xs
Chain-head w h [] c = ground arith
Chain-head w h (x ∷ xs) c = ground arith
