-- ===== src/Slab/Reach.antt =====
-- Histories of calls of src/mm/slab.c, with the writes of the callers into the objects that they hold.
use eyn_os.Base.{
  ℕ, ◌+◌, ◌*◌, ◌^◌, ◌≤◌, ◌<◌, ◌≡◌, ◌≢◌, refl, ap, sym, ◌∙◌, subst, true, false, List, [], ◌∷◌,
  contains, arith, inl, inr, ◌⊎◌, update, update_ne,
}
use eyn_os.Slab.{Slabs, Outcome, returned, panicked, page_base, init, slab_alloc, slab_free}
use eyn_os.Slab.Objects.{class_size}
use eyn_os.Slab.Memory.{Outside}
use eyn_os.Slab.Pool.{View, Pool, Supply, turn, Pool-write}
use eyn_os.Slab.Push.Free.{slab_free-Pushed}
use eyn_os.Slab.Serve.{Allocation}
use eyn_os.Slab.Serve.Call.{slab_alloc-Allocation}
use eyn_os.Slab.Without.{without}

-- The bytes of the object `p`, as its page's header has them.
abbrev pub object_size : Slabs → ℕ → ℕ
object_size s p = (s.header (page_base p)).obj_size

-- One call, or one write of a word by the holder of an object.
pub data Step : Slabs → List ℕ → Slabs → List ℕ → Type 0 where
  allocates :
      {s t : Slabs} {live : List ℕ} (size p : ℕ)
      → size < 2 ^ 32
      → slab_alloc size s ≡ (returned p, t)
      → p ≢ 0
      → Step s live t (p ∷ live)
  declines :
      {s t : Slabs} {live : List ℕ} (size : ℕ)
      → size < 2 ^ 32
      → slab_alloc size s ≡ (returned 0, t)
      → Step s live t live
  frees :
      {s t : Slabs} {live : List ℕ} (p n : ℕ)
      → contains live p ≡ true
      → slab_free p s ≡ (returned n, t)
      → Step s live t (without p live)
  writes :
      {s : Slabs} {live : List ℕ} (p k x : ℕ)
      → contains live p ≡ true
      → 4 * k + 4 ≤ object_size s p
      → Step s live (record s { word = update s.word (p + 4 * k) x }) live

-- What is reached from the first call on, while vmm_kmalloc_page answers pages that are not in use.
pub data Reach : Slabs → List ℕ → Type 0 where
  start : (s : Slabs) → s.is_inited ≡ false → Supply (λ b. false) s.answers → Reach (init s) []
  step : {s t : Slabs} {live now : List ℕ} → Reach s live → Step s live t now → Reach t now

abbrev no_view : View
no_view = record { is_slab = λ b. false; class = λ b. 0; free = λ b. []; pages = λ c. [] }

Pool-init :
    (s : Slabs) → s.is_inited ≡ false → Supply (λ b. false) s.answers → Pool (init s) no_view []
unfolding init
Pool-init s e supply = rw e (record {
  inited = refl;
  page = λ b i. absurd (ground (arith, i));
  linked = λ c l. refl;
  no_twice = λ c l. tt;
  member = λ c b l i. absurd (ground (arith, i));
  listed = λ b i j. absurd (ground (arith, i));
  supply = supply;
  held = λ p i. absurd (ground (arith, i));
  live_once = tt;
})

abbrev answered : Outcome → ℕ
answered (returned x) = x
answered panicked = 0

-- A call has one result.
pub same_value :
    {n m : ℕ} {t u : Slabs} (r : Outcome × Slabs)
    → r ≡ (returned n, t)
    → r ≡ (returned m, u)
    → n ≡ m
same_value r e f = ap (λ (x : Outcome × Slabs). answered x.0) (sym e ∙ f)

pub same_state :
    {n m : ℕ} {t u : Slabs} (r : Outcome × Slabs)
    → r ≡ (returned n, t)
    → r ≡ (returned m, u)
    → t ≡ u
same_state r e f = ap (λ (x : Outcome × Slabs). x.1) (sym e ∙ f)

-- The objects that are held after a call of slab_alloc.
now_held :
    (s t : Slabs) (v : View) (live : List ℕ) (size p : ℕ)
    → (a : Allocation s v live size) → slab_alloc size s ≡ (returned p, t)
    → ((p ≡ 0) × (a.now ≡ live)) ⊎ ((p ≢ 0) × (a.now ≡ p ∷ live))
now_held s t v live size p a e =
    let same = same_value (slab_alloc size s) a.result e in
    elim a.granted [
      | inl f ↦ inl (sym same ∙ f.0, f.1)
      | inr f ↦ inr ((λ z. f.0 (same ∙ z)), f.1 ∙ ap (λ n. n ∷ live) same)
    ]

alloc-Pool :
    (s t : Slabs) (v : View) (live now : List ℕ) (size p : ℕ) (a : Allocation s v live size)
    → slab_alloc size s ≡ (returned p, t)
    → a.now ≡ now
    → Pool t a.view now
alloc-Pool s t v live now size p a e f =
    subst (λ u. Pool u a.view now) (same_state (slab_alloc size s) a.result e)
      (subst (Pool a.after a.view) f a.pool)

-- A word of a held object may change.
write-Pool :
    (s : Slabs) (v : View) (live : List ℕ) (p k x : ℕ)
    → Pool s v live
    → contains live p ≡ true
    → 4 * k + 4 ≤ object_size s p
    → Pool (record s { word = update s.word (p + 4 * k) x }) v live
write-Pool s v live p k x h i fits =
    let size = (h.page (page_base p) (h.held p i).slab).header.size in
    Pool-write s v live p (update s.word (p + 4 * k) x) h i
      (λ a out. update_ne s.word (p + 4 * k) a x (inside a (omega (arith, size)) out))
  where
    inside :
        (a : ℕ)
        → 4 * k + 4 ≤ class_size (v.class (page_base p))
        → Outside p (class_size (v.class (page_base p))) a
        → p + 4 * k ≢ a
    inside a b (inl f) e = omega arith
    inside a b (inr f) e = omega arith

Step-Pool :
    (s t : Slabs) (v : View) (live now : List ℕ)
    → Pool s v live
    → Step s live t now
    → (w : View) × Pool t w now
Step-Pool s t v live now h (allocates size p small e n) =
    let a = slab_alloc-Allocation s v live size h small in
    elim (now_held s t v live size p a e) [
      | inl f ↦ absurd (n f.0)
      | inr f ↦ (a.view, alloc-Pool s t v live (p ∷ live) size p a e f.1)
    ]
Step-Pool s t v live now h (declines size small e) =
    let a = slab_alloc-Allocation s v live size h small in
    elim (now_held s t v live size 0 a e) [
      | inl f ↦ (a.view, alloc-Pool s t v live live size 0 a e f.1)
      | inr f ↦ absurd (f.0 refl)
    ]
Step-Pool s t v live now h (frees p n i e) =
    let f = slab_free-Pushed s v live p h i in
    let b = page_base p in
    let w = turn v b (p ∷ v.free b) f.pages in
    (w, subst (λ u. Pool u w (without p live)) (same_state (slab_free p s) f.result e) f.pool)
Step-Pool s t v live now h (writes p k x i fits) = (v, write-Pool s v live p k x h i fits)

pub Reach-Pool : {s : Slabs} {live : List ℕ} → Reach s live → (v : View) × Pool s v live
Reach-Pool (start s e supply) = (no_view, Pool-init s e supply)
Reach-Pool (step {s} {t} {live} {now} r e) =
    let before = Reach-Pool r in Step-Pool s t before.0 live now before.1 e
