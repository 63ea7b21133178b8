-- ===== src/Slab/Safety.antt =====
-- What the callers of src/mm/slab.c may rely on, whatever the history of calls.
use eyn_os.Base.{
  ℕ, ◌+◌, ◌^◌, ◌≤◌, ◌<◌, ◌≡◌, ◌≢◌, refl, ap, sym, ◌∙◌, subst, true, false, List, [], ◌∷◌, contains,
  ◌==◌, leb, arith, ==_refl, inl, inr, ◌⊎◌,
}
use eyn_os.Slab.{Slabs, returned, panicked, page_base, slab_alloc, slab_free}
use eyn_os.Slab.Class.{class_count, LeastClass}
use eyn_os.Slab.Objects.{
  class_size, object_end, owns-object, obj_ptr_is_valid-object, page_base-object,
}
use eyn_os.Slab.Memory.{Walk}
use eyn_os.Slab.Page.{freelist_contains-free}
use eyn_os.Slab.Pool.{View, Pool, turn, places-apart, class_size-pos}
use eyn_os.Slab.Push.Free.{slab_free-Pushed}
use eyn_os.Slab.Serve.{Allocation, Refused, never-Refused}
use eyn_os.Slab.Serve.Call.{slab_alloc-Allocation}
use eyn_os.Slab.Without.{without}
use eyn_os.Slab.Reach.{Reach, Step, object_size, Reach-Pool, same_state}

-- Whatever calls of slab_alloc, frees of held objects and writes of words into held objects came
-- before, from the first call on, two different objects that callers hold do not overlap, while
-- vmm_kmalloc_page answers NULL or pages of the kernel that are not in use.
pub held-apart :
    (s : Slabs) (live : List ℕ) (p q : ℕ)
    → Reach s live
    → contains live p ≡ true
    → contains live q ≡ true
    → p ≢ q
    → (p + object_size s p ≤ q) ⊎ (q + object_size s q ≤ p)
held-apart s live p q r i j n = let (v, h) = Reach-Pool r in apart v h
  where
    apart : (v : View) → Pool s v live → (p + object_size s p ≤ q) ⊎ (q + object_size s q ≤ p)
    apart v h =
        let a = h.held p i in
        let b = h.held q j in
        let x = h.page (page_base p) a.slab in
        let y = h.page (page_base q) b.slab in
        simp (x.header.size, y.header.size)
          (places-apart (λ m. class_size (v.class m)) (page_base p) (page_base q) p q x.addr y.addr
            a.object b.object n)

-- The answer of slab_alloc: NULL for one of the reasons, or without any of them an object that no
-- caller holds, of the least size that is enough.
abbrev pub Answer : Slabs → List ℕ → (size value : ℕ) → Slabs → Type 0
Answer s live size value t =
    ((value ≡ 0) × Refused s size × Reach t live)
    ⊎ ((value ≢ 0)
        × (contains live value ≡ false)
        × (¬ Refused s size)
        × Reach t (value ∷ live)
        × ((c : ℕ) × LeastClass size c × (object_size t value ≡ class_size c)))

-- After any such history slab_alloc of fewer than 2^32 bytes returns without a panic: NULL exactly when
-- no frame is known, no byte is asked for, more than 2048 are, or the list of the class is empty and
-- vmm_kmalloc_page answers NULL; or else an object that no caller holds, of the least class that is large
-- enough.
pub slab_alloc-returns :
    (s : Slabs) (live : List ℕ) (size : ℕ)
    → Reach s live
    → size < 2 ^ 32
    → (value : ℕ) × (t : Slabs) × (slab_alloc size s ≡ (returned value, t))
      × Answer s live size value t
slab_alloc-returns s live size r small =
    let a = slab_alloc-Allocation s (Reach-Pool r).0 live size (Reach-Pool r).1 small in
    (a.value, a.after, a.result, answer a)
  where
    answer : (a : Allocation s (Reach-Pool r).0 live size) → Answer s live size a.value a.after
    answer a = elim a.granted [
      | inl f ↦ inl (
        f.0,
        f.2,
        Reach.step r (Step.declines size small (a.result ∙ ap (λ n. (returned n, a.after)) f.0)),
      )
      | inr f ↦
          let h = subst (Pool a.after a.view) f.1 a.pool in
          let g = h.held a.value (simp (==_refl a.value) refl) in
          inr (
            f.0,
            h.live_once.0,
            f.2,
            Reach.step r (Step.allocates size a.value small a.result f.0),
            (
              a.view.class (page_base a.value),
              f.3,
              (h.page (page_base a.value) g.slab).header.size,
            ),
          )
    ]

-- A free object is refused.
free_again :
    (t : Slabs) (v : View) (live : List ℕ) (b p : ℕ)
    → Pool t v live
    → v.is_slab b ≡ true
    → contains (v.free b) p ≡ true
    → slab_free p t ≡ (panicked, t)
unfolding slab_free
free_again t v live b p h i j =
    let ok = h.page b i in
    let o = ok.objects p j in
    let c = v.class b in
    let e = object_end b (class_size c) o.0 p o.1 in
    let base =
      page_base-object b (class_size c) o.0 p ok.addr (class_size-pos c ok.header.class_lt) o.1 in
    let there : (p == 0) ≡ false = ground (arith, e.0) in
    let owned = owns-object t b c o.0 p ok.addr ok.header o.1 in
    let class : leb class_count (t.header b).class_index ≡ false =
      ground (arith, ok.header.class_lt, ok.header.class) in
    let valid = obj_ptr_is_valid-object t b c o.0 p ok.addr ok.header o.1 in
    let found = freelist_contains-free t b c p (v.free b) ok (omega (arith, e.0)) ∙ j in
    simp (there, owned, base, class, valid, found) refl

-- After any such history slab_free of a held object returns 1, the object is not held any more, and a
-- second slab_free of it panics.
pub slab_free-twice :
    (s : Slabs) (live : List ℕ) (p : ℕ)
    → Reach s live
    → contains live p ≡ true
    → (t : Slabs) × (slab_free p s ≡ (returned 1, t))
      × Reach t (without p live)
      × (slab_free p t ≡ (panicked, t))
slab_free-twice s live p r i =
    let h = Reach-Pool r in
    let f = slab_free-Pushed s h.0 live p h.1 i in
    let b = page_base p in
    (
      f.after,
      f.result,
      Reach.step r (Step.frees p 1 i f.result),
      free_again f.after (turn h.0 b (p ∷ h.0.free b) f.pages) (without p live) b p f.pool
          (h.1.held p i).slab (simp (==_refl b, ==_refl p) refl),
    )

-- The list of a class with a page is not empty.
listed_page :
    (t : Slabs) (v : View) (live : List ℕ) (c : ℕ) (xs : List ℕ)
    → Pool t v live
    → c < class_count
    → v.pages c ≡ xs
    → (b : ℕ) → contains xs b ≡ true
    → t.partial c ≢ 0
listed_page t v live c [] h l e b i z = absurd (ground (arith, i))
listed_page t v live c (x ∷ xs) h l e b i z =
    let m = h.member c x l (rw e (simp (==_refl x) refl)) in
    let head = (subst (Walk (λ d. (t.header d).next) (t.partial c)) e (h.linked c l)).0 in
    let addr = (h.page x m.slab).addr in omega (arith, addr.above, head, z)

-- After any such history and the free of an object of a class, slab_alloc of a size of that class is
-- not NULL, once frames are known.
pub slab_alloc-after_free :
    (s t : Slabs) (live : List ℕ) (p size c : ℕ)
    → Reach s live
    → contains live p ≡ true
    → slab_free p s ≡ (returned 1, t)
    → t.total_frames ≢ 0
    → (s.header (page_base p)).class_index ≡ c
    → size ≢ 0
    → size < 2 ^ 32
    → LeastClass size c
    → (value : ℕ) × (u : Slabs) × (slab_alloc size t ≡ (returned value, u)) × (value ≢ 0)
slab_alloc-after_free s t live p size c r i e frames class n small least =
    let h = Reach-Pool r in
    let f = slab_free-Pushed s h.0 live p h.1 i in
    let b = page_base p in
    let w = turn h.0 b (p ∷ h.0.free b) f.pages in
    let g : Pool t w (without p live) =
      subst (λ u. Pool u w (without p live)) (same_state (slab_free p s) f.result e) f.pool in
    let mine : h.0.class b ≡ c = sym (h.1.page b (h.1.held p i).slab).header.class ∙ class in
    let in_list = g.listed b (h.1.held p i).slab (simp (==_refl b) refl) in
    let there =
      listed_page t w (without p live) c (f.pages c) g least.inside refl b
        (subst (λ m. contains (f.pages m) b ≡ true) mine in_list) in
    let a = slab_alloc-Allocation t w (without p live) size g small in
    (
      a.value,
      a.after,
      a.result,
      elim a.granted [
        | inl z ↦ absurd (never-Refused t size c frames n least (λ z k. there z) z.2)
        | inr z ↦ z.0
      ],
    )
