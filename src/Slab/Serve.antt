-- ===== src/Slab/Serve.antt =====
-- slab_alloc of src/mm/slab.c: what a call answers, and what it leaves.
pub mod Call
use eyn_os.Base.{
  ℕ, zero, suc, ◌+◌, ◌-◌, ◌/◌, ◌^◌, ◌≤◌, ◌<◌, ◌≡◌, ◌≢◌, refl, ap, sym, ◌∙◌, subst, Bool, true,
  false, not, Option, none, some, List, [], ◌∷◌, List-cases, contains, ◌==◌, arith, Bool-cases,
  ==_iff, ==_refl, inl, inr, ◌⊎◌, ◌||◌, update, update_self, is_cons, if◌then◌else◌,
}
use eyn_os.Slab.{
  Slabs, Header, Outcome, returned, page_base, kmalloc_page, use_page, new_page, init, pop_new,
  pop_object, alloc_class, alloc_size, slab_alloc,
}
use eyn_os.Slab.Class.{
  class_count, max_shift, class_index_for_size, LeastClass, class_index_for_size-LeastClass,
}
use eyn_os.Slab.Objects.{
  PageAddr, capacity, class_size, class_size-bounds, object_end, page_base-object,
}
use eyn_os.Slab.Memory.{Walk}
use eyn_os.Slab.Page.Build.{capacity-bounds}
use eyn_os.Slab.Pool.{View, Pool, Member, Supply, turn, class_size-pos}
use eyn_os.Slab.Pop.{Popped}
use eyn_os.Slab.Grow.{grown, grown_state, Pool-grown}

-- Why slab_alloc answers NULL: no frames yet, a size that no class serves, or no page of the class has
-- a free object and no page is to be had.
abbrev pub Refused : Slabs → (size : ℕ) → Type 0
Refused s size =
    (s.total_frames ≡ 0)
    ⊎ ((size ≡ 0)
        ⊎ ((2 ^ max_shift < size)
            ⊎ ((c : ℕ) × LeastClass size c × (s.partial c ≡ 0) × ((kmalloc_page s.answers).0 ≡ 0))))

-- Either NULL, and nothing but the answers of vmm_kmalloc_page changes, or an object of the least class
-- that is large enough, which the caller holds from now on.
pub record Allocation (s : Slabs) (v : View) (live : List ℕ) (size : ℕ) : Type 0 where
  pub value : ℕ
  pub after : Slabs
  pub view : View
  pub now : List ℕ
  pub result : slab_alloc size s ≡ (returned value, after)
  pub pool : Pool after view now
  pub granted :
      ((value ≡ 0) × (now ≡ live) × Refused s size)
      ⊎ ((value ≢ 0)
          × (now ≡ value ∷ live)
          × (¬ Refused s size)
          × LeastClass size (view.class (page_base value)))

pub slab_alloc-class :
    (s : Slabs) (size : ℕ) (found : Option ℕ)
    → s.is_inited ≡ true
    → (s.total_frames == 0) ≡ false
    → (size == 0) ≡ false
    → class_index_for_size size ≡ found
    → slab_alloc size s ≡ alloc_class found s
unfolding slab_alloc init
slab_alloc-class s size found e f g i = simp (e, f, g, i) refl

pub slab_alloc-no_frames :
    (s : Slabs) (size : ℕ)
    → s.is_inited ≡ true
    → (s.total_frames == 0) ≡ true
    → slab_alloc size s ≡ (returned 0, s)
unfolding slab_alloc init
slab_alloc-no_frames s size e f = simp (e, f) refl

pub slab_alloc-no_bytes :
    (s : Slabs) (size : ℕ)
    → s.is_inited ≡ true
    → (s.total_frames == 0) ≡ false
    → (size == 0) ≡ true
    → slab_alloc size s ≡ (returned 0, s)
unfolding slab_alloc init
slab_alloc-no_bytes s size e f g = simp (e, f, g) refl

pub pop_new-grown :
    (s : Slabs) (c a : ℕ) (rest : List ℕ)
    → kmalloc_page s.answers ≡ (a, rest)
    → (a == 0) ≡ false
    → (capacity (class_size c) == 0) ≡ false
    → pop_new c (new_page c (class_size c) s) ≡ pop_object c a (grown_state s a c rest)
unfolding new_page
pop_new-grown s c a rest k e f = simp (k, e, f, ==_refl a) refl

pub LeastClass-unique : (size c d : ℕ) → LeastClass size c → LeastClass size d → c ≡ d
LeastClass-unique size c d a b = omega (arith, a.least d b.enough, b.least c a.enough)

-- A call for a size of class `c` is served while the class lists a page or there is a new one.
pub never-Refused :
    (t : Slabs) (size c : ℕ)
    → t.total_frames ≢ 0
    → size ≢ 0
    → LeastClass size c
    → (t.partial c ≡ 0 → (kmalloc_page t.answers).0 ≢ 0)
    → ¬ Refused t size
never-Refused t size c f n least p (inl a) = f a
never-Refused t size c f n least p (inr (inl a)) = n a
never-Refused t size c f n least p (inr (inr (inl a))) =
    let e = least.enough in let b = class_size-bounds c least.inside in omega (arith, b.1)
never-Refused t size c f n least p (inr (inr (inr (d, other, a, k)))) =
    p (ap t.partial (LeastClass-unique size c d least other) ∙ a) k

-- Nothing to give.
pub refusal :
    (s t : Slabs) (v : View) (live : List ℕ) (size : ℕ)
    → Pool t v live
    → slab_alloc size s ≡ (returned 0, t)
    → Refused s size
    → Allocation s v live size
refusal s t v live size h e r = record {
  value = 0;
  after = t;
  view = v;
  now = live;
  result = e;
  pool = h;
  granted = inl (refl, refl, r);
}

-- The object that a pop gives.
pub grant :
    (s t : Slabs) (v w : View) (live : List ℕ) (size c b : ℕ)
    → Pool t w live
    → w.is_slab b ≡ true
    → w.class b ≡ c
    → LeastClass size c
    → (¬ Refused s size)
    → slab_alloc size s ≡ pop_object c b t
    → Popped t w live c b
    → Allocation s v live size
grant s t v w live size c b h slab class least never e p =
    let ok = h.page b slab in
    let in_free : contains (w.free b) p.object ≡ true =
      rw p.was_first (simp (==_refl p.object) refl) in
    let o = ok.objects p.object in_free in
    let place = object_end b (class_size (w.class b)) o.0 p.object o.1 in
    let base =
      page_base-object b (class_size (w.class b)) o.0 p.object ok.addr
        (class_size-pos (w.class b) ok.header.class_lt) o.1 in
    record {
      value = p.object;
      after = p.after;
      view = turn w b p.rest p.pages;
      now = p.object ∷ live;
      result = e ∙ p.result;
      pool = p.pool;
      granted = inr (
        λ z. omega (arith, place.0, z),
        refl,
        never,
        subst (LeastClass size) (sym (ap w.class base ∙ class)) least,
      );
    }
