-- ===== src/Slab/Serve/Call.antt =====
-- A call of slab_alloc of src/mm/slab.c, by what its class has.
use eyn_os.Base.{
  ℕ, ◌^◌, ◌<◌, ◌≡◌, ◌≢◌, refl, ap, sym, ◌∙◌, subst, true, false, none, some, List, [], ◌∷◌,
  List-cases, contains, ◌==◌, arith, Bool-cases, ==_refl, inl, inr, update_self,
}
use eyn_os.Slab.{
  Slabs, returned, kmalloc_page, use_page, new_page, pop_new, alloc_class, slab_alloc,
}
use eyn_os.Slab.Class.{class_index_for_size, LeastClass, class_index_for_size-LeastClass}
use eyn_os.Slab.Objects.{PageAddr, class_size, object_end}
use eyn_os.Slab.Memory.{Walk}
use eyn_os.Slab.Page.Build.{capacity-bounds}
use eyn_os.Slab.Pool.{View, Pool, Supply}
use eyn_os.Slab.Pop.First.{pop_object-Popped}
use eyn_os.Slab.Grow.{grown, grown_state, Pool-grown}
use eyn_os.Slab.Serve.{
  Allocation, Refused, never-Refused, slab_alloc-class, slab_alloc-no_frames, slab_alloc-no_bytes,
  pop_new-grown, refusal, grant,
}

module _ (s : Slabs) (v : View) (live : List ℕ) (size c : ℕ) (h : Pool s v live)
    (frames : (s.total_frames == 0) ≡ false) (there : (size == 0) ≡ false)
    (found : class_index_for_size size ≡ some c) (least : LeastClass size c) where
  not-Refused : (s.partial c ≡ 0 → (kmalloc_page s.answers).0 ≢ 0) → ¬ Refused s size
  not-Refused = never-Refused s size c (λ e. ground (arith, e)) (λ e. ground (arith, e)) least

  to_class : slab_alloc size s ≡ alloc_class (some c) s
  to_class = slab_alloc-class s size (some c) h.inited frames there found

  listed : (xs : List ℕ) → v.pages c ≡ xs → Walk (λ d. (s.header d).next) (s.partial c) xs
  listed xs e = subst (Walk (λ d. (s.header d).next) (s.partial c)) e (h.linked c least.inside)

  -- A listed page is there, and so is its first free object.
  nonempty :
      (b x : ℕ) (xs : List ℕ)
      → v.is_slab b ≡ true
      → v.free b ≡ x ∷ xs
      → ((b == 0) ≡ false) × (((s.header b).free_list == 0) ≡ false)
  nonempty b x xs slab e =
      let ok = h.page b slab in
      let o = ok.objects x (rw e (simp (==_refl x) refl)) in
      let place = object_end b (class_size (v.class b)) o.0 x o.1 in
      let head = (subst (Walk s.word (s.header b).free_list) e ok.list).0 in
      (ground (arith, ok.addr.above), simp head (ground (arith, place.0)))

  -- The first page of the class has a free object.
  from_page : (b : ℕ) (bs : List ℕ) → v.pages c ≡ b ∷ bs → Allocation s v live size
  from_page b bs e =
      let m = h.member c b least.inside (rw e (simp (==_refl b) refl)) in
      let p = pop_object-Popped s v live c b bs h least.inside e m.slab m.class m.has_free in
      let there = nonempty b p.object p.rest m.slab p.was_first in
      grant s s v v live size c b h m.slab m.class least
        (not-Refused (λ z. absurd (ground (arith, there.0, z, (listed (b ∷ bs) e).0))))
        (to_class ∙ simp ((listed (b ∷ bs) e).0, there.0, there.1) refl) p

  -- The class has no page with a free object.
  empty_list : v.pages c ≡ [] → slab_alloc size s ≡ pop_new c (new_page c (class_size c) s)
  empty_list e = to_class ∙ simp (listed [] e) refl

  no_page :
      (rest : List ℕ)
      → v.pages c ≡ []
      → kmalloc_page s.answers ≡ (0, rest)
      → Supply v.is_slab rest
      → Allocation s v live size
  unfolding new_page
  no_page rest e k supply =
      let t = record s { answers = rest } in
      refusal s t v live size
        (record {
          inited = h.inited;
          page = h.page;
          linked = h.linked;
          no_twice = h.no_twice;
          member = h.member;
          listed = h.listed;
          supply = supply;
          held = h.held;
          live_once = h.live_once;
        })
        (empty_list e ∙ refused) (inr (inr (inr (c, least, listed [] e, ap (λ a. a.0) k))))
    where
      refused :
          pop_new c (use_page c (class_size c) (kmalloc_page s.answers) s)
          ≡ (returned 0, record s { answers = rest })
      refused = simp k refl

  new_one :
      (a : ℕ) (rest : List ℕ)
      → v.pages c ≡ []
      → s.answers ≡ a ∷ rest
      → PageAddr a
      → v.is_slab a ≡ false
      → contains rest a ≡ false
      → Supply v.is_slab rest
      → Allocation s v live size
  new_one a rest e k addr new later supply =
      let t = grown_state s a c rest in
      let w = grown v a c in
      let total = capacity-bounds c least.inside in
      let g = Pool-grown s v live a c rest h least.inside addr new later supply in
      let m = g.member c a least.inside (simp (==_refl c) (simp (==_refl a) refl)) in
      let p =
        pop_object-Popped t w live c a (v.pages c) g least.inside
          (update_self v.pages c (a ∷ v.pages c)) m.slab m.class m.has_free in
      grant s t v w live size c a g m.slab m.class least
        (not-Refused (λ z x. omega (arith, addr.above, sym (ap (λ q. (kmalloc_page q).0) k) ∙ x)))
        (empty_list e
          ∙ pop_new-grown s c a rest (ap kmalloc_page k) (ground (arith, addr.above))
              (ground (arith, total.0)))
        p

  pub slab_alloc-of_class : Allocation s v live size
  slab_alloc-of_class = elim (List-cases (v.pages c)) [
    | inl e ↦ by_answers e s.answers refl h.supply
    | inr f ↦ from_page f.0 f.1 f.2
  ]
    where
      by_answers :
          v.pages c ≡ []
          → (xs : List ℕ) → s.answers ≡ xs
          → Supply v.is_slab xs
          → Allocation s v live size
      by_answers e [] k supply = no_page [] e (ap kmalloc_page k) tt
      by_answers e (a ∷ rest) k (inl z, supply) =
          no_page rest e (ap kmalloc_page k ∙ ap (λ n. (n, rest)) z) supply
      by_answers e (a ∷ rest) k (inr f, supply) = new_one a rest e k f.0 f.1 f.2 supply

-- Every call on a sound allocator returns.
pub slab_alloc-Allocation :
    (s : Slabs) (v : View) (live : List ℕ) (size : ℕ)
    → Pool s v live
    → size < 2 ^ 32
    → Allocation s v live size
slab_alloc-Allocation s v live size h small = elim (Bool-cases (s.total_frames == 0)) [
  | inl e ↦ refusal s s v live size h (slab_alloc-no_frames s size h.inited e) (inl (ground arith))
  | inr e ↦ elim (Bool-cases (size == 0)) [
    | inl f ↦
        refusal s s v live size h (slab_alloc-no_bytes s size h.inited e f)
          (inr (inl (ground arith)))
    | inr f ↦ elim (class_index_for_size-LeastClass size (ground arith) small) [
      | inl g ↦
          refusal s s v live size h (slab_alloc-class s size none h.inited e f g.1)
            (inr (inr (inl g.0)))
      | inr g ↦ slab_alloc-of_class s v live size g.0 h e f g.1 g.2
    ]
  ]
]
