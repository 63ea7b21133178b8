-- ===== src/Slab/Grow.antt =====
-- slab_new_page of src/mm/slab.c: a page that vmm_kmalloc_page answers becomes the first page of a
-- class, with all its objects free.
use eyn_os.Base.{
  ℕ, zero, suc, ◌+◌, ◌-◌, ◌<◌, ◌≡◌, ◌≢◌, refl, ap, sym, ◌∙◌, subst, Bool, true, false, List, [],
  ◌∷◌, contains, Distinct, ◌==◌, arith, Bool-cases, ==_iff, ==_refl, inl, inr, update, update_self,
  update_ne, is_cons,
}
use native.Mathlib.Nat.{mul-div-le, mul_comm}
use eyn_os.Slab.{Slabs, Header, page_base, build_freelist, header_bytes, page_size}
use eyn_os.Slab.Class.{class_count}
use eyn_os.Slab.Objects.{
  PageAddr, Object, class_size, capacity, object_end, pages-apart, class_size-bounds,
}
use eyn_os.Slab.Memory.{Walk, Walk-frame}
use eyn_os.Slab.Page.{PageOk, PageOk-next}
use eyn_os.Slab.Page.Build.{
  Built, build_freelist-Built, new_header, new_header-PageOk, all_objects, capacity-bounds,
  objects_below,
}
use eyn_os.Slab.Pool.{View, Pool, Member, Held, Supply, PageOk-frame}
use eyn_os.Slab.Turn.{by_class}

-- The view with the page `a` of class `c`.
abbrev pub grown : View → (a c : ℕ) → View
grown v a c = record {
  is_slab = update v.is_slab a true;
  class = update v.class a c;
  free = update v.free a (all_objects a c);
  pages = update v.pages c (a ∷ v.pages c);
}

abbrev pub built_page : Slabs → (a c : ℕ) → ℕ × (ℕ → ℕ)
built_page s a c = build_freelist (a + header_bytes) (class_size c) (capacity (class_size c)) s.word

-- The state once the new page is listed.
abbrev pub grown_state : Slabs → (a c : ℕ) → List ℕ → Slabs
grown_state s a c rest = record s {
  header =
      update (update s.header a (new_header c (built_page s a c).0)) a
        (record (new_header c (built_page s a c).0) { next = s.partial c });
  partial = update s.partial c a;
  word = (built_page s a c).1;
  answers = rest;
}

Supply-grown :
    (is_slab : ℕ → Bool) (a : ℕ) (rest : List ℕ)
    → contains rest a ≡ false
    → Supply is_slab rest
    → Supply (update is_slab a true) rest
Supply-grown is_slab a [] absent h = tt
Supply-grown is_slab a (d ∷ rest) absent (h, later) = (
  elim h [
    | inl z ↦ inl z
    | inr f ↦
        let other : (a == d) ≡ false = ground (arith, absent) in inr (f.0, simp other f.1, f.2)
  ],
  Supply-grown is_slab a rest (ground (arith, absent)) later,
)

module _ (s : Slabs) (v : View) (live : List ℕ) (a c : ℕ) (rest : List ℕ) (h : Pool s v live)
    (l : c < class_count) (addr : PageAddr a) (new : v.is_slab a ≡ false)
    (later : contains rest a ≡ false) (supply : Supply v.is_slab rest) where
  built :
      Built (a + header_bytes) (class_size c) s.word (capacity (class_size c)) (built_page s a c)
  built =
      let size = class_size-bounds c l in
      build_freelist-Built (a + header_bytes) (class_size c) s.word (omega (arith, size.0))
        (capacity (class_size c))

  not_new : (d : ℕ) → v.is_slab d ≡ true → a ≢ d
  not_new d i same =
      let old = subst (λ m. v.is_slab m ≡ false) same new in absurd (ground (arith, old))

  -- The objects of the other pages lie outside the new one.
  word_kept :
      (d x : ℕ)
      → v.is_slab d ≡ true
      → Object d (class_size (v.class d)) x
      → (built_page s a c).1 x ≡ s.word x
  word_kept d x i o =
      let e = object_end d (class_size (v.class d)) o.0 x o.1 in
      let whole = mul-div-le (page_size - header_bytes) (class_size c) in
      let swap = mul_comm (class_size c) (capacity (class_size c)) in
      built.1 x (elim (pages-apart a d addr (h.page d i).addr (not_new d i)) [
        | inl f ↦ inr (omega (arith, whole, swap, e.0))
        | inr f ↦ inl (omega (arith, e.1))
      ])

  abbrev t : Slabs
  t = grown_state s a c rest

  headers : (d : ℕ) → a ≢ d → t.header d ≡ s.header d
  headers d n =
      let k = new_header c (built_page s a c).0 in
      update_ne (update s.header a k) a d (record k { next = s.partial c }) n
      ∙ update_ne s.header a d k n

  first_page :
      PageOk
        (record (new_header c (built_page s a c).0) { next = s.partial c })
        t.word
        a
        c
        (all_objects a c)
  first_page =
      PageOk-next (new_header c (built_page s a c).0) t.word a c (s.partial c) (all_objects a c)
        (new_header-PageOk a c (built_page s a c) s.word addr l built)

  was_slab : (d : ℕ) → (a == d) ≡ false → (grown v a c).is_slab d ≡ true → v.is_slab d ≡ true
  was_slab d e i = ground (arith, i)

  pages_ok :
      (d : ℕ)
      → (grown v a c).is_slab d ≡ true
      → PageOk (t.header d) t.word d ((grown v a c).class d) ((grown v a c).free d)
  pages_ok d i = elim (Bool-cases (a == d)) [
    | inl e ↦
        subst (λ m. PageOk (t.header m) t.word m ((grown v a c).class m) ((grown v a c).free m))
          ((==_iff a d).0 e) (simp (==_refl a) first_page)
    | inr e ↦
        let old = was_slab d e i in
        let ok = h.page d old in
        simp e (
          PageOk-frame (s.header d) (s.header d) s.word t.word d (v.class d) (v.free d) refl
            (λ x f. word_kept d x old (ok.objects x f)) ok)
  ]

  listed_old : (e d : ℕ) → e < class_count → contains (v.pages e) d ≡ true → a ≢ d
  listed_old e d m i = not_new d (h.member e d m i).slab

  links :
      (e : ℕ)
      → e < class_count
      → Walk (λ d. (t.header d).next) (t.partial e) ((grown v a c).pages e)
  links =
      let after = λ (d : ℕ). (t.header d).next in
      by_class (λ e xs. e < class_count → Walk after (update s.partial c a e) xs) c (a ∷ v.pages c)
        v.pages
        (λ m. (
          update_self s.partial c a,
          subst (λ q. Walk after q (v.pages c)) (sym (simp (==_refl a) refl))
              (Walk-frame (λ d. (s.header d).next) after (s.partial c) (v.pages c)
                (λ d i. ap (λ (g : Header). g.next) (headers d (listed_old c d m i)))
                (h.linked c m)),
        ))
        (λ e o m.
          subst (λ q. Walk after q (v.pages e)) (sym (unchanged e o))
            (Walk-frame (λ d. (s.header d).next) after (s.partial e) (v.pages e)
              (λ d i. ap (λ (g : Header). g.next) (headers d (listed_old e d m i))) (h.linked e m)))
    where
      unchanged : (e : ℕ) → (c == e) ≡ false → update s.partial c a e ≡ s.partial e
      unchanged e o = simp o refl

  once : (e : ℕ) → e < class_count → Distinct ((grown v a c).pages e)
  once =
      by_class (λ e xs. e < class_count → Distinct xs) c (a ∷ v.pages c) v.pages
        (λ m. (absent m, h.no_twice c m)) (λ e o m. h.no_twice e m)
    where
      absent : c < class_count → contains (v.pages c) a ≡ false
      absent m = elim (Bool-cases (contains (v.pages c) a)) [
        | inl e ↦ absurd (listed_old c a m e refl)
        | inr e ↦ e
      ]

  old-Member : (e d : ℕ) → a ≢ d → Member v e d → Member (grown v a c) e d
  old-Member e d n m =
      let o : (a == d) ≡ false = ground arith in
      record { slab = simp o m.slab; class = simp o m.class; has_free = simp o m.has_free }

  is_cons-all : (size base k : ℕ) → 0 < k → is_cons (objects_below base size k) ≡ true
  is_cons-all size base zero m = absurd (omega arith)
  is_cons-all size base (suc k) m = refl

  new-Member : Member (grown v a c) c a
  new-Member =
      let total = capacity-bounds c l in
      record {
        slab = simp (==_refl a) refl;
        class = simp (==_refl a) refl;
        has_free =
            simp (==_refl a)
              (is_cons-all (class_size c) (a + header_bytes) (capacity (class_size c)) total.0);
      }

  members :
      (e : ℕ)
      → e < class_count
      → (d : ℕ) → contains ((grown v a c).pages e) d ≡ true
      → Member (grown v a c) e d
  members =
      by_class (λ e xs. e < class_count → (d : ℕ) → contains xs d ≡ true → Member (grown v a c) e d)
        c (a ∷ v.pages c) v.pages
        (λ m d i. elim (Bool-cases (a == d)) [
          | inl e ↦ subst (Member (grown v a c) c) ((==_iff a d).0 e) new-Member
          | inr e ↦
              let old : contains (v.pages c) d ≡ true = ground (arith, i) in
              old-Member c d (listed_old c d m old) (h.member c d m old)
        ])
        (λ e o m d i. old-Member e d (listed_old e d m i) (h.member e d m i))

  still-Held : (p : ℕ) → contains live p ≡ true → Held (grown v a c) p
  still-Held p i =
      let g = h.held p i in
      let n = not_new (page_base p) g.slab in
      let o : (a == page_base p) ≡ false = ground arith in
      record { slab = simp o g.slab; object = simp o g.object; not_free = simp o g.not_free }

  new_listed :
      (d : ℕ)
      → (grown v a c).is_slab d ≡ true
      → is_cons ((grown v a c).free d) ≡ true
      → contains ((grown v a c).pages ((grown v a c).class d)) d ≡ true
  new_listed d i j = elim (Bool-cases (a == d)) [
    | inl e ↦
        subst (λ m. contains ((grown v a c).pages ((grown v a c).class m)) m ≡ true)
          ((==_iff a d).0 e) (simp (==_refl a, ==_refl c) refl)
    | inr e ↦
        let old = h.listed d (was_slab d e i) (ground (arith, j)) in
        simp e (elim (Bool-cases (c == v.class d)) [
          | inl f ↦
              let class = (==_iff c (v.class d)).0 f in
              simp (f, e) (subst (λ m. contains (v.pages m) d ≡ true) (sym class) old)
          | inr f ↦ simp f old
        ])
  ]

  pub Pool-grown : Pool t (grown v a c) live
  Pool-grown = record {
    inited = h.inited;
    page = pages_ok;
    linked = links;
    no_twice = once;
    member = λ e d m i. members e m d i;
    listed = new_listed;
    supply = Supply-grown v.is_slab a rest later supply;
    held = still-Held;
    live_once = h.live_once;
  }
