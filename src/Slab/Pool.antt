-- ===== src/Slab/Pool.antt =====
-- The slab allocator of src/mm/slab.c as a whole: which pages it has, which objects of each page are
-- free, which pages each class lists, and which objects its callers hold.
use eyn_os.Base.{
  ℕ, ◌+◌, ◌≤◌, ◌<◌, ◌≡◌, ◌≢◌, refl, ap, sym, ◌∙◌, subst, Bool, true, false, List, [], ◌∷◌, contains,
  Distinct, ◌==◌, arith, Bool-cases, ==_iff, ==_refl, inl, inr, ◌⊎◌, update, is_cons,
}
use eyn_os.Slab.{Slabs, Header, page_base}
use eyn_os.Slab.Class.{class_count}
use eyn_os.Slab.Objects.{
  PageAddr, Object, ObjectAt, class_size, page_base-object, class_size-bounds, object_end,
  objects-apart, pages-apart,
}
use eyn_os.Slab.Memory.{Walk, Walk-frame, Outside}
use eyn_os.Slab.Page.{PageOk}

pub record View : Type 0 where
  pub is_slab : ℕ → Bool
  pub class : ℕ → ℕ
  pub free : ℕ → List ℕ
  pub pages : ℕ → List ℕ

-- The pages that vmm_kmalloc_page is still to answer are none that it has answered before.
abbrev pub Supply : (is_slab : ℕ → Bool) → List ℕ → Type 0
Supply is_slab [] = Unit {0}
Supply is_slab (a ∷ rest) =
    ((a ≡ 0) ⊎ (PageAddr a × (is_slab a ≡ false) × (contains rest a ≡ false))) × Supply is_slab rest

-- The page `b` is rightly in the list of class `c`.
pub record Member (v : View) (c b : ℕ) : Type 0 where
  pub slab : v.is_slab b ≡ true
  pub class : v.class b ≡ c
  pub has_free : is_cons (v.free b) ≡ true

-- A caller holds the object `p`.
pub record Held (v : View) (p : ℕ) : Type 0 where
  pub slab : v.is_slab (page_base p) ≡ true
  pub object : Object (page_base p) (class_size (v.class (page_base p))) p
  pub not_free : contains (v.free (page_base p)) p ≡ false

pub record Pool (s : Slabs) (v : View) (live : List ℕ) : Type 0 where
  pub inited : s.is_inited ≡ true
  pub page : (b : ℕ) → v.is_slab b ≡ true → PageOk (s.header b) s.word b (v.class b) (v.free b)
  pub linked : (c : ℕ) → c < class_count → Walk (λ b. (s.header b).next) (s.partial c) (v.pages c)
  pub no_twice : (c : ℕ) → c < class_count → Distinct (v.pages c)
  pub member : (c b : ℕ) → c < class_count → contains (v.pages c) b ≡ true → Member v c b
  pub listed :
      (b : ℕ)
      → v.is_slab b ≡ true
      → is_cons (v.free b) ≡ true
      → contains (v.pages (v.class b)) b ≡ true
  pub supply : Supply v.is_slab s.answers
  pub held : (p : ℕ) → contains live p ≡ true → Held v p
  pub live_once : Distinct live

-- The view in which the page `b` has other free objects, and the lists of pages are others.
abbrev pub turn : View → (b : ℕ) → List ℕ → (ℕ → List ℕ) → View
turn v b free pages = record v { free = update v.free b free; pages = pages }

-- What a call that works on the page `b` must show.
pub record Turned (s : Slabs) (v : View) (b : ℕ) (free : List ℕ) (pages : ℕ → List ℕ) (t : Slabs)
    : Type 0 where
  pub inited : t.is_inited ≡ s.is_inited
  pub answers : t.answers ≡ s.answers
  pub headers : (d : ℕ) → b ≢ d → t.header d ≡ s.header d
  pub words : (a : ℕ) → t.word a ≡ s.word a
  pub page : PageOk (t.header b) t.word b (v.class b) free
  pub linked : (c : ℕ) → c < class_count → Walk (λ d. (t.header d).next) (t.partial c) (pages c)
  pub no_twice : (c : ℕ) → c < class_count → Distinct (pages c)
  pub member :
      (c d : ℕ) → c < class_count → contains (pages c) d ≡ true → Member (turn v b free pages) c d
  pub listed :
      (d : ℕ)
      → v.is_slab d ≡ true
      → is_cons (update v.free b free d) ≡ true
      → contains (pages (v.class d)) d ≡ true

-- Headers and words only matter where they are read.
pub PageOk-frame :
    (h k : Header) (w z : ℕ → ℕ) (b c : ℕ) (free : List ℕ)
    → k ≡ h
    → ((a : ℕ) → contains free a ≡ true → z a ≡ w a)
    → PageOk h w b c free
    → PageOk k z b c free
PageOk-frame h k w z b c free e same ok = record {
  addr = ok.addr;
  header = rw e ok.header;
  list = rw e (Walk-frame w z h.free_list free same ok.list);
  distinct = ok.distinct;
  objects = ok.objects;
  count = rw e ok.count;
}

turned_page :
    (s t : Slabs) (v : View) (b : ℕ) (free : List ℕ) (pages : ℕ → List ℕ)
    → ((d : ℕ) → v.is_slab d ≡ true → PageOk (s.header d) s.word d (v.class d) (v.free d))
    → Turned s v b free pages t
    → (d : ℕ) → v.is_slab d ≡ true
    → PageOk (t.header d) t.word d (v.class d) (update v.free b free d)
turned_page s t v b free pages page u d i = elim (Bool-cases (b == d)) [
  | inl e ↦
      subst (λ m. PageOk (t.header m) t.word m (v.class m) (update v.free b free m))
        ((==_iff b d).0 e) (simp (==_refl b) u.page)
  | inr e ↦ simp e (
      PageOk-frame (s.header d) (t.header d) s.word t.word d (v.class d) (v.free d)
        (u.headers d (λ same. ground (arith, same))) (λ a j. u.words a) (page d i))
]

pub Pool-Turned :
    (s t : Slabs) (v : View) (live now : List ℕ) (b : ℕ) (free : List ℕ) (pages : ℕ → List ℕ)
    → Pool s v live
    → Turned s v b free pages t
    → ((p : ℕ) → contains now p ≡ true → Held (turn v b free pages) p)
    → Distinct now
    → Pool t (turn v b free pages) now
Pool-Turned s t v live now b free pages h u held once = record {
  inited = u.inited ∙ h.inited;
  page = turned_page s t v b free pages h.page u;
  linked = u.linked;
  no_twice = u.no_twice;
  member = u.member;
  listed = u.listed;
  supply = subst (Supply v.is_slab) (sym u.answers) h.supply;
  held = held;
  live_once = once;
}

-- Two objects do not overlap, whatever their pages.
pub places-apart :
    (size : ℕ → ℕ) (b d p q : ℕ)
    → PageAddr b
    → PageAddr d
    → Object b (size b) p
    → Object d (size d) q
    → p ≢ q
    → (p + size b ≤ q) ⊎ (q + size d ≤ p)
places-apart size b d p q x y o u n = elim (Bool-cases (b == d)) [
  | inl e ↦
      let same = (==_iff b d).0 e in
      subst (λ m. (p + size b ≤ q) ⊎ (q + size m ≤ p)) same
        (objects-apart b (size b) o.0 u.0 p q o.1
          (subst (λ m. ObjectAt m (size m) u.0 q) (sym same) u.1) n)
  | inr e ↦
      let other = pages-apart b d x y (λ same. ground (arith, same)) in
      let first = object_end b (size b) o.0 p o.1 in
      let second = object_end d (size d) u.0 q u.1 in
      elim other [
        | inl f ↦ inl (omega (arith, first.1, second.0))
        | inr f ↦ inr (omega (arith, first.0, second.1))
      ]
]

pub class_size-pos : (c : ℕ) → c < class_count → 0 < class_size c
class_size-pos c l = let size = class_size-bounds c l in omega (arith, size.0)

Outside-of : (p size q other : ℕ) → 0 < other → (p + size ≤ q) ⊎ (q + other ≤ p) → Outside p size q
Outside-of p size q other l (inl f) = inr f
Outside-of p size q other l (inr f) = inl (omega arith)

-- An object of a slab page that is not the held object `p` starts outside it.
pub Outside-held :
    (s : Slabs) (v : View) (live : List ℕ) (p b a : ℕ)
    → Pool s v live
    → contains live p ≡ true
    → v.is_slab b ≡ true
    → Object b (class_size (v.class b)) a
    → p ≢ a
    → Outside p (class_size (v.class (page_base p))) a
Outside-held s v live p b a h i j o n =
    let at = h.held p i in
    let mine = h.page (page_base p) at.slab in
    let other = h.page b j in
    Outside-of p (class_size (v.class (page_base p))) a (class_size (v.class b))
      (class_size-pos (v.class b) other.header.class_lt)
      (places-apart (λ m. class_size (v.class m)) (page_base p) b p a mine.addr other.addr at.object
        o n)

-- A free object is not a held one.
pub free_not_held :
    (s : Slabs) (v : View) (live : List ℕ) (p b a : ℕ)
    → Pool s v live
    → contains live p ≡ true
    → v.is_slab b ≡ true
    → contains (v.free b) a ≡ true
    → p ≢ a
free_not_held s v live p b a h i j f e =
    let ok = h.page b j in
    let o = ok.objects a f in
    let base =
      page_base-object b (class_size (v.class b)) o.0 a ok.addr
        (class_size-pos (v.class b) ok.header.class_lt) o.1 in
    let same : page_base p ≡ b = ap page_base e ∙ base in
    let absent : contains (v.free b) a ≡ false =
      subst (λ m. contains (v.free m) a ≡ false) same
        (subst (λ m. contains (v.free (page_base p)) m ≡ false) e (h.held p i).not_free) in
    ground (arith, absent)

-- Words inside a held object may change.
pub Pool-write :
    (s : Slabs) (v : View) (live : List ℕ) (p : ℕ) (word : ℕ → ℕ)
    → Pool s v live
    → contains live p ≡ true
    → ((a : ℕ) → Outside p (class_size (v.class (page_base p))) a → word a ≡ s.word a)
    → Pool (record s { word = word }) v live
Pool-write s v live p word h i same = record {
  inited = h.inited;
  page = λ b j.
      let ok = h.page b j in
      PageOk-frame (s.header b) (s.header b) s.word word b (v.class b) (v.free b) refl
        (λ a f. same a (
          Outside-held s v live p b a h i j (ok.objects a f)
            (free_not_held s v live p b a h i j f)))
        ok;
  linked = h.linked;
  no_twice = h.no_twice;
  member = h.member;
  listed = h.listed;
  supply = h.supply;
  held = h.held;
  live_once = h.live_once;
}
