-- ===== src/Slab/Turn.antt =====
-- What a change of one slab page of src/mm/slab.c leaves true of the lists of pages and of the objects
-- that callers hold.
use eyn_os.Base.{
  ℕ, ◌≡◌, ◌≢◌, refl, sym, subst, true, false, List, [], ◌∷◌, contains, Distinct, ◌==◌, arith,
  Bool-cases, ==_iff, ==_refl, inl, inr, update, is_cons,
}
use eyn_os.Slab.{Slabs, page_base}
use eyn_os.Slab.Objects.{class_size, page_base-object}
use eyn_os.Slab.Pool.{View, Pool, Member, Held, turn, class_size-pos, free_not_held}

-- A page stays rightly listed when it still has a free object.
pub Member-turn :
    (v : View) (b c d : ℕ) (free : List ℕ) (pages : ℕ → List ℕ)
    → (b ≡ d → is_cons free ≡ true)
    → Member v c d
    → Member (turn v b free pages) c d
Member-turn v b c d free pages more m = record {
  slab = m.slab;
  class = m.class;
  has_free = elim (Bool-cases (b == d)) [
    | inl e ↦ simp e (more ((==_iff b d).0 e))
    | inr e ↦ simp e m.has_free
  ];
}

-- Another class does not list the page.
pub other_class : (v : View) (b c e d : ℕ) → v.class b ≡ c → (c == e) ≡ false → Member v e d → b ≢ d
other_class v b c e d mine other m same =
    let both : v.class d ≡ c = subst (λ n. v.class n ≡ c) same mine in ground (arith, both, m.class)

-- A page without free objects is not listed.
pub unlisted :
    (v : View) (b c : ℕ) (xs : List ℕ)
    → v.free b ≡ []
    → ((d : ℕ) → contains xs d ≡ true → Member v c d)
    → contains xs b ≡ false
unlisted v b c xs none member = elim (Bool-cases (contains xs b)) [
  | inl e ↦
      let has = subst (λ f. is_cons f ≡ true) none (member b e).has_free in
      absurd (ground (arith, has))
  | inr e ↦ e
]

-- What holds of class `c` with the first list, and of the others with the old ones.
pub by_class {κ} :
    (P : ℕ → List ℕ → Type κ) (c : ℕ) (now : List ℕ) (pages : ℕ → List ℕ)
    → P c now
    → ((e : ℕ) → (c == e) ≡ false → P e (pages e))
    → (e : ℕ) → P e (update pages c now e)
by_class P c now pages here there e = elim (Bool-cases (c == e)) [
  | inl i ↦ subst (λ n. P n (update pages c now n)) ((==_iff c e).0 i) (simp (==_refl c) here)
  | inr i ↦ simp i (there e i)
]

-- A held object stays held when it is not put on the free list.
pub Held-turn :
    (v : View) (b p : ℕ) (free : List ℕ) (pages : ℕ → List ℕ)
    → (contains (v.free b) p ≡ false → contains free p ≡ false)
    → Held v p
    → Held (turn v b free pages) p
Held-turn v b p free pages still h = record {
  slab = h.slab;
  object = h.object;
  not_free = elim (Bool-cases (b == page_base p)) [
    | inl e ↦
        let same = (==_iff b (page_base p)).0 e in
        simp e (still (subst (λ m. contains (v.free m) p ≡ false) (sym same) h.not_free))
    | inr e ↦ simp e h.not_free
  ];
}

-- The first free object of a page is held once it is taken.
pub Held-taken :
    (s : Slabs) (v : View) (live : List ℕ) (b x : ℕ) (xs : List ℕ) (pages : ℕ → List ℕ)
    → Pool s v live
    → v.is_slab b ≡ true
    → v.free b ≡ x ∷ xs
    → (p : ℕ) → contains (x ∷ live) p ≡ true
    → Held (turn v b xs pages) p
Held-taken s v live b x xs pages h i e p j = elim (Bool-cases (x == p)) [
  | inl f ↦ subst (Held (turn v b xs pages)) ((==_iff x p).0 f) first
  | inr f ↦
      let old : contains live p ≡ true = ground arith in
      Held-turn v b p xs pages
        (λ absent. ground (arith, subst (λ l. contains l p ≡ false) e absent)) (h.held p old)
]
  where
    first : Held (turn v b xs pages) x
    first =
        let ok = h.page b i in
        let in_free : contains (v.free b) x ≡ true = rw e (simp (==_refl x) refl) in
        let o = ok.objects x in_free in
        let base =
          page_base-object b (class_size (v.class b)) o.0 x ok.addr
            (class_size-pos (v.class b) ok.header.class_lt) o.1 in
        let once = (subst Distinct e ok.distinct).0 in
        record { slab = rw base i; object = rw base o; not_free = simp (base, ==_refl b) once }

pub Distinct-taken :
    (s : Slabs) (v : View) (live : List ℕ) (b x : ℕ) (xs : List ℕ)
    → Pool s v live
    → v.is_slab b ≡ true
    → v.free b ≡ x ∷ xs
    → Distinct (x ∷ live)
Distinct-taken s v live b x xs h i e = (
  elim (Bool-cases (contains live x)) [
    | inl f ↦
        let in_free : contains (v.free b) x ≡ true = rw e (simp (==_refl x) refl) in
        absurd (free_not_held s v live x b x h f i in_free refl)
    | inr f ↦ f
  ],
  h.live_once,
)

-- A page stays listed while the list of its class only loses other pages and gains some.
pub listed_by_class :
    (v : View) (b c d : ℕ) (free now : List ℕ)
    → ((a : ℕ) → contains (v.pages c) a ≡ true → b ≢ a → contains now a ≡ true)
    → (is_cons free ≡ true → contains now b ≡ true)
    → v.class b ≡ c
    → (is_cons (v.free d) ≡ true → contains (v.pages (v.class d)) d ≡ true)
    → is_cons (update v.free b free d) ≡ true
    → contains (update v.pages c now (v.class d)) d ≡ true
listed_by_class v b c d free now kept itself mine old i = elim (Bool-cases (b == d)) [
  | inl e ↦
      subst (λ m. contains (update v.pages c now (v.class m)) m ≡ true) ((==_iff b d).0 e)
        (let j : is_cons free ≡ true = ground (arith, i) in simp (mine, ==_refl c) (itself j))
  | inr e ↦
      let j : is_cons (v.free d) ≡ true = ground (arith, i) in
      elim (Bool-cases (c == v.class d)) [
        | inl f ↦
            let class = (==_iff c (v.class d)).0 f in
            simp f (
              kept d (subst (λ m. contains (v.pages m) d ≡ true) (sym class) (old j))
                (λ n. ground (arith, n)))
        | inr f ↦ simp f (old j)
      ]
]
