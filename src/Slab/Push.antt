-- ===== src/Slab/Push.antt =====
-- slab_free of src/mm/slab.c: a held object goes back to the free list of its page.
pub mod Written
pub mod Free
use eyn_os.Base.{
  ℕ, zero, suc, ◌+◌, ◌-◌, ◌≤◌, ◌<◌, ◌≡◌, ◌≢◌, refl, ap, sym, ◌∙◌, subst, Bool, true, false, not,
  List, [], ◌∷◌, contains, Distinct, length, ◌==◌, ltb, leb, arith, Bool-cases, ==_iff, ==_refl,
  inl, inr, lt→ltb, ◌⊎◌, ◌||◌, ◌&&◌, update, update_self, update_ne, is_cons, if◌then◌else◌,
}
use eyn_os.Slab.{
  Slabs, Header, Outcome, returned, panicked, page_base, set_header, poison, relink, push_object,
  slab_free, owns, obj_ptr_is_valid, freelist_contains,
}
use eyn_os.Slab.Class.{class_count}
use eyn_os.Slab.Objects.{Object, class_size, object_end, owns-object, obj_ptr_is_valid-object}
use eyn_os.Slab.Memory.{Walk, Walk-frame, Outside, poison-Outside}
use eyn_os.Slab.Page.{PageOk, freelist_contains-free, length-capacity}
use eyn_os.Slab.Pool.{
  View, Pool, Member, Held, turn, Turned, Pool-Turned, Pool-write, class_size-pos,
}
use eyn_os.Slab.Turn.{Member-turn, Held-turn, other_class, by_class, listed_by_class, unlisted}
use eyn_os.Slab.Without.{without, contains-without, Distinct-without}

-- The words once the object was poisoned and linked.
abbrev pub linked_words : Slabs → (b p : ℕ) → ℕ → ℕ
linked_words s b p = update (poison p (s.header b).obj_size s.word) p (s.header b).free_list

-- The header after the push.
abbrev pub pushed : Header → ℕ → Header
pushed h p = record h { free_list = p; free_objs = h.free_objs + 1 }

abbrev pub pushed_state : Slabs → (b p : ℕ) → Slabs
pushed_state s b p = set_header b (pushed (s.header b) p) (record s { word = linked_words s b p })

-- The state once the page is listed again.
abbrev pub relinked : Slabs → (c b p : ℕ) → Slabs
relinked s c b p = record s {
  header =
      update (update s.header b (pushed (s.header b) p)) b
        (record (pushed (s.header b) p) { next = s.partial c });
  partial = update s.partial c b;
  word = linked_words s b p;
}

pub push_object-more :
    (s : Slabs) (b p : ℕ)
    → ltb (s.header b).free_objs (s.header b).total_objs ≡ true
    → ((s.header b).free_objs == 0) ≡ false
    → push_object b p s ≡ pushed_state s b p
unfolding push_object
push_object-more s b p e f =
    let one : ((s.header b).free_objs + 1 == 1) ≡ false = ground arith in
    simp (e, ==_refl b, one) refl

pub push_object-first :
    (s : Slabs) (c b p : ℕ)
    → (s.header b).class_index ≡ c
    → ltb (s.header b).free_objs (s.header b).total_objs ≡ true
    → ((s.header b).free_objs == 0) ≡ true
    → push_object b p s ≡ relinked s c b p
unfolding push_object
push_object-first s c b p i e f =
    let one : ((s.header b).free_objs + 1 == 1) ≡ true = ground arith in
    simp (e, ==_refl b, one, i) refl

pub objects_with :
    (b size p : ℕ) (free : List ℕ)
    → Object b size p
    → ((a : ℕ) → contains free a ≡ true → Object b size a)
    → (a : ℕ) → contains (p ∷ free) a ≡ true
    → Object b size a
objects_with b size p free o at a i = elim (Bool-cases (p == a)) [
  | inl f ↦ subst (Object b size) ((==_iff p a).0 f) o
  | inr f ↦ at a (ground (arith, i))
]

pub PageOk-pushed :
    (h : Header) (word : ℕ → ℕ) (b c p next : ℕ) (free : List ℕ)
    → word p ≡ h.free_list
    → contains free p ≡ false
    → Object b (class_size c) p
    → PageOk h word b c free
    → PageOk (record (pushed h p) { next = next }) word b c (p ∷ free)
PageOk-pushed h word b c p next free e absent o ok = record {
  addr = ok.addr;
  header = record {
    class_lt = ok.header.class_lt;
    magic = ok.header.magic;
    class = ok.header.class;
    size = ok.header.size;
    total = ok.header.total;
  };
  list = (refl, subst (λ q. Walk word q free) (sym e) ok.list);
  distinct = (absent, ok.distinct);
  objects = objects_with b (class_size c) p free o ok.objects;
  count = omega (arith, ok.count);
}

-- What slab_free does with the held object `p`.
pub record Pushed (s : Slabs) (v : View) (live : List ℕ) (p : ℕ) : Type 0 where
  pub after : Slabs
  pub pages : ℕ → List ℕ
  pub result : slab_free p s ≡ (returned 1, after)
  pub pool : Pool after (turn v (page_base p) (p ∷ v.free (page_base p)) pages) (without p live)
