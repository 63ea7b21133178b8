-- ===== src/Slab/Pop.antt =====
-- The fast path of slab_alloc of src/mm/slab.c: the first free object of the first page of its class.
pub mod First
use eyn_os.Base.{
  ℕ, zero, suc, ◌+◌, ◌-◌, ◌<◌, ◌≡◌, ◌≢◌, refl, ap, sym, ◌∙◌, subst, Bool, true, false, not, List,
  [], ◌∷◌, contains, Distinct, length, ◌==◌, arith, Bool-cases, ==_iff, ==_refl, inl, inr, ◌⊎◌,
  ◌||◌, ◌&&◌, update, update_self, update_ne, is_cons, if◌then◌else◌,
}
use eyn_os.Slab.{
  Slabs, Header, Outcome, returned, page_base, set_header, unlink_full, pop_object,
  obj_ptr_is_valid,
}
use eyn_os.Slab.Class.{class_count}
use eyn_os.Slab.Memory.{Walk, Walk-frame}
use eyn_os.Slab.Page.{PageOk, free-valid}
use eyn_os.Slab.Pool.{View, Pool, Member, Held, turn, Turned, Pool-Turned}
use eyn_os.Slab.Turn.{
  Member-turn, other_class, by_class, listed_by_class, Held-taken, Distinct-taken,
}

-- The header after the pop.
abbrev pub popped : Header → ℕ → Header
popped h after = record h { free_list = after; free_objs = h.free_objs - 1 }

pub pop_object_lem :
    (s : Slabs) (c b x after : ℕ)
    → (s.header b).free_list ≡ x
    → s.word x ≡ after
    → obj_ptr_is_valid s b x ≡ true
    → (not (after == 0) && not (obj_ptr_is_valid s b after)) ≡ false
    → pop_object c b s ≡ (returned x, unlink_full c b (set_header b (popped (s.header b) after) s))
unfolding pop_object
pop_object_lem s c b x after e f g i = simp (e, f, g, i) refl

pub PageOk-popped :
    (h : Header) (word : ℕ → ℕ) (b c x after next : ℕ) (xs : List ℕ)
    → word x ≡ after
    → PageOk h word b c (x ∷ xs)
    → PageOk (record (popped h after) { next = next }) word b c xs
PageOk-popped h word b c x after next xs e ok = record {
  addr = ok.addr;
  header = record {
    class_lt = ok.header.class_lt;
    magic = ok.header.magic;
    class = ok.header.class;
    size = ok.header.size;
    total = ok.header.total;
  };
  list = subst (λ p. Walk word p xs) e ok.list.1;
  distinct = ok.distinct.1;
  objects = λ a i. ok.objects a (ground (arith, i));
  count = omega (arith, ok.count);
}

pub unlink_full-more :
    (s : Slabs) (c b : ℕ) (k : Header)
    → (k.free_list == 0) ≡ false
    → unlink_full c b (set_header b k s) ≡ set_header b k s
unlink_full-more s c b k e = simp (==_refl b, e) refl

-- The state once the full page has left its list.
abbrev pub unlinked : Slabs → (c b : ℕ) → Header → Slabs
unlinked s c b k = record s {
  header = update (update s.header b k) b (record k { next = 0 });
  partial = update s.partial c k.next;
}

pub unlink_full-last :
    (s : Slabs) (c b : ℕ) (k : Header)
    → (k.free_list == 0) ≡ true
    → unlink_full c b (set_header b k s) ≡ unlinked s c b k
unlink_full-last s c b k e = simp (==_refl b, e) refl

-- What slab_alloc does with the first page `b` of class `c`.
pub record Popped (s : Slabs) (v : View) (live : List ℕ) (c b : ℕ) : Type 0 where
  pub object : ℕ
  pub rest : List ℕ
  pub pages : ℕ → List ℕ
  pub after : Slabs
  pub was_first : v.free b ≡ object ∷ rest
  pub result : pop_object c b s ≡ (returned object, after)
  pub pool : Pool after (turn v b rest pages) (object ∷ live)
