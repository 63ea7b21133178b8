-- ===== src/Slab/Page.antt =====
-- A slab page of src/mm/slab.c: its header and its free list, and how slab_new_page builds them.
pub mod Build
use eyn_os.Base.{
  ℕ, zero, suc, ◌+◌, ◌-◌, ◌*◌, ◌/◌, ◌%◌, ◌^◌, ◌≤◌, ◌<◌, ◌≡◌, ◌≢◌, refl, ap, sym, ◌∙◌, subst, Bool,
  true, false, not, List, [], ◌∷◌, contains, Distinct, length, ◌==◌, arith, Bool-cases, ==_iff,
  ==_refl, inl, inr, update, update_self, update_ne, is_cons,
}
use native.Mathlib.Nat.{mul-le-mul_right, suc-mul}
use eyn_os.Base.Loop.{for_range, for_range_inv}
use eyn_os.Slab.{
  Slabs, Header, header_bytes, page_size, poison, add_object, build_freelist, freelist_contains,
  obj_ptr_is_valid, slab_magic,
}
use eyn_os.Slab.Objects.{
  PageAddr, Object, HeaderOk, capacity, class_size, object_end, obj_ptr_is_valid-object,
  class_size-bounds, class_cases,
}
use eyn_os.Slab.Class.{class_count}
use eyn_os.Slab.Without.{length-Distinct}
use eyn_os.Slab.Memory.{Walk, Walk-frame, Outside, poison-Outside, list_has-contains}

-- The page `b` of class `c` has the free objects `free`, linked in this order.
pub record PageOk (v : Header) (word : ℕ → ℕ) (b c : ℕ) (free : List ℕ) : Type 0 where
  pub addr : PageAddr b
  pub header : HeaderOk v c
  pub list : Walk word v.free_list free
  pub distinct : Distinct free
  pub objects : (a : ℕ) → contains free a ≡ true → Object b (class_size c) a
  pub count : v.free_objs ≡ length free

-- The link to the next page is not part of the page.
pub PageOk-next :
    (h : Header) (word : ℕ → ℕ) (b c next : ℕ) (free : List ℕ)
    → PageOk h word b c free
    → PageOk (record h { next = next }) word b c free
PageOk-next h word b c next free ok = record {
  addr = ok.addr;
  header = record {
    class_lt = ok.header.class_lt;
    magic = ok.header.magic;
    class = ok.header.class;
    size = ok.header.size;
    total = ok.header.total;
  };
  list = ok.list;
  distinct = ok.distinct;
  objects = ok.objects;
  count = ok.count;
}

-- No more objects are free than the page has.
pub length-capacity :
    (b c : ℕ) (free : List ℕ)
    → Distinct free
    → ((a : ℕ) → contains free a ≡ true → Object b (class_size c) a)
    → length free ≤ capacity (class_size c)
length-capacity b c free d at =
    length-Distinct (λ k. b + header_bytes + k * class_size c) (capacity (class_size c)) free d
      (λ a i. let o = at a i in (o.0, o.1.index, o.1.place))

pub free-valid :
    (s : Slabs) (b c : ℕ) (free : List ℕ)
    → PageOk (s.header b) s.word b c free
    → (a : ℕ) → contains free a ≡ true
    → (a ≢ 0) × (obj_ptr_is_valid s b a ≡ true)
free-valid s b c free ok a i =
    let o = ok.objects a i in
    let e = object_end b (class_size c) o.0 a o.1 in
    (λ z. omega (arith, e.0, z), obj_ptr_is_valid-object s b c o.0 a ok.addr ok.header o.1)

pub freelist_contains-free :
    (s : Slabs) (b c ptr : ℕ) (free : List ℕ)
    → PageOk (s.header b) s.word b c free
    → 0 < ptr
    → freelist_contains s b ptr ≡ contains free ptr
unfolding freelist_contains
freelist_contains-free s b c ptr free ok some_ptr =
    let page : (b == 0) ≡ false = ground (arith, ok.addr.above) in
    let there : (ptr == 0) ≡ false = ground arith in
    let enough : length free ≤ (s.header b).total_objs =
      omega (arith, length-capacity b c free ok.distinct ok.objects, ok.header.total) in
    simp (page, there)
      (list_has-contains (s.header b).total_objs s b (s.header b).free_list ptr free ok.list
        (free-valid s b c free ok) enough)
