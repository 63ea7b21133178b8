-- ===== src/Slab/Page/Build.antt =====
-- How slab_new_page of src/mm/slab.c builds the free list and the header of a page.
use eyn_os.Base.{
  ℕ, zero, suc, ◌+◌, ◌*◌, ◌%◌, ◌^◌, ◌≤◌, ◌<◌, ◌≡◌, ◌≢◌, refl, ap, sym, ◌∙◌, subst, true, false,
  List, [], ◌∷◌, contains, Distinct, length, ◌==◌, arith, Bool-cases, ==_iff, inl, inr, update,
  update_self, update_ne,
}
use native.Mathlib.Nat.{mul-le-mul_right, suc-mul}
use eyn_os.Base.Loop.{for_range_inv}
use eyn_os.Slab.{Header, header_bytes, poison, add_object, build_freelist, slab_magic}
use eyn_os.Slab.Objects.{PageAddr, capacity, class_size, class_size-bounds, class_cases}
use eyn_os.Slab.Class.{class_count}
use eyn_os.Slab.Memory.{Walk, Walk-frame, Outside, poison-Outside}
use eyn_os.Slab.Page.{PageOk}

-- The objects of a new page, in the order of its free list.
abbrev pub objects_below : (base size k : ℕ) → List ℕ
objects_below base size zero = []
objects_below base size (suc k) = (base + k * size) ∷ objects_below base size k

pub objects_below-index :
    (base size k a : ℕ)
    → contains (objects_below base size k) a ≡ true
    → (j : ℕ) × (j < k) × (a ≡ base + j * size)
objects_below-index base size zero a i = absurd (ground (arith, i))
objects_below-index base size (suc k) a i = elim (Bool-cases ((base + k * size) == a)) [
  | inl e ↦ (k, omega arith, sym ((==_iff (base + k * size) a).0 e))
  | inr e ↦
      let found = objects_below-index base size k a (ground arith) in
      (found.0, omega (arith, found.1), found.2)
]

-- An earlier object ends before the `k`-th.
earlier : (base size j k a : ℕ) → j < k → a ≡ base + j * size → a + size ≤ base + k * size
earlier base size j k a l e =
    let fits : suc j * size ≤ k * size = mul-le-mul_right size l in omega (arith, suc-mul j size)

fresh :
    (base size k : ℕ) → 0 < size → contains (objects_below base size k) (base + k * size) ≡ false
fresh base size k l = elim (Bool-cases (contains (objects_below base size k) (base + k * size))) [
  | inl e ↦
      let found = objects_below-index base size k (base + k * size) e in
      absurd (omega (arith, earlier base size found.0 k (base + k * size) found.1 found.2))
  | inr e ↦ e
]

pub Distinct-objects_below : (base size k : ℕ) → 0 < size → Distinct (objects_below base size k)
Distinct-objects_below base size zero l = tt
Distinct-objects_below base size (suc k) l =
    (fresh base size k l, Distinct-objects_below base size k l)

-- After `k` rounds the first `k` objects are linked, and nothing behind or before them has changed.
abbrev pub Built : (base size : ℕ) (word : ℕ → ℕ) (k : ℕ) → ℕ × (ℕ → ℕ) → Type 0
Built base size word k acc =
    Walk acc.1 acc.0 (objects_below base size k)
    × ((a : ℕ) → Outside base (k * size) a → acc.1 a ≡ word a)

module _ (base size : ℕ) (word : ℕ → ℕ) (l : 0 < size) where
  Outside-object : (k a : ℕ) → Outside base (suc k * size) a → Outside (base + k * size) size a
  Outside-object k a (inl b) = inl (omega arith)
  Outside-object k a (inr b) = inr (omega (arith, suc-mul k size))

  Outside-smaller : (k a : ℕ) → Outside base (suc k * size) a → Outside base (k * size) a
  Outside-smaller k a (inl b) = inl b
  Outside-smaller k a (inr b) = inr (omega (arith, suc-mul k size))

  not_first : (k a : ℕ) → Outside (base + k * size) size a → base + k * size ≢ a
  not_first k a (inl b) e = omega arith
  not_first k a (inr b) e = omega arith

  add_object-Built :
      (k : ℕ) (acc : ℕ × (ℕ → ℕ))
      → Built base size word k acc
      → Built base size word (k + 1) (add_object base size k acc)
  add_object-Built k (free_list, w) (list, same) =
      let obj = base + k * size in
      let after = update (poison obj size w) obj free_list in
      let next_round : k + 1 ≡ suc k = omega arith in
      let elsewhere = λ (a : ℕ) (out : Outside obj size a).
        update_ne (poison obj size w) obj a free_list (not_first k a out)
        ∙ poison-Outside obj size a w out in
      let kept = λ (a : ℕ) (i : contains (objects_below base size k) a ≡ true).
        let found = objects_below-index base size k a i in
        let before = earlier base size found.0 k a found.1 found.2 in
        elsewhere a (inl (omega arith)) in
      subst (λ n. Built base size word n (obj, after)) (sym next_round)
        (
          (
            refl,
            subst (λ p. Walk after p (objects_below base size k))
                (sym (update_self (poison obj size w) obj free_list))
                (Walk-frame w after free_list (objects_below base size k) kept list),
          ),
          λ a out. elsewhere a (Outside-object k a out) ∙ same a (Outside-smaller k a out),
        )

  pub build_freelist-Built :
      (total : ℕ) → Built base size word total (build_freelist base size total word)
  build_freelist-Built total =
      for_range_inv (Built base size word) (add_object base size) total 0 total (0, word)
        (omega arith) (λ k acc a b h. add_object-Built k acc h) (refl, λ a out. refl)

length-objects_below : (base size k : ℕ) → length (objects_below base size k) ≡ k
length-objects_below base size zero = refl
length-objects_below base size (suc k) = ap suc (length-objects_below base size k)

pub capacity-bounds :
    (c : ℕ) → c < class_count → (0 < capacity (class_size c)) × (capacity (class_size c) < 2 ^ 16)
capacity-bounds =
    class_cases (λ n. (0 < capacity n) × (capacity n < 2 ^ 16)) (omega arith) (omega arith)
      (omega arith) (omega arith) (omega arith) (omega arith) (omega arith) (omega arith)

-- The header that slab_new_page writes.
abbrev pub new_header : (c free_list : ℕ) → Header
new_header c free_list = record {
  magic = slab_magic;
  class_index = c % 2 ^ 16;
  obj_size = class_size c % 2 ^ 16;
  total_objs = capacity (class_size c) % 2 ^ 16;
  free_objs = capacity (class_size c) % 2 ^ 16;
  free_list = free_list;
  next = 0;
}

abbrev pub all_objects : (b c : ℕ) → List ℕ
all_objects b c = objects_below (b + header_bytes) (class_size c) (capacity (class_size c))

pub new_header-PageOk :
    (b c : ℕ) (acc : ℕ × (ℕ → ℕ)) (word : ℕ → ℕ)
    → PageAddr b
    → c < class_count
    → Built (b + header_bytes) (class_size c) word (capacity (class_size c)) acc
    → PageOk (new_header c acc.0) acc.1 b c (all_objects b c)
new_header-PageOk b c acc word addr l built =
    let size = class_size-bounds c l in
    let total = capacity-bounds c l in
    record {
      addr = addr;
      header = record {
        class_lt = l;
        magic = refl;
        class = omega arith;
        size = omega (arith, size.1);
        total = omega (arith, total.1);
      };
      list = built.0;
      distinct =
          Distinct-objects_below (b + header_bytes) (class_size c) (capacity (class_size c))
            (omega (arith, size.0));
      objects = λ a i.
          let found =
            objects_below-index (b + header_bytes) (class_size c) (capacity (class_size c)) a i in
          (found.0, record { index = found.1; place = found.2 });
      count = omega (
        arith,
        total.1,
        length-objects_below (b + header_bytes) (class_size c) (capacity (class_size c)),
      );
    }
