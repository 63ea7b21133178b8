-- ===== src/Slab/Objects.antt =====
-- The objects of a slab page of src/mm/slab.c: where they lie, and which pointers are accepted.
use eyn_os.Base.{
  ℕ, zero, suc, ◌+◌, ◌-◌, ◌*◌, ◌/◌, ◌%◌, ◌^◌, ◌≤◌, ◌<◌, ◌≡◌, ◌≢◌, refl, ap, true, false, ◌==◌,
  arith, inl, inr, ◌⊎◌, ltb, leb, Bool-cases, ==_iff, ltb→lt,
}
use native.Mathlib.Nat.{mul-div-le, mul-mod_left, mul-le-mul_right, suc-mul, mul_comm}
use eyn_os.Slab.{
  Slabs, Header, page_size, kernel_base, header_bytes, slab_magic, page_base, is_slab_size,
  is_object_start, obj_ptr_is_valid, owns,
}
use eyn_os.Slab.Class.{class_count, min_shift}

-- An address that vmm_kmalloc_page may answer: a whole page of the kernel, not the last one.
pub record PageAddr (b : ℕ) : Type 0 where
  pub whole : b % page_size ≡ 0
  pub above : kernel_base ≤ b
  pub below : b + page_size < 2 ^ 32

abbrev pub capacity : ℕ → ℕ
capacity size = (page_size - header_bytes) / size

-- `p` is the `k`-th object of the page `b`.
pub record ObjectAt (b size k p : ℕ) : Type 0 where
  pub index : k < capacity size
  pub place : p ≡ b + header_bytes + k * size

abbrev pub Object : (b size p : ℕ) → Type 0
Object b size p = (k : ℕ) × ObjectAt b size k p

abbrev pub class_size : ℕ → ℕ
class_size c = 2 ^ (min_shift + c)

-- What holds of the size of each class.
pub class_cases {ℓ} :
    (P : ℕ → Type ℓ)
    → P 16
    → P 32
    → P 64
    → P 128
    → P 256
    → P 512
    → P 1024
    → P 2048
    → (c : ℕ) → c < class_count
    → P (class_size c)
class_cases P a b c d e f g h zero l = a
class_cases P a b c d e f g h (suc zero) l = b
class_cases P a b c d e f g h (suc (suc zero)) l = c
class_cases P a b c d e f g h (suc (suc (suc zero))) l = d
class_cases P a b c d e f g h (suc (suc (suc (suc zero)))) l = e
class_cases P a b c d e f g h (suc (suc (suc (suc (suc zero))))) l = f
class_cases P a b c d e f g h (suc (suc (suc (suc (suc (suc zero)))))) l = g
class_cases P a b c d e f g h (suc (suc (suc (suc (suc (suc (suc zero))))))) l = h
class_cases P a b c d e f g h (suc (suc (suc (suc (suc (suc (suc (suc n)))))))) l =
    absurd (omega arith)

pub is_slab_size-class_size : (c : ℕ) → c < class_count → is_slab_size (class_size c) ≡ true
unfolding is_slab_size
is_slab_size-class_size =
    class_cases (λ n. is_slab_size n ≡ true) refl refl refl refl refl refl refl refl

pub class_size-bounds :
    (c : ℕ) → c < class_count → (16 ≤ class_size c) × (class_size c ≤ 2048) × (class_size c % 4 ≡ 0)
class_size-bounds =
    class_cases (λ n. (16 ≤ n) × (n ≤ 2048) × (n % 4 ≡ 0)) (omega arith) (omega arith) (omega arith)
      (omega arith) (omega arith) (omega arith) (omega arith) (omega arith)

-- An object ends inside its page.
pub object_end :
    (b size k p : ℕ) → ObjectAt b size k p → (b + header_bytes ≤ p) × (p + size ≤ b + page_size)
object_end b size k p o =
    let whole = mul-div-le (page_size - header_bytes) size in
    let fits : suc k * size ≤ capacity size * size = mul-le-mul_right size o.index in
    (omega (arith, o.place), omega (arith, o.place, suc-mul k size, mul_comm (capacity size) size))

-- Two objects of a page do not overlap.
pub objects-apart :
    (b size i j p q : ℕ)
    → ObjectAt b size i p
    → ObjectAt b size j q
    → p ≢ q
    → (p + size ≤ q) ⊎ (q + size ≤ p)
objects-apart b size i j p q a c n = elim (Bool-cases (ltb i j)) [
  | inl e ↦
      let fits : suc i * size ≤ j * size = mul-le-mul_right size (ltb→lt i j e) in
      inl (omega (arith, suc-mul i size, a.place, c.place))
  | inr e ↦ elim (Bool-cases (i == j)) [
    | inl f ↦
        let same : i * size ≡ j * size = ap (λ (m : ℕ). m * size) ((==_iff i j).0 f) in
        absurd (n (omega (arith, a.place, c.place)))
    | inr f ↦
        let l : suc j ≤ i = ground arith in
        let fits : suc j * size ≤ i * size = mul-le-mul_right size l in
        inr (omega (arith, suc-mul j size, a.place, c.place))
  ]
]

-- An object that starts inside a page has that page's address.
pub page_base-object :
    (b size k p : ℕ) → PageAddr b → 0 < size → ObjectAt b size k p → page_base p ≡ b
page_base-object b size k p a l o =
    let e = object_end b size k p o in omega (arith, e.0, e.1, a.whole)

-- Objects of two pages do not overlap, nor do an object and what lies in another page.
pub pages-apart :
    (b d : ℕ) → PageAddr b → PageAddr d → b ≢ d → (b + page_size ≤ d) ⊎ (d + page_size ≤ b)
pages-apart b d x y n = omega (arith, x.whole, y.whole)

-- What the header of a slab page of class `c` holds.
pub record HeaderOk (h : Header) (c : ℕ) : Type 0 where
  pub class_lt : c < class_count
  pub magic : h.magic ≡ slab_magic
  pub class : h.class_index ≡ c
  pub size : h.obj_size ≡ class_size c
  pub total : h.total_objs ≡ capacity (class_size c)

is_object_start-object :
    (b size k p : ℕ) → PageAddr b → 0 < size → ObjectAt b size k p → is_object_start b size p ≡ true
unfolding is_object_start
is_object_start-object b size k p a l o =
    let e = object_end b size k p o in
    let start : (b + header_bytes) % 2 ^ 32 ≡ b + header_bytes = omega (arith, a.below) in
    let end : (b + page_size) % 2 ^ 32 ≡ b + page_size = omega (arith, a.below) in
    let offset : p - (b + header_bytes) ≡ k * size = omega (arith, o.place) in
    let low : ltb p (b + header_bytes) ≡ false = ground (arith, e.0) in
    let high : leb (b + page_size) p ≡ false = ground (arith, e.1) in
    simp (start, end, offset, low, high, mul-mod_left) refl

-- Objects are accepted by slab_obj_ptr_is_valid.
pub obj_ptr_is_valid-object :
    (s : Slabs) (b c k p : ℕ)
    → PageAddr b
    → HeaderOk (s.header b) c
    → ObjectAt b (class_size c) k p
    → obj_ptr_is_valid s b p ≡ true
unfolding obj_ptr_is_valid
obj_ptr_is_valid-object s b c k p a h o =
    let size = class_size-bounds c h.class_lt in
    let e = object_end b (class_size c) k p o in
    let page : (b == 0) ≡ false = ground (arith, a.above) in
    let ptr : (p == 0) ≡ false = ground (arith, e.0) in
    simp
      (
        page,
        ptr,
        h.magic,
        h.size,
        is_slab_size-class_size c h.class_lt,
        is_object_start-object b (class_size c) k p a (omega (arith, size.0)) o,
      )
      refl

pub owns-object :
    (s : Slabs) (b c k p : ℕ)
    → PageAddr b
    → HeaderOk (s.header b) c
    → ObjectAt b (class_size c) k p
    → owns s p ≡ true
unfolding owns
owns-object s b c k p a h o =
    let size = class_size-bounds c h.class_lt in
    let e = object_end b (class_size c) k p o in
    let base = page_base-object b (class_size c) k p a (omega (arith, size.0)) o in
    let ptr : (p == 0) ≡ false = ground (arith, e.0) in
    let above : ltb p kernel_base ≡ false = ground (arith, e.0, a.above) in
    let class : leb class_count c ≡ false = ground (arith, h.class_lt) in
    simp (base, ptr, above, h.magic, h.class, class, h.size, is_slab_size-class_size c h.class_lt)
      refl
