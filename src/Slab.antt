-- ===== src/Slab.antt =====
-- The slab allocator of src/mm/slab.c: pages of 4096 bytes, each with a header and objects of one
-- size, a power of two from 16 to 2048; the first word of a free object links to the next one.
-- The state holds the statics of the file, the headers by page address, and the 4-byte words of the
-- objects by address. What vmm_kmalloc_page answers stands in the state, in order, and NULL once the
-- answers are used up; what goes back to vmm_kfree_page is kept as a list, the latest first. The build
-- is the default one, with CONFIG_SLAB_POISON and without CONFIG_SLAB_TRACKING.
pub mod Class
pub mod Objects
pub mod Without
pub mod Memory
pub mod Page
pub mod Pool
pub mod Turn
pub mod Pop
pub mod Push
pub mod Grow
pub mod Serve
pub mod Reach
pub mod Safety
use eyn_os.Base.{
  ℕ, zero, suc, ◌+◌, ◌-◌, ◌*◌, ◌/◌, ◌%◌, ◌^◌, Bool, true, false, not, ◌&&◌, ◌||◌, ltb, leb, ◌==◌,
  if◌then◌else◌, Option, none, some, List, [], ◌∷◌, bit_and, update,
}
use eyn_os.Base.Loop.{for_range}
use Class.{class_index_for_size, min_shift, max_shift, class_count}

abbrev pub slab_magic : ℕ
slab_magic = 0x534C_4142

abbrev pub page_size : ℕ
page_size = 4096

abbrev pub kernel_base : ℕ
kernel_base = 0xC000_0000

-- The bytes of a slab_header_t with 4-byte pointers, a multiple of 4.
abbrev pub header_bytes : ℕ
header_bytes = 20

-- The poison byte 0xA5 four times.
abbrev pub poison_word : ℕ
poison_word = 0xA5A5_A5A5

-- `slab_header_t`.
pub record Header : Type 0 where
  pub magic : ℕ
  pub class_index : ℕ
  pub obj_size : ℕ
  pub total_objs : ℕ
  pub free_objs : ℕ
  pub free_list : ℕ
  pub next : ℕ

pub record Slabs : Type 0 where
  pub is_inited : Bool
  pub total_frames : ℕ
  pub partial : ℕ → ℕ
  pub header : ℕ → Header
  pub word : ℕ → ℕ
  pub answers : List ℕ
  pub returned_pages : List ℕ

-- The end of a call: its result, or PANICF, which does not return.
pub data Outcome : Type 0 where
  returned : (value : ℕ) → Outcome
  panicked : Outcome

abbrev pub set_header : ℕ → Header → Slabs → Slabs
set_header h v s = record s { header = update s.header h v }

abbrev pub is_pow2 : ℕ → Bool
is_pow2 v = not (v == 0) && (bit_and v (v - 1) == 0)

abbrev pub page_base : ℕ → ℕ
page_base va = va / page_size * page_size

unfoldable pub is_slab_size : ℕ → Bool
is_slab_size size = is_pow2 size && not (ltb size (2 ^ min_shift) || ltb (2 ^ max_shift) size)

-- The pointer starts an object of this size among those of the page `h`.
unfoldable pub is_object_start : (h obj_size ptr : ℕ) → Bool
is_object_start h obj_size ptr =
    let start = (h + header_bytes) % 2 ^ 32 in
    let end = (h + page_size) % 2 ^ 32 in
    not (ltb ptr start || leb end ptr) && ((ptr - start) % obj_size == 0)

-- slab_obj_ptr_is_valid, with the header of page `h`.
unfoldable pub obj_ptr_is_valid : Slabs → (h ptr : ℕ) → Bool
obj_ptr_is_valid s h ptr =
    not (h == 0)
    && not (ptr == 0)
    && ((s.header h).magic == slab_magic)
    && is_slab_size (s.header h).obj_size
    && is_object_start h (s.header h).obj_size ptr

-- The rounds that are left of the loop, at the object `it`.
unfoldable pub list_has : ℕ → Slabs → (h it ptr : ℕ) → Bool
list_has zero s h it ptr = false
list_has (suc rounds) s h it ptr =
    let rest = list_has rounds s h (s.word it) ptr in
    not (it == 0) && ((it == ptr) || (obj_ptr_is_valid s h it && rest))

unfoldable pub freelist_contains : Slabs → (h ptr : ℕ) → Bool
freelist_contains s h ptr =
    not (h == 0)
    && not (ptr == 0)
    && list_has (s.header h).total_objs s h (s.header h).free_list ptr

abbrev pub kmalloc_page : List ℕ → ℕ × List ℕ
kmalloc_page [] = (0, [])
kmalloc_page (page ∷ answers) = (page, answers)

-- The memset of the poison byte over `size` bytes, a multiple of 4, word by word.
unfoldable pub poison : (ptr size : ℕ) → (ℕ → ℕ) → ℕ → ℕ
poison ptr size word = for_range (size / 4) 0 (λ i w. update w (ptr + 4 * i) poison_word) word

-- One round of the loop that builds the free list: the list and the words.
abbrev pub add_object : (base obj_size i : ℕ) → ℕ × (ℕ → ℕ) → ℕ × (ℕ → ℕ)
add_object base obj_size i (free_list, word) =
    let obj = base + i * obj_size in (obj, update (poison obj obj_size word) obj free_list)

abbrev pub build_freelist : (base obj_size total : ℕ) → (ℕ → ℕ) → ℕ × (ℕ → ℕ)
build_freelist base obj_size total word = for_range total 0 (add_object base obj_size) (0, word)

abbrev pub install_page : (page class_index obj_size total : ℕ) → Slabs → ℕ × (ℕ → ℕ) → Slabs
install_page page class_index obj_size total s (free_list, word) =
    let h : Header = record {
      magic = slab_magic;
      class_index = class_index % 2 ^ 16;
      obj_size = obj_size % 2 ^ 16;
      total_objs = total % 2 ^ 16;
      free_objs = total % 2 ^ 16;
      free_list = free_list;
      next = 0;
    } in
    set_header page h (record s { word = word })

-- What slab_new_page does with the answer of vmm_kmalloc_page.
abbrev pub use_page : (class_index obj_size : ℕ) → ℕ × List ℕ → Slabs → ℕ × Slabs
use_page class_index obj_size (page, answers) s0 =
    let s = record s0 { answers = answers } in
    let total = (page_size - header_bytes) / obj_size in
    if page == 0
    then (0, s)
    else if total == 0
    then (0, record s { returned_pages = page ∷ s.returned_pages })
    else (
      page,
      install_page page class_index obj_size total s
          (build_freelist (page + header_bytes) obj_size total s.word),
    )

unfoldable pub new_page : (class_index obj_size : ℕ) → Slabs → ℕ × Slabs
new_page class_index obj_size s = use_page class_index obj_size (kmalloc_page s.answers) s

unfoldable pub init : Slabs → Slabs
init s = if s.is_inited then s else record s { partial = λ i. 0; is_inited = true }

unfoldable pub owns : Slabs → (ptr : ℕ) → Bool
owns s ptr =
    let h = s.header (page_base ptr) in
    not (ptr == 0)
    && not (ltb ptr kernel_base)
    && (h.magic == slab_magic)
    && not (leb class_count h.class_index)
    && is_slab_size h.obj_size

-- The page `h` leaves the list of its class when its free list has become empty.
abbrev pub unlink_full : (class_index h : ℕ) → Slabs → Slabs
unlink_full class_index h s =
    if (s.header h).free_list == 0
    then set_header h (record (s.header h) { next = 0 })
        (record s { partial = update s.partial class_index (s.header h).next })
    else s

-- The fast path: the first object of the page `h` is taken.
unfoldable pub pop_object : (class_index h : ℕ) → Slabs → Outcome × Slabs
pop_object class_index h s =
    let obj = (s.header h).free_list in
    let after = s.word obj in
    if not (obj_ptr_is_valid s h obj)
    then (panicked, s)
    else if not (after == 0) && not (obj_ptr_is_valid s h after)
    then (panicked, s)
    else (
      returned obj,
      unlink_full class_index h (
          set_header h
            (record (s.header h) { free_list = after; free_objs = (s.header h).free_objs - 1 }) s),
    )

-- A new page goes to the head of the list of its class.
abbrev pub pop_new : (class_index : ℕ) → ℕ × Slabs → Outcome × Slabs
pop_new class_index (h, s) =
    if h == 0
    then (returned 0, s)
    else pop_object class_index h
        (record (set_header h (record (s.header h) { next = s.partial class_index }) s) {
          partial = update s.partial class_index h;
        })

abbrev pub alloc_class : Option ℕ → Slabs → Outcome × Slabs
alloc_class none s = (returned 0, s)
alloc_class (some class_index) s =
    let h = s.partial class_index in
    if (h == 0) || ((s.header h).free_list == 0)
    then pop_new class_index (new_page class_index (2 ^ (min_shift + class_index)) s)
    else pop_object class_index h s

-- slab_alloc once slab_init was called.
abbrev pub alloc_size : (size : ℕ) → Slabs → Outcome × Slabs
alloc_size size s =
    if s.total_frames == 0
    then (returned 0, s)
    else if size == 0
    then (returned 0, s)
    else alloc_class (class_index_for_size size) s

unfoldable pub slab_alloc : (size : ℕ) → Slabs → Outcome × Slabs
slab_alloc size s = alloc_size size (init s)

-- A page that was full goes back to the head of the list of its class.
abbrev pub relink : (class_index h : ℕ) → Slabs → Slabs
relink class_index h s =
    if (s.header h).free_objs == 1
    then record (set_header h (record (s.header h) { next = s.partial class_index }) s) {
      partial = update s.partial class_index h;
    }
    else s

-- The object goes to the head of the free list of its page.
unfoldable pub push_object : (h ptr : ℕ) → Slabs → Slabs
push_object h ptr s =
    let v = s.header h in
    let word = update (poison ptr v.obj_size s.word) ptr v.free_list in
    let free_objs = if ltb v.free_objs v.total_objs then v.free_objs + 1 else v.free_objs in
    relink v.class_index h (
      set_header h (record v { free_list = ptr; free_objs = free_objs }) (record s { word = word }))

unfoldable pub slab_free : (ptr : ℕ) → Slabs → Outcome × Slabs
slab_free ptr s =
    let h = page_base ptr in
    if ptr == 0
    then (returned 1, s)
    else if not (owns s ptr)
    then (returned 0, s)
    else if leb class_count (s.header h).class_index
    then (returned 0, s)
    else if not (obj_ptr_is_valid s h ptr)
    then (panicked, s)
    else if freelist_contains s h ptr
    then (panicked, s)
    else (returned 1, push_object h ptr s)
