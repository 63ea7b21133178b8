-- ===== src/Tests/SlabTests.antt =====
-- Objects allocated and freed in src/mm/slab.c, from the first call on.
use eyn_os.Base.{
  ℕ, ◌≡◌, ◌≢◌, ◌+◌, ◌≤◌, ◌<◌, ◌⊎◌, inl, inr, refl, Bool, true, false, none, some, List, [], ◌∷◌,
  arith,
}
use eyn_os.Slab.{
  Slabs, Header, returned, panicked, init, slab_alloc, slab_free, poison, pop_object, new_page,
  owns, obj_ptr_is_valid, is_slab_size, is_object_start, freelist_contains, list_has, page_base,
  push_object,
}
use eyn_os.Slab.Class.{class_index_for_size, LeastClass, bsr_loop, exponent-lt}
use eyn_os.Slab.Objects.{PageAddr}
use eyn_os.Slab.Reach.{Reach, Step, object_size}
use eyn_os.Slab.Safety.{
  Answer, held-apart, slab_alloc-returns, slab_free-twice, slab_alloc-after_free,
}

abbrev no_header : Header
no_header = record {
  magic = 0;
  class_index = 0;
  obj_size = 0;
  total_objs = 0;
  free_objs = 0;
  free_list = 0;
  next = 0;
}

abbrev page : ℕ
page = 0xC100_0000

abbrev pub at_boot : Slabs
at_boot = record {
  is_inited = false;
  total_frames = 100;
  partial = λ c. 0;
  header = λ b. no_header;
  word = λ a. 0;
  answers = page ∷ 0 ∷ [];
  returned_pages = [];
}

page-PageAddr : PageAddr page
page-PageAddr = record { whole = refl; above = omega arith; below = omega arith }

pub at_boot-Reach : Reach (init at_boot) []
at_boot-Reach = Reach.start at_boot refl (inr (page-PageAddr, refl, refl), (inl refl, tt))

abbrev pub first : ℕ
first = page + 20 + 2048

abbrev second : ℕ
second = page + 20 + 1024

abbrev pub one_held : Slabs
one_held = (slab_alloc 1000 (init at_boot)).1

pub slab_alloc-first : slab_alloc 1000 (init at_boot) ≡ (returned first, one_held)
unfolding slab_alloc init class_index_for_size new_page pop_object bsr_loop obj_ptr_is_valid
    is_slab_size is_object_start eyn_os.Base.Loop.for_range poison
slab_alloc-first = refl

abbrev two_held : Slabs
two_held = (slab_alloc 513 one_held).1

slab_alloc-second : slab_alloc 513 one_held ≡ (returned second, two_held)
unfolding slab_alloc init class_index_for_size new_page pop_object bsr_loop obj_ptr_is_valid
    is_slab_size is_object_start eyn_os.Base.Loop.for_range poison
slab_alloc-second = refl

two-Reach : Reach two_held (second ∷ first ∷ [])
two-Reach =
    let one =
      Reach.step at_boot-Reach
        (Step.allocates 1000 first (omega arith) slab_alloc-first (λ e. omega (arith, e))) in
    Reach.step one
      (Step.allocates 513 second (omega arith) slab_alloc-second (λ e. omega (arith, e)))

held-apart_example :
    (first + object_size two_held first ≤ second) ⊎ (second + object_size two_held second ≤ first)
held-apart_example =
    held-apart two_held (second ∷ first ∷ []) first second two-Reach refl refl
      (λ e. omega (arith, e))

slab_alloc-returns_example :
    (value : ℕ) × (t : Slabs) × (slab_alloc 600 two_held ≡ (returned value, t))
    × Answer two_held (second ∷ first ∷ []) 600 value t
slab_alloc-returns_example =
    slab_alloc-returns two_held (second ∷ first ∷ []) 600 two-Reach (omega arith)

slab_free-twice_example :
    (t : Slabs) × (slab_free first two_held ≡ (returned 1, t))
    × Reach t (second ∷ [])
    × (slab_free first t ≡ (panicked, t))
slab_free-twice_example = slab_free-twice two_held (second ∷ first ∷ []) first two-Reach refl

abbrev one_freed : Slabs
one_freed = (slab_free first two_held).1

slab_free-first : slab_free first two_held ≡ (returned 1, one_freed)
unfolding slab_free slab_alloc init class_index_for_size new_page pop_object bsr_loop
    obj_ptr_is_valid is_slab_size is_object_start eyn_os.Base.Loop.for_range poison owns
    freelist_contains list_has
slab_free-first = refl

one_freed_frames : one_freed.total_frames ≡ 100
unfolding slab_free slab_alloc init class_index_for_size new_page pop_object bsr_loop
    obj_ptr_is_valid is_slab_size is_object_start eyn_os.Base.Loop.for_range poison owns
    freelist_contains list_has push_object
one_freed_frames = refl

class-1024 : LeastClass 700 6
class-1024 = record {
  inside = omega arith;
  enough = omega arith;
  least = λ d e. omega (arith, exponent-lt 9 (4 + d) 700 (omega arith) e);
}

two_held_class : (two_held.header (page_base first)).class_index ≡ 6
unfolding slab_alloc init class_index_for_size bsr_loop new_page pop_object obj_ptr_is_valid
    eyn_os.Base.Loop.for_range is_slab_size is_object_start poison
two_held_class = refl

slab_alloc-after_free_example :
    (value : ℕ) × (u : Slabs) × (slab_alloc 700 one_freed ≡ (returned value, u)) × (value ≢ 0)
slab_alloc-after_free_example =
    slab_alloc-after_free two_held one_freed (second ∷ first ∷ []) first 700 6 two-Reach refl
      slab_free-first (λ e. omega (arith, e, one_freed_frames)) two_held_class
      (λ e. omega (arith, e)) (omega arith) class-1024

-- Behind the third and last object of the page lie 1004 bytes. A pointer to them is freed like an
-- object, and would be given out as one of 1024 bytes.
abbrev tail : ℕ
tail = page + 20 + 3072

slab_free_tail : slab_free tail two_held ≡ (returned 1, (slab_free tail two_held).1)
unfolding slab_free slab_alloc init class_index_for_size new_page pop_object bsr_loop
    obj_ptr_is_valid is_slab_size is_object_start eyn_os.Base.Loop.for_range poison owns
    freelist_contains list_has
slab_free_tail = refl
