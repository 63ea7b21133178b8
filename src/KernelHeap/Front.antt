-- ===== src/KernelHeap/Front.antt =====
-- malloc, free, realloc and calloc of src/utilities/util.c, which ask the slab allocator first.
-- Whether the running command may call, and what the slab allocator answers, is given to a call. The
-- bytes that a call copies or clears for its caller are kept as a list, the latest first.
use eyn_os.Base.{
  ℕ, ◌+◌, ◌-◌, ◌*◌, ◌%◌, ◌^◌, Bool, not, ◌&&◌, ◌||◌, List, ◌∷◌, ltb, leb, ◌==◌, if◌then◌else◌,
  Option, none, some, min,
}
use eyn_os.KernelHeap.{
  Heap, header_size, count_error, offset_of, validate_block, heap_malloc, heap_free,
}
use eyn_os.KernelHeap.Setup.{Machine, Placed, ensure_memory_initialized}

-- What a call writes into blocks, or gives back to the slab allocator.
pub data Effect : Type 0 where
  copied : (to from n : ℕ) → Effect
  cleared : (at n : ℕ) → Effect
  slab_freed : (ptr : ℕ) → Effect

pub record Memory : Type 0 where
  pub placed : Placed
  pub effects : List Effect

-- The answers to one call: the check of the command, the block of the slab allocator (0 for NULL), and
-- whether the slab allocator knows the pointer that is freed.
pub record Answers : Type 0 where
  pub machine : Machine
  pub allowed : Bool
  pub slab_block : ℕ
  pub slab_knows : Bool

abbrev pub with_placed :
    Option Placed → Memory → (Memory → Option (ℕ × Memory)) → Option (ℕ × Memory)
with_placed none m next = none
with_placed (some p) m next = next (record m { placed = p })

abbrev pub ensure : ℕ → Answers → Memory → (Memory → Option (ℕ × Memory)) → Option (ℕ × Memory)
ensure f a m next = with_placed (ensure_memory_initialized f a.machine m.placed) m next

abbrev pub set_heap : Heap → Memory → Memory
set_heap h m = record m { placed = record m.placed { heap = h } }

abbrev pub from_heap : ℕ × Heap → Memory → Option (ℕ × Memory)
from_heap (ptr, h) m = some (ptr, set_heap h m)

-- The fall back to the heap, which tries its initialisation once more.
abbrev pub slab_or_heap : ℕ → Answers → (nbytes : ℕ) → Memory → Option (ℕ × Memory)
slab_or_heap f a nbytes m =
    if nbytes == 0
    then some (0, m)
    else if not (a.slab_block == 0)
    then some (a.slab_block, m)
    else ensure f a m (λ t. from_heap (heap_malloc nbytes t.placed.heap) t)

unfoldable pub malloc : ℕ → Answers → (nbytes : ℕ) → Memory → Option (ℕ × Memory)
malloc f a nbytes m =
    if not a.allowed
    then some (0, m)
    else if not m.placed.heap.is_initialized && (a.machine.boot_alloc_end == 0)
    then some (0, m)
    else ensure f a m (slab_or_heap f a nbytes)

abbrev pub freed_heap : Option Heap → Memory → Option Memory
freed_heap none m = none
freed_heap (some h) m = some (set_heap h m)

unfoldable pub free : ℕ → Answers → (ptr : ℕ) → Memory → Option Memory
free f a ptr m =
    if not a.allowed || (ptr == 0)
    then some m
    else if a.slab_knows
    then some (record m { effects = slab_freed ptr ∷ m.effects })
    else freed_heap (heap_free f ptr m.placed.heap) m

abbrev pub answering : ℕ → Option Memory → Option (ℕ × Memory)
answering ptr none = none
answering ptr (some m) = some (ptr, m)

-- The old bytes go to the new block, and the old block is freed.
abbrev pub moved : ℕ → Answers → (ptr n : ℕ) → Option (ℕ × Memory) → Option (ℕ × Memory)
moved f a ptr n none = none
moved f a ptr n (some (new_ptr, m)) =
    if new_ptr == 0
    then some (0, m)
    else answering new_ptr (free f a ptr (record m { effects = copied new_ptr ptr n ∷ m.effects }))

-- The block at `off` holds `ptr`: it is kept if it is large enough.
abbrev pub grow_block : ℕ → Answers → (ptr new_size off : ℕ) → Memory → Option (ℕ × Memory)
grow_block f a ptr new_size off m =
    let current_size = ((m.placed.heap.block off).size + 2 ^ 32 - header_size) % 2 ^ 32 in
    if not (ltb current_size new_size)
    then some (ptr, m)
    else moved f a ptr (min current_size new_size) (malloc f a new_size m)

-- What realloc does once the heap's initialisation was tried.
abbrev pub resize : ℕ → Answers → (ptr new_size : ℕ) → Memory → Option (ℕ × Memory)
resize f a ptr new_size m =
    let h = m.placed.heap in
    let off = offset_of ptr h in
    if leb h.heap_size off || not (validate_block h off)
    then some (0, set_heap (count_error h) m)
    else grow_block f a ptr new_size off m

unfoldable pub realloc : ℕ → Answers → (ptr new_size : ℕ) → Memory → Option (ℕ × Memory)
realloc f a ptr new_size m =
    if not a.allowed
    then some (0, m)
    else if ptr == 0
    then malloc f a new_size m
    else if new_size == 0
    then answering 0 (free f a ptr m)
    else ensure f a m (resize f a ptr new_size)

abbrev pub clear_block : (n : ℕ) → Option (ℕ × Memory) → Option (ℕ × Memory)
clear_block n none = none
clear_block n (some (ptr, m)) =
    if ptr == 0 then some (0, m) else some (ptr, record m { effects = cleared ptr n ∷ m.effects })

-- The product is taken in 32 bits.
unfoldable pub calloc : ℕ → Answers → (count size : ℕ) → Memory → Option (ℕ × Memory)
calloc f a count size m =
    if not a.allowed
    then some (0, m)
    else ensure f a m
        (λ t. clear_block (count * size % 2 ^ 32) (malloc f a (count * size % 2 ^ 32) t))
