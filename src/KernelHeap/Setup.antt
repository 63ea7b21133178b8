-- ===== src/KernelHeap/Setup.antt =====
-- How the kernel heap of src/utilities/util.c is placed and sized: `calculate_optimal_heap_size`,
-- `init_memory_manager` and `ensure_memory_initialized`.
-- What the VMM and the boot loader say is given: the end of the boot allocations, the end of the
-- kernel's image, the memory there is and the frames that are free. A memory that was set to 0 reads
-- as 0.
use eyn_os.Base.{
  ℕ, ◌+◌, ◌-◌, ◌*◌, ◌/◌, ◌%◌, ◌^◌, true, false, List, ◌∷◌, ltb, leb, ◌==◌, if◌then◌else◌, Option,
  some, none, update,
}
use eyn_os.UserAccess.{kernel_base}
use eyn_os.KernelHeap.{
  Block, Heap, heap_size_min, no_block, magic_number, add32, heap_malloc, heap_free,
}

abbrev pub heap_size_max : ℕ
heap_size_max = 0x100_0000

abbrev pub heap_phys_reserve_bytes : ℕ
heap_phys_reserve_bytes = 512 * 1024

abbrev page : ℕ
page = 4096

-- `align_up_u32`, for an alignment that is a power of two.
abbrev pub align_up_u32 : ℕ → ℕ → ℕ
align_up_u32 v align = if align == 0 then v else (v + align + 2 ^ 32 - 1) % 2 ^ 32 / align * align

-- What the kernel's other parts answer.
pub record Machine : Type 0 where
  pub boot_alloc_end : ℕ
  pub kernel_end : ℕ
  pub available_ram : ℕ
  pub free_frames : ℕ

-- The heap, where it lies in physical memory, and the ranges whose frames were reserved for it.
pub record Placed : Type 0 where
  pub heap : Heap
  pub heap_phys_start : ℕ
  pub reserved : List (ℕ × ℕ)

-- The size by the memory there is.
abbrev pub by_memory : ℕ → ℕ
by_memory ram =
    if leb ram (4 * 1024 * 1024)
    then 0x10_0000
    else if leb ram (16 * 1024 * 1024)
    then 0x20_0000
    else if leb ram (64 * 1024 * 1024)
    then 0x40_0000
    else if leb ram (256 * 1024 * 1024)
    then 0x80_0000
    else 0x200_0000

abbrev pub at_most : ℕ → ℕ → ℕ
at_most cap n = if ltb cap n then cap else n

-- No more than half or a quarter of the memory.
abbrev pub capped : (ram size : ℕ) → ℕ
capped ram size =
    if leb ram (8 * 1024 * 1024) then at_most (ram / 2) size else at_most (ram / 4) size

abbrev pub raised : ℕ → ℕ
raised size = if ltb size heap_size_min then heap_size_min else size

unfoldable pub calculate_optimal_heap_size : ℕ → ℕ
calculate_optimal_heap_size ram = raised (capped ram (by_memory ram))

-- The lower bound, which may be given up.
abbrev pub at_least_min : (free_bytes size : ℕ) → ℕ
at_least_min free_bytes size =
    if ltb size heap_size_min
    then (if ltb (heap_phys_reserve_bytes + heap_size_min) free_bytes then heap_size_min else size)
    else size

-- What the reserve leaves of the free bytes.
abbrev pub heap_cap : ℕ → ℕ
heap_cap free_bytes =
    if ltb heap_phys_reserve_bytes free_bytes then free_bytes - heap_phys_reserve_bytes else 0

abbrev pub fitted : (cap size : ℕ) → ℕ
fitted cap size = if leb page cap then at_most cap size else page

-- The size clamped by the frames that are free.
unfoldable pub clamp_heap_size : (free_frames size : ℕ) → ℕ
clamp_heap_size free_frames size =
    if free_frames == 0
    then size
    else let free_bytes = free_frames * page % 2 ^ 32 in
      at_least_min free_bytes
        (at_most heap_size_max (fitted (heap_cap free_bytes) size / page * page))

abbrev pub phys_start : Machine → ℕ → ℕ
phys_start m given =
    if given == 0
    then (if m.boot_alloc_end == 0
        then align_up_u32 (add32 m.kernel_end 0x1_0000) 0x1000
        else m.boot_alloc_end)
    else given

abbrev zeroed : ℕ → Block
zeroed off = record { size = 0; used = false; next = 0; magic = 0 }

-- The heap with its first block.
abbrev pub laid_out : (start size : ℕ) → Heap → Heap
laid_out start size h = record {
  heap_start = start;
  heap_size = size;
  first_block = 0;
  is_initialized = true;
  memory_errors = 0;
  allocation_count = 0;
  free_count = 0;
  block =
      update zeroed 0 (record { size = size; used = false; next = no_block; magic = magic_number });
}

-- The trial: an allocation, and its release.
abbrev pub trial : ℕ → ℕ × Heap → Option Heap
trial f (ptr, h) =
    if ptr == 0 then some (record h { is_initialized = false }) else heap_free f ptr h

abbrev pub with_heap : (phys : ℕ) → List (ℕ × ℕ) → Option Heap → Option Placed
with_heap phys reserved none = none
with_heap phys reserved (some h) =
    some (record { heap = h; heap_phys_start = phys; reserved = reserved })

unfoldable pub init_memory_manager : ℕ → Machine → Placed → Option Placed
init_memory_manager f m p =
    if p.heap.is_initialized
    then some p
    else let phys = phys_start m p.heap_phys_start in
      let start = if p.heap.heap_start == 0 then add32 kernel_base phys else p.heap.heap_start in
      let size = clamp_heap_size m.free_frames (calculate_optimal_heap_size m.available_ram) in
      if ltb phys 0x10_0000
      then some (record {
        heap = record p.heap { heap_start = start; heap_size = size };
        heap_phys_start = phys;
        reserved = p.reserved;
      })
      else with_heap phys ((phys, add32 phys size) ∷ p.reserved)
          (trial f (heap_malloc 16 (laid_out start size p.heap)))

unfoldable pub ensure_memory_initialized : ℕ → Machine → Placed → Option Placed
ensure_memory_initialized f m p =
    if p.heap.is_initialized
    then some p
    else if m.boot_alloc_end == 0
    then some p
    else init_memory_manager f m p
