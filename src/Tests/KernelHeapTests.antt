-- ===== src/Tests/KernelHeapTests.antt =====
-- Runs of the kernel heap of src/utilities/util.c.
use eyn_os.Base.{
  ℕ, ◌+◌, ◌-◌, ◌≤◌, ◌≡◌, ◌≢◌, ◌⊎◌, refl, true, false, List, [], ◌∷◌, some, ◌==◌, if◌then◌else◌,
  arith, ◌%◌, ◌*◌,
}
use eyn_os.KernelHeap.{
  Block, Heap, header_size, no_block, magic_number, total_size, heap_malloc, heap_free,
  find_free_block, find_loop, validate_block,
}
use eyn_os.KernelHeap.Tiles.{Seg, Tiles, seg_at}
use eyn_os.KernelHeap.Malloc.{Served, Refused, heap_malloc-Tiles}
use eyn_os.KernelHeap.Absorb.{coalesce}
use eyn_os.KernelHeap.Spread.{Spread, freed}
use eyn_os.KernelHeap.RoundTrip.{heap_free-heap_malloc}
use eyn_os.KernelHeap.Release.{Freed, heap_free_merges}
use eyn_os.KernelHeap.Setup.{
  Machine, Placed, laid_out, heap_phys_reserve_bytes, heap_size_max, clamp_heap_size,
  calculate_optimal_heap_size, init_memory_manager,
}
use eyn_os.KernelHeap.Sizes.{chosen_size, clamp_heap_size-bounds}
use eyn_os.KernelHeap.Start.{
  laid_out-Tiles, Ready, Unready, init_memory_manager-Ready, init_memory_manager-Unready,
}

abbrev blank : Heap
blank = record {
  heap_start = 0;
  heap_size = 0x10_0000;
  first_block = 0;
  is_initialized = false;
  memory_errors = 0;
  allocation_count = 0;
  free_count = 0;
  block = λ off. record { size = 0; used = false; next = 0; magic = 0 };
}

-- One free block of a megabyte.
abbrev pub whole_heap : Heap
whole_heap = laid_out 0xC040_0000 0x10_0000 blank

abbrev whole_list : List Seg
whole_list = record { size = 0x10_0000; used = false } ∷ []

pub whole_heap-Tiles : Tiles whole_heap whole_list
whole_heap-Tiles =
    laid_out-Tiles 0xC040_0000 0x10_0000 blank (omega arith) (omega arith) (omega arith)

heap_malloc_first : (heap_malloc 100 whole_heap).0 ≡ 0xC040_0010
unfolding heap_malloc find_free_block find_loop validate_block
heap_malloc_first = refl

heap_malloc-Tiles_example :
    Served whole_heap whole_list (total_size 100) (heap_malloc 100 whole_heap)
    ⊎ Refused whole_heap whole_list (total_size 100) (heap_malloc 100 whole_heap)
heap_malloc-Tiles_example =
    heap_malloc-Tiles whole_heap whole_list 100 whole_heap-Tiles refl (omega arith) (omega arith)

heap_free-heap_malloc_example :
    (heap_malloc 100 whole_heap ≡ (0, whole_heap))
    ⊎ Freed true
        (heap_free 3 (heap_malloc 100 whole_heap).0 (heap_malloc 100 whole_heap).1)
        whole_list
heap_free-heap_malloc_example =
    heap_free-heap_malloc 3 100 whole_heap whole_list whole_heap-Tiles (tt, tt) refl (omega arith)
      (omega arith) (omega arith)

-- A block in use between a free one and one in use.
abbrev blocks : ℕ → Block
blocks off =
    if off == 0
    then record { size = 64; used = false; next = 64; magic = magic_number }
    else if off == 64
    then record { size = 120; used = true; next = 184; magic = magic_number }
    else record { size = 0x10_0000 - 184; used = true; next = no_block; magic = magic_number }

abbrev three_heap : Heap
three_heap = record whole_heap { block = blocks }

abbrev three_list : List Seg
three_list =
    record { size = 64; used = false }
    ∷ record { size = 120; used = true }
    ∷ record { size = 0x10_0000 - 184; used = true }
    ∷ []

three_heap-Tiles : Tiles three_heap three_list
three_heap-Tiles = record {
  heap = record { start = omega arith; size = omega arith; fits = omega arith };
  first = refl;
  whole = refl;
  chain = (
    record { size = refl; used = refl; next = refl; room = omega arith },
    (
      record { size = refl; used = refl; next = refl; room = omega arith },
      (record { size = refl; used = refl; next = refl; room = omega arith }, tt),
    ),
  );
}

heap_free_merged :
    coalesce (freed 0 64 three_list)
    ≡ record { size = 184; used = false } ∷ record { size = 0x10_0000 - 184; used = true } ∷ []
heap_free_merged = refl

heap_free_merges_example :
    Freed true
      (heap_free 4 (0xC040_0000 + 64 + header_size) three_heap)
      (coalesce (freed 0 64 three_list))
    × Spread (coalesce (freed 0 64 three_list))
    × ((j : ℕ) (u : Seg)
        → 64 ≢ j
        → u.used ≡ true
        → seg_at 0 three_list j ≡ some u
        → seg_at 0 (coalesce (freed 0 64 three_list)) j ≡ some u)
heap_free_merges_example =
    heap_free_merges 4 64 three_heap three_list (record { size = 120; used = true })
      three_heap-Tiles refl refl refl (omega arith)

-- 32 MB of memory, of which 7000 frames are free.
abbrev pub machine : Machine
machine = record {
  boot_alloc_end = 0x40_0000;
  kernel_end = 0x20_0000;
  available_ram = 0x200_0000;
  free_frames = 7000;
}

abbrev unplaced : Placed
unplaced = record { heap = blank; heap_phys_start = 0; reserved = [] }

chosen_size-machine : chosen_size machine ≡ 0x40_0000
unfolding calculate_optimal_heap_size clamp_heap_size
chosen_size-machine = refl

init_memory_manager-Ready_example :
    Ready (chosen_size machine) (init_memory_manager 3 machine unplaced)
init_memory_manager-Ready_example =
    init_memory_manager-Ready 3 machine unplaced refl refl refl (omega arith) (omega arith)
      (rw chosen_size-machine (omega arith)) (omega arith)

clamp_heap_size-bounds_example :
    (clamp_heap_size 200 0x10_0000 ≤ heap_size_max)
    × (clamp_heap_size 200 0x10_0000 + heap_phys_reserve_bytes ≤ 200 * 4096)
    × (clamp_heap_size 200 0x10_0000 % 4096 ≡ 0)
clamp_heap_size-bounds_example =
    clamp_heap_size-bounds 200 0x10_0000 (omega arith) (omega arith) (omega arith)

-- The same memory with 150 free frames, 600 KB.
abbrev scarce : Machine
scarce = record {
  boot_alloc_end = 0x40_0000;
  kernel_end = 0x20_0000;
  available_ram = 0x200_0000;
  free_frames = 150;
}

chosen_size-scarce : chosen_size scarce ≡ 90112
unfolding calculate_optimal_heap_size clamp_heap_size
chosen_size-scarce = refl

init_memory_manager-Unready_example : Unready (init_memory_manager 3 scarce unplaced)
init_memory_manager-Unready_example =
    init_memory_manager-Unready 3 scarce unplaced refl (rw chosen_size-scarce (omega arith))
