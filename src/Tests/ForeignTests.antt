-- ===== src/Tests/ForeignTests.antt =====
-- The front of the kernel heap in src/utilities/util.c, with an object of the slab allocator of
-- src/mm/slab.c.
use eyn_os.Base.{◌≡◌, refl, true, some, [], ◌∷◌, inr, arith}
use eyn_os.KernelHeap.{count_error}
use eyn_os.KernelHeap.Front.{Memory, Answers, slab_freed, malloc, realloc, free, set_heap}
use eyn_os.KernelHeap.Foreign.{realloc-slab_alloc}
use eyn_os.Slab.{returned, init, slab_free, owns}
use eyn_os.Tests.KernelHeapTests.{machine, whole_heap, whole_heap-Tiles}
use eyn_os.Tests.SlabTests.{at_boot, at_boot-Reach, first, one_held, slab_alloc-first}

abbrev answers : Answers
answers = record {
  machine = machine;
  allowed = true;
  slab_block = first;
  slab_knows = owns one_held first;
}

abbrev running : Memory
running = record {
  placed = record { heap = whole_heap; heap_phys_start = 0x40_0000; reserved = [] };
  effects = [];
}

realloc-slab_alloc_example :
    (malloc 3 answers 1000 running ≡ some (first, running))
    × (free 3 answers first running ≡ some (record running { effects = slab_freed first ∷ [] }))
    × ((slab_free first one_held).0 ≡ returned 1)
    × (realloc 3 answers first 80 running ≡ some (0, set_heap (count_error whole_heap) running))
realloc-slab_alloc_example =
    realloc-slab_alloc 3 answers 1000 80 first running (init at_boot) one_held [] at_boot-Reach
      (omega arith) slab_alloc-first (λ e. omega (arith, e)) refl refl whole_heap-Tiles.heap
      (inr (omega arith)) refl refl (omega arith)
